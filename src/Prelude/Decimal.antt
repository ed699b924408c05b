-- ===== src/Prelude/Decimal.antt =====
-- A number in decimal, as the verb `%d` prints it.
use Prim.Native.Nat.{ℕ, zero, suc, ◌/◌, ◌%◌}
use Prim.Native.String.{String, ◌++◌ as ◌<>◌}
use microservices_platform.Prelude.Tests.{ltb, ◌==◌, if◌then◌else◌}

digit : ℕ → String
digit d =
    if d == 0
    then "0"
    else if d == 1
    then "1"
    else if d == 2
    then "2"
    else if d == 3
    then "3"
    else if d == 4
    then "4"
    else if d == 5
    then "5"
    else if d == 6
    then "6"
    else if d == 7
    then "7"
    else if d == 8
    then "8"
    else "9"

-- A number has at most as many digits as its value, and one more for zero.
decimal_within : ℕ → ℕ → String
decimal_within zero n = ""
decimal_within (suc fuel) n =
    let more = decimal_within fuel (n / 10) in if ltb n 10 then digit n else more <> digit (n % 10)

unfoldable pub decimal : ℕ → String
unfolding digit decimal_within
decimal n = decimal_within (suc n) n
