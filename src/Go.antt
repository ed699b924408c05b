-- ===== src/Go.antt =====
-- A Go call: it may change the world, and it returns a value, returns an error, or panics.
pub mod Laws
pub mod Costs
use microservices_platform.Prelude.{String, Bool, true, false}
use microservices_platform.Errors.{Error}

-- The pair `(value, error)` of a function that returns one of the two.
pub data Result (A : Type 0) : Type 0 where
  value : A → Result A
  failure : Error → Result A

pub data Outcome (A : Type 0) : Type 0 where
  ok : A → Outcome A
  err : Error → Outcome A
  panicked : String → Outcome A

-- `W` is the world that the program runs in.
abbrev pub Go : Type 0 → Type 0 → Type 0
Go W A = W → Outcome A × W

module _ {W A : Type 0} where
  abbrev pub pure : A → Go W A
  pure a w = (ok a, w)

  abbrev pub throw : Error → Go W A
  throw e w = (err e, w)

  abbrev pub panic : String → Go W A
  panic message w = (panicked message, w)

  -- A call that returns no error.
  abbrev pub run : (W → A × W) → Go W A
  run f w = let (a, w') = f w in (ok a, w')

  abbrev pub lift : Result A → Go W A
  lift (value a) w = (ok a, w)
  lift (failure e) w = (err e, w)

  -- The caller holds the returned pair and looks at it; a panic goes on.
  abbrev pub attempt : Go W A → Go W (Result A)
  attempt m w =
      let (r, w') = m w in
      elim r [
        | ok a ↦ (ok (value a), w')
        | err e ↦ (ok (failure e), w')
        | panicked message ↦ (panicked message, w')
      ]

  -- `if err != nil { return ..., f(err) }`
  abbrev pub rethrow : (Error → Error) → Go W A → Go W A
  rethrow f m w =
      let (r, w') = m w in
      elim r [
        | ok a ↦ (ok a, w')
        | err e ↦ (err (f e), w')
        | panicked message ↦ (panicked message, w')
      ]

module _ {W : Type 0} where
  -- A call that returns nothing.
  abbrev pub effect : (W → W) → Go W (Unit {0})
  effect f w = (ok tt, f w)

  abbrev pub fail_if : Bool → Error → Go W (Unit {0})
  fail_if true e w = (err e, w)
  fail_if false e w = (ok tt, w)

infixl 5 ◌>>=◌ ◌>>◌
abbrev pub ◌>>=◌ : {W A B : Type 0} → Go W A → (A → Go W B) → Go W B
◌>>=◌ m f w =
    let (r, w') = m w in
    elim r [ ok a ↦ f a w' | err e ↦ (err e, w') | panicked message ↦ (panicked message, w') ]

abbrev pub ◌>>◌ : {W B : Type 0} → Go W (Unit {0}) → Go W B → Go W B
m >> k = m >>= λ _. k
