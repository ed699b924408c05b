-- ===== src/Int64/Laws.antt =====
-- Wrapped arithmetic agrees with the integers up to a multiple of 2 ^ 64.
use microservices_platform.Prelude.{◌≡◌, arith, ap, ◌∙◌, int_laws, ℤ, ◌+ℤ◌}
use microservices_platform.Int64.{wrap64, IsInt64}

pub wrap64-IsInt64 : (a : ℤ) → IsInt64 (wrap64 a)
unfolding wrap64
wrap64-IsInt64 a = ground arith

pub wrap64_of_IsInt64 : (a : ℤ) → IsInt64 a → wrap64 a ≡ a
unfolding wrap64
wrap64_of_IsInt64 a h = ground arith

pub wrap64-add_left : (a b : ℤ) → wrap64 (wrap64 a +ℤ b) ≡ wrap64 (a +ℤ b)
unfolding wrap64 ◌+ℤ◌
wrap64-add_left a b = ground arith

pub wrap64-add_right : (a b : ℤ) → wrap64 (a +ℤ wrap64 b) ≡ wrap64 (a +ℤ b)
unfolding wrap64 ◌+ℤ◌
wrap64-add_right a b = ground arith

pub wrap64-add_middle : (a b c : ℤ) → wrap64 (wrap64 (a +ℤ wrap64 b) +ℤ c) ≡ wrap64 (a +ℤ (b +ℤ c))
wrap64-add_middle a b c =
    wrap64-add_left (a +ℤ wrap64 b) c
    ∙ ap wrap64 (omega int_laws)
    ∙ wrap64-add_right (a +ℤ c) b
    ∙ ap wrap64 (omega int_laws)
