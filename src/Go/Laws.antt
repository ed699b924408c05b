-- ===== src/Go/Laws.antt =====
-- Inversion of calls that are put together.
use microservices_platform.Prelude.{◌≡◌, ◌≢◌, ◌⊎◌, inl, inr, refl, String, arith}
use microservices_platform.Errors.{Error}
use microservices_platform.Go.{Outcome, ok, err, panicked, Go, ◌>>=◌, Result, value, failure}

-- To split on the outcome of a call and keep the equation.
pub Outcome-cases :
    {A : Type 0} (r : Outcome A)
    → ((a : A) × (r ≡ ok a)) ⊎ (((e : Error) × (r ≡ err e)) ⊎ ((m : String) × (r ≡ panicked m)))
Outcome-cases (ok a) = inl (a, refl)
Outcome-cases (err e) = inr (inl (e, refl))
Outcome-cases (panicked m) = inr (inr (m, refl))

-- The call came back, with a value or an error.
abbrev pub Returns : {A : Type 0} → Outcome A → Type 0
Returns (ok a) = Unit
Returns (err e) = Unit
Returns (panicked m) = ⊥

-- A value that is returned settles how the call ended.
pub Outcome-value :
    {A : Type 0} (r : Outcome A)
    → ((e : Error) → r ≢ err e)
    → ((m : String) → r ≢ panicked m)
    → (a : A) × (r ≡ ok a)
Outcome-value (ok a) f g = (a, refl)
Outcome-value (err e) f g = absurd (f e refl)
Outcome-value (panicked m) f g = absurd (g m refl)

module _ {W A B : Type 0} where
  -- What follows the outcome of the first half of a sequence.
  abbrev pub continue : (A → Go W B) → Outcome A × W → Outcome B × W
  continue f (ok a, w) = f a w
  continue f (err e, w) = (err e, w)
  continue f (panicked message, w) = (panicked message, w)

  continue-eq-ok :
      (r : Outcome A × W) (f : A → Go W B) {b : B} {w' : W}
      → continue f r ≡ (ok b, w')
      → (a : A) × (w₁ : W) × (r ≡ (ok a, w₁)) × (f a w₁ ≡ (ok b, w'))
  continue-eq-ok (ok a, w) f h = (a, w, refl, h)
  continue-eq-ok (err e, w) f h = cc
  continue-eq-ok (panicked message, w) f h = cc

  -- A sequence that succeeds has run both of its halves.
  pub >>=-eq-ok :
      (m : Go W A) (f : A → Go W B) (w : W) {b : B} {w' : W}
      → (m >>= f) w ≡ (ok b, w')
      → (a : A) × (w₁ : W) × (m w ≡ (ok a, w₁)) × (f a w₁ ≡ (ok b, w'))
  >>=-eq-ok m f w h = continue-eq-ok (m w) f (ground arith)

pub Result-value :
    {A : Type 0} (r : Result A) → ((e : Error) → r ≢ failure e) → (a : A) × (r ≡ value a)
Result-value (value a) f = (a, refl)
Result-value (failure e) f = absurd (f e refl)

module _ {W A B : Type 0} (m : Go W A) (f : A → Go W B) (w : W) where
  pub >>=-ok : {a : A} → (m w).0 ≡ ok a → (m >>= f) w ≡ f a (m w).1
  >>=-ok h = ground arith

  pub >>=-err : {e : Error} → (m w).0 ≡ err e → (m >>= f) w ≡ (err e, (m w).1)
  >>=-err h = ground arith

  pub >>=-panicked :
      {message : String} → (m w).0 ≡ panicked message → (m >>= f) w ≡ (panicked message, (m w).1)
  >>=-panicked h = ground arith

pub Result-cases :
    {A : Type 0} (r : Result A) → ((a : A) × (r ≡ value a)) ⊎ ((e : Error) × (r ≡ failure e))
Result-cases (value a) = inl (a, refl)
Result-cases (failure e) = inr (e, refl)
