-- ===== src/Go/Costs.antt =====
-- What a call may do to the world, at a cost that adds up over the parts of the call.
use microservices_platform.Prelude.{ℕ, ◌+◌, ◌≤◌, ◌≡◌, sym, subst, inl, inr, arith}
use microservices_platform.Errors.{Error}
use microservices_platform.Go.{Go, pure, attempt, rethrow, ◌>>=◌}
use microservices_platform.Go.Laws.{Outcome-cases, >>=-ok, >>=-err, >>=-panicked}

-- What a step of each cost may do.
pub record Tariff (W : Type 0) : Type 1 where
  pub Step : ℕ → W → W → Type 0
  pub stays : (w : W) → Step 0 w w
  pub follows : (j k : ℕ) (a b c : W) → Step j a b → Step k b c → Step (j + k) a c

module _ {W : Type 0} (t : Tariff W) where
  -- One world leads to another at no more than this cost.
  abbrev pub Leads : ℕ → W → W → Type 0
  Leads n w w' = (k : ℕ) × (k ≤ n) × t.Step k w w'

  -- The call costs no more than this, however it ends.
  pub record Costs {A : Type 0} (n : ℕ) (m : Go W A) : Type 0 where
    pub leads : (w : W) → Leads n w (m w).1

  pub Leads-follows : (j k : ℕ) (a b c : W) → Leads j a b → Leads k b c → Leads (j + k) a c
  Leads-follows j k a b c (x, low, p) (y, high, q) = (x + y, omega arith, t.follows x y a b c p q)

  pub Leads-more : (j k : ℕ) (a b : W) → Leads j a b → Leads (j + k) a b
  Leads-more j k a b (x, low, p) = (x, omega arith, p)

  pub Leads-further : (n : ℕ) (a b c : W) → Leads n a b → t.Step 0 b c → Leads n a c
  Leads-further n a b c (x, low, p) q = (x + 0, omega arith, t.follows x 0 a b c p q)

  pub Costs-le : {A : Type 0} (j k : ℕ) (m : Go W A) → j ≤ k → Costs j m → Costs k m
  Costs-le j k m h c = record { leads = λ w. let (x, low, p) = c.leads w in (x, omega arith, p) }

  pub Costs-pure : {A : Type 0} (a : A) → Costs 0 (pure {W = W} a)
  Costs-pure a = record { leads = λ w. (0, omega arith, t.stays w) }

  rethrow-world :
      {A : Type 0} (f : Error → Error) (m : Go W A) (w : W) → (rethrow f m w).1 ≡ (m w).1
  rethrow-world f m w = ground arith

  pub Costs-rethrow :
      {A : Type 0} (n : ℕ) (f : Error → Error) (m : Go W A) → Costs n m → Costs n (rethrow f m)
  Costs-rethrow n f m c = record {
    leads = λ w. subst (λ w'. Leads n w w') (sym (rethrow-world f m w)) (c.leads w);
  }

  attempt-world : {A : Type 0} (m : Go W A) (w : W) → (attempt m w).1 ≡ (m w).1
  attempt-world m w = ground arith

  pub Costs-attempt : {A : Type 0} (n : ℕ) (m : Go W A) → Costs n m → Costs n (attempt m)
  Costs-attempt n m c = record {
    leads = λ w. subst (λ w'. Leads n w w') (sym (attempt-world m w)) (c.leads w);
  }

  -- The costs of two calls in a row.
  pub Costs->>= :
      {A B : Type 0} (j k : ℕ) (m : Go W A) (f : A → Go W B)
      → Costs j m
      → ((a : A) → Costs k (f a))
      → Costs (j + k) (m >>= f)
  Costs->>= j k m f c d = record {
    leads = λ w. elim (Outcome-cases (m w).0) [
      | inl (a, e) ↦
          rw (>>=-ok m f w e)
            (Leads-follows j k w (m w).1 (f a (m w).1).1 (c.leads w) ((d a).leads (m w).1))
      | inr (inl (x, e)) ↦ rw (>>=-err m f w e) (Leads-more j k w (m w).1 (c.leads w))
      | inr (inr (x, e)) ↦ rw (>>=-panicked m f w e) (Leads-more j k w (m w).1 (c.leads w))
    ];
  }
