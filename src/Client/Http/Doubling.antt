-- ===== src/Client/Http/Doubling.antt =====
-- The waits between the attempts of a call, as long as none overflows.
use microservices_platform.Prelude.{
  ℕ, zero, suc, ◌+◌, ◌-◌, ◌*◌, ◌^◌, ◌≤◌, ◌<◌, ◌≡◌, refl, ap, subst, ◌∙◌, ℤ, pos, List, [], ◌∷◌,
  ◌++◌, map, arith,
}
use native.Mathlib.Nat.{pow-suc}
use microservices_platform.Client.Http.{backoff}
use microservices_platform.Client.Http.Errors.{backoff-exact, half_fits}

-- So many waits, from this attempt on, the last one first.
abbrev pub waits_from : ℤ → ℕ → ℕ → List ℤ
waits_from base n zero = []
waits_from base n (suc j) = waits_from base (suc n) j ++ (backoff base n ∷ [])

waits_from-last :
    (base : ℤ) (n j : ℕ) → waits_from base n (suc j) ≡ backoff base (n + j) ∷ waits_from base n j
waits_from-last base n zero =
    let same : n ≡ n + 0 = omega arith in ap (λ (m : ℕ). backoff base m ∷ []) same
waits_from-last base n (suc j) =
    let same : suc n + j ≡ n + suc j = omega arith in
    ap (λ (l : List ℤ). l ++ (backoff base n ∷ [])) (waits_from-last base (suc n) j)
    ∙ ap (λ (m : ℕ). backoff base m ∷ waits_from base n (suc j)) same

-- The waits of the first retries, each twice as long as the one before it.
abbrev pub doubling : ℕ → ℕ → List ℕ
doubling base zero = []
doubling base (suc k) = base * 2 ^ k ∷ doubling base k

abbrev pub sum : List ℕ → ℕ
sum [] = 0
sum (x ∷ xs) = x + sum xs

pub sum-doubling : (base k : ℕ) → sum (doubling base k) + base ≡ base * 2 ^ k
sum-doubling base zero = omega arith
sum-doubling base (suc k) = let ih = sum-doubling base k in rw pow-suc (grind arith)

-- As long as no wait overflows, those of the first retries double.
pub waits_from-doubling :
    (base k : ℕ)
    → 1 ≤ base
    → base * 2 ^ k < 2 ^ 63
    → waits_from (pos base) 1 k ≡ map pos (doubling base k)
waits_from-doubling base zero one fits = refl
waits_from-doubling base (suc k) one fits =
    let less = half_fits base k fits in
    let same : 1 + k ≡ suc k = omega arith in
    waits_from-last (pos base) 1 k
    ∙ ap (λ (m : ℕ). backoff (pos base) m ∷ waits_from (pos base) 1 k) same
    ∙ ap (λ (d : ℤ). d ∷ waits_from (pos base) 1 k) (backoff-exact base k one less)
    ∙ ap (λ (l : List ℤ). pos (base * 2 ^ k) ∷ l) (waits_from-doubling base k one less)

doubled-le : (base k d : ℕ) → base * 2 ^ k ≤ base * 2 ^ (k + d)
doubled-le base k zero =
    let same : k ≡ k + 0 = omega arith in
    subst (λ m. base * 2 ^ k ≤ base * 2 ^ m) same (omega arith)
doubled-le base k (suc d) =
    let same : suc (k + d) ≡ k + suc d = omega arith in
    subst (λ m. base * 2 ^ k ≤ base * 2 ^ m) same (rw pow-suc (grind (arith, doubled-le base k d)))

pub doubled_mono : (base k n : ℕ) → k ≤ n → base * 2 ^ k ≤ base * 2 ^ n
doubled_mono base k n h =
    let same : k + (n - k) ≡ n = omega arith in
    subst (λ m. base * 2 ^ k ≤ base * 2 ^ m) same (doubled-le base k (n - k))
