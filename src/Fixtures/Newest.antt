-- ===== src/Fixtures/Newest.antt =====
-- Rows in the order of a query: the newest first.
use microservices_platform.Prelude.{
  ◌≤◌, leb, Bool-cases, inl, inr, List, [], ◌∷◌, All, All-map, if◌then◌else◌, arith,
}
use mathlib.Core.List.{Perm}
use mathlib.Core.List.Perm
use microservices_platform.Uuid.{Time}
use microservices_platform.Repository.{OrderRow}
use microservices_platform.Repository.Listing.{IsNewestFirst}

abbrev place : OrderRow → List OrderRow → List OrderRow
place r [] = r ∷ []
place r (x ∷ xs) =
    let rest = place r xs in if leb x.created_at r.created_at then r ∷ x ∷ xs else x ∷ rest

abbrev pub newest_first : List OrderRow → List OrderRow
newest_first [] = []
newest_first (r ∷ rs) = place r (newest_first rs)

place-Perm : (r : OrderRow) (xs : List OrderRow) → Perm (place r xs) (r ∷ xs)
place-Perm r [] = Perm.refl (r ∷ [])
place-Perm r (x ∷ xs) = elim (Bool-cases (leb x.created_at r.created_at)) [
  | inl older ↦ rw older (Perm.refl (r ∷ x ∷ xs))
  | inr newer ↦ rw newer (Perm.trans (Perm.cons x (place-Perm r xs)) (Perm.swap r x xs))
]

pub newest_first-Perm : (xs : List OrderRow) → Perm (newest_first xs) xs
newest_first-Perm [] = Perm.nil
newest_first-Perm (r ∷ rs) =
    Perm.trans (place-Perm r (newest_first rs)) (Perm.cons r (newest_first-Perm rs))

All-place :
    (t : Time) (r : OrderRow) (xs : List OrderRow)
    → r.created_at ≤ t
    → All (λ b. b.created_at ≤ t) xs
    → All (λ b. b.created_at ≤ t) (place r xs)
All-place t r [] h all = (h, tt)
All-place t r (x ∷ xs) h all = elim (Bool-cases (leb x.created_at r.created_at)) [
  | inl older ↦ rw older (h, all)
  | inr newer ↦ rw newer (all.0, All-place t r xs h all.1)
]

place-IsNewestFirst :
    (r : OrderRow) (xs : List OrderRow)
    → IsNewestFirst (λ b. b.created_at) xs
    → IsNewestFirst (λ b. b.created_at) (place r xs)
place-IsNewestFirst r [] h = (tt, tt)
place-IsNewestFirst r (x ∷ xs) h = elim (Bool-cases (leb x.created_at r.created_at)) [
  | inl older ↦
      let before : x.created_at ≤ r.created_at = ground arith in
      rw older ((before, All-map (λ b le. omega arith) xs h.0), h)
  | inr newer ↦
      let after : r.created_at ≤ x.created_at = ground arith in
      rw newer (All-place x.created_at r xs after h.0, place-IsNewestFirst r xs h.1)
]

pub newest_first-IsNewestFirst :
    (xs : List OrderRow) → IsNewestFirst (λ b. b.created_at) (newest_first xs)
newest_first-IsNewestFirst [] = tt
newest_first-IsNewestFirst (r ∷ rs) =
    place-IsNewestFirst r (newest_first rs) (newest_first-IsNewestFirst rs)
