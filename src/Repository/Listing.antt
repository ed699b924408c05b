-- ===== src/Repository/Listing.antt =====
-- `ListByUser`: the orders of a user as they are listed.
use microservices_platform.Prelude.{
  ◌≤◌, ◌≡◌, refl, subst, ◌==◌, ==_iff, Bool-cases, inl, inr, List, [], ◌∷◌, map, none, some,
  Option-cases, All, if◌then◌else◌, arith,
}
use mathlib.Core.List.{Perm, Mem, mem-cons_self, mem-cons_of_mem}
use microservices_platform.Go.{ok, value}
use microservices_platform.Go.Laws.{Result-cases, Outcome-cases}
use microservices_platform.Uuid.{Uuid, Uuids, Time}
use microservices_platform.Models.{Order}
use microservices_platform.Repository.{
  OrderRow, Pool, Rows, order_of, collect, read_rows, list_by_user,
}
use microservices_platform.Repository.Tables.{Transactional}
use microservices_platform.Repository.Finding.{find_row}

-- `WHERE user_id = $1`
abbrev pub orders_of : Uuid → List OrderRow → List OrderRow
orders_of user_id [] = []
orders_of user_id (r ∷ rs) =
    let rest = orders_of user_id rs in if r.user_id == user_id then r ∷ rest else rest

-- `ORDER BY created_at DESC`
abbrev pub IsNewestFirst : {A : Type 0} → (A → Time) → List A → Type 0
IsNewestFirst created [] = Unit
IsNewestFirst created (a ∷ rest) =
    All (λ b. created b ≤ created a) rest × IsNewestFirst created rest

-- The row of an identifier is among those of its user.
pub orders_of-find_row :
    (id : Uuid) (rs : List OrderRow) {row : OrderRow}
    → find_row id rs ≡ some row
    → Mem row (orders_of row.user_id rs)
orders_of-find_row id [] h = absurd (cc)
orders_of-find_row id (r ∷ rs) {row} h = elim (Bool-cases (r.id == id)) [
  | inl same ↦
      let found : r ≡ row = ground arith in
      subst (λ (x : OrderRow). Mem x (orders_of x.user_id (r ∷ rs))) found
        (rw ((==_iff r.user_id r.user_id).1 refl) mem-cons_self)
  | inr other ↦
      let later = orders_of-find_row id rs (ground arith) in
      elim (Bool-cases (r.user_id == row.user_id)) [
        | inl mine ↦ rw mine (mem-cons_of_mem r later)
        | inr theirs ↦ rw theirs later
      ]
]

-- Listed orders have no items, and are as new as their rows.
All-order_of :
    (r : OrderRow) (rs : List OrderRow)
    → All (λ b. b.created_at ≤ r.created_at) rs
    → All (λ (o : Order). o.created_at ≤ r.created_at) (map order_of rs)
All-order_of r [] h = tt
All-order_of r (x ∷ xs) h = (h.0, All-order_of r xs h.1)

pub IsNewestFirst-order_of :
    (rs : List OrderRow)
    → IsNewestFirst (λ r. r.created_at) rs
    → IsNewestFirst (λ (o : Order). o.created_at) (map order_of rs)
IsNewestFirst-order_of [] h = tt
IsNewestFirst-order_of (r ∷ rs) h = (All-order_of r rs h.0, IsNewestFirst-order_of rs h.1)

module _ {W Tx : Type 0} (p : Pool W Tx) (uuids : Uuids W) (d : Transactional p uuids) where
  -- What the query of `ListByUser` finds, if `rows.Err()` is nil at the end.
  pub record Listing : Type 0 where
    pub found_orders :
        (user_id : Uuid) (w : W) {rows : Rows OrderRow} {found : List OrderRow}
        → (p.query_orders user_id w).0 ≡ value rows
        → rows.failed_with ≡ none
        → collect rows.scanned [] ≡ value found
        → Perm found (orders_of user_id (d.tables w).orders)
          × IsNewestFirst (λ r. r.created_at) found

  pub list_by_user_lem :
      (l : Listing) (user_id : Uuid) (w : W) {found : List Order}
      → (list_by_user p uuids user_id w).0 ≡ ok found
      → (rows : List OrderRow) × (found ≡ map order_of rows)
        × Perm rows (orders_of user_id (d.tables w).orders)
        × IsNewestFirst (λ r. r.created_at) rows
  unfolding list_by_user
  list_by_user_lem l user_id w {found} h = elim (Result-cases (p.query_orders user_id w).0) [
    | inl (rows, queried) ↦ elim (Option-cases rows.failed_with) [
      | inl fine ↦ elim (Result-cases (collect rows.scanned [])) [
        | inl (all, read) ↦
            let (perm, newest) = l.found_orders user_id w queried fine read in
            (all, ground arith, perm, newest)
        | inr (e, bad) ↦ absurd (ground arith)
      ]
      | inr (e, bad) ↦ elim (Result-cases (collect rows.scanned [])) [
        | inl (all, read) ↦ absurd (ground arith)
        | inr (e', worse) ↦ absurd (ground arith)
      ]
    ]
    | inr (e, bad) ↦ absurd (ground arith)
  ]

-- An order as it is listed has no items.
map-order_of : (rs : List OrderRow) → All (λ o. o.items ≡ []) (map order_of rs)
map-order_of [] = tt
map-order_of (r ∷ rs) = (refl, map-order_of rs)

-- Every order that ListByUser returns has no items, whatever is stored.
pub list_by_user-bare :
    {W Tx : Type 0} (p : Pool W Tx) (uuids : Uuids W) (user_id : Uuid) (w : W) {found : List Order}
    → (list_by_user p uuids user_id w).0 ≡ ok found
    → All (λ o. o.items ≡ []) found
unfolding list_by_user
list_by_user-bare p uuids user_id w {found} h =
    elim (Outcome-cases (read_rows p.close_rows (p.query_orders user_id) w).0) [
      | inl (rows, got) ↦
          let same : found ≡ map order_of rows = ground arith in rw same (map-order_of rows)
      | inr (inl (e, bad)) ↦ absurd (ground arith)
      | inr (inr (m, bad)) ↦ absurd (ground arith)
    ]
