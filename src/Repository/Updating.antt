-- ===== src/Repository/Updating.antt =====
-- `UpdateStatus`, and what `GetByID` then shows.
use microservices_platform.Prelude.{
  ℕ, suc, ◌≡◌, refl, ◌∙◌, ap, sym, ◌==◌, Bool-cases, inl, inr, List, [], ◌∷◌, map, none, some,
  if◌then◌else◌, arith,
}
use microservices_platform.Errors.{sentinel, stored_order_not_found}
use microservices_platform.Go.{ok, err, value}
use microservices_platform.Go.Laws.{Result-cases}
use microservices_platform.Uuid.{Uuid, Uuids, Time}
use microservices_platform.Models.{Order, OrderStatus}
use microservices_platform.Repository.{
  OrderRow, Pool, set_status, order_of, get_by_id, update_status,
}
use microservices_platform.Repository.Tables.{Transactional, apply, restatus, micros}
use microservices_platform.Repository.Finding.{find_row, Selecting, get_by_id_lem}

-- How many rows have the identifier.
abbrev pub count_rows : Uuid → List OrderRow → ℕ
count_rows id [] = 0
count_rows id (r ∷ rs) = let rest = count_rows id rs in if r.id == id then suc rest else rest

count_rows-none : (id : Uuid) (rs : List OrderRow) → find_row id rs ≡ none → count_rows id rs ≡ 0
count_rows-none id [] h = refl
count_rows-none id (r ∷ rs) h = elim (Bool-cases (r.id == id)) [
  | inl same ↦ absurd (ground arith)
  | inr other ↦ rw other (count_rows-none id rs (ground arith))
]

-- The first row that has the identifier, after its status was set.
find_row-restatus :
    (status : OrderStatus) (time : Time) (id : Uuid) (rs : List OrderRow) {r' : OrderRow}
    → find_row id (map (restatus (set_status status time id)) rs) ≡ some r'
    → (r : OrderRow) × (find_row id rs ≡ some r)
      × (r' ≡ record r { status = status; updated_at = micros time })
find_row-restatus status time id [] h = absurd (cc)
find_row-restatus status time id (r ∷ rs) h = elim (Bool-cases (r.id == id)) [
  | inl same ↦ (r, rw same refl, ground arith)
  | inr other ↦
      let (found, at, e) = find_row-restatus status time id rs (ground arith) in
      (found, rw other at, e)
]

module _ {W Tx : Type 0} (p : Pool W Tx) (uuids : Uuids W) (d : Transactional p uuids) where
  -- What `UPDATE` does, and how many rows it reports.
  pub record Updating : Type 0 where
    pub applied :
        (status : OrderStatus) (time : Time) (id : Uuid) (w : W) {n : ℕ}
        → (p.exec (set_status status time id) w).0 ≡ value n
        → d.tables (p.exec (set_status status time id) w).1
          ≡ apply (set_status status time id) (d.tables w)
    pub counted :
        (status : OrderStatus) (time : Time) (id : Uuid) (w : W) {n : ℕ}
        → (p.exec (set_status status time id) w).0 ≡ value n
        → n ≡ count_rows id (d.tables w).orders

  module _ (u : Updating) where
    -- UpdateStatus of an identifier that no order has, whose statement did not fail, returns
    -- ErrOrderNotFound. Assumes that UPDATE reports the number of matching rows (Updating).
    pub update_status-unknown :
        (id : Uuid) (status : OrderStatus) (w : W) {n : ℕ}
        → find_row id (d.tables w).orders ≡ none
        → (p.exec (set_status status (p.now w).0 id) (p.now w).1).0 ≡ value n
        → (update_status p uuids id status w).0 ≡ err (sentinel stored_order_not_found)
    unfolding update_status
    update_status-unknown id status w {n} h e =
        let none_left : n ≡ 0 =
          u.counted status (p.now w).0 id (p.now w).1 e
          ∙ ap (λ t. count_rows id t.orders) (d.tables-now w)
          ∙ count_rows-none id (d.tables w).orders h in
        ground arith

    pub update_status-eq-ok :
        (id : Uuid) (status : OrderStatus) (w : W)
        → (update_status p uuids id status w).0 ≡ ok tt
        → d.tables (update_status p uuids id status w).1
          ≡ apply (set_status status (p.now w).0 id) (d.tables w)
    unfolding update_status
    update_status-eq-ok id status w h =
        elim (Result-cases (p.exec (set_status status (p.now w).0 id) (p.now w).1).0) [
          | inl (n, e) ↦
              let done = u.applied status (p.now w).0 id (p.now w).1 e in
              ground (arith, done, d.tables-now w)
          | inr (e, bad) ↦ absurd (ground arith)
        ]

    -- When UpdateStatus has returned and GetByID then returns an order for the same identifier,
    -- the order was there before, and of its columns only the status and updated_at have changed,
    -- to the new status and to the time of the update in microseconds. Assumes the documented
    -- effects of SELECT and UPDATE (Selecting, Updating) and that nobody else writes.
    pub get_by_id-update_status :
        (q : Selecting p uuids d) (id : Uuid) (status : OrderStatus) (w : W) {found : Order}
        → (update_status p uuids id status w).0 ≡ ok tt
        → (get_by_id p uuids id (update_status p uuids id status w).1).0 ≡ ok found
        → (row : OrderRow) × (find_row id (d.tables w).orders ≡ some row)
          × (found ≡ record (order_of row) {
            status = status;
            updated_at = micros (p.now w).0;
            items = found.items;
          })
    get_by_id-update_status q id status w {found} h g =
        let (r', at, whole, items) = get_by_id_lem p uuids d q id _ g in
        let (r, before, e) =
          find_row-restatus status (p.now w).0 id (d.tables w).orders
            (sym (ap (λ t. find_row id t.orders) (update_status-eq-ok id status w h)) ∙ at) in
        (r, before, whole ∙ ap (λ (x : OrderRow). record (order_of x) { items = found.items }) e)
