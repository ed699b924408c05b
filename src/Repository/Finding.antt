-- ===== src/Repository/Finding.antt =====
-- Reading orders back, and changing their status.
use microservices_platform.Prelude.{
  ◌≡◌, refl, sym, ◌∙◌, ap, subst, List, [], ◌∷◌, ◌++◌, Option, none, some, inl, inr, if◌then◌else◌,
  ◌==◌, ==_iff, Option-cases, arith, append_assoc, append-nil,
}
use mathlib.Core.List.{Perm}
use microservices_platform.Go.{ok, value}
use microservices_platform.Go.Laws.{Result-cases, Outcome-cases}
use microservices_platform.Uuid.{Uuid, Uuids}
use microservices_platform.Models.{Order, OrderItem}
use microservices_platform.Repository.{
  OrderRow, Pool, Rows, insert_order, insert_item, row_of, order_of, collect, get_items, create,
  get_by_id,
}
use microservices_platform.Repository.Tables.{
  Tables, Transactional, kept, apply, insert_all, saved, micros,
}
use microservices_platform.Repository.Creating.{create-Stamped}

abbrev pub find_row : Uuid → List OrderRow → Option OrderRow
find_row id [] = none
find_row id (r ∷ rs) = if r.id == id then some r else find_row id rs

abbrev pub items_of : Uuid → List (Uuid × OrderItem) → List OrderItem
items_of id [] = []
items_of id ((order_id, item) ∷ rows) =
    let rest = items_of id rows in if order_id == id then item ∷ rest else rest

module _ {W Tx : Type 0} (p : Pool W Tx) (uuids : Uuids W) (d : Transactional p uuids) where
  -- The items that were read.
  get_items-eq-ok :
      (id : Uuid) (w : W) {items : List OrderItem}
      → (get_items p uuids id w).0 ≡ ok items
      → (rows : Rows OrderItem) × ((p.query_items id w).0 ≡ value rows)
        × (rows.failed_with ≡ none)
        × (collect rows.scanned [] ≡ value items)
  unfolding get_items
  get_items-eq-ok id w h = elim (Result-cases (p.query_items id w).0) [
    | inl (rows, queried) ↦ elim (Option-cases rows.failed_with) [
      | inl fine ↦ elim (Result-cases (collect rows.scanned [])) [
        | inl (found, all) ↦ (rows, queried, fine, all ∙ ground arith)
        | inr (e, bad) ↦ absurd (ground arith)
      ]
      | inr (e, bad) ↦ elim (Result-cases (collect rows.scanned [])) [
        | inl (found, all) ↦ absurd (ground arith)
        | inr (e', worse) ↦ absurd (ground arith)
      ]
    ]
    | inr (e, bad) ↦ absurd (ground arith)
  ]

  -- What the queries find, if `rows.Err()` is nil at the end: a read that broke off may lack rows.
  -- The rows of a query without ORDER BY come in any order.
  pub record Selecting : Type 0 where
    pub tables-query_order : (id : Uuid) (w : W) → d.tables (p.query_order id w).1 ≡ d.tables w
    pub found_order :
        (id : Uuid) (w : W) {r : OrderRow}
        → (p.query_order id w).0 ≡ value r
        → find_row id (d.tables w).orders ≡ some r
    pub found_items :
        (id : Uuid) (w : W) {rows : Rows OrderItem} {items : List OrderItem}
        → (p.query_items id w).0 ≡ value rows
        → rows.failed_with ≡ none
        → collect rows.scanned [] ≡ value items
        → Perm items (items_of id (d.tables w).items)

  module _ (q : Selecting) where
    -- What is found is the row of that identifier, with its items in some order.
    pub get_by_id_lem :
        (id : Uuid) (w : W) {found : Order}
        → (get_by_id p uuids id w).0 ≡ ok found
        → (row : OrderRow) × (find_row id (d.tables w).orders ≡ some row)
          × (found ≡ record (order_of row) { items = found.items })
          × Perm found.items (items_of id (d.tables w).items)
    unfolding get_by_id
    get_by_id_lem id w {found} h = elim (Result-cases (p.query_order id w).0) [
      | inl (row, selected) ↦
          let w₁ = (p.query_order id w).1 in
          elim (Outcome-cases (get_items p uuids id w₁).0) [
            | inl (items, got) ↦
                let (rows, queried, whole, read) = get_items-eq-ok id w₁ got in
                let same : found ≡ record (order_of row) { items = items } = ground arith in
                rw same (
                  row,
                  q.found_order id w selected,
                  refl,
                  subst (λ ts. Perm items (items_of id ts.items)) (q.tables-query_order id w)
                      (q.found_items id w₁ queried whole read),
                )
            | inr (inl (e, bad)) ↦ absurd (ground arith)
            | inr (inr (m, bad)) ↦ absurd (ground arith)
          ]
      | inr (e, bad) ↦ absurd (ground arith)
    ]

pub orders-insert_all :
    (id : Uuid) (items : List OrderItem) (t : Tables) → (insert_all id items t).orders ≡ t.orders
orders-insert_all id [] t = refl
orders-insert_all id (i ∷ is) t = orders-insert_all id is (apply (insert_item id i) t)

items_of-append :
    (id : Uuid) (i : OrderItem) (rows : List (Uuid × OrderItem))
    → items_of id (rows ++ ((id, i) ∷ [])) ≡ items_of id rows ++ (i ∷ [])
items_of-append id i [] = rw ((==_iff id id).1 refl) refl
items_of-append id i ((order_id, item) ∷ rows) = ground (arith, items_of-append id i rows)

items_of-insert_all :
    (id : Uuid) (items : List OrderItem) (t : Tables)
    → items_of id (insert_all id items t).items ≡ items_of id t.items ++ items
items_of-insert_all id [] t = sym (append-nil _)
items_of-insert_all id (i ∷ is) t =
    items_of-insert_all id is (apply (insert_item id i) t)
    ∙ ap (λ (xs : List OrderItem). xs ++ is) (items_of-append id i t.items)
    ∙ append_assoc (items_of id t.items) (i ∷ []) is

pub find_row-saved :
    (o : Order) (t : Tables) → find_row o.id (saved o t).orders ≡ some (kept (row_of o))
find_row-saved o t =
    rw (orders-insert_all o.id o.items (apply (insert_order (row_of o)) t))
      (rw ((==_iff o.id o.id).1 refl) refl)

pub items_of-saved :
    (o : Order) (t : Tables)
    → items_of o.id t.items ≡ []
    → items_of o.id (saved o t).items ≡ o.items
items_of-saved o t fresh =
    items_of-insert_all o.id o.items (apply (insert_order (row_of o)) t)
    ∙ ap (λ (xs : List OrderItem). xs ++ o.items) fresh

module _ {W Tx : Type 0} (p : Pool W Tx) (uuids : Uuids W) (d : Transactional p uuids)
    (q : Selecting p uuids d) where
  -- When Create has returned an order and GetByID then returns one for its identifier, it is that
  -- order with its items in some order and its times cut to microseconds. Assumes that no item of
  -- this order was stored before, the documented effects of transactions (Transactional), that
  -- SELECT finds the row with an identifier and the items of an order in any order (Selecting),
  -- and that nobody else writes.
  pub get_by_id-create :
      (order : Order) (w : W) {stored found : Order}
      → (create p uuids order w).0 ≡ ok stored
      → items_of order.id (d.tables w).items ≡ []
      → (get_by_id p uuids order.id (create p uuids order w).1).0 ≡ ok found
      → (found ≡ record stored {
        items = found.items;
        created_at = micros stored.created_at;
        updated_at = micros stored.updated_at;
      })
        × Perm found.items stored.items
  get_by_id-create order w {stored} {found} h fresh g =
      let (stamped, same) = create-Stamped p uuids d order w h in
      let (row, at, whole, perm) = get_by_id_lem p uuids d q order.id _ g in
      let same_id : stored.id ≡ order.id = ap (λ (o : Order). o.id) stamped.2 in
      let row_eq : row ≡ kept (row_of stored) =
        ground (arith, at, same, same_id, find_row-saved stored (d.tables w)) in
      let items_eq : items_of order.id (d.tables (create p uuids order w).1).items ≡ stored.items =
        ap (λ (t : Tables). items_of order.id t.items) same
        ∙ subst (λ id. items_of id (saved stored (d.tables w)).items ≡ stored.items) same_id
            (items_of-saved stored (d.tables w)
              (subst (λ id. items_of id (d.tables w).items ≡ []) (sym same_id) fresh)) in
      (
        whole ∙ ap (λ (r : OrderRow). record (order_of r) { items = found.items }) row_eq,
        subst (λ is. Perm found.items is) items_eq perm,
      )
