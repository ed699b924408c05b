-- ===== src/Repository/Totals.antt =====
-- What the two tables say of an order together: its items add up to its total.
use microservices_platform.Prelude.{
  ◌≡◌, ◌≢◌, refl, sym, ◌∙◌, ap, subst, ◌⊎◌, inl, inr, ◌==◌, ==_iff, Bool-cases, Option,
  Option-cases, false, none, some, List, [], ◌∷◌, ◌++◌, map, arith,
}
use microservices_platform.Int64.{wrap64}
use microservices_platform.Uuid.{Uuid, Time}
use microservices_platform.Models.{Order, OrderItem, OrderStatus, pending, confirmed, failed}
use microservices_platform.Service.Pricing.{exact_total}
use microservices_platform.Repository.{OrderRow, insert_order, insert_item, set_status, row_of}
use microservices_platform.Repository.Tables.{Tables, restatus, apply, insert_all, saved}
use microservices_platform.Repository.Storing.{Identified, Stamped}
use microservices_platform.Repository.Finding.{
  find_row, items_of, orders-insert_all, find_row-saved, items_of-saved,
}
use microservices_platform.Repository.Keys.{find_row-set_status, find_row-set_other}

-- The total of an order is the sum of its lines, wrapped to 64 bits.
abbrev pub AddsUp : Order → Type 0
AddsUp o = o.total_cents ≡ wrap64 (exact_total o.items)

abbrev pub IsStatus : OrderStatus → Type 0
IsStatus status = (status ≡ pending) ⊎ ((status ≡ confirmed) ⊎ (status ≡ failed))

-- No row has no items; a row has a status of the service, and the items add up to its total.
abbrev pub Balances : Option OrderRow → List OrderItem → Type 0
Balances none items = items ≡ []
Balances (some row) items = (row.total_cents ≡ wrap64 (exact_total items)) × IsStatus row.status

abbrev pub IsBalanced : Tables → Type 0
IsBalanced t = (id : Uuid) → Balances (find_row id t.orders) (items_of id t.items)

exact_total-Identified :
    (rs is : List OrderItem) → Identified rs is → exact_total is ≡ exact_total rs
unfolding exact_total
exact_total-Identified [] [] h = refl
exact_total-Identified [] (i ∷ is) h = absurd h
exact_total-Identified (r ∷ rs) [] h = absurd h
exact_total-Identified (r ∷ rs) (i ∷ is) (same, rest) =
    let later = exact_total-Identified rs is rest in
    elim same [ inl e ↦ rw (e, later) refl | inr (unset, e) ↦ rw (e, later) refl ]

-- `Create` gives identifiers to items, and changes no price and no quantity.
pub AddsUp-Stamped : (order stored : Order) → Stamped order stored → AddsUp order → AddsUp stored
AddsUp-Stamped order stored (times, identified, whole) h =
    ap (λ (o : Order). o.total_cents) whole
    ∙ h
    ∙ ap wrap64 (sym (exact_total-Identified order.items stored.items identified))

items_of-append_other :
    (id j : Uuid) (i : OrderItem) (rows : List (Uuid × OrderItem))
    → j ≢ id
    → items_of j (rows ++ ((id, i) ∷ [])) ≡ items_of j rows
items_of-append_other id j i [] h = ground arith
items_of-append_other id j i ((order_id, item) ∷ rows) h =
    ground (arith, items_of-append_other id j i rows h)

items_of-insert_other :
    (id j : Uuid) (items : List OrderItem) (t : Tables)
    → j ≢ id
    → items_of j (insert_all id items t).items ≡ items_of j t.items
items_of-insert_other id j [] t h = refl
items_of-insert_other id j (i ∷ is) t h =
    items_of-insert_other id j is (apply (insert_item id i) t) h
    ∙ items_of-append_other id j i t.items h

find_row-saved_apart :
    (o : Order) (t : Tables) (j : Uuid)
    → j ≢ o.id
    → find_row j (saved o t).orders ≡ find_row j t.orders
find_row-saved_apart o t j h =
    let apart : (o.id == j) ≡ false = ground arith in
    rw (orders-insert_all o.id o.items (apply (insert_order (row_of o)) t)) (rw apart refl)

-- A new order whose lines add up to its total.
pub IsBalanced-saved :
    (o : Order) (t : Tables)
    → o.status ≡ pending
    → AddsUp o
    → find_row o.id t.orders ≡ none
    → IsBalanced t
    → IsBalanced (saved o t)
IsBalanced-saved o t new adds fresh h j = elim (Bool-cases (j == o.id)) [
  | inl same ↦
      let none_yet : items_of o.id t.items ≡ [] =
        subst (λ r. Balances r (items_of o.id t.items)) fresh (h o.id) in
      rw ((==_iff j o.id).0 same)
        (rw (find_row-saved o t) (rw (items_of-saved o t none_yet) (adds, inl new)))
  | inr other ↦
      let apart : j ≢ o.id = ground arith in
      rw (find_row-saved_apart o t j apart)
        (rw (items_of-insert_other o.id j o.items (apply (insert_order (row_of o)) t) apart) (h j))
]

find_row-set_none :
    (status : OrderStatus) (time : Time) (id j : Uuid) (rs : List OrderRow)
    → find_row j rs ≡ none
    → find_row j (map (restatus (set_status status time id)) rs) ≡ none
find_row-set_none status time id j [] h = refl
find_row-set_none status time id j (r ∷ rs) h = elim (Bool-cases (r.id == j)) [
  | inl same ↦ absurd (ground arith)
  | inr other ↦ ground (arith, find_row-set_none status time id j rs)
]

pub IsBalanced-set_status :
    (status : OrderStatus) (time : Time) (id : Uuid) (t : Tables)
    → IsStatus status
    → IsBalanced t
    → IsBalanced (apply (set_status status time id) t)
IsBalanced-set_status status time id t known h j = elim (Bool-cases (j == id)) [
  | inl same ↦
      let e = (==_iff j id).0 same in
      rw e (elim (Option-cases (find_row id t.orders)) [
        | inl missing ↦
            let nothing : items_of id t.items ≡ [] =
              subst (λ r. Balances r (items_of id t.items)) missing (h id) in
            rw (find_row-set_none status time id id t.orders missing) nothing
        | inr (row, at) ↦
            let (total, was) = subst (λ r. Balances r (items_of id t.items)) at (h id) in
            rw (find_row-set_status status time id t.orders at) (total, known)
      ])
  | inr other ↦
      let apart : j ≢ id = ground arith in
      rw (find_row-set_other status time id j t.orders apart) (h j)
]
