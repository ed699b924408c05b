-- ===== src/Server/Remaining.antt =====
-- What the tables have of an order that `CreateOrder` returned.
use microservices_platform.Prelude.{
  ◌≡◌, refl, sym, ap, ◌∙◌, ◌⊎◌, inl, inr, subst, Option, some, [], arith,
}
use microservices_platform.Errors.{Error}
use microservices_platform.Go.{ok, Result, value, failure}
use microservices_platform.Go.Laws.{Outcome-cases, >>=-ok}
use microservices_platform.Uuid.{Uuid, Time}
use microservices_platform.Models.{Order, OrderStatus, pending, CreateOrderRequest}
use microservices_platform.Client.Wire.{ChargeResult}
use microservices_platform.Service
use microservices_platform.Service.{
  OrderService, charge_request, prepare, final_status, conclude, finish, settle,
}
use microservices_platform.Service.Outcomes.{final_status_lem, answer_status, settle-value}
use microservices_platform.Service.Preparing.{prepare-Prepared}
use microservices_platform.Service.Placing.{create_order-eq-ok}
use microservices_platform.Repository.{Pool, set_status, row_of, create}
use microservices_platform.Repository.Tables.{Tables, Transactional, apply, saved, micros, kept}
use microservices_platform.Repository.Creating.{create-Stamped}
use microservices_platform.Repository.Finding.{find_row, find_row-saved, items_of, items_of-saved}
use microservices_platform.Repository.Keys.{find_row-set_status}
use microservices_platform.Repository.Updating.{Updating}
use microservices_platform.Repository.Interleaving.{Failing}
use microservices_platform.Repository.Interleaving.Statuses.{tables-update_status}
use microservices_platform.Server.Persistence.{
  stored_in, Apart, Unsaved, IsKept, create_order-Recorded, tables-final_status,
}
use microservices_platform.Server.Concurrency.{tables-conclude}

-- The tables are as they were, or the status of the order is updated.
abbrev Settles : Uuid → OrderStatus → Tables → Tables → Type 0
Settles id status t t' = (t' ≡ t) ⊎ ((time : Time) × (t' ≡ apply (set_status status time id) t))

module _ {W Tx : Type 0} (s : OrderService W) (p : Pool W Tx) (d : Transactional p s.uuids)
    (a : Apart s p d) (u : Updating p s.uuids d) (f : Failing p s.uuids d) where
  abbrev pub placer : OrderService W
  placer = stored_in s p d

  conclude-Settles :
      (order : Order) (status : OrderStatus) (w : W)
      → Settles order.id status (d.tables w) (d.tables (conclude placer order status w).1)
  conclude-Settles order status w =
      let same = tables-conclude s p d a u order status w in
      elim (tables-update_status p s.uuids d u f order.id status w) [
        | inl unchanged ↦ inl (same ∙ unchanged)
        | inr changed ↦ inr ((p.now w).0, same ∙ changed)
      ]

  finish-Settles :
      (order : Order) (r : Result ChargeResult) (w : W)
      → Settles order.id (answer_status r) (d.tables w) (d.tables (finish placer order r w).1)
  unfolding finish
  finish-Settles order r w =
      let w₁ = (final_status placer order r w).1 in
      let concluded : finish placer order r w ≡ conclude placer order (answer_status r) w₁ =
        >>=-ok (final_status placer order r) (conclude placer order) w
          (final_status_lem placer order r w) in
      let kept_so_far = tables-final_status s p d a u order r w in
      rw concluded (
        subst
          (λ t.
            Settles order.id (answer_status r) t
              (d.tables (conclude placer order (answer_status r) w₁).1))
          kept_so_far (conclude-Settles order (answer_status r) w₁))

  settle-Settles :
      (order : Order) (w : W) {v : Order × Option Error}
      → (settle placer order w).0 ≡ ok v
      → (v.0 ≡ record order { status = v.0.status })
        × Settles order.id v.0.status (d.tables w) (d.tables (settle placer order w).1)
  unfolding settle
  settle-Settles order w {v} h =
      let whole = ap (λ (x : Order × Option Error). x.0) (settle-value placer order w h) in
      let w₁ = (s.charge (charge_request placer order) w).1 in
      let same = a.tables-charge (charge_request placer order) w in
      let at : Result ChargeResult → Type 0 =
        λ r. Settles order.id (answer_status r) (d.tables w) (d.tables (settle placer order w).1) in
      let ends : (r : Result ChargeResult)
          → settle placer order w ≡ finish placer order r w₁
          → at r =
        λ r e. rw e (
          subst (λ t. Settles order.id (answer_status r) t (d.tables (finish placer order r w₁).1))
            same (finish-Settles order r w₁)) in
      elim (Outcome-cases (s.charge (charge_request placer order) w).0) [
        | inl (c, paid) ↦ rw (rw paid at whole) (refl, ends (value c) (ground arith))
        | inr (inl (e, bad)) ↦ rw (rw bad at whole) (refl, ends (failure e) (ground arith))
        | inr (inr (m, bad)) ↦ absurd (ground arith)
      ]

  -- What the tables have of an order that was returned: its items, and its row with a later
  -- `updated_at`, and still PENDING if the update of its status failed.
  abbrev pub Remains : Order → W → Type 0
  Remains o w =
      (items_of o.id (d.tables w).items ≡ o.items)
      × ((time : Time) × (status : OrderStatus) × (find_row o.id (d.tables w).orders
            ≡ some (record (kept (row_of o)) { status = status; updated_at = time }))
          × ((status ≡ o.status) ⊎ ((status ≡ pending) × Unsaved s p d o.id o.status w)))

  items_of-Settles :
      (id : Uuid) (status : OrderStatus) (t t' : Tables)
      → Settles id status t t'
      → items_of id t'.items ≡ items_of id t.items
  items_of-Settles id status t t' (inl same) = ap (λ (x : Tables). items_of id x.items) same
  items_of-Settles id status t t' (inr (time, same)) = ap (λ (x : Tables). items_of id x.items) same

  settled-Remains :
      (stored : Order) (status : OrderStatus) (t : Tables) (w : W)
      → stored.status ≡ pending
      → items_of stored.id t.items ≡ []
      → Settles stored.id status (saved stored t) (d.tables w)
      → IsKept s p d (record stored { status = status }) w
      → Remains (record stored { status = status }) w
  settled-Remains stored status t w new none_yet settles recorded = (
    items_of-Settles stored.id status (saved stored t) (d.tables w) settles
        ∙ items_of-saved stored t none_yet,
    elim recorded [
      | inl (time, at) ↦ (time, status, at, inl refl)
      | inr unsaved ↦ elim settles [
        | inl same ↦ (
          micros stored.updated_at,
          pending,
          ap (λ (x : Tables). find_row stored.id x.orders) same
              ∙ find_row-saved stored t
              ∙ rw new refl,
          inr (refl, unsaved),
        )
        | inr (time, same) ↦ (
          micros time,
          status,
          ap (λ (x : Tables). find_row stored.id x.orders) same
              ∙ find_row-set_status status time stored.id (saved stored t).orders
                  (find_row-saved stored t),
          inl refl,
        )
      ]
    ],
  )

  -- No item of the order that is prepared has been stored before.
  abbrev pub IsNew : CreateOrderRequest → W → Type 0
  IsNew req w =
      (order : Order) (before : W)
      → prepare placer req w ≡ (ok order, before)
      → items_of order.id (d.tables before).items ≡ []

  pub create_order-Remains :
      (req : CreateOrderRequest) (w : W) {placed : Order} {e : Option Error}
      → IsNew req w
      → (Service.create_order placer req w).0 ≡ ok (placed, e)
      → Remains placed (Service.create_order placer req w).1
  unfolding Service.create_order
  create_order-Remains req w {placed} {e} fresh h =
      let (order, before, stored, prepared, created, settled) = create_order-eq-ok placer req w h in
      let after = (create p s.uuids order before).1 in
      let (stamped, same) = create-Stamped p s.uuids d order before created in
      let new : stored.status ≡ pending =
        ap (λ (o : Order). o.status) stamped.2
        ∙ (prepare-Prepared placer req w prepared).is_pending in
      let none_yet : items_of stored.id (d.tables before).items ≡ [] =
        ap (λ (o : Order). items_of o.id (d.tables before).items) stamped.2
        ∙ fresh order before prepared in
      let (whole, settles) = settle-Settles stored after settled in
      let world : (Service.create_order placer req w).1 ≡ (settle placer stored after).1 =
        ground (arith, prepared, created) in
      let recorded = create_order-Recorded s p d a u req w h in
      let settles' =
        subst (λ t. Settles stored.id placed.status t (d.tables (settle placer stored after).1))
          same settles in
      subst (λ w'. Remains placed w') (sym world)
        (subst (λ o. Remains o (settle placer stored after).1) (sym whole)
          (settled-Remains stored placed.status (d.tables before) (settle placer stored after).1 new
            none_yet settles'
            (subst (λ o. IsKept s p d o (settle placer stored after).1) whole
              (subst (λ w'. IsKept s p d placed w') world recorded))))
