-- ===== src/Server/Persistence.antt =====
-- The service over the repository: which row `CreateOrder` leaves of the order that it returns.
use microservices_platform.Prelude.{
  ◌≡◌, refl, sym, ap, ◌∙◌, ◌⊎◌, inl, inr, subst, Bool-cases, str_eq, Option, some, [], ◌∷◌, arith,
}
use microservices_platform.Errors.{Error, text}
use microservices_platform.Go.{Outcome, ok, err, Result, value, failure}
use microservices_platform.Go.Laws.{Outcome-cases, >>=-ok}
use microservices_platform.Log.{LogLine, Level, Value}
use microservices_platform.Uuid.{Uuid, Time}
use microservices_platform.Models.{Order, OrderStatus, CreateOrderRequest}
use microservices_platform.Client.Wire.{ChargeRequest, ChargeResult}
use microservices_platform.Service.{
  OrderService, charge_request, final_status, record_status, conclude, finish, settle, create_order,
}
use microservices_platform.Service.Outcomes.{final_status_lem, answer_status}
use microservices_platform.Service.Placing.{create_order-eq-ok}
use microservices_platform.Repository.{
  OrderRow, Pool, row_of, order_repository, update_status, create,
}
use microservices_platform.Repository.Tables.{Transactional, micros, kept}
use microservices_platform.Repository.Creating.{create-Stamped}
use microservices_platform.Repository.Finding.{find_row, find_row-saved}
use microservices_platform.Repository.Keys.{find_row-set_status}
use microservices_platform.Repository.Updating.{Updating, update_status-eq-ok}

module _ {W Tx : Type 0} (s : OrderService W) (p : Pool W Tx) (d : Transactional p s.uuids) where
  -- The service with the repository over this pool.
  abbrev pub stored_in : OrderService W
  stored_in = record s { repo = order_repository p s.uuids }

  -- The payment client and the log do not write to the tables.
  pub record Apart : Type 0 where
    pub tables-charge : (r : ChargeRequest) (w : W) → d.tables (s.charge r w).1 ≡ d.tables w
    pub tables-log : (l : LogLine) (w : W) → d.tables (s.logger l w) ≡ d.tables w

  abbrev pub unsaved_line : Uuid → Error → LogLine
  unsaved_line id e = record {
    level = Level.error;
    message = "failed to persist final order status";
    attrs = ("orderId", Value.text (s.uuids.to_string id)) ∷ ("error", Value.text (text e)) ∷ [];
  }

  -- The world ends with an update to this status that failed, and with its log line.
  abbrev pub Unsaved : Uuid → OrderStatus → W → Type 0
  Unsaved id status w =
      (w₁ : W) × (e : Error) × ((update_status p s.uuids id status w₁).0 ≡ err e)
      × (w ≡ s.logger (unsaved_line id e) (update_status p s.uuids id status w₁).1)

  -- The row has a new status, unless the update to that status failed.
  abbrev pub Recorded : Uuid → OrderRow → OrderStatus → W → Type 0
  Recorded id row status w =
      ((time : Time) × (find_row id (d.tables w).orders
          ≡ some (record row { status = status; updated_at = time })))
      ⊎ Unsaved id status w

  -- The tables have the row of the order with a later `updated_at`, unless the update to its status
  -- failed.
  abbrev pub IsKept : Order → W → Type 0
  IsKept o w =
      ((time : Time) × (find_row o.id (d.tables w).orders
          ≡ some (record (kept (row_of o)) { updated_at = time })))
      ⊎ Unsaved o.id o.status w

  module _ (a : Apart) (u : Updating p s.uuids d) where
    pub tables-final_status :
        (order : Order) (r : Result ChargeResult) (w : W)
        → d.tables (final_status stored_in order r w).1 ≡ d.tables w
    unfolding final_status
    tables-final_status order (failure e) w = a.tables-log _ w
    tables-final_status order (value charged) w =
        elim (Bool-cases (str_eq charged.status "SUCCEEDED")) [
          | inl paid ↦ rw paid refl
          | inr unpaid ↦ rw unpaid (a.tables-log _ w)
        ]

    conclude-Recorded :
        (order : Order) (status : OrderStatus) (w : W) {row : OrderRow} {v : Order × Option Error}
        → find_row order.id (d.tables w).orders ≡ some row
        → (conclude stored_in order status w).0 ≡ ok v
        → (v.0 ≡ record order { status = status })
          × Recorded order.id row status (conclude stored_in order status w).1
    unfolding conclude record_status
    conclude-Recorded order status w {row} {v} at h =
        elim (Outcome-cases (update_status p s.uuids order.id status w).0) [
          | inl (done, updated) ↦
              let changed = update_status-eq-ok p s.uuids d u order.id status w (cc) in
              (
                ground arith,
                inl (
                  micros (p.now w).0,
                  ground (
                    arith,
                    changed,
                    find_row-set_status status (p.now w).0 order.id (d.tables w).orders at,
                  ),
                ),
              )
          | inr (inl (e, bad)) ↦ (ground arith, inr (w, e, bad, ground arith))
          | inr (inr (m, bad)) ↦ absurd (ground arith)
        ]

    finish-Recorded :
        (order : Order) (r : Result ChargeResult) (w : W) {row : OrderRow}
        {v : Order × Option Error}
        → find_row order.id (d.tables w).orders ≡ some row
        → (finish stored_in order r w).0 ≡ ok v
        → (v.0 ≡ record order { status = answer_status r })
          × Recorded order.id row (answer_status r) (finish stored_in order r w).1
    unfolding finish
    finish-Recorded order r w {row} {v} at h =
        let w₁ = (final_status stored_in order r w).1 in
        let same : finish stored_in order r w ≡ conclude stored_in order (answer_status r) w₁ =
          >>=-ok (final_status stored_in order r) (conclude stored_in order) w
            (final_status_lem stored_in order r w) in
        let at₁ : find_row order.id (d.tables w₁).orders ≡ some row =
          ap (λ t. find_row order.id t.orders) (tables-final_status order r w) ∙ at in
        let (whole, recorded) =
          conclude-Recorded order (answer_status r) w₁ at₁
            (sym (ap (λ (x : Outcome (Order × Option Error) × W). x.0) same) ∙ h) in
        (
          whole,
          subst
              (λ (x : Outcome (Order × Option Error) × W).
                Recorded order.id row (answer_status r) x.1)
              (sym same) recorded,
        )

    settle-Recorded_by :
        (order : Order) (r : Result ChargeResult) (w : W) {row : OrderRow}
        {v : Order × Option Error}
        → settle stored_in order w
          ≡ finish stored_in order r (s.charge (charge_request stored_in order) w).1
        → find_row order.id (d.tables w).orders ≡ some row
        → (settle stored_in order w).0 ≡ ok v
        → (status : OrderStatus) × (v.0 ≡ record order { status = status })
          × Recorded order.id row status (settle stored_in order w).1
    settle-Recorded_by order r w {row} same at h =
        let w₁ = (s.charge (charge_request stored_in order) w).1 in
        let at₁ : find_row order.id (d.tables w₁).orders ≡ some row =
          ap (λ t. find_row order.id t.orders) (a.tables-charge (charge_request stored_in order) w)
          ∙ at in
        let (whole, recorded) =
          finish-Recorded order r w₁ at₁
            (sym (ap (λ (x : Outcome (Order × Option Error) × W). x.0) same) ∙ h) in
        (
          answer_status r,
          whole,
          subst
              (λ (x : Outcome (Order × Option Error) × W).
                Recorded order.id row (answer_status r) x.1)
              (sym same) recorded,
        )

    settle-Recorded :
        (order : Order) (w : W) {row : OrderRow} {v : Order × Option Error}
        → find_row order.id (d.tables w).orders ≡ some row
        → (settle stored_in order w).0 ≡ ok v
        → (status : OrderStatus) × (v.0 ≡ record order { status = status })
          × Recorded order.id row status (settle stored_in order w).1
    unfolding settle
    settle-Recorded order w at h =
        elim (Outcome-cases (s.charge (charge_request stored_in order) w).0) [
          | inl (c, paid) ↦ settle-Recorded_by order (value c) w (ground arith) at h
          | inr (inl (e, bad)) ↦ settle-Recorded_by order (failure e) w (ground arith) at h
          | inr (inr (m, bad)) ↦ absurd (ground arith)
        ]

    -- When CreateOrder, over the PostgreSQL repository, returns an order, the table orders ends
    -- with the row of that order as it was returned, its created_at cut to microseconds, but for
    -- updated_at, unless the call ended with an UpdateStatus that failed and whose log line is the
    -- last thing that it did. Assumes the documented effects of transactions and UPDATE
    -- (Transactional, Updating), that the payment client and the log do not write to the tables
    -- (Apart), and that nobody else does.
    pub create_order-Recorded :
        (req : CreateOrderRequest) (w : W) {placed : Order} {e : Option Error}
        → (create_order stored_in req w).0 ≡ ok (placed, e)
        → IsKept placed (create_order stored_in req w).1
    unfolding create_order
    create_order-Recorded req w {placed} {e} h =
        let (order, before, stored, prepared, created, settled) =
          create_order-eq-ok stored_in req w h in
        let after = (create p s.uuids order before).1 in
        let (stamped, same) = create-Stamped p s.uuids d order before created in
        let at : find_row stored.id (d.tables after).orders ≡ some (kept (row_of stored)) =
          ap (λ t. find_row stored.id t.orders) same ∙ find_row-saved stored (d.tables before) in
        let (status, whole, recorded) = settle-Recorded stored after at settled in
        let world : (settle stored_in stored after).1 ≡ (create_order stored_in req w).1 =
          ground (arith, prepared, created) in
        subst (λ w'. IsKept placed w') world
          (subst (λ o. IsKept o (settle stored_in stored after).1) (sym whole) recorded)
