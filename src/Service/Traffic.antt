-- ===== src/Service/Traffic.antt =====
-- What placing an order costs, in calls of the siblings.
use microservices_platform.Prelude.{
  suc, ◌+◌, ◌≡◌, ◌⊎◌, String, Bool-cases, str_eq, inl, inr, ℤ, pos, List, [], ◌∷◌, length, arith,
}
use microservices_platform.Errors.{Error, text}
use microservices_platform.Go.{Result, value, failure}
use microservices_platform.Go.Laws.{Outcome-cases, Result-cases}
use microservices_platform.Go.Costs.{
  Tariff, Costs, Costs-le, Costs-pure, Costs-rethrow, Costs-attempt, Costs->>=, Leads-follows,
  Leads-more, Leads-further,
}
use microservices_platform.Log.{Level, LogLine, Value}
use microservices_platform.Uuid.{Uuid}
use microservices_platform.Models.{
  Order, OrderItem, OrderStatus, CreateOrderItemRequest, CreateOrderRequest,
}
use microservices_platform.Client.Wire.{ChargeRequest, ChargeResult}
use microservices_platform.Service.{
  OrderService, price_item, price_items, prepare, final_status, record_status, conclude, finish,
  settle, create_order,
}

module _ {W : Type 0} (s : OrderService W) (t : Tariff W) where
  -- Asking user-service or product-service costs one, and a new identifier nothing.
  pub record Asking : Type 0 where
    pub verifying : (id : String) → Costs t 1 (s.verify_user_exists id)
    pub fetching : (id : String) → Costs t 1 (s.get_product id)
    pub numbering : (w : W) → t.Step 0 w (s.uuids.new w).1

  -- A call of a sibling costs one, and all else nothing.
  pub record Billed : Type 0 where
    pub asking : Asking
    pub charging : (r : ChargeRequest) → Costs t 1 (s.charge r)
    pub creating : (o : Order) → Costs t 0 (s.repo.create o)
    pub updating : (id : Uuid) (status : OrderStatus) → Costs t 0 (s.repo.update_status id status)
    pub logging : (l : LogLine) (w : W) → t.Step 0 w (s.logger l w)

  module _ (b : Asking) where
    -- A line that is priced takes an identifier; one that is not ends with the answer.
    price_item-world :
        (r : CreateOrderItemRequest) (w : W)
        → let fetched = (s.get_product r.product_id w).1 in
          ((price_item s r w).1 ≡ fetched) ⊎ ((price_item s r w).1 ≡ (s.uuids.new fetched).1)
    unfolding price_item
    price_item-world r w = elim (Outcome-cases (s.get_product r.product_id w).0) [
      | inl (product, e) ↦ ground arith
      | inr (inl (e, bad)) ↦ inl (ground arith)
      | inr (inr (m, bad)) ↦ inl (ground arith)
    ]

    price_item-Costs : (r : CreateOrderItemRequest) → Costs t 1 (price_item s r)
    price_item-Costs r = record {
      leads = λ w.
          let fetched = (s.get_product r.product_id w).1 in
          elim (price_item-world r w) [
            | inl same ↦ rw same ((b.fetching r.product_id).leads w)
            | inr same ↦ rw same (
                Leads-further t 1 w fetched (s.uuids.new fetched).1
                  ((b.fetching r.product_id).leads w) (b.numbering fetched))
          ];
    }

    price_items-Costs :
        (rs : List CreateOrderItemRequest) (total : ℤ) (items : List OrderItem)
        → Costs t (length rs) (price_items s rs total items)
    unfolding price_items
    price_items-Costs [] total items = Costs-pure t _
    price_items-Costs (r ∷ rs) total items =
        Costs-le t (1 + length rs) (suc (length rs)) _ (omega arith)
          (Costs->>= t 1 (length rs) _ _ (price_item-Costs r) (λ line. price_items-Costs rs _ _))

    -- The preparation ends before the user is asked for, with their answer, or with the lines.
    prepare-world :
        (req : CreateOrderRequest) (w : W)
        → let asked = (s.verify_user_exists req.user_id w).1 in
          ((prepare s req w).1 ≡ w)
          ⊎ (((prepare s req w).1 ≡ asked)
              ⊎ ((prepare s req w).1
                  ≡ (price_items s req.items (pos 0) [] (s.uuids.new asked).1).1))
    unfolding prepare
    prepare-world req w =
        let numbered = (s.uuids.new (s.verify_user_exists req.user_id w).1).1 in
        elim (Result-cases (s.uuids.parse req.user_id)) [
          | inl (user_id, e) ↦ elim (Outcome-cases (s.verify_user_exists req.user_id w).0) [
            | inl (known, f) ↦
                elim (Outcome-cases (price_items s req.items (pos 0) [] numbered).0) [
                  | inl (all, g) ↦ inr (inr (ground arith))
                  | inr (inl (g, bad)) ↦ inr (inr (ground arith))
                  | inr (inr (m, bad)) ↦ inr (inr (ground arith))
                ]
            | inr (inl (f, bad)) ↦ inr (inl (ground arith))
            | inr (inr (m, bad)) ↦ inr (inl (ground arith))
          ]
          | inr (e, bad) ↦ inl (ground arith)
        ]

    pub prepare-Costs : (req : CreateOrderRequest) → Costs t (1 + length req.items) (prepare s req)
    prepare-Costs req = record {
      leads = λ w.
          let n = length req.items in
          let asked = (s.verify_user_exists req.user_id w).1 in
          let numbered = (s.uuids.new asked).1 in
          let user = (b.verifying req.user_id).leads w in
          elim (prepare-world req w) [
            | inl same ↦ rw same (0, omega arith, t.stays w)
            | inr (inl same) ↦ rw same (Leads-more t 1 n w asked user)
            | inr (inr same) ↦ rw same (
                Leads-follows t 1 n w numbered _
                  (Leads-further t 1 w asked numbered user (b.numbering asked))
                  ((price_items-Costs req.items (pos 0) []).leads numbered))
          ];
    }

  module _ (b : Billed) where
    final_status-Costs :
        (order : Order) (r : Result ChargeResult) → Costs t 0 (final_status s order r)
    unfolding final_status
    final_status-Costs order (failure e) = record { leads = λ w. (0, omega arith, b.logging _ w) }
    final_status-Costs order (value charged) =
        elim (Bool-cases (str_eq charged.status "SUCCEEDED")) [
          | inl paid ↦ record { leads = λ w. rw paid (0, omega arith, t.stays w) }
          | inr unpaid ↦ record { leads = λ w. rw unpaid (0, omega arith, b.logging _ w) }
        ]

    abbrev unrecorded_line : Order → Error → LogLine
    unrecorded_line order e = record {
      level = Level.error;
      message = "failed to persist final order status";
      attrs =
          ("orderId", Value.text (s.uuids.to_string order.id))
          ∷ ("error", Value.text (text e))
          ∷ [];
    }

    record_status-Costs :
        (order : Order) (status : OrderStatus) → Costs t 0 (record_status s order status)
    unfolding record_status
    record_status-Costs order status = record {
      leads = λ w.
          let updated = (s.repo.update_status order.id status w).1 in
          let made = (b.updating order.id status).leads w in
          elim (Outcome-cases (s.repo.update_status order.id status w).0) [
            | inl (done, e) ↦
                let same : (record_status s order status w).1 ≡ updated = ground arith in
                rw same made
            | inr (inl (e, bad)) ↦
                let line = unrecorded_line order e in
                let same : (record_status s order status w).1 ≡ s.logger line updated =
                  ground arith in
                rw same (
                  Leads-further t 0 w updated (s.logger line updated) made (b.logging line updated))
            | inr (inr (m, bad)) ↦
                let same : (record_status s order status w).1 ≡ updated = ground arith in
                rw same made
          ];
    }

    settle-Costs : (order : Order) → Costs t 1 (settle s order)
    unfolding settle finish conclude
    settle-Costs order = Costs->>= t 1 0 _ _ (Costs-attempt t 1 _ (b.charging _)) (λ charged.
        Costs->>= t 0 0 _ _ (final_status-Costs order charged) (λ status.
          Costs->>= t 0 0 _ _ (record_status-Costs order status) (λ done. Costs-pure t _)))

    -- An order costs a call for its user, one for each of its lines, and one for its payment.
    pub create_order-Costs :
        (req : CreateOrderRequest) → Costs t (length req.items + 2) (create_order s req)
    unfolding create_order
    create_order-Costs req = Costs-le t (1 + length req.items + (0 + 1)) _ _ (omega arith) (
        Costs->>= t _ _ _ _ (prepare-Costs b.asking req) (λ order.
          Costs->>= t 0 1 _ _ (Costs-rethrow t 0 _ _ (b.creating order))
            (λ stored. settle-Costs stored)))
