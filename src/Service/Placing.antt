-- ===== src/Service/Placing.antt =====
-- `CreateOrder` as a whole.
use microservices_platform.Prelude.{
  ◌≡◌, refl, ◌∙◌, ap, ◌⊎◌, inl, inr, Option, none, some, ℤ, List, [], ◌∷◌, arith,
}
use microservices_platform.Int64.{IsInt64}
use microservices_platform.Int64.Laws.{wrap64_of_IsInt64}
use microservices_platform.Errors.{Error, sentinel, wrapped, service, ServiceError}
use microservices_platform.Go.{ok, err}
use microservices_platform.Go.Laws.{Outcome-value, Outcome-cases}
use microservices_platform.Models.{
  Order, OrderItem, OrderStatus, confirmed, failed, CreateOrderRequest, CreateOrderItemRequest,
}
use microservices_platform.Service.{
  OrderService, PaymentCharger, charge_request, price_item, price_items, prepare, settle,
  create_order,
}
use microservices_platform.Service.Pricing.{exact_total}
use microservices_platform.Service.Preparing.{Prepared, prepare-Prepared, prepare_of_Prepared}
use microservices_platform.Service.Outcomes.{
  NoPanic, verdict, declined, verdict-IsSettledStatus, settle_lem, settle-value, settle-ne-err,
}
use microservices_platform.Service.Refusals.{IsRefusal, prepare-IsRefusal}

module _ {W : Type 0} (s : OrderService W) (req : CreateOrderRequest) where
  -- The order that was prepared, the order as the repository left it, and the answer to its charge.
  pub record Placed (placed : Order) (e : Option Error) (w : W) : Type 0 where
    pub order : Order
    pub before : W
    pub prepared : Prepared s req order w before
    pub stored : Order
    pub saved : (s.repo.create order before).0 ≡ ok stored
    pub settled :
        (status : OrderStatus) × (status
          ≡ verdict (s.charge (charge_request s stored) (s.repo.create order before).1).0)
        × (placed ≡ record stored { status = status })
        × (e ≡ declined status)

  -- The three parts of a call that returns an order.
  pub create_order-eq-ok :
      (w : W) {v : Order × Option Error}
      → (create_order s req w).0 ≡ ok v
      → (order : Order) × (before : W) × (stored : Order) × (prepare s req w ≡ (ok order, before))
        × ((s.repo.create order before).0 ≡ ok stored)
        × ((settle s stored (s.repo.create order before).1).0 ≡ ok v)
  unfolding create_order
  create_order-eq-ok w h =
      let (order, p) =
        Outcome-value (prepare s req w).0 (λ e q. ground arith) (λ e q. ground arith) in
      let before = (prepare s req w).1 in
      let (stored, c) =
        Outcome-value (s.repo.create order before).0 (λ e q. ground arith) (λ e q. ground arith) in
      (order, before, stored, ground arith, c, ground arith)

  -- Whenever CreateOrder returns an order, the order was prepared from the request as described by
  -- Prepared (parsed and verified user, one line for each item priced from product-service, active
  -- and in stock, the sum of the lines, PENDING, USD), the repository stored it, and the result is
  -- the stored order with the status and the error that the answer to its own charge request calls
  -- for.
  pub create_order-Placed :
      (w : W) {placed : Order} {e : Option Error}
      → (create_order s req w).0 ≡ ok (placed, e)
      → Placed placed e w
  create_order-Placed w h =
      let (order, before, stored, p, c, t) = create_order-eq-ok w h in
      let v = settle-value s stored (s.repo.create order before).1 t in
      record {
        order = order;
        before = before;
        prepared = prepare-Prepared s req w p;
        stored = stored;
        saved = c;
        settled = (
          verdict (s.charge (charge_request s stored) (s.repo.create order before).1).0,
          refl,
          ap (λ (x : Order × Option Error). x.0) v,
          ap (λ (x : Order × Option Error). x.1) v,
        );
      }

  -- If the charge and the status update do not panic, every outcome that this description allows
  -- is the one that CreateOrder returns: the description determines the order and the error that
  -- are returned.
  pub create_order_of_Placed :
      NoPanic s
      → (w : W) {placed : Order} {e : Option Error} → Placed placed e w
      → (create_order s req w).0 ≡ ok (placed, e)
  unfolding create_order
  create_order_of_Placed n w P =
      let (status, same, same_order, same_error) = P.settled in
      ground (
        arith,
        prepare_of_Prepared s req w P.order P.before P.prepared,
        settle_lem s n P.stored (s.repo.create P.order P.before).1,
        same_order,
        same_error,
      )

  -- Every error that CreateOrder returns without an order wraps ErrValidation, ErrUserNotFound,
  -- ErrProductNotFound, ErrProductUnavailable or ErrUpstreamUnavailable, or is an error of the
  -- repository's Create behind "persisting order: ".
  pub create_order-err :
      (w : W) {e : Error}
      → (create_order s req w).0 ≡ err e
      → IsRefusal e
        ⊎ ((cause : Error) × (order : Order) × (before : W) × ((s.repo.create order before).0
              ≡ err cause)
            × (e ≡ wrapped "persisting order: " "" cause))
  unfolding create_order
  create_order-err w {e} h = elim (Outcome-cases (prepare s req w).0) [
    | inl (order, p) ↦ elim (Outcome-cases (s.repo.create order (prepare s req w).1).0) [
      | inl (stored, c) ↦
          absurd
            (settle-ne-err s stored (s.repo.create order (prepare s req w).1).1 e (ground arith))
      | inr (inl (cause, c)) ↦ inr (cause, order, (prepare s req w).1, c, ground arith)
      | inr (inr (m, c)) ↦ ground arith
    ]
    | inr (inl (refusal, p)) ↦ inl (prepare-IsRefusal s req w (ground arith))
    | inr (inr (m, p)) ↦ ground arith
  ]

  -- An order that CreateOrder returns is CONFIRMED with no error or FAILED with
  -- ErrPaymentDeclined, and never still PENDING.
  pub create_order-IsSettledStatus :
      (w : W) {placed : Order} {e : Option Error}
      → (create_order s req w).0 ≡ ok (placed, e)
      → ((placed.status ≡ confirmed) × (e ≡ none))
        ⊎ ((placed.status ≡ failed) × (e ≡ some (sentinel (service ServiceError.payment_declined))))
  create_order-IsSettledStatus w h =
      let (order, before, stored, p, c, t) = create_order-eq-ok w h in
      let after = (s.repo.create order before).1 in
      ground (
        arith,
        settle-value s stored after t,
        verdict-IsSettledStatus (s.charge (charge_request s stored) after).0,
      )

-- If the exact total of the lines fits into a 64-bit int, the prepared order's TotalCents is that
-- total.
pub total_cents-exact :
    {W : Type 0} (s : OrderService W) (req : CreateOrderRequest) {order : Order} (w : W) {w' : W}
    → prepare s req w ≡ (ok order, w')
    → IsInt64 (exact_total order.items)
    → order.total_cents ≡ exact_total order.items
total_cents-exact s req {order} w h fits =
    (prepare-Prepared s req w h).summed ∙ wrap64_of_IsInt64 (exact_total order.items) fits

module _ {W : Type 0} (s : OrderService W) (c : PaymentCharger W) where
  -- The same service with another payment client.
  abbrev pub charging_by : OrderService W
  charging_by = record s { charge = c }

  price_item-charging_by :
      (r : CreateOrderItemRequest) (w : W) → price_item charging_by r w ≡ price_item s r w
  unfolding price_item
  price_item-charging_by r w = refl

  price_items-charging_by :
      (rs : List CreateOrderItemRequest) (total : ℤ) (items : List OrderItem) (w : W)
      → price_items charging_by rs total items w ≡ price_items s rs total items w
  unfolding price_items
  price_items-charging_by [] total items w = refl
  price_items-charging_by (r ∷ rs) total items w =
      grind (arith, price_item-charging_by, price_items-charging_by rs)

  prepare-charging_by :
      (req : CreateOrderRequest) (w : W) → prepare charging_by req w ≡ prepare s req w
  unfolding prepare
  prepare-charging_by req w = grind (arith, price_items-charging_by req.items)

  -- A call of CreateOrder that ends in an error without an order ends in the same error and the
  -- same world whatever payment client it is given: payment-service has not been asked.
  pub create_order-uncharged :
      (req : CreateOrderRequest) (w : W) {e : Error} {w' : W}
      → create_order s req w ≡ (err e, w')
      → create_order charging_by req w ≡ (err e, w')
  unfolding create_order
  create_order-uncharged req w {e} h = grind (arith, prepare-charging_by req w, settle-ne-err s)
