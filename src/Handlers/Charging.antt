-- ===== src/Handlers/Charging.antt =====
-- The replies of `POST /api/v1/orders` to an order that was charged.
use microservices_platform.Prelude.{◌≡◌, refl, ◌∙◌, ap, ◌↔◌, inl, inr, Option, none, some, arith}
use microservices_platform.Errors.{Error, sentinel, service, ServiceError, text, is}
use microservices_platform.Go.{ok, value}
use microservices_platform.Models.{Order, confirmed, failed, CreateOrderRequest}
use microservices_platform.Service
use microservices_platform.Service.{OrderService, charge_request}
use microservices_platform.Service.Outcomes.{NoPanic}
use microservices_platform.Service.Charging.{
  Accepts, Declines, Charges, Placed-Accepts, Placed-Declines, Accepts-placed, Declines-placed,
}
use microservices_platform.Handlers.{
  Reply, reply, problem, one_order, write_service_error, reply_to_placed, create_order,
}
use microservices_platform.Handlers.ErrorMapping.{write_service_error-cases}
use microservices_platform.Handlers.Showing.{create_order-shown}

module _ {W : Type 0} (s : OrderService W) (n : NoPanic s) (req : CreateOrderRequest) (w : W) where
  -- The reply to an order that the service returned.
  replied :
      (placed : Order) (e : Option Error)
      → (Service.create_order s req w).0 ≡ ok (placed, e)
      → (create_order s (value req) w).0 ≡ ok (reply_to_placed (value (placed, e)))
  unfolding create_order
  replied placed e h = ground arith

  created-none :
      (placed : Order) (e : Option Error)
      → reply_to_placed (value (placed, e)) ≡ reply 201 (one_order placed)
      → e ≡ none
  unfolding reply_to_placed
  created-none placed none h = refl
  created-none placed (some e) h = elim (write_service_error-cases e (some placed)) [
    | inl (k, wraps, written) ↦ absurd (cc (written, h))
    | inr (others, written) ↦ absurd (cc (written, h))
  ]

  unpaid-some :
      (placed : Order) (e : Option Error)
      → reply_to_placed (value (placed, e))
        ≡ reply 402 (problem "payment_declined" "payment was declined" (some placed))
      → (x : Error) × (e ≡ some x)
  unfolding reply_to_placed
  unpaid-some placed none h = absurd (cc)
  unpaid-some placed (some e) h = (e, refl)

  declined_reply :
      (placed : Order)
      → write_service_error (sentinel (service ServiceError.payment_declined)) (some placed)
        ≡ reply 402 (problem "payment_declined" "payment was declined" (some placed))
  unfolding write_service_error is text
  declined_reply placed = refl

  replied-same :
      (placed : Order) (e : Option Error) (r : Reply)
      → (Service.create_order s req w).0 ≡ ok (placed, e)
      → (create_order s (value req) w).0 ≡ ok r
      → reply_to_placed (value (placed, e)) ≡ r
  replied-same placed e r p h = let q = replied placed e p in cc

  -- The handler replies to a bound order with 201 and an order exactly when this order is one that
  -- was prepared from the request (Prepared), was stored, and whose own charge payment-service
  -- answered with SUCCEEDED, now CONFIRMED; and with 402 payment_declined and an order exactly
  -- when it is one that was prepared and stored in the same way, and whose charge failed with an
  -- error or was answered with another status, now FAILED. Assumes that the charge and the update
  -- of the status do not panic (NoPanic).
  pub create_order-Charges_iff :
      (placed : Order)
      → (((create_order s (value req) w).0 ≡ ok (reply 201 (one_order placed)))
          ↔ Charges s n req w Accepts confirmed placed)
        × (((create_order s (value req) w).0
              ≡ ok (reply 402 (problem "payment_declined" "payment was declined" (some placed))))
            ↔ Charges s n req w Declines failed placed)
  unfolding reply_to_placed
  create_order-Charges_iff placed = (
    (
      (λ h.
          let (e, p) = create_order-shown s req w h refl in
          let fine = created-none placed e (replied-same placed e _ p h) in
          Placed-Accepts s n req w placed (rw fine at p)),
      (λ h. replied placed none (Accepts-placed s n req w placed h)),
    ),
    (
      (λ h.
          let (e, p) = create_order-shown s req w h refl in
          let (x, bad) = unpaid-some placed e (replied-same placed e _ p h) in
          (Placed-Declines s n req w placed x (rw bad at p)).0),
      (λ h.
          replied placed (some (sentinel (service ServiceError.payment_declined)))
            (Declines-placed s n req w placed h)
          ∙ ap ok (declined_reply placed)),
    ),
  )
