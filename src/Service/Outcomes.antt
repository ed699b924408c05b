-- ===== src/Service/Outcomes.antt =====
-- How `CreateOrder` ends.
use microservices_platform.Prelude.{
  ◌≡◌, ◌≢◌, refl, ◌⊎◌, inl, inr, Bool-cases, Option, none, some, arith, str_eq, if◌then◌else◌,
}
use microservices_platform.Errors.{Error, sentinel, service, ServiceError}
use microservices_platform.Go.{Outcome, ok, err, panicked, Result, value, failure}
use microservices_platform.Go.Laws.{Returns}
use microservices_platform.Models.{Order, OrderStatus, confirmed, failed}
use microservices_platform.Client.Wire.{ChargeResult, ChargeRequest}
use microservices_platform.Service.{
  OrderService, charge_request, final_status, record_status, conclude, finish, settle,
}

-- The status that the answer of payment-service calls for.
unfoldable pub answer_status : Result ChargeResult → OrderStatus
answer_status (value charged) = if str_eq charged.status "SUCCEEDED" then confirmed else failed
answer_status (failure e) = failed

abbrev pub verdict : Outcome ChargeResult → OrderStatus
verdict (ok charged) = answer_status (value charged)
verdict (err e) = answer_status (failure e)
verdict (panicked message) = failed

-- The error that goes with a status.
unfoldable pub declined : OrderStatus → Option Error
declined status =
    if str_eq status failed then some (sentinel (service ServiceError.payment_declined)) else none

abbrev pub IsSettledStatus : OrderStatus → Type 0
IsSettledStatus status =
    ((status ≡ confirmed) × (declined status ≡ none))
    ⊎ ((status ≡ failed)
        × (declined status ≡ some (sentinel (service ServiceError.payment_declined))))

answer_status-IsSettledStatus : (r : Result ChargeResult) → IsSettledStatus (answer_status r)
unfolding answer_status declined
answer_status-IsSettledStatus (failure e) = inr (refl, refl)
answer_status-IsSettledStatus (value charged) =
    elim (Bool-cases (str_eq charged.status "SUCCEEDED")) [
      | inl yes_it_is ↦ inl (rw yes_it_is, rw yes_it_is)
      | inr no_it_is_not ↦ inr (rw no_it_is_not, rw no_it_is_not)
    ]

module _ {W : Type 0} (s : OrderService W) where
  -- No call of these clients and of the repository panics.
  pub record NoPanic : Type 0 where
    pub charging : (r : ChargeRequest) (w : W) → Returns (s.charge r w).0
    pub updating : (o : Order) (t : OrderStatus) (w : W) → Returns (s.repo.update_status o.id t w).0

  pub final_status_lem :
      (order : Order) (r : Result ChargeResult) (w : W)
      → (final_status s order r w).0 ≡ ok (answer_status r)
  unfolding final_status answer_status
  final_status_lem order (failure e) w = refl
  final_status_lem order (value charged) w = ground arith

  record_status-returns :
      NoPanic → (order : Order) (t : OrderStatus) (w : W) → (record_status s order t w).0 ≡ ok tt
  unfolding record_status
  record_status-returns n order t w = ground (arith, n.updating order t w)

  record_status-ne-err :
      (order : Order) (t : OrderStatus) (w : W) (e : Error) → (record_status s order t w).0 ≢ err e
  unfolding record_status
  record_status-ne-err order t w e h = ground arith

  conclude-returns :
      NoPanic
      → (order : Order) (t : OrderStatus) (w : W)
      → (conclude s order t w).0 ≡ ok (record order { status = t }, declined t)
  unfolding conclude declined
  conclude-returns n order t w = ground (arith, record_status-returns n order t w)

  conclude-value :
      (order : Order) (t : OrderStatus) (w : W) {r : Order × Option Error}
      → (conclude s order t w).0 ≡ ok r
      → r ≡ (record order { status = t }, declined t)
  unfolding conclude declined
  conclude-value order t w h = ground arith

  conclude-ne-err :
      (order : Order) (t : OrderStatus) (w : W) (e : Error) → (conclude s order t w).0 ≢ err e
  unfolding conclude declined
  conclude-ne-err order t w e h = ground (arith, record_status-ne-err order t w e)

  finish-returns :
      NoPanic
      → (order : Order) (r : Result ChargeResult) (w : W)
      → (finish s order r w).0
        ≡ ok (record order { status = answer_status r }, declined (answer_status r))
  unfolding finish
  finish-returns n order r w = ground (
    arith,
    final_status_lem order r w,
    conclude-returns n order (answer_status r) (final_status s order r w).1,
  )

  finish-value :
      (order : Order) (r : Result ChargeResult) (w : W) {v : Order × Option Error}
      → (finish s order r w).0 ≡ ok v
      → v ≡ (record order { status = answer_status r }, declined (answer_status r))
  unfolding finish
  finish-value order r w h = grind (arith, final_status_lem order r w, conclude-value)

  finish-ne-err :
      (order : Order) (r : Result ChargeResult) (w : W) (e : Error) → (finish s order r w).0 ≢ err e
  unfolding finish
  finish-ne-err order r w e h = ground (
    arith,
    final_status_lem order r w,
    conclude-ne-err order (answer_status r) (final_status s order r w).1 e,
  )

  -- If the charge and the status update do not panic, the order that CreateOrder returns after the
  -- charge is CONFIRMED without an error if payment-service answered SUCCEEDED and FAILED with
  -- ErrPaymentDeclined otherwise, whether or not the final status could be stored.
  pub settle_lem :
      NoPanic
      → (order : Order) (w : W)
      → let status = verdict (s.charge (charge_request s order) w).0 in
        (settle s order w).0 ≡ ok (record order { status = status }, declined status)
  unfolding settle
  settle_lem n order w = grind (arith, n.charging (charge_request s order) w, finish-returns n)

  pub settle-ne-err : (order : Order) (w : W) (e : Error) → (settle s order w).0 ≢ err e
  unfolding settle
  settle-ne-err order w e h = grind (arith, finish-ne-err)

  pub settle-value :
      (order : Order) (w : W) {v : Order × Option Error}
      → (settle s order w).0 ≡ ok v
      → v ≡ (
        record order { status = verdict (s.charge (charge_request s order) w).0 },
        declined (verdict (s.charge (charge_request s order) w).0),
      )
  unfolding settle
  settle-value order w h = grind (arith, finish-value)

-- A verdict is one of two statuses.
pub verdict-IsSettledStatus : (r : Outcome ChargeResult) → IsSettledStatus (verdict r)
unfolding declined
verdict-IsSettledStatus (ok charged) = answer_status-IsSettledStatus (value charged)
verdict-IsSettledStatus (err e) = answer_status-IsSettledStatus (failure e)
verdict-IsSettledStatus (panicked message) = inr (refl, refl)
