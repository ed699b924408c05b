-- ===== src/Handlers/Placing.antt =====
-- The replies to `POST /api/v1/orders`.
use microservices_platform.Prelude.{
  ◌≡◌, ◌≢◌, refl, ◌∙◌, ◌⊎◌, inl, inr, String, ◌<>◌, false, Option, none, some, arith,
}
use microservices_platform.Errors.{Error, sentinel, wrapped, ServiceError, service, text, is}
use microservices_platform.Errors.Laws.{is-wrapped}
use microservices_platform.Go.{ok, err, value}
use microservices_platform.Go.Laws.{Outcome-cases}
use microservices_platform.Models.{Order, CreateOrderRequest, confirmed, failed}
use microservices_platform.Service
use microservices_platform.Service.{OrderService}
use microservices_platform.Service.Placing.{create_order-err, create_order-IsSettledStatus}
use microservices_platform.Service.Refusals.{IsRefusal}
use microservices_platform.Handlers.{
  Reply, reply, problem, one_order, write_service_error, reply_to_placed, create_order,
}
use microservices_platform.Handlers.ErrorMapping.{
  status_of, code_of, write_service_error_lem, write_service_error-internal,
}

-- An order was placed and paid for.
abbrev pub IsCreated : Reply → Type 0
IsCreated r = (o : Order) × (o.status ≡ confirmed) × (r ≡ reply 201 (one_order o))

-- An order was stored and not paid for: the reply shows it as failed.
abbrev pub IsDeclined : Reply → Type 0
IsDeclined r =
    (o : Order) × (o.status ≡ failed)
    × (r ≡ reply 402 (problem "payment_declined" "payment was declined" (some o)))

-- The service refused the request; the reply has no order.
abbrev pub IsRefused : Reply → Type 0
IsRefused r =
    (k : ServiceError) × (k ≢ ServiceError.payment_declined)
    × (k ≢ ServiceError.order_not_found)
    × (message : String) × (r ≡ reply (status_of k) (problem (code_of k) message none))

-- The repository failed to store the order.
abbrev pub IsUnsaved : Reply → Type 0
IsUnsaved r =
    (cause : Error) × (r
      ≡ reply 500 (problem "internal_error" ("persisting order: " <> text cause <> "") none))

-- The errors of storing an order are not of internal/service/errors.go.
pub record ForeignErrors {W : Type 0} (s : OrderService W) : Type 0 where
  pub of_create :
      (order : Order) (w : W) (e : Error) (k : ServiceError)
      → (s.repo.create order w).0 ≡ err e
      → is e (service k) ≡ false

write_refusal-IsRefused : (e : Error) → IsRefusal e → IsRefused (write_service_error e none)
write_refusal-IsRefused e (inl h) =
    (ServiceError.validation, cc, cc, text e, write_service_error_lem _ e none h)
write_refusal-IsRefused e (inr (inl h)) =
    (ServiceError.user_not_found, cc, cc, text e, write_service_error_lem _ e none h)
write_refusal-IsRefused e (inr (inr (inl h))) =
    (ServiceError.product_not_found, cc, cc, text e, write_service_error_lem _ e none h)
write_refusal-IsRefused e (inr (inr (inr (inl h)))) =
    (ServiceError.product_unavailable, cc, cc, text e, write_service_error_lem _ e none h)
write_refusal-IsRefused e (inr (inr (inr (inr h)))) =
    (ServiceError.upstream_unavailable, cc, cc, text e, write_service_error_lem _ e none h)

reply_to_settled :
    (o : Order) (e : Option Error)
    → ((o.status ≡ confirmed) × (e ≡ none))
      ⊎ ((o.status ≡ failed) × (e ≡ some (sentinel (service ServiceError.payment_declined))))
    → IsCreated (reply_to_placed (value (o, e))) ⊎ IsDeclined (reply_to_placed (value (o, e)))
unfolding reply_to_placed
reply_to_settled o e (inl (status, fine)) = rw fine (inl (o, status, refl))
reply_to_settled o e (inr (status, bad)) =
    rw bad (inr (o, status, unfold write_service_error is text in refl))

write_service_error-IsUnsaved :
    (cause : Error)
    → ((k : ServiceError) → is cause (service k) ≡ false)
    → IsUnsaved (write_service_error (wrapped "persisting order: " "" cause) none)
unfolding text
write_service_error-IsUnsaved cause h = (
  cause,
  write_service_error-internal (wrapped "persisting order: " "" cause) none
      (λ k. is-wrapped "persisting order: " "" cause (service k) ∙ h k),
)

module _ {W : Type 0} (s : OrderService W) (foreign_errors : ForeignErrors s)
    (req : CreateOrderRequest) (w : W) where
  replies_to_error :
      (e : Error)
      → (Service.create_order s req w).0 ≡ err e
      → IsRefused (write_service_error e none) ⊎ IsUnsaved (write_service_error e none)
  replies_to_error e p = elim (create_order-err s req w p) [
    | inl refusal ↦ inl (write_refusal-IsRefused e refusal)
    | inr (cause, order, before, c, same) ↦ inr (
        rw same (
          write_service_error-IsUnsaved cause
            (λ k. foreign_errors.of_create order before cause k c)))
  ]

  -- Every reply to a request that gin could bind is one of four: 201 with a CONFIRMED order; 402
  -- payment_declined with the FAILED order; the status and code of a refusal of the service, with
  -- no order; or 500 internal_error with the text of a failure to store. The errors of storing are
  -- assumed not to be of internal/service/errors.go.
  pub create_order-replies :
      {r : Reply}
      → (create_order s (value req) w).0 ≡ ok r
      → (IsCreated r ⊎ IsDeclined r) ⊎ (IsRefused r ⊎ IsUnsaved r)
  unfolding create_order reply_to_placed
  create_order-replies {r} h = elim (Outcome-cases (Service.create_order s req w).0) [
    | inl ((o, e), p) ↦
        let same : r ≡ reply_to_placed (value (o, e)) = ground arith in
        rw same (inl (reply_to_settled o e (create_order-IsSettledStatus s req w p)))
    | inr (inl (e, p)) ↦
        let same : r ≡ write_service_error e none = ground arith in
        rw same (inr (replies_to_error e p))
    | inr (inr (m, p)) ↦ ground arith
  ]
