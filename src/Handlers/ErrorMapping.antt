-- ===== src/Handlers/ErrorMapping.antt =====
-- `writeServiceError`: the status and the code depend on the variable that an error wraps, not on
-- the order of the switch.
use microservices_platform.Prelude.{ℕ, ◌≡◌, ◌⊎◌, inl, inr, String, true, false, Option, arith}
use microservices_platform.Errors.{Error, ServiceError, service, text, is}
use microservices_platform.Errors.Laws.{is-address, service-cases}
use microservices_platform.Models.{Order}
use microservices_platform.Handlers.{reply, problem, write_service_error}

-- The API's status and code for each error variable of internal/service/errors.go.
unfoldable pub status_of : ServiceError → ℕ
status_of ServiceError.validation = 400
status_of ServiceError.user_not_found = 404
status_of ServiceError.product_not_found = 404
status_of ServiceError.product_unavailable = 409
status_of ServiceError.order_not_found = 404
status_of ServiceError.upstream_unavailable = 502
status_of ServiceError.payment_declined = 402

unfoldable pub code_of : ServiceError → String
code_of ServiceError.validation = "validation_error"
code_of ServiceError.user_not_found = "user_not_found"
code_of ServiceError.product_not_found = "product_not_found"
code_of ServiceError.product_unavailable = "product_unavailable"
code_of ServiceError.order_not_found = "order_not_found"
code_of ServiceError.upstream_unavailable = "upstream_unavailable"
code_of ServiceError.payment_declined = "payment_declined"

-- An error that wraps a variable of internal/service/errors.go, at any depth, is written with that
-- variable's status and code, with its own text, and with the order if there is one.
pub write_service_error_lem :
    (k : ServiceError) (e : Error) (order : Option Order)
    → is e (service k) ≡ true
    → write_service_error e order ≡ reply (status_of k) (problem (code_of k) (text e) order)
unfolding write_service_error status_of code_of
write_service_error_lem ServiceError.validation e order h = rw h
write_service_error_lem k e order h =
    let other = is-address e (service k) in
    ground (
      arith,
      other (service ServiceError.validation) h,
      other (service ServiceError.user_not_found) h,
      other (service ServiceError.product_not_found) h,
      other (service ServiceError.product_unavailable) h,
      other (service ServiceError.order_not_found) h,
      other (service ServiceError.payment_declined) h,
      other (service ServiceError.upstream_unavailable) h,
    )

-- An error that wraps none of the service's variables is written as 500 internal_error with its
-- text.
pub write_service_error-internal :
    (e : Error) (order : Option Order)
    → ((k : ServiceError) → is e (service k) ≡ false)
    → write_service_error e order ≡ reply 500 (problem "internal_error" (text e) order)
unfolding write_service_error
write_service_error-internal e order h = ground (
  arith,
  h ServiceError.validation,
  h ServiceError.user_not_found,
  h ServiceError.product_not_found,
  h ServiceError.product_unavailable,
  h ServiceError.order_not_found,
  h ServiceError.payment_declined,
  h ServiceError.upstream_unavailable,
)

-- Every error is written in one of two ways, with its own text, and with the order if there is
-- one: if it wraps a variable of internal/service/errors.go, at any depth, with that variable's
-- status and code; if it wraps none of them, as 500 internal_error.
pub write_service_error-cases :
    (e : Error) (order : Option Order)
    → ((k : ServiceError) × (is e (service k) ≡ true)
        × (write_service_error e order ≡ reply (status_of k) (problem (code_of k) (text e) order)))
      ⊎ (((k : ServiceError) → is e (service k) ≡ false)
          × (write_service_error e order ≡ reply 500 (problem "internal_error" (text e) order)))
write_service_error-cases e order = elim (service-cases e) [
  | inl (k, h) ↦ inl (k, h, write_service_error_lem k e order h)
  | inr h ↦ inr (h, write_service_error-internal e order h)
]
