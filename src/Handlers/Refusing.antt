-- ===== src/Handlers/Refusing.antt =====
-- The replies of `POST /api/v1/orders` that refuse an order.
use microservices_platform.Prelude.{
  ap, ◌≡◌, ◌↔◌, inl, inr, refl, subst, sym, ◌∙◌, String, str_eq, true, false, none, some, Option,
  if◌then◌else◌, arith,
}
use microservices_platform.Errors.{Error, ServiceError, text}
use microservices_platform.Go.{ok, value}
use microservices_platform.Go.Laws.{Outcome-cases}
use microservices_platform.Models.{Order, CreateOrderRequest}
use microservices_platform.Service
use microservices_platform.Service.{OrderService}
use microservices_platform.Service.Refusals.{Wraps}
use microservices_platform.Service.Refusing.{RefusedAs, Refuses}
use microservices_platform.Service.Refusing.Orders.{create_order-RefusedAs_iff}
use microservices_platform.Handlers.{
  Reply, ReplyBody, reply, problem, one_order, orders, alive, readiness, write_service_error,
  reply_to_placed, create_order,
}
use microservices_platform.Handlers.ErrorMapping.{
  status_of, code_of, write_service_error_lem, write_service_error-cases,
}
use microservices_platform.Handlers.Placing.{ForeignErrors}
use microservices_platform.Handlers.Showing.{shown, shown-write_service_error}

-- The status and the code of this variable, without an order.
abbrev pub RepliesAs : ServiceError → Reply → Type 0
RepliesAs k r = (message : String) × (r ≡ reply (status_of k) (problem (code_of k) message none))

-- The variable of a code.
abbrev variable_of : String → ServiceError
variable_of code =
    if str_eq code "validation_error"
    then ServiceError.validation
    else if str_eq code "user_not_found"
    then ServiceError.user_not_found
    else if str_eq code "product_not_found"
    then ServiceError.product_not_found
    else if str_eq code "product_unavailable"
    then ServiceError.product_unavailable
    else if str_eq code "order_not_found"
    then ServiceError.order_not_found
    else if str_eq code "upstream_unavailable"
    then ServiceError.upstream_unavailable
    else ServiceError.payment_declined

variable_of-code_of : (k : ServiceError) → variable_of (code_of k) ≡ k
unfolding code_of
variable_of-code_of ServiceError.validation = refl
variable_of-code_of ServiceError.user_not_found = refl
variable_of-code_of ServiceError.product_not_found = refl
variable_of-code_of ServiceError.product_unavailable = refl
variable_of-code_of ServiceError.order_not_found = refl
variable_of-code_of ServiceError.upstream_unavailable = refl
variable_of-code_of ServiceError.payment_declined = refl

code_of-external : (k : ServiceError) → str_eq (code_of k) "internal_error" ≡ false
unfolding code_of
code_of-external ServiceError.validation = refl
code_of-external ServiceError.user_not_found = refl
code_of-external ServiceError.product_not_found = refl
code_of-external ServiceError.product_unavailable = refl
code_of-external ServiceError.order_not_found = refl
code_of-external ServiceError.upstream_unavailable = refl
code_of-external ServiceError.payment_declined = refl

abbrev code_in : ReplyBody → String
code_in (problem code message order) = code
code_in (one_order order) = ""
code_in (orders found count) = ""
code_in (alive status name time) = ""
code_in (readiness status database) = ""

RepliesAs-write_service_error :
    (k : ServiceError) (e : Error) (order : Option Order)
    → RepliesAs k (write_service_error e order)
    → Wraps e k × (order ≡ none)
RepliesAs-write_service_error k e order (message, h) = (
  elim (write_service_error-cases e order) [
    | inl (k', wraps, written) ↦
        let codes : code_of k' ≡ code_of k = ap (λ (r : Reply). code_in r.body) (sym written ∙ h) in
        let same = sym (variable_of-code_of k') ∙ ap variable_of codes ∙ variable_of-code_of k in
        subst (Wraps e) same wraps
    | inr (others, written) ↦
        let codes : code_of k ≡ "internal_error" =
          ap (λ (r : Reply). code_in r.body) (sym h ∙ written) in
        let tested : false ≡ true =
          sym (code_of-external k) ∙ ap (λ (c : String). str_eq c "internal_error") codes in
        absurd (cc)
  ],
  sym (shown-write_service_error e order) ∙ ap (λ (r : Reply). shown r.body) h,
)

module _ {W : Type 0} (s : OrderService W) (req : CreateOrderRequest) (w : W) where
  create_order-RepliesAs_iff :
      (k : ServiceError)
      → ((r : Reply) × ((create_order s (value req) w).0 ≡ ok r) × RepliesAs k r)
        ↔ RefusedAs k (Service.create_order s req w).0
  unfolding create_order reply_to_placed
  create_order-RepliesAs_iff k = (
    (λ (r, h, (message, says)). elim (Outcome-cases (Service.create_order s req w).0) [
      | inl ((o, none), p) ↦
          let same : r ≡ reply 201 (one_order o) = ground arith in
          let order : some o ≡ none = ap (λ (x : Reply). shown x.body) (sym same ∙ says) in
          absurd (cc)
      | inl ((o, some e), p) ↦
          let same : r ≡ write_service_error e (some o) = ground arith in
          let (_, no_order) =
            RepliesAs-write_service_error k e (some o) (message, sym same ∙ says) in
          absurd (cc)
      | inr (inl (e, p)) ↦
          let same : r ≡ write_service_error e none = ground arith in
          let (wraps, _) = RepliesAs-write_service_error k e none (message, sym same ∙ says) in
          (e, p, wraps)
      | inr (inr (m, p)) ↦ absurd (ground arith)
    ]),
    (λ (e, h, wraps). (
      write_service_error e none,
      ground arith,
      (text e, write_service_error_lem k e none wraps),
    )),
  )

  -- The handler replies to a bound order with the status and the code of a variable of
  -- internal/service/errors.go, and no order, exactly when Refuses says so of this variable, by
  -- the answers of the siblings alone: validation_error if uuid cannot parse the identifier of the
  -- user; user_not_found or upstream_unavailable by the error of user-service; or, once the user
  -- is verified, what is wrong with the first line that cannot be priced (product unknown, not
  -- active or short of stock, or no usable answer). Assumes that the errors of storing are not of
  -- internal/service/errors.go (ForeignErrors).
  pub create_order-Refuses_iff :
      ForeignErrors s
      → (k : ServiceError)
      → ((r : Reply) × ((create_order s (value req) w).0 ≡ ok r) × RepliesAs k r)
        ↔ Refuses s req w k
  create_order-Refuses_iff foreign_errors k =
      let replies = create_order-RepliesAs_iff k in
      let refused =
        create_order-RefusedAs_iff s req w
          (λ o before cause k' c. foreign_errors.of_create o before cause k' c) k in
      ((λ h. refused.0 (replies.0 h)), (λ h. replies.1 (refused.1 h)))
