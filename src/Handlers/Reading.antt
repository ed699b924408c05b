-- ===== src/Handlers/Reading.antt =====
-- The replies to the reading endpoints, and the probes.
use microservices_platform.Prelude.{
  ℤ, ◌≡◌, refl, ◌∙◌, ◌↔◌, ◌⊎◌, inl, inr, String, true, false, Bool-cases, Option, none, some,
  Option-cases, arith,
}
use microservices_platform.Errors.{
  Error, sentinel, ServiceError, service, stored_order_not_found, text, is,
}
use microservices_platform.Go.{Outcome, ok, err, panicked, failure}
use microservices_platform.Go.Laws.{Outcome-cases}
use microservices_platform.Uuid.{Uuid, UuidLaws}
use microservices_platform.Models.{Order}
use microservices_platform.Service
use microservices_platform.Service.{OrderService}
use microservices_platform.Service.Reading.{
  get_order-ok, get_order-missing, get_order-err, get_order-panicked,
}
use microservices_platform.Handlers.{
  Reply, reply, problem, one_order, readiness, ready_timeout, write_service_error, reply_to_found,
  get_order, list_orders, ready,
}
use microservices_platform.Handlers.ErrorMapping.{write_service_error-internal}

-- The reply to a lookup, by what the repository returned.
abbrev pub Found : Outcome Order → Reply → Type 0
Found (ok order) r = r ≡ reply 200 (one_order order)
Found (err e) r =
    ((is e stored_order_not_found ≡ true)
      × (r ≡ reply 404 (problem "order_not_found" "order not found" none)))
    ⊎ ((is e stored_order_not_found ≡ false)
        × (r ≡ reply 500 (problem "internal_error" (text e) none)))
Found (panicked m) r = ⊥

not_found_reply :
    (r : Reply)
    → r ≡ write_service_error (sentinel (service ServiceError.order_not_found)) none
    → r ≡ reply 404 (problem "order_not_found" "order not found" none)
not_found_reply r h = h ∙ unfold write_service_error is text in refl

module _ {W : Type 0} (s : OrderService W) where
  -- A text that uuid cannot parse is refused with 400 by both reading endpoints, and the world is
  -- left as it was: the repository is not asked.
  pub get_order-invalid :
      (param : String) (e : Error) (w : W)
      → s.uuids.parse param ≡ failure e
      → (get_order s param w
          ≡ (ok (reply 400 (problem "invalid_id" "order id must be a UUID" none)), w))
        × (list_orders s param w ≡ (
          ok (reply 400 (problem "invalid_user_id" "userId query param must be a UUID" none)),
          w,
        ))
  unfolding get_order list_orders
  get_order-invalid param e w h = (ground arith, ground arith)

  pub get_order-replies :
      UuidLaws s.uuids
      → (id : Uuid) (w : W) {r : Reply} → (get_order s (s.uuids.to_string id) w).0 ≡ ok r
      → ((o : Order) × ((Service.get_order s id w).0 ≡ ok o) × (r ≡ reply 200 (one_order o)))
        ⊎ ((e : Error) × ((Service.get_order s id w).0 ≡ err e) × (r ≡ write_service_error e none))
  unfolding get_order reply_to_found
  get_order-replies laws id w h = elim (Outcome-cases (Service.get_order s id w).0) [
    | inl (o, g) ↦ inl (o, g, ground (arith, laws.parse-to_string id))
    | inr (inl (e, g)) ↦ inr (e, g, ground (arith, laws.parse-to_string id))
    | inr (inr (m, g)) ↦ ground (arith, laws.parse-to_string id)
  ]

  -- GET of an order by an identifier as uuid prints it replies 200 with the order that the
  -- repository found, 404 order_not_found if its error is ErrOrderNotFound, and 500 with the
  -- error's text otherwise. uuid.Parse is assumed to read what String writes, and the repository's
  -- errors are assumed not to be of internal/service/errors.go.
  pub get_order-Found :
      UuidLaws s.uuids
      → (id : Uuid) (w : W) {r : Reply}
      → ((e : Error) (k : ServiceError)
          → (s.repo.get_by_id id w).0 ≡ err e
          → is e (service k) ≡ false)
      → (get_order s (s.uuids.to_string id) w).0 ≡ ok r
      → Found (s.repo.get_by_id id w).0 r
  get_order-Found laws id w {r} h found = elim (Outcome-cases (s.repo.get_by_id id w).0) [
    | inl (order, g) ↦
        rw g (ground (arith, get_order-replies laws id w found, get_order-ok s id w g))
    | inr (inl (e, g)) ↦ elim (Bool-cases (is e stored_order_not_found)) [
      | inl missing ↦ rw g (
          inl (
            missing,
            not_found_reply r (
                ground
                  (arith, get_order-replies laws id w found, get_order-missing s id w g missing)),
          ))
      | inr other ↦ rw g (
          inr (
            other,
            ground (
              arith,
              get_order-replies laws id w found,
              get_order-err s id w g other,
              write_service_error-internal e none (λ k. h e k g),
            ),
          ))
    ]
    | inr (inr (m, g)) ↦
        ground (arith, get_order-replies laws id w found, get_order-panicked s id w g)
  ]

-- The readiness probe replies 200 UP exactly when the ping of the database returned no error, and
-- 503 DEGRADED exactly when it returned one.
pub ready_iff :
    {W : Type 0} (ping : ℤ → W → Option Error × W) (w : W)
    → (((ready ping w).0 ≡ ok (reply 200 (readiness "UP" "UP")))
        ↔ ((ping ready_timeout w).0 ≡ none))
      × (((ready ping w).0 ≡ ok (reply 503 (readiness "DEGRADED" "DOWN")))
          ↔ ((e : Error) × ((ping ready_timeout w).0 ≡ some e)))
unfolding ready
ready_iff ping w = elim (Option-cases (ping ready_timeout w).0) [
  | inl up ↦ ((λ _. up, λ _. rw up), (λ h. ground arith, λ h. ground arith))
  | inr (e, down) ↦ ((λ h. ground arith, λ h. ground arith), (λ _. (e, down), λ _. rw down))
]
