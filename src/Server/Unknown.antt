-- ===== src/Server/Unknown.antt =====
-- An order for a user that user-service does not know, from its answer to the reply.
mod Tests
use microservices_platform.Prelude.{
  inl, inr, true, none, List, [], ◌∷◌, ℕ, ◌≡◌, ◌↔◌, String, ◌<>◌, ℤ, pos, false,
}
use microservices_platform.Errors.{ServiceError, ClientError}
use microservices_platform.Go.{ok, err, value}
use microservices_platform.Log.{Logger}
use microservices_platform.Uuid.{Uuid, Uuids}
use microservices_platform.Models.{CreateOrderRequest, CreateOrderItemRequest}
use microservices_platform.Config.{Config}
use microservices_platform.Client.Http.{Transport}
use microservices_platform.Client.Calls.Unknown.{Unrelated, Answers, known_iff}
use microservices_platform.Service.{OrderService, OrderRepository}
use microservices_platform.Service.Refusing.{FailsAs, LinesFail, Refuses}
use microservices_platform.Handlers.{Reply, reply, problem, create_order}
use microservices_platform.Handlers.Placing.{ForeignErrors}
use microservices_platform.Handlers.ErrorMapping.{status_of, code_of}
use microservices_platform.Handlers.Refusing.{create_order-Refuses_iff}
use microservices_platform.Server.{order_service, resilient_client}

-- 404 user_not_found, without an order.
abbrev pub SaysUnknown : Reply → Type 0
SaysUnknown r = (message : String) × (r ≡ reply 404 (problem "user_not_found" message none))

module _ {W : Type 0} (s : OrderService W) where
  -- No line is refused because of its user.
  LinesFail-known_user :
      (rs : List CreateOrderItemRequest) (w : W) → LinesFail s rs w ServiceError.user_not_found → ⊥
  LinesFail-known_user [] w h = h
  LinesFail-known_user (r ∷ rs) w (inl h) = h
  LinesFail-known_user (r ∷ rs) w (inr (i, w₁, sold, h)) = LinesFail-known_user rs w₁ h

  Refuses-user :
      (req : CreateOrderRequest) (w : W)
      → Refuses s req w ServiceError.user_not_found
      → ((id : Uuid) × (s.uuids.parse req.user_id ≡ value id))
        × FailsAs true ClientError.user_not_found (s.verify_user_exists req.user_id w).0
  Refuses-user req w (inl (other, bad)) = absurd (cc)
  Refuses-user req w (inr (parsed, inl fails)) = (parsed, fails)
  Refuses-user req w (inr (parsed, inr (verified, fails))) =
      absurd (LinesFail-known_user req.items _ fails)

module _ {W Body : Type 0} (t : Transport W Body) (logger : Logger W) (uuids : Uuids W)
    (repo : OrderRepository W) (cfg : Config) where
  -- The final answer of user-service to the GET of a user.
  abbrev pub UserAnswers : String → ℕ → W → Type 0
  UserAnswers user_id status w =
      Answers t logger (resilient_client cfg cfg.user_service_url "user-service")
        (cfg.user_service_url <> "/api/v1/users/" <> user_id) status w

  -- In the service that main puts together, the handler replies 404 user_not_found to a bound
  -- order exactly when uuid can parse the user's identifier and the final answer of user-service
  -- to the GET of this user has status 404. Assumes a number of retries that is not negative, that
  -- the errors of net/http, of encoding/json and of a context are not variables of internal/client
  -- (Unrelated), and that those of storing are not of internal/service/errors.go.
  pub create_order-unknown_user_iff :
      (n : ℕ)
      → cfg.http_retry_attempts ≡ pos n
      → Unrelated t
      → ForeignErrors (order_service t logger uuids repo cfg)
      → (req : CreateOrderRequest) (w : W)
      → ((r : Reply) × ((create_order (order_service t logger uuids repo cfg) (value req) w).0
            ≡ ok r)
          × SaysUnknown r)
        ↔ (((id : Uuid) × (uuids.parse req.user_id ≡ value id)) × UserAnswers req.user_id 404 w)
  unfolding status_of code_of
  create_order-unknown_user_iff n retries unrelated foreign_errors req w =
      let s = order_service t logger uuids repo cfg in
      let refuses = create_order-Refuses_iff s req w foreign_errors ServiceError.user_not_found in
      let answers =
        (known_iff t logger (resilient_client cfg cfg.user_service_url "user-service") unrelated n
          retries req.user_id w).0 in
      (
        (λ h.
            let (parsed, failing) = Refuses-user s req w (refuses.0 h) in
            (parsed, answers.0 failing)),
        (λ (parsed, answer). refuses.1 (inr (parsed, inl (answers.1 answer)))),
      )
