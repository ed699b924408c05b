-- ===== src/Server/Posting.antt =====
-- A request that posts an order, from gin's chain down to the sibling services.
mod Tests
use microservices_platform.Prelude.{
  ℕ, ◌≡◌, refl, ap, ◌∙◌, ◌⊎◌, inl, inr, String, ◌<>◌, ℤ, pos, negsuc, Option, none, arith,
}
use microservices_platform.Errors.{Error}
use microservices_platform.Go.{Outcome, ok, panicked, value}
use microservices_platform.Go.Laws.{Returns}
use microservices_platform.Log.{Logger}
use microservices_platform.Uuid.{Uuid, Uuids, Time}
use microservices_platform.Models.{Order, OrderStatus, CreateOrderRequest}
use microservices_platform.Config.{Config}
use microservices_platform.Client.Http.{Transport, failure_line}
use microservices_platform.Service.{OrderService, OrderRepository}
use microservices_platform.Handlers.{Reply}
use microservices_platform.Handlers.Placing.{
  ForeignErrors, IsCreated, IsDeclined, IsRefused, IsUnsaved, create_order-replies,
}
use microservices_platform.Handlers.Replying.{create_order-replied, create_order-panicked}
use microservices_platform.Middleware.{Inbound, Context, Clock, Recover, choose_id}
use microservices_platform.Middleware.Serving.{begun, id_of, Completed, serve-ok, serve-panicked}
use microservices_platform.Server.{order_service, resilient_client}
use microservices_platform.Server.Routes.{post_order, handle, serve_route}
use microservices_platform.Server.Totality.{
  service_create_order-Returns, service_create_order-panics,
}

module _ {W Body : Type 0} (t : Transport W Body) (logger : Logger W) (uuids : Uuids W)
    (repo : OrderRepository W) (cfg : Config) (now : W → Time × W) (ping : ℤ → W → Option Error × W)
    (recover : Recover W) (clock : Clock W) where
  -- The whole of a request to `POST /api/v1/orders` that gin could bind.
  abbrev pub post : CreateOrderRequest → Inbound → W → Outcome (Unit {0}) × (Context × W)
  post req inbound w =
      serve_route (order_service t logger uuids repo cfg) now ping recover clock logger
        (post_order (value req)) inbound w

  -- In the service that main puts together, a POST of an order that gin could bind is answered,
  -- whatever the network does, by one of four replies (201 with a CONFIRMED order, 402 with the
  -- FAILED order, a refusal of the service, or 500 with a failure to store), under the identifier
  -- of the request as X-Request-Id; and the last thing that is done is the log line
  -- request_completed with that status and identifier. Assumes a number of retries that is not
  -- negative, and a repository whose Create and UpdateStatus do not panic and whose errors of
  -- Create are not of internal/service/errors.go.
  pub post-Completed :
      (n : ℕ)
      → cfg.http_retry_attempts ≡ pos n
      → ((o : Order) (w : W) → Returns (repo.create o w).0)
      → ((id : Uuid) (status : OrderStatus) (w : W) → Returns (repo.update_status id status w).0)
      → ForeignErrors (order_service t logger uuids repo cfg)
      → (req : CreateOrderRequest) (inbound : Inbound) (w : W)
      → (reply : Reply) × ((IsCreated reply ⊎ IsDeclined reply)
          ⊎ (IsRefused reply ⊎ IsUnsaved reply))
        × ((post req inbound w).0 ≡ ok tt)
        × Completed clock uuids inbound
            (handle (order_service t logger uuids repo cfg) now ping (post_order (value req)))
            w
            recover
            logger
            reply
            (post req inbound w).1
  unfolding serve_route handle
  post-Completed n retries creating updating foreign_errors req inbound w =
      let w₂ = (clock.now (choose_id uuids inbound w).1).1 in
      let (reply, done) =
        create_order-replied (order_service t logger uuids repo cfg) req w₂ (
          service_create_order-Returns t logger uuids repo cfg n retries creating updating req
            w₂) in
      let served =
        serve-ok clock uuids inbound
          (handle (order_service t logger uuids repo cfg) now ping (post_order (value req))) w
          recover logger done in
      (
        reply,
        create_order-replies (order_service t logger uuids repo cfg) foreign_errors req w₂ done,
        rw served refl,
        rw served (refl, refl),
      )

  -- In the service that main puts together, with a negative number of retries in the settings, a
  -- POST of an order whose user identifier uuid can parse ends in gin's recovery of a nil
  -- dereference: nothing was sent, the one line logged is that of the call of user-service, and
  -- request_completed is not logged.
  pub post-Recovered :
      (n : ℕ) (req : CreateOrderRequest) (id : Uuid) (inbound : Inbound) (w : W)
      → cfg.http_retry_attempts ≡ negsuc n
      → uuids.parse req.user_id ≡ value id
      → let (request_id, w₁) = choose_id uuids inbound w in
        post req inbound w ≡ (
          ok tt,
          recover "runtime error: invalid memory address or nil pointer dereference" (
            begun request_id,
            logger
                (failure_line
                  (resilient_client cfg cfg.user_service_url "user-service")
                  "GET"
                  (cfg.user_service_url <> "/api/v1/users/" <> req.user_id)
                  none)
                (clock.now w₁).1,
          ),
        )
  unfolding serve_route handle
  post-Recovered n req id inbound w retries parsed =
      let w₂ = (clock.now (choose_id uuids inbound w).1).1 in
      let bad =
        create_order-panicked (order_service t logger uuids repo cfg) req w₂
          (service_create_order-panics t logger uuids repo cfg n req id w₂ retries parsed) in
      serve-panicked clock uuids inbound
        (handle (order_service t logger uuids repo cfg) now ping (post_order (value req))) w recover
        logger (ap (λ x. x.0) bad)
      ∙ ap
          (λ (x : Outcome Reply × W). (
            ok tt,
            recover "runtime error: invalid memory address or nil pointer dereference"
                (begun (choose_id uuids inbound w).0, x.1),
          ))
          bad
