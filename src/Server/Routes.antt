-- ===== src/Server/Routes.antt =====
-- cmd/server/main.go: the middleware and the routes.
use microservices_platform.Prelude.{◌≡◌, ◌≢◌, ◌⊎◌, String, ℤ, Option}
use microservices_platform.Errors.{Error}
use microservices_platform.Go.{Outcome, ok, err, panicked, Go, Result}
use microservices_platform.Log.{Logger}
use microservices_platform.Uuid.{Time}
use microservices_platform.Models.{CreateOrderRequest}
use microservices_platform.Service.{OrderService}
use microservices_platform.Handlers
use microservices_platform.Handlers.{Reply, health, ready, get_order, list_orders}
use microservices_platform.Handlers.Replying.{
  health-ne-err, ready-ne-err, create_order-ne-err, get_order-ne-err, list_orders-ne-err,
}
use microservices_platform.Middleware.{Inbound, Context, fresh, Clock, Recover, serve}
use microservices_platform.Middleware.Serving.{
  Recovering, Completed, Recovered, handled, serve-Answered,
}

-- The routes that main registers, each with what gin takes from a request for its handler: the bound
-- body, the path parameter, or the query parameter.
pub data Endpoint : Type 0 where
  health_probe : Endpoint
  ready_probe : Endpoint
  post_order : Result CreateOrderRequest → Endpoint
  get_one : String → Endpoint
  get_list : String → Endpoint

module _ {W : Type 0} (s : OrderService W) (now : W → Time × W)
    (ping : ℤ → W → Option Error × W) where
  -- The handler of a route.
  unfoldable pub handle : Endpoint → Go W Reply
  handle health_probe = health now
  handle ready_probe = ready ping
  handle (post_order bound) = Handlers.create_order s bound
  handle (get_one param) = get_order s param
  handle (get_list param) = list_orders s param

  handle-ne-err : (endpoint : Endpoint) (w : W) (e : Error) → (handle endpoint w).0 ≢ err e
  unfolding handle
  handle-ne-err health_probe w e = health-ne-err now w e
  handle-ne-err ready_probe w e = ready-ne-err ping w e
  handle-ne-err (post_order bound) w e = create_order-ne-err s bound w e
  handle-ne-err (get_one param) w e = get_order-ne-err s param w e
  handle-ne-err (get_list param) w e = list_orders-ne-err s param w e

  module _ (recover : Recover W) (clock : Clock W) (logger : Logger W) where
    -- A request under a route, from an empty context on.
    unfoldable pub serve_route : Endpoint → Inbound → W → Outcome (Unit {0}) × (Context × W)
    serve_route endpoint inbound w =
        serve recover clock logger s.uuids inbound (handle endpoint) (fresh, w)

    -- Every request under one of the five routes of main is answered: if its handler replied, by
    -- this reply with the identifier of the request as X-Request-Id, and the last thing that is
    -- done is the log line request_completed; if its handler panicked, by a 500 with that
    -- identifier, and what follows the panic is the recovery only. Assumes what gin documents of
    -- its recovery (Recovering).
    pub serve_route-Answered :
        (endpoint : Endpoint) (inbound : Inbound) (w : W)
        → Recovering recover
        → let r = serve_route endpoint inbound w in
          let called = handled clock s.uuids inbound (handle endpoint) w in
          (r.0 ≡ ok tt)
          × (((reply : Reply) × (called.0 ≡ ok reply)
                × Completed clock s.uuids inbound (handle endpoint) w recover logger reply r.1)
              ⊎ ((message : String) × (called.0 ≡ panicked message)
                  × Recovered clock s.uuids inbound (handle endpoint) w recover logger message r.1))
    unfolding serve_route
    serve_route-Answered endpoint inbound w laws =
        serve-Answered clock s.uuids inbound (handle endpoint) w recover logger laws
          (handle-ne-err endpoint _)
