-- ===== src/Handlers.antt =====
-- internal/handlers: the HTTP surface of order-service.
pub mod ErrorMapping
pub mod Placing
pub mod Reading
pub mod Replying
pub mod Refusing
pub mod Showing
pub mod Charging
mod Tests
use microservices_platform.Prelude.{
  ℕ, String, ℤ, pos, Bool, List, Option, none, some, length, if◌then◌else◌,
}
use microservices_platform.Errors.{Error, ServiceError, service, text, is}
use microservices_platform.Go.{Go, Result, value, failure, pure, run, attempt, ◌>>=◌}
use microservices_platform.Uuid.{Uuid, Time}
use microservices_platform.Models.{Order, CreateOrderRequest}
use microservices_platform.Service
use microservices_platform.Service.{OrderService}

-- The JSON objects that the handlers write. `problem` is `gin.H{"error", "message"}`, with "order"
-- where an order is given.
pub data ReplyBody : Type 0 where
  problem : String → String → Option Order → ReplyBody
  one_order : Order → ReplyBody
  orders : List Order → ℕ → ReplyBody
  alive : String → String → Time → ReplyBody
  readiness : String → String → ReplyBody

-- `c.JSON(status, body)`
pub record Reply : Type 0 where
  pub status : ℕ
  pub body : ReplyBody

abbrev pub reply : ℕ → ReplyBody → Reply
reply status body = record { status = status; body = body }

-- `writeServiceError`
pub write_service_error : Error → Option Order → Reply
write_service_error e order =
    let message = text e in
    if is e (service ServiceError.validation)
    then reply 400 (problem "validation_error" message order)
    else if is e (service ServiceError.user_not_found)
    then reply 404 (problem "user_not_found" message order)
    else if is e (service ServiceError.product_not_found)
    then reply 404 (problem "product_not_found" message order)
    else if is e (service ServiceError.product_unavailable)
    then reply 409 (problem "product_unavailable" message order)
    else if is e (service ServiceError.order_not_found)
    then reply 404 (problem "order_not_found" message order)
    else if is e (service ServiceError.payment_declined)
    then reply 402 (problem "payment_declined" message order)
    else if is e (service ServiceError.upstream_unavailable)
    then reply 502 (problem "upstream_unavailable" message order)
    else reply 500 (problem "internal_error" message order)

-- The end of the handler `CreateOrder`, on the pair that the service returns.
unfoldable pub reply_to_placed : Result (Order × Option Error) → Reply
reply_to_placed (failure e) = write_service_error e none
reply_to_placed (value (order, some e)) = write_service_error e (some order)
reply_to_placed (value (order, none)) = reply 201 (one_order order)

unfoldable pub reply_to_found : Result Order → Reply
reply_to_found (failure e) = write_service_error e none
reply_to_found (value order) = reply 200 (one_order order)

unfoldable pub reply_to_listed : Result (List Order) → Reply
reply_to_listed (failure e) = write_service_error e none
reply_to_listed (value found) = reply 200 (orders found (length found))

module _ {W : Type 0} (s : OrderService W) where
  -- `CreateOrder`, on what gin's `ShouldBindJSON` made of the body.
  unfoldable pub create_order : Result CreateOrderRequest → Go W Reply
  create_order (failure e) = pure (reply 400 (problem "validation_error" (text e) none))
  create_order (value req) = do
    placed ← attempt (Service.create_order s req)
    pure (reply_to_placed placed)

  -- `GetOrder`, on the path parameter `id`.
  unfoldable pub get_order : String → Go W Reply
  get_order param = elim (s.uuids.parse param) [
    | failure e ↦ pure (reply 400 (problem "invalid_id" "order id must be a UUID" none))
    | value id ↦ do found ← attempt (Service.get_order s id); pure (reply_to_found found)
  ]

  -- `ListOrders`, on the query parameter `userId`.
  unfoldable pub list_orders : String → Go W Reply
  list_orders param = elim (s.uuids.parse param) [
    | failure e ↦
        pure (reply 400 (problem "invalid_user_id" "userId query param must be a UUID" none))
    | value user_id ↦ do
      found ← attempt (Service.list_orders_by_user s user_id)
      pure (reply_to_listed found)
  ]

-- `Health`: the clock alone.
pub health : {W : Type 0} → (W → Time × W) → Go W Reply
health now = do timestamp ← run now; pure (reply 200 (alive "UP" "order-service" timestamp))

-- The wait of `Ready` for the database, in nanoseconds.
abbrev pub ready_timeout : ℤ
ready_timeout = pos 1_500_000_000

-- `Ready`, over `pool.Ping` under a timeout.
pub ready : {W : Type 0} → (ℤ → W → Option Error × W) → Go W Reply
ready ping = do
  down ← run (ping ready_timeout)
  elim down [
    | some e ↦ pure (reply 503 (readiness "DEGRADED" "DOWN"))
    | none ↦ pure (reply 200 (readiness "UP" "UP"))
  ]
