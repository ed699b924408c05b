-- ===== src/Service.antt =====
-- internal/service/order_service.go: placing an order.
pub mod Pricing
pub mod Preparing
pub mod Outcomes
pub mod Refusals
pub mod Placing
pub mod Reading
pub mod Totality
pub mod Refusing
pub mod Traffic
pub mod Charging
mod Tests
use microservices_platform.Prelude.{
  String, ◌<>◌, Bool, not, ◌||◌, ℤ, pos, ltb_ℤ, List, [], ◌∷◌, ◌++◌, Option, none, some, str_eq,
  if◌then◌else◌,
}
use microservices_platform.Int64.{add64, mul64}
use microservices_platform.Uuid.{Uuid, Uuids}
use microservices_platform.Errors.{
  Error, sentinel, wrapped, service, client, stored_order_not_found, text, is, ServiceError,
  ClientError,
}
use microservices_platform.Go.{
  Go, Result, value, failure, pure, run, lift, attempt, rethrow, effect, fail_if, ◌>>=◌, ◌>>◌,
}
use microservices_platform.Log.{Logger, Level, Value}
use microservices_platform.Models.{
  OrderItem, Order, OrderStatus, pending, confirmed, failed, CreateOrderItemRequest,
  CreateOrderRequest,
}
use microservices_platform.Client.Wire.{ProductInfo, ChargeRequest, ChargeResult}

-- `repository.OrderRepository`. `create` returns the order as the call leaves it.
pub record OrderRepository (W : Type 0) : Type 0 where
  pub create : Order → Go W Order
  pub get_by_id : Uuid → Go W Order
  pub list_by_user : Uuid → Go W (List Order)
  pub update_status : Uuid → OrderStatus → Go W (Unit {0})

-- `UserVerifier`
abbrev pub UserVerifier : Type 0 → Type 0
UserVerifier W = String → Go W (Unit {0})

-- `ProductFetcher`
abbrev pub ProductFetcher : Type 0 → Type 0
ProductFetcher W = String → Go W ProductInfo

-- `PaymentCharger`
abbrev pub PaymentCharger : Type 0 → Type 0
PaymentCharger W = ChargeRequest → Go W ChargeResult

-- `OrderService`, and the package uuid that it calls.
pub record OrderService (W : Type 0) : Type 0 where
  pub repo : OrderRepository W
  pub verify_user_exists : UserVerifier W
  pub get_product : ProductFetcher W
  pub charge : PaymentCharger W
  pub logger : Logger W
  pub uuids : Uuids W

-- `fmt.Errorf("%w<detail>", e)`
abbrev pub detailed : ServiceError → String → Error
detailed e detail = wrapped "" detail (sentinel (service e))

-- `fmt.Errorf("%w: %v", ErrUpstreamUnavailable, err)`
abbrev pub upstream : Error → Error
upstream e = detailed ServiceError.upstream_unavailable (": " <> text e)

-- What `CreateOrder` makes of an error of `VerifyUserExists`.
pub user_error : Error → Error
user_error e =
    if is e (client ClientError.user_not_found)
    then sentinel (service ServiceError.user_not_found)
    else upstream e

-- What it makes of an error of `GetProduct`.
pub product_error : String → Error → Error
product_error product_id e =
    if is e (client ClientError.product_not_found)
    then detailed ServiceError.product_not_found (": product " <> product_id)
    else upstream e

abbrev unusable : ProductInfo → ℤ → Bool
unusable p quantity = not p.is_active || ltb_ℤ p.stock_quantity quantity

module _ {W : Type 0} (s : OrderService W) where
  -- One round of the loop over `req.Items`: the price of the line, and the line itself.
  unfoldable pub price_item : CreateOrderItemRequest → Go W (ℤ × OrderItem)
  price_item r = do
    product ← rethrow (product_error r.product_id) (s.get_product r.product_id)
    fail_if (unusable product r.quantity)
        (detailed ServiceError.product_unavailable (": product " <> r.product_id))
    product_id ←
        rethrow
          (λ _.
            detailed ServiceError.upstream_unavailable
              ": product-service returned an invalid product id")
          (lift (s.uuids.parse product.id))
    let line_total = mul64 product.price_cents r.quantity
    id ← run s.uuids.new
    pure (
      line_total,
      record {
        id = id;
        product_id = product_id;
        sku = product.sku;
        quantity = r.quantity;
        unit_price_cents = product.price_cents;
      },
    )

  -- The loop, on the total and the lines so far.
  unfoldable pub price_items :
      List CreateOrderItemRequest → ℤ → List OrderItem → Go W (ℤ × List OrderItem)
  price_items [] total items = pure (total, items)
  price_items (r ∷ rs) total items = do
    line ← price_item r
    price_items rs (add64 total line.0) (items ++ (line.1 ∷ []))

  -- `CreateOrder` down to the call of `repo.Create`.
  unfoldable pub prepare : CreateOrderRequest → Go W Order
  prepare req = do
    user_id ←
        rethrow (λ _. detailed ServiceError.validation ": invalid userId")
          (lift (s.uuids.parse req.user_id))
    rethrow user_error (s.verify_user_exists req.user_id)
    id ← run s.uuids.new
    priced ← price_items req.items (pos 0) []
    pure (record {
      id = id;
      user_id = user_id;
      status = pending;
      total_cents = priced.0;
      currency = "USD";
      items = priced.1;
      created_at = 0;
      updated_at = 0;
    })

  unfoldable pub charge_request : Order → ChargeRequest
  charge_request order = record {
    order_id = s.uuids.to_string order.id;
    user_id = s.uuids.to_string order.user_id;
    amount_cents = order.total_cents;
    currency = order.currency;
  }

  -- `finalStatus`, with the log line of a charge that did not succeed.
  unfoldable pub final_status : Order → Result ChargeResult → Go W OrderStatus
  final_status order (failure e) = do
    effect (
        s.logger (record {
          level = Level.error;
          message = "payment charge failed, marking order as failed";
          attrs =
              ("orderId", Value.text (s.uuids.to_string order.id))
              ∷ ("error", Value.text (text e))
              ∷ [];
        }))
    pure failed
  final_status order (value charged) =
      if not (str_eq charged.status "SUCCEEDED")
      then (do
        effect (
            s.logger (record {
              level = Level.warn;
              message = "payment declined";
              attrs =
                  ("orderId", Value.text (s.uuids.to_string order.id))
                  ∷ ("reason", Value.text charged.reason)
                  ∷ [];
            }))
        pure failed)
      else pure confirmed

  -- `repo.UpdateStatus` with the final status; its error is logged and dropped.
  unfoldable pub record_status : Order → OrderStatus → Go W (Unit {0})
  record_status order status = do
    updated ← attempt (s.repo.update_status order.id status)
    elim updated [
      | value done ↦ pure tt
      | failure e ↦ effect (
          s.logger (record {
            level = Level.error;
            message = "failed to persist final order status";
            attrs =
                ("orderId", Value.text (s.uuids.to_string order.id))
                ∷ ("error", Value.text (text e))
                ∷ [];
          }))
    ]

  -- `CreateOrder` from the call of `repo.UpdateStatus` to its end: it may return an order and an
  -- error.
  unfoldable pub conclude : Order → OrderStatus → Go W (Order × Option Error)
  conclude order status = do
    record_status order status
    pure (
      record order { status = status },
      if str_eq status failed
          then some (sentinel (service ServiceError.payment_declined))
          else none,
    )

  -- `CreateOrder` once payment-service has answered.
  unfoldable pub finish : Order → Result ChargeResult → Go W (Order × Option Error)
  finish order charged = do status ← final_status order charged; conclude order status

  -- `CreateOrder` from the charge on.
  unfoldable pub settle : Order → Go W (Order × Option Error)
  settle order = do charged ← attempt (s.charge (charge_request order)); finish order charged

  -- `CreateOrder`. An `err` outcome is the pair of a nil order and the error.
  unfoldable pub create_order : CreateOrderRequest → Go W (Order × Option Error)
  create_order req = do
    order ← prepare req
    stored ← rethrow (wrapped "persisting order: " "") (s.repo.create order)
    settle stored

  -- `GetOrder`
  unfoldable pub get_order : Uuid → Go W Order
  get_order id =
      rethrow
        (λ e.
          if is e stored_order_not_found
          then sentinel (service ServiceError.order_not_found)
          else e)
        (s.repo.get_by_id id)

  -- `ListOrdersByUser`
  unfoldable pub list_orders_by_user : Uuid → Go W (List Order)
  list_orders_by_user user_id = s.repo.list_by_user user_id
