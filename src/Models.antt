-- ===== src/Models.antt =====
-- internal/models/order.go
use microservices_platform.Prelude.{String, ℤ, pos, ◌≤ℤ◌, ◌≢◌, List, [], All}
use microservices_platform.Uuid.{Uuid, Time}

-- A Go string type; the constants below are the values that the code writes.
abbrev pub OrderStatus : Type 0
OrderStatus = String

abbrev pub pending : OrderStatus
pending = "PENDING"

abbrev pub confirmed : OrderStatus
confirmed = "CONFIRMED"

abbrev pub failed : OrderStatus
failed = "FAILED"

abbrev pub cancelled : OrderStatus
cancelled = "CANCELLED"

pub record OrderItem : Type 0 where
  pub id : Uuid
  pub product_id : Uuid
  pub sku : String
  pub quantity : ℤ
  pub unit_price_cents : ℤ

pub record Order : Type 0 where
  pub id : Uuid
  pub user_id : Uuid
  pub status : OrderStatus
  pub total_cents : ℤ
  pub currency : String
  pub items : List OrderItem
  pub created_at : Time
  pub updated_at : Time

pub record CreateOrderItemRequest : Type 0 where
  pub product_id : String
  pub quantity : ℤ

pub record CreateOrderRequest : Type 0 where
  pub user_id : String
  pub items : List CreateOrderItemRequest

-- The `binding` tags of an item: `required`, and `required,gt=0`.
abbrev pub IsBoundItem : CreateOrderItemRequest → Type 0
IsBoundItem r = (r.product_id ≢ "") × (pos 1 ≤ℤ r.quantity)

-- The `binding` tags of a request: `required`, and `required,min=1,dive`.
abbrev pub IsBound : CreateOrderRequest → Type 0
IsBound r = (r.user_id ≢ "") × (r.items ≢ []) × All IsBoundItem r.items
