-- ===== src/Client/Wire.antt =====
-- What travels between order-service and its siblings: the types of
-- internal/client/product_client.go and internal/client/payment_client.go.
use microservices_platform.Prelude.{String, ℤ, Bool}

pub record ProductInfo : Type 0 where
  pub id : String
  pub sku : String
  pub name : String
  pub price_cents : ℤ
  pub stock_quantity : ℤ
  pub is_active : Bool

pub record ChargeRequest : Type 0 where
  pub order_id : String
  pub user_id : String
  pub amount_cents : ℤ
  pub currency : String

pub record ChargeResult : Type 0 where
  pub transaction_id : String
  pub status : String
  pub reason : String
