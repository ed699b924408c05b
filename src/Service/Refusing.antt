-- ===== src/Service/Refusing.antt =====
-- Which orders `CreateOrder` refuses, and as what: a description by the answers of the siblings.
pub mod Lines
pub mod Orders
use microservices_platform.Prelude.{
  ℕ, ◌≡◌, ◌↔◌, ◌⊎◌, inl, inr, refl, sym, ap, ◌∙◌, subst, ◌<>◌, Bool, true, false, Bool-cases, ℤ,
  pos, ◌≤ℤ◌, ltb_ℤ, List, [], ◌∷◌, ◌++◌, ◌==◌, ==_iff, if◌then◌else◌, arith,
}
use microservices_platform.Errors.{
  Error, sentinel, wrapped, service, client, ServiceError, ClientError, is, address,
}
use microservices_platform.Errors.Laws.{is-address, is-wrapped}
use microservices_platform.Go.{Outcome, ok, err, value, failure}
use microservices_platform.Go.Laws.{Outcome-cases, Result-cases}
use microservices_platform.Int64.{add64, mul64}
use microservices_platform.Uuid.{Uuid}
use microservices_platform.Models.{OrderItem, Order, CreateOrderRequest, CreateOrderItemRequest}
use microservices_platform.Client.Wire.{ProductInfo}
use microservices_platform.Service.{
  OrderService, detailed, user_error, product_error, price_item, price_items, prepare, create_order,
}
use microservices_platform.Service.Outcomes.{settle-ne-err}
use microservices_platform.Service.Refusals.{Wraps}
use microservices_platform.Service.Preparing.{numbered_world}
use microservices_platform.Service.Pricing.{Sells, price_item-Sells, price_item_of_Sells}

-- A call failed with an error that wraps this variable of internal/client, or with another.
abbrev pub FailsAs : {A : Type 0} → Bool → ClientError → Outcome A → Type 0
FailsAs b k r = (e : Error) × (r ≡ err e) × (is e (client k) ≡ b)

-- The call is refused as `k`.
abbrev pub RefusedAs : {A : Type 0} → ServiceError → Outcome A → Type 0
RefusedAs k r = (e : Error) × (r ≡ err e) × Wraps e k

module _ {W : Type 0} (s : OrderService W) where
  -- Why a line cannot be priced: product-service does not know its product; the product is not
  -- active, or has too little in stock; or there is no usable answer.
  abbrev pub LineFails : CreateOrderItemRequest → W → ServiceError → Type 0
  LineFails r w ServiceError.product_not_found =
      FailsAs true ClientError.product_not_found (s.get_product r.product_id w).0
  LineFails r w ServiceError.product_unavailable =
      (p : ProductInfo) × ((s.get_product r.product_id w).0 ≡ ok p)
      × ((p.is_active ≡ false) ⊎ (r.quantity ≤ℤ p.stock_quantity → ⊥))
  LineFails r w ServiceError.upstream_unavailable =
      FailsAs false ClientError.product_not_found (s.get_product r.product_id w).0
      ⊎ ((p : ProductInfo) × ((s.get_product r.product_id w).0 ≡ ok p)
          × (p.is_active ≡ true)
          × (r.quantity ≤ℤ p.stock_quantity)
          × ((e : Error) × (s.uuids.parse p.id ≡ failure e)))
  LineFails r w ServiceError.validation = ⊥
  LineFails r w ServiceError.user_not_found = ⊥
  LineFails r w ServiceError.order_not_found = ⊥
  LineFails r w ServiceError.payment_declined = ⊥

  -- The first line that cannot be priced.
  abbrev pub LinesFail : List CreateOrderItemRequest → W → ServiceError → Type 0
  LinesFail [] w k = ⊥
  LinesFail (r ∷ rs) w k =
      LineFails r w k ⊎ ((i : OrderItem) × (w₁ : W) × Sells s r i w w₁ × LinesFail rs w₁ k)

  module _ (req : CreateOrderRequest) (w : W) where
    -- Why a user is refused: user-service does not know them, or gave no usable answer.
    abbrev pub UserFails : ServiceError → Type 0
    UserFails ServiceError.user_not_found =
        FailsAs true ClientError.user_not_found (s.verify_user_exists req.user_id w).0
    UserFails ServiceError.upstream_unavailable =
        FailsAs false ClientError.user_not_found (s.verify_user_exists req.user_id w).0
    UserFails ServiceError.validation = ⊥
    UserFails ServiceError.product_not_found = ⊥
    UserFails ServiceError.product_unavailable = ⊥
    UserFails ServiceError.order_not_found = ⊥
    UserFails ServiceError.payment_declined = ⊥

    -- Why an order is refused: its user identifier cannot be parsed, or its user is refused, or,
    -- once the user is verified, its first line that cannot be priced.
    abbrev pub Refuses : ServiceError → Type 0
    Refuses k =
        ((k ≡ ServiceError.validation) × ((e : Error) × (s.uuids.parse req.user_id ≡ failure e)))
        ⊎ (((id : Uuid) × (s.uuids.parse req.user_id ≡ value id))
            × (UserFails k
                ⊎ (((s.verify_user_exists req.user_id w).0 ≡ ok tt)
                    × LinesFail req.items (numbered_world s req w) k)))
