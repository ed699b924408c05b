-- ===== src/Service/Refusals.antt =====
-- The errors of `CreateOrder` before the order is stored.
use microservices_platform.Prelude.{◌≡◌, ◌⊎◌, true, ℤ, List, [], ◌∷◌, arith}
use microservices_platform.Errors.{Error, service, ServiceError, is}
use microservices_platform.Go.{err}
use microservices_platform.Models.{OrderItem, CreateOrderRequest, CreateOrderItemRequest}
use microservices_platform.Service.{
  OrderService, user_error, product_error, price_item, price_items, prepare,
}

-- The error wraps this variable of internal/service/errors.go.
abbrev pub Wraps : Error → ServiceError → Type 0
Wraps e k = is e (service k) ≡ true

-- A line is refused because its product is unknown, cannot be sold, or could not be looked up.
abbrev pub IsLineRefusal : Error → Type 0
IsLineRefusal e =
    Wraps e ServiceError.product_not_found
    ⊎ (Wraps e ServiceError.product_unavailable ⊎ Wraps e ServiceError.upstream_unavailable)

-- An order is refused for one of these, for its user, or because its request is malformed.
abbrev pub IsRefusal : Error → Type 0
IsRefusal e =
    Wraps e ServiceError.validation ⊎ (Wraps e ServiceError.user_not_found ⊎ IsLineRefusal e)

module _ {W : Type 0} (s : OrderService W) where
  price_item-IsLineRefusal :
      (r : CreateOrderItemRequest) (w : W) {e : Error}
      → (price_item s r w).0 ≡ err e
      → IsLineRefusal e
  unfolding price_item product_error is
  price_item-IsLineRefusal r w h = ground arith

  pub price_items-IsLineRefusal :
      (rs : List CreateOrderItemRequest) (total : ℤ) (items : List OrderItem) (w : W) {e : Error}
      → (price_items s rs total items w).0 ≡ err e
      → IsLineRefusal e
  unfolding price_items
  price_items-IsLineRefusal [] total items w h = absurd (cc)
  price_items-IsLineRefusal (r ∷ rs) total items w h =
      grind (arith, price_item-IsLineRefusal r w, price_items-IsLineRefusal rs)

  pub prepare-IsRefusal :
      (req : CreateOrderRequest) (w : W) {e : Error} → (prepare s req w).0 ≡ err e → IsRefusal e
  unfolding prepare user_error is
  prepare-IsRefusal req w h = grind (arith, price_items-IsLineRefusal req.items)
