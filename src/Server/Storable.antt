-- ===== src/Server/Storable.antt =====
-- Which of the orders that the service prepares the tables accept.
mod Tests
use microservices_platform.Prelude.{
  ℕ, ◌-◌, ◌^◌, ◌≡◌, ◌↔◌, sym, subst, ap, ◌∙◌, refl, ℤ, pos, negsuc, ◌≤ℤ◌, ◌*ℤ◌, ◌+ℤ◌, pos-mul,
  String, List, [], ◌∷◌, All, arith, int_laws,
}
use microservices_platform.Go.{ok}
use microservices_platform.Int64.{IsInt64, wrap64}
use microservices_platform.Int64.Laws.{wrap64_of_IsInt64}
use microservices_platform.Models.{
  Order, OrderItem, CreateOrderItemRequest, CreateOrderRequest, IsBoundItem, IsBound,
}
use microservices_platform.Client.Wire.{ProductInfo}
use microservices_platform.Service.{OrderService, prepare}
use microservices_platform.Service.Pricing.{Sells, Priced, exact_total}
use microservices_platform.Service.Preparing.{Prepared, prepare-Prepared}
use microservices_platform.Repository.Schema.{IsVarchar, FitsItem, FitsSchema}

mul-nonneg : (a b : ℤ) → pos 0 ≤ℤ a → pos 0 ≤ℤ b → pos 0 ≤ℤ a *ℤ b
mul-nonneg (pos m) (pos n) h k = rw (pos-mul m n) (omega arith)
mul-nonneg (pos m) (negsuc n) h k = absurd (omega arith)
mul-nonneg (negsuc m) b h k = absurd (omega arith)

exact_total-nonneg : (is : List OrderItem) → All FitsItem is → pos 0 ≤ℤ exact_total is
unfolding exact_total
exact_total-nonneg [] h = omega arith
exact_total-nonneg (i ∷ is) ((sku, (_, one), (_, price)), rest) =
    let line = mul-nonneg i.unit_price_cents i.quantity price (omega arith) in
    let others = exact_total-nonneg is rest in omega int_laws

module _ {W : Type 0} (s : OrderService W) where
  -- What product-service promises of a product (product-service/app/schemas/product.py and models.py): a price above zero,
  -- an article number of at most 64 characters, and columns of type INTEGER.
  pub record Catalogue : Type 0 where
    pub promised :
        (id : String) (w : W) {p : ProductInfo}
        → (s.get_product id w).0 ≡ ok p
        → IsVarchar 64 p.sku
          × (pos 1 ≤ℤ p.price_cents)
          × (p.price_cents ≤ℤ pos (2 ^ 31 - 1))
          × (p.stock_quantity ≤ℤ pos (2 ^ 31 - 1))

  module _ (c : Catalogue) where
    Sells-FitsItem :
        (r : CreateOrderItemRequest) (i : OrderItem) (w w' : W)
        → IsBoundItem r
        → Sells s r i w w'
        → FitsItem i
    Sells-FitsItem r i w w' (named, many) h =
        let (short, price, price_fits, stock_fits) = c.promised r.product_id w h.fetched in
        let stocked = h.in_stock in
        rw (h.same_sku, h.same_quantity, h.same_price)
          (short, ((omega arith, omega arith), many), ((omega arith, price_fits), omega arith))

    Priced-FitsItem :
        (rs : List CreateOrderItemRequest) (is : List OrderItem) (w w' : W)
        → All IsBoundItem rs
        → Priced s rs is w w'
        → All FitsItem is
    Priced-FitsItem [] [] w w' b h = tt
    Priced-FitsItem [] (i ∷ is) w w' b h = absurd h
    Priced-FitsItem (r ∷ rs) [] w w' b h = absurd h
    Priced-FitsItem (r ∷ rs) (i ∷ is) w w' (bound, others) (w₁, sold, rest) =
        (Sells-FitsItem r i w w₁ bound sold, Priced-FitsItem rs is w₁ w' others rest)

    -- An order that was prepared from a request with the binding tags, and whose exact total fits
    -- into a 64-bit int, fits the columns and the checks of migrations/0001_init.up.sql exactly
    -- when this total is at most 2147483647. Assumes what product-service promises of its products
    -- (Catalogue): a price above zero, an article number of at most 64 characters, price and stock
    -- of type INTEGER.
    pub prepare-FitsSchema :
        (req : CreateOrderRequest) (w : W) {order : Order} {w' : W}
        → IsBound req
        → prepare s req w ≡ (ok order, w')
        → IsInt64 (exact_total order.items)
        → FitsSchema order ↔ (exact_total order.items ≤ℤ pos (2 ^ 31 - 1))
    prepare-FitsSchema req w {order} {w'} (user, lines, bound) h fits =
        let P = prepare-Prepared s req w h in
        let items = Priced-FitsItem req.items order.items _ w' bound P.priced in
        let summed : order.total_cents ≡ exact_total order.items =
          P.summed ∙ wrap64_of_IsInt64 (exact_total order.items) fits in
        let least = exact_total-nonneg order.items items in
        (
          (λ (rows, _). subst (λ t. t ≤ℤ pos (2 ^ 31 - 1)) summed rows.1.1),
          λ small. (
            (
              rw P.is_pending (omega arith),
              rw summed (omega arith, small),
              rw summed least,
              rw P.in_dollars (omega arith),
            ),
            items,
          ),
        )
