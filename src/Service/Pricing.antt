-- ===== src/Service/Pricing.antt =====
-- The lines of an order: what a priced line says of the product that it was made from, and the
-- total.
use microservices_platform.Prelude.{
  ◌≡◌, sym, ◌∙◌, ap, true, ℤ, pos, ◌≤ℤ◌, ◌+ℤ◌, ◌*ℤ◌, List, [], ◌∷◌, ◌++◌, arith, int_laws,
  append_assoc, append-nil,
}
use microservices_platform.Int64.{wrap64, add64, mul64, IsInt64}
use microservices_platform.Int64.Laws.{wrap64-IsInt64, wrap64_of_IsInt64, wrap64-add_middle}
use microservices_platform.Go.{ok, value, Go}
use microservices_platform.Go.Laws.{Outcome-value, >>=-eq-ok}
use microservices_platform.Models.{OrderItem, CreateOrderItemRequest}
use microservices_platform.Client.Wire.{ProductInfo}
use microservices_platform.Service.{OrderService, price_item, price_items}

module _ {W : Type 0} (s : OrderService W) where
  -- `i` is a line for the request `r`: its product was fetched in the world `w`, was active and had
  -- enough in stock, and gave the line its identifier, its article number and its price.
  pub record Sells (r : CreateOrderItemRequest) (i : OrderItem) (w w' : W) : Type 0 where
    pub product : ProductInfo
    pub fetched : (s.get_product r.product_id w).0 ≡ ok product
    pub active : product.is_active ≡ true
    pub in_stock : r.quantity ≤ℤ product.stock_quantity
    pub parsed : s.uuids.parse product.id ≡ value i.product_id
    pub fresh : s.uuids.new (s.get_product r.product_id w).1 ≡ (i.id, w')
    pub same_sku : i.sku ≡ product.sku
    pub same_quantity : i.quantity ≡ r.quantity
    pub same_price : i.unit_price_cents ≡ product.price_cents

  -- One line for each request, in order, each fetched where the one before it left the world.
  abbrev pub Priced : List CreateOrderItemRequest → List OrderItem → W → W → Type 0
  Priced [] [] w w' = w ≡ w'
  Priced [] (i ∷ is) w w' = ⊥
  Priced (r ∷ rs) [] w w' = ⊥
  Priced (r ∷ rs) (i ∷ is) w w' = (w₁ : W) × Sells r i w w₁ × Priced rs is w₁ w'

  pub price_item-Sells :
      (r : CreateOrderItemRequest) (w : W) {t : ℤ} {i : OrderItem} {w' : W}
      → price_item s r w ≡ (ok (t, i), w')
      → Sells r i w w' × (t ≡ mul64 i.unit_price_cents i.quantity)
  unfolding price_item
  price_item-Sells r w h =
      let (product, e) =
        Outcome-value (s.get_product r.product_id w).0 (λ e p. ground arith)
          (λ m p. ground arith) in
      (
        record {
          product = product;
          fetched = e;
          active = ground arith;
          in_stock = ground arith;
          parsed = ground arith;
          fresh = ground arith;
          same_sku = ground arith;
          same_quantity = ground arith;
          same_price = ground arith;
        },
        ground arith,
      )

  pub price_item_of_Sells :
      (r : CreateOrderItemRequest) (i : OrderItem) (w w' : W)
      → Sells r i w w'
      → price_item s r w ≡ (ok (mul64 i.unit_price_cents i.quantity, i), w')
  unfolding price_item
  price_item_of_Sells r i w w' h = ground arith

-- The sum of the lines, as integers.
unfoldable pub exact_total : List OrderItem → ℤ
exact_total [] = pos 0
exact_total (i ∷ is) = i.unit_price_cents *ℤ i.quantity +ℤ exact_total is

-- The sum as the loop makes it, wrapping at every step.
abbrev pub sum64 : ℤ → List OrderItem → ℤ
sum64 total [] = total
sum64 total (i ∷ is) = sum64 (add64 total (mul64 i.unit_price_cents i.quantity)) is

-- However often the sum has wrapped on the way, it is the exact total, wrapped once.
pub sum64-eq-wrap64 :
    (total : ℤ) (is : List OrderItem)
    → IsInt64 total
    → sum64 total is ≡ wrap64 (total +ℤ exact_total is)
unfolding exact_total add64 mul64
sum64-eq-wrap64 total [] h = sym (wrap64_of_IsInt64 total h) ∙ ap wrap64 (omega int_laws)
sum64-eq-wrap64 total (i ∷ is) h =
    sum64-eq-wrap64 (add64 total (mul64 i.unit_price_cents i.quantity)) is (wrap64-IsInt64 _)
    ∙ wrap64-add_middle total (i.unit_price_cents *ℤ i.quantity) (exact_total is)

module _ {W : Type 0} (s : OrderService W) where
  abbrev price_rest :
      List CreateOrderItemRequest → ℤ → List OrderItem → ℤ × OrderItem → Go W (ℤ × List OrderItem)
  price_rest rs total items line = price_items s rs (add64 total line.0) (items ++ (line.1 ∷ []))

  pub price_items-Priced :
      (rs : List CreateOrderItemRequest) (total : ℤ) (items : List OrderItem) (w : W) {t : ℤ}
      {lines : List OrderItem} {w' : W}
      → price_items s rs total items w ≡ (ok (t, lines), w')
      → (is : List OrderItem) × (lines ≡ items ++ is) × Priced s rs is w w' × (t ≡ sum64 total is)
  unfolding price_items
  price_items-Priced [] total items w h =
      ([], rw append-nil (ground arith), ground arith, ground arith)
  price_items-Priced (r ∷ rs) total items w {t} {lines} {w'} h =
      let (line, w₁, e, rest) = >>=-eq-ok (price_item s r) (price_rest rs total items) w h in
      let (is, same, priced, summed) =
        price_items-Priced rs (add64 total line.0) (items ++ (line.1 ∷ [])) w₁ rest in
      let (sold, line_total) = price_item-Sells s r w e in
      (
        line.1 ∷ is,
        same ∙ append_assoc items (line.1 ∷ []) is,
        (w₁, sold, priced),
        summed ∙ ap (λ (x : ℤ). sum64 (add64 total x) is) line_total,
      )

  pub price_items_of_Priced :
      (rs : List CreateOrderItemRequest) (is : List OrderItem) (total : ℤ) (items : List OrderItem)
      (w w' : W)
      → Priced s rs is w w'
      → price_items s rs total items w ≡ (ok (sum64 total is, items ++ is), w')
  unfolding price_items
  price_items_of_Priced [] [] total items w w' h = rw append-nil (ground arith)
  price_items_of_Priced [] (i ∷ is) total items w w' h = absurd h
  price_items_of_Priced (r ∷ rs) [] total items w w' h = absurd h
  price_items_of_Priced (r ∷ rs) (i ∷ is) total items w w' (w₁, sold, rest) = ground (
    arith,
    price_item_of_Sells s r i w w₁ sold,
    price_items_of_Priced rs is (add64 total (mul64 i.unit_price_cents i.quantity))
        (items ++ (i ∷ [])) w₁ w' rest,
    append_assoc items (i ∷ []) is,
  )
