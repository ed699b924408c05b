-- ===== src/Service/Refusing/Lines.antt =====
-- The lines of an order that cannot be priced.
use microservices_platform.Prelude.{
  ◌≡◌, inl, inr, refl, ◌<>◌, Bool-cases, ℤ, ltb_ℤ, List, [], ◌∷◌, ◌++◌, arith,
}
use microservices_platform.Errors.{Error, client, ServiceError, ClientError, is}
use microservices_platform.Go.{ok, err}
use microservices_platform.Go.Laws.{Outcome-cases, Result-cases}
use microservices_platform.Int64.{add64, mul64}
use microservices_platform.Models.{OrderItem, CreateOrderItemRequest}
use microservices_platform.Service.{OrderService, detailed, product_error, price_item, price_items}
use microservices_platform.Service.Refusals.{Wraps}
use microservices_platform.Service.Pricing.{price_item-Sells, price_item_of_Sells}
use microservices_platform.Service.Refusing.{RefusedAs, LineFails, LinesFail}

module _ {W : Type 0} (s : OrderService W) where
  price_item-err :
      (r : CreateOrderItemRequest) (w : W) {e : Error}
      → (price_item s r w).0 ≡ err e
      → (k : ServiceError) × Wraps e k × LineFails s r w k
  unfolding price_item product_error is
  price_item-err r w {e} h = elim (Outcome-cases (s.get_product r.product_id w).0) [
    | inl (p, fetched) ↦ elim (Bool-cases p.is_active) [
      | inr inactive ↦ (ServiceError.product_unavailable, ground arith, (p, fetched, inl inactive))
      | inl active ↦ elim (Bool-cases (ltb_ℤ p.stock_quantity r.quantity)) [
        | inl short ↦
            (ServiceError.product_unavailable, ground arith, (p, fetched, inr (λ m. ground arith)))
        | inr enough ↦ elim (Result-cases (s.uuids.parse p.id)) [
          | inl (id, parsed) ↦ absurd (ground arith)
          | inr (cause, unparsed) ↦ (
            ServiceError.upstream_unavailable,
            ground arith,
            inr (p, fetched, active, ground arith, (cause, unparsed)),
          )
        ]
      ]
    ]
    | inr (inl (cause, bad)) ↦ elim (Bool-cases (is cause (client ClientError.product_not_found))) [
      | inl unknown ↦ (ServiceError.product_not_found, ground arith, (cause, bad, unknown))
      | inr other ↦ (ServiceError.upstream_unavailable, ground arith, inl (cause, bad, other))
    ]
    | inr (inr (m, bad)) ↦ absurd (ground arith)
  ]

  -- The errors of a product that cannot be sold, and of an answer that cannot be used.
  abbrev unavailable : CreateOrderItemRequest → Error
  unavailable r = detailed ServiceError.product_unavailable (": product " <> r.product_id)

  abbrev unusable_id : Error
  unusable_id =
      detailed ServiceError.upstream_unavailable ": product-service returned an invalid product id"

  price_item_of_LineFails :
      (r : CreateOrderItemRequest) (w : W) (k : ServiceError)
      → LineFails s r w k
      → RefusedAs k (price_item s r w).0
  unfolding price_item product_error is
  price_item_of_LineFails r w ServiceError.product_not_found (cause, bad, unknown) =
      (product_error r.product_id cause, ground arith, ground arith)
  price_item_of_LineFails r w ServiceError.product_unavailable (p, fetched, inl inactive) =
      (unavailable r, ground arith, refl)
  price_item_of_LineFails r w ServiceError.product_unavailable (p, fetched, inr short) =
      elim (Bool-cases (ltb_ℤ p.stock_quantity r.quantity)) [
        | inl less ↦ (unavailable r, ground arith, refl)
        | inr enough ↦ absurd (short (ground arith))
      ]
  price_item_of_LineFails r w ServiceError.upstream_unavailable (inl (cause, bad, other)) =
      (product_error r.product_id cause, ground arith, ground arith)
  price_item_of_LineFails r w ServiceError.upstream_unavailable
        (inr (p, fetched, active, enough, (cause, unparsed))) =
      (unusable_id, ground arith, refl)
  price_item_of_LineFails r w ServiceError.validation h = absurd h
  price_item_of_LineFails r w ServiceError.user_not_found h = absurd h
  price_item_of_LineFails r w ServiceError.order_not_found h = absurd h
  price_item_of_LineFails r w ServiceError.payment_declined h = absurd h

  pub price_items-err :
      (rs : List CreateOrderItemRequest) (total : ℤ) (items : List OrderItem) (w : W) {e : Error}
      → (price_items s rs total items w).0 ≡ err e
      → (k : ServiceError) × Wraps e k × LinesFail s rs w k
  unfolding price_items
  price_items-err [] total items w h = absurd (cc)
  price_items-err (r ∷ rs) total items w {e} h = elim (Outcome-cases (price_item s r w).0) [
    | inl (line, priced) ↦
        let w₁ = (price_item s r w).1 in
        let both : price_item s r w ≡ (ok line, w₁) = ground arith in
        let (sold, total_is) = price_item-Sells s r w both in
        let (k, wraps, fails) =
          price_items-err rs (add64 total line.0) (items ++ (line.1 ∷ [])) w₁ (ground arith) in
        (k, wraps, inr (line.1, w₁, sold, fails))
    | inr (inl (e', bad)) ↦
        let (k, wraps, fails) = price_item-err r w bad in (k, ground arith, inl fails)
    | inr (inr (m, bad)) ↦ absurd (ground arith)
  ]

  pub price_items_of_LinesFail :
      (rs : List CreateOrderItemRequest) (total : ℤ) (items : List OrderItem) (w : W)
      (k : ServiceError)
      → LinesFail s rs w k
      → RefusedAs k (price_items s rs total items w).0
  unfolding price_items
  price_items_of_LinesFail [] total items w k h = absurd h
  price_items_of_LinesFail (r ∷ rs) total items w k (inl fails) =
      let (e, bad, wraps) = price_item_of_LineFails r w k fails in (e, ground arith, wraps)
  price_items_of_LinesFail (r ∷ rs) total items w k (inr (i, w₁, sold, fails)) =
      let priced = price_item_of_Sells s r i w w₁ sold in
      let line_total = mul64 i.unit_price_cents i.quantity in
      let (e, bad, wraps) =
        price_items_of_LinesFail rs (add64 total line_total) (items ++ (i ∷ [])) w₁ k fails in
      (e, ground arith, wraps)
