-- ===== src/Service/Tests.antt =====
-- Runs of the service, and its theorems at concrete data.
use microservices_platform.Prelude.{ℕ, ◌≡◌, refl, ◌⊎◌, pos, ◌+ℤ◌, ◌*ℤ◌, [], ◌∷◌, none, arith}
use microservices_platform.Int64.{add64, mul64, wrap64}
use microservices_platform.Errors.{Error, sentinel, wrapped, service, ServiceError}
use microservices_platform.Go.{ok, err}
use microservices_platform.Models.{Order, OrderItem, confirmed, pending}
use microservices_platform.Service.{
  price_item, price_items, prepare, charge_request, final_status, record_status, conclude, finish,
  settle, create_order,
}
use microservices_platform.Service.Pricing.{exact_total}
use microservices_platform.Service.Outcomes.{NoPanic, declined, answer_status, settle_lem}
use microservices_platform.Service.Refusals.{IsRefusal}
use microservices_platform.Service.Placing.{
  Placed, create_order-Placed, create_order-err, total_cents-exact, charging_by,
  create_order-uncharged,
}
use microservices_platform.Fixtures.{shop, two_mice, nine_mice, stored_order}

abbrev mouse_line : OrderItem
mouse_line = record {
  id = 2;
  product_id = 3;
  sku = "SKU-WIRELESS-MOUSE";
  quantity = pos 2;
  unit_price_cents = pos 1999;
}

-- The order of the first run, in the world 0.
abbrev drafted : Order
drafted = record {
  id = 0;
  user_id = 2;
  status = pending;
  total_cents = pos 3998;
  currency = "USD";
  items = mouse_line ∷ [];
  created_at = 0;
  updated_at = 0;
}

abbrev confirmed_order : Order
confirmed_order = record drafted { status = confirmed; created_at = 3; updated_at = 3 }

preparing_run : prepare shop two_mice 0 ≡ (ok drafted, 3)
unfolding prepare price_items price_item add64 mul64 wrap64 ◌+ℤ◌ ◌*ℤ◌
preparing_run = refl

placing_run : create_order shop two_mice 0 ≡ (ok (confirmed_order, none), 6)
unfolding create_order prepare price_items price_item settle finish conclude final_status
    record_status charge_request add64 mul64 wrap64 ◌+ℤ◌ ◌*ℤ◌
placing_run = refl

abbrev out_of_stock : Error
out_of_stock = wrapped "" ": product 111" (sentinel (service ServiceError.product_unavailable))

refusing_run : create_order shop nine_mice 0 ≡ (err out_of_stock, 2)
unfolding create_order prepare price_items price_item
refusing_run = refl

shop-NoPanic : NoPanic shop
shop-NoPanic = record { charging = λ r w. tt; updating = λ o t w. tt }

total_cents-exact_example : pos 3998 ≡ exact_total (mouse_line ∷ [])
unfolding exact_total ◌+ℤ◌ ◌*ℤ◌
total_cents-exact_example =
    total_cents-exact shop two_mice {order = drafted} 0 {w' = 3} preparing_run (omega arith)

settle_lem_example :
    (settle shop stored_order 0).0 ≡ ok (record stored_order { status = confirmed }, none)
unfolding declined answer_status
settle_lem_example = settle_lem shop shop-NoPanic stored_order 0

create_order-Placed_example : Placed shop two_mice confirmed_order none 0
unfolding create_order prepare price_items price_item settle finish conclude final_status
    record_status charge_request add64 mul64 wrap64 ◌+ℤ◌ ◌*ℤ◌
create_order-Placed_example = create_order-Placed shop two_mice 0 refl

create_order-err_example :
    IsRefusal out_of_stock
    ⊎ ((cause : Error) × (order : Order) × (before : ℕ) × ((shop.repo.create order before).0
          ≡ err cause)
        × (out_of_stock ≡ wrapped "persisting order: " "" cause))
unfolding create_order prepare price_items price_item
create_order-err_example = create_order-err shop nine_mice 0 refl

create_order-uncharged_example :
    create_order (charging_by shop (λ r w. (err out_of_stock, 99))) nine_mice 0
    ≡ (err out_of_stock, 2)
create_order-uncharged_example =
    create_order-uncharged shop (λ r w. (err out_of_stock, 99)) nine_mice 0 refusing_run
