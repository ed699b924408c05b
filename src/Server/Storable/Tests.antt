-- ===== src/Server/Storable/Tests.antt =====
-- The order for two mice, whose rows the tables accept.
use microservices_platform.Prelude.{◌-◌, ◌^◌, ◌≡◌, ◌↔◌, refl, pos, ◌≤ℤ◌, ◌+ℤ◌, ◌*ℤ◌, [], ◌∷◌, arith}
use microservices_platform.Go.{ok}
use microservices_platform.Int64.{wrap64, add64, mul64}
use microservices_platform.Models.{Order, pending, IsBound}
use microservices_platform.Service.{prepare, price_items, price_item}
use microservices_platform.Service.Pricing.{exact_total}
use microservices_platform.Repository.Schema.{FitsSchema}
use microservices_platform.Server.Storable.{Catalogue, prepare-FitsSchema}
use microservices_platform.Fixtures.{shop, mouse, two_mice}

abbrev mice_drafted : Order
mice_drafted = record {
  id = 0;
  user_id = 2;
  status = pending;
  total_cents = pos 3998;
  currency = "USD";
  items =
      record {
        id = 2;
        product_id = 3;
        sku = "SKU-WIRELESS-MOUSE";
        quantity = pos 2;
        unit_price_cents = pos 1999;
      }
      ∷ [];
  created_at = 0;
  updated_at = 0;
}

mice_run : prepare shop two_mice 0 ≡ (ok mice_drafted, 3)
unfolding prepare price_items price_item add64 mul64 wrap64 ◌+ℤ◌ ◌*ℤ◌
mice_run = refl

shop-Catalogue : Catalogue shop
shop-Catalogue = record {
  promised = λ id w {p} e.
      let same : mouse ≡ p = cc in rw (← same) (omega arith, omega arith, omega arith, omega arith);
}

two_mice-IsBound : IsBound two_mice
two_mice-IsBound = ((λ e. cc), (λ e. cc), (((λ e. cc), omega arith), tt))

prepare-FitsSchema_example :
    FitsSchema mice_drafted ↔ (exact_total mice_drafted.items ≤ℤ pos (2 ^ 31 - 1))
unfolding exact_total ◌+ℤ◌ ◌*ℤ◌
prepare-FitsSchema_example =
    prepare-FitsSchema shop shop-Catalogue two_mice 0 two_mice-IsBound mice_run
      (omega arith, omega arith)
