-- ===== src/Repository/Seed.antt =====
-- order-service/migrations/0002_seed_data.up.sql: the order that a new database has.
use microservices_platform.Prelude.{
  refl, inl, inr, ◌==◌, Bool-cases, pos, ◌+ℤ◌, ◌*ℤ◌, Option, none, some, List, [], ◌∷◌,
  if◌then◌else◌,
}
use microservices_platform.Int64.{wrap64}
use microservices_platform.Uuid.{Uuid, Time}
use microservices_platform.Models.{OrderItem, confirmed}
use microservices_platform.Service.Pricing.{exact_total}
use microservices_platform.Repository.{OrderRow, insert_order, insert_item}
use microservices_platform.Repository.Tables.{Tables, apply}
use microservices_platform.Repository.Finding.{find_row}
use microservices_platform.Repository.Totals.{IsBalanced}

-- bbbbbbbb-0000-0000-0000-000000000001
abbrev pub seed_id : Uuid
seed_id = 249_540_402_350_587_554_029_347_531_214_697_791_489

-- The row of the order, of the user 22222222-2222-2222-2222-222222222222.
abbrev pub seed_row : Time → OrderRow
seed_row now = record {
  id = seed_id;
  user_id = 45_370_982_256_125_128_461_783_280_990_902_428_194;
  status = confirmed;
  total_cents = pos 3998;
  currency = "USD";
  created_at = now;
  updated_at = now;
}

-- The item cccccccc-0000-0000-0000-000000000001, of the product
-- aaaaaaaa-0000-0000-0000-000000000001.
abbrev pub seed_item : OrderItem
seed_item = record {
  id = 272_225_893_473_368_240_759_288_215_870_579_408_897;
  product_id = 226_854_911_227_806_867_299_406_846_558_816_174_081;
  sku = "SKU-WIRELESS-MOUSE";
  quantity = pos 2;
  unit_price_cents = pos 1999;
}

-- The row of order_items with an identifier.
abbrev find_item : Uuid → List (Uuid × OrderItem) → Option OrderItem
find_item id [] = none
find_item id ((order_id, item) ∷ rows) = if item.id == id then some item else find_item id rows

-- `INSERT INTO orders ... ON CONFLICT (id) DO NOTHING`, at the time of `now()`.
abbrev seed_orders : Time → Tables → Tables
seed_orders now t = elim (find_row seed_id t.orders) [
  | none ↦ apply (insert_order (seed_row now)) t
  | some row ↦ t
]

-- `INSERT INTO order_items ... ON CONFLICT (id) DO NOTHING`
abbrev seed_items : Tables → Tables
seed_items t = elim (find_item seed_item.id t.items) [
  | none ↦ apply (insert_item seed_id seed_item) t
  | some item ↦ t
]

-- The migration.
abbrev pub seed : Time → Tables → Tables
seed now t = seed_items (seed_orders now t)

-- The tables of a new database.
abbrev pub seeded : Time → Tables
seeded now = seed now (record { orders = []; items = [] })

pub seeded-IsBalanced : (now : Time) → IsBalanced (seeded now)
unfolding exact_total wrap64 ◌+ℤ◌ ◌*ℤ◌
seeded-IsBalanced now id = elim (Bool-cases (seed_id == id)) [
  | inl same ↦ rw same (refl, inr (inl refl))
  | inr other ↦ rw other refl
]
