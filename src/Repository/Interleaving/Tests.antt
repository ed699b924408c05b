-- ===== src/Repository/Interleaving/Tests.antt =====
-- Two calls of `CreateOrder` whose calls of the repository are interleaved.
use microservices_platform.Prelude.{
  ◌≡◌, refl, inl, inr, ◌==◌, Bool-cases, some, [], ◌∷◌, pos, ◌+ℤ◌, ◌*ℤ◌,
}
use microservices_platform.Uuid.{Uuid}
use microservices_platform.Models.{Order, OrderItem, confirmed}
use microservices_platform.Repository.{
  OrderRow, create, store, draft, insert_items, identify, update_status, row_of,
}
use microservices_platform.Repository.Finding.{find_row}
use microservices_platform.Int64.{wrap64}
use microservices_platform.Service.Pricing.{exact_total}
use microservices_platform.Repository.Totals.{IsBalanced}
use microservices_platform.Repository.Tables.{kept}
use microservices_platform.Repository.Seed.{seed_id, seed_row, seeded}
use microservices_platform.Repository.Interleaving.Seeded.{Turns-seeded}
use microservices_platform.Repository.Interleaving.Totals.{Turns-IsBalanced}
use microservices_platform.Repository.Interleaving.{
  Evolves, System, Turns, here, next, stores, updates,
}
use microservices_platform.Repository.Interleaving.Statuses.{IsSound, Turns-Evolves}
use microservices_platform.Fixtures.{stored_order}
use microservices_platform.Fixtures.Disk.{
  Disk, disk, disk_uuids, disk-Transactional, disk-Updating, disk-Failing, blank,
}

-- A line of the order, under this identifier.
abbrev a_mouse : Uuid → OrderItem
a_mouse id = record {
  id = id;
  product_id = 3;
  sku = "SKU-WIRELESS-MOUSE";
  quantity = pos 2;
  unit_price_cents = pos 1999;
}

-- The order 7 is stored, and its payment is on its way.
abbrev early : System Disk
early = record {
  world = record blank {
    kept_tables = record { orders = row_of stored_order ∷ []; items = (7, a_mouse 70) ∷ [] };
  };
  calls = 7 ∷ [];
}

early-IsSound : IsSound disk disk_uuids disk-Transactional disk-Updating disk-Failing early
early-IsSound = (((row_of stored_order, refl, refl), tt), (tt, tt))

abbrev other_order : Order
other_order = record stored_order { id = 8; items = a_mouse 80 ∷ [] }

-- The order 8 is stored before the order 7 is confirmed.
abbrev between : Disk
between = (create disk disk_uuids other_order early.world).1

abbrev late : System Disk
late = record { world = (update_status disk disk_uuids 7 confirmed between).1; calls = 8 ∷ [] }

late_run : Turns disk disk_uuids disk-Transactional early late
unfolding create store draft insert_items identify update_status exact_total wrap64 ◌+ℤ◌ ◌*ℤ◌
late_run =
    next (next here (stores other_order refl refl refl refl))
      (updates (8 ∷ []) 7 [] confirmed refl (inl refl))

Turns-Evolves_example :
    IsSound disk disk_uuids disk-Transactional disk-Updating disk-Failing late
    × ((id : Uuid) (row : OrderRow)
        → find_row id early.world.kept_tables.orders ≡ some row
        → (row' : OrderRow) × (find_row id late.world.kept_tables.orders ≡ some row')
          × Evolves row row')
Turns-Evolves_example =
    Turns-Evolves disk disk_uuids disk-Transactional disk-Updating disk-Failing early-IsSound
      late_run

early-IsBalanced : IsBalanced early.world.kept_tables
unfolding exact_total wrap64 ◌+ℤ◌ ◌*ℤ◌
early-IsBalanced id = elim (Bool-cases (7 == id)) [
  | inl same ↦ rw same (refl, inl refl)
  | inr other ↦ rw other refl
]

Turns-IsBalanced_example : IsBalanced late.world.kept_tables
Turns-IsBalanced_example =
    Turns-IsBalanced disk disk_uuids disk-Transactional disk-Updating disk-Failing late_run
      early-IsBalanced

-- A new database, in which the order 8 is stored and then confirmed.
abbrev new_disk : Disk
new_disk = record blank { kept_tables = seeded 1000 }

abbrev stored_first : Disk
stored_first = (create disk disk_uuids other_order new_disk).1

abbrev confirmed_then : System Disk
confirmed_then = record {
  world = (update_status disk disk_uuids 8 confirmed stored_first).1;
  calls = [];
}

first_run :
    Turns disk disk_uuids disk-Transactional
      (record { world = new_disk; calls = [] })
      confirmed_then
unfolding create store draft insert_items identify update_status exact_total wrap64 ◌+ℤ◌ ◌*ℤ◌
first_run =
    next (next here (stores other_order refl refl refl refl))
      (updates [] 8 [] confirmed refl (inl refl))

Turns-seeded_example :
    IsBalanced confirmed_then.world.kept_tables
    × IsSound disk disk_uuids disk-Transactional disk-Updating disk-Failing confirmed_then
    × (find_row seed_id confirmed_then.world.kept_tables.orders ≡ some (kept (seed_row 1000)))
Turns-seeded_example =
    Turns-seeded disk disk_uuids disk-Transactional disk-Updating disk-Failing 1000 new_disk refl
      first_run
