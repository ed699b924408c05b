-- ===== src/Repository/Tests.antt =====
-- The repository over a database in memory.
use microservices_platform.Prelude.{◌≡◌, refl, ◌⊎◌, pos, [], ◌∷◌, some}
use microservices_platform.Errors.{sentinel, stored_order_not_found}
use microservices_platform.Go.{ok, err}
use microservices_platform.Models.{Order, confirmed}
use microservices_platform.Fixtures.{stored_order}
use microservices_platform.Repository.{
  OrderRow, collect, order_of, create, draft, store, insert_items, identify, get_by_id, get_items,
  update_status,
}
use microservices_platform.Repository.Tables.{saved, micros}
use microservices_platform.Repository.Storing.{Stamped}
use microservices_platform.Repository.Creating.{create-Atomic, create-Stamped}
use microservices_platform.Repository.Finding.{find_row}
use microservices_platform.Repository.Updating.{update_status-unknown, get_by_id-update_status}
use microservices_platform.Fixtures.Disk.{
  Disk, disk, disk_uuids, disk-Transactional, disk-Selecting, disk-Updating, blank,
}

-- An item that has no identifier yet.
abbrev two_lines : Order
two_lines = record stored_order {
  items =
      record { id = 0; product_id = 3; sku = "A"; quantity = pos 2; unit_price_cents = pos 1999 }
      ∷ record { id = 9; product_id = 4; sku = "B"; quantity = pos 1; unit_price_cents = pos 5 }
      ∷ [];
}

abbrev two_lines_stored : Order
two_lines_stored = record two_lines {
  items =
      record { id = 5001; product_id = 3; sku = "A"; quantity = pos 2; unit_price_cents = pos 1999 }
      ∷ record { id = 9; product_id = 4; sku = "B"; quantity = pos 1; unit_price_cents = pos 5 }
      ∷ [];
  created_at = 5000;
  updated_at = 5000;
}

creating_run : (create disk disk_uuids two_lines blank).0 ≡ ok two_lines_stored
unfolding create store draft insert_items identify
creating_run = refl

create-Atomic_example :
    ((create disk disk_uuids two_lines blank).1.kept_tables ≡ blank.kept_tables)
    ⊎ ((stored : Order) × Stamped two_lines stored
        × ((create disk disk_uuids two_lines blank).1.kept_tables ≡ saved stored blank.kept_tables))
create-Atomic_example = create-Atomic disk disk_uuids disk-Transactional two_lines blank

create-Stamped_example :
    Stamped two_lines two_lines_stored
    × ((create disk disk_uuids two_lines blank).1.kept_tables
        ≡ saved two_lines_stored blank.kept_tables)
create-Stamped_example =
    create-Stamped disk disk_uuids disk-Transactional two_lines blank creating_run

abbrev after_create : Disk
after_create = record {
  kept_tables = saved two_lines_stored blank.kept_tables;
  seen = saved two_lines_stored blank.kept_tables;
  ticks = 5002;
}

update_status-unknown_example :
    (update_status disk disk_uuids 7 confirmed blank).0 ≡ err (sentinel stored_order_not_found)
update_status-unknown_example =
    update_status-unknown disk disk_uuids disk-Transactional disk-Updating 7 confirmed blank {n = 0}
      refl refl

abbrev confirmed_lines : Order
confirmed_lines = record two_lines_stored { status = confirmed }

get_by_id-update_status_example :
    (row : OrderRow) × (find_row 7 after_create.kept_tables.orders ≡ some row)
    × (confirmed_lines ≡ record (order_of row) {
      status = confirmed;
      updated_at = micros 5002;
      items = confirmed_lines.items;
    })
unfolding update_status get_by_id get_items collect
get_by_id-update_status_example =
    get_by_id-update_status disk disk_uuids disk-Transactional disk-Updating disk-Selecting 7
      confirmed after_create {found = confirmed_lines} refl refl
