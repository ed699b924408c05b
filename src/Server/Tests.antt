-- ===== src/Server/Tests.antt =====
-- The service of a concrete configuration, over a scripted network.
use microservices_platform.Prelude.{
  ◌≡◌, refl, sym, subst, pos, none, List, [], ◌∷◌, length, ◌+ℤ◌, ◌*ℤ◌,
}
use microservices_platform.Go.{Outcome, ok, value}
use microservices_platform.Go.Laws.{Returns}
use microservices_platform.Uuid.{UuidLaws}
use microservices_platform.Models.{Order, confirmed}
use microservices_platform.Int64.{add64, mul64, wrap64}
use microservices_platform.Service.{
  OrderService, create_order, get_order, list_orders_by_user, prepare, price_items, price_item,
  settle, finish, final_status, conclude, record_status, charge_request,
}
use microservices_platform.Repository.Finding.{find_row, items_of}
use microservices_platform.Server.{order_service}
use microservices_platform.Server.Totality.{service_create_order-Returns}
use microservices_platform.Server.Concurrency.{Away, at, Run, create_order-Turns}
use microservices_platform.Handlers
use microservices_platform.Handlers.{
  reply, one_order, orders, reply_to_placed, reply_to_found, reply_to_listed,
}
use microservices_platform.Server.Remaining.{IsNew}
use microservices_platform.Server.Rereading.{Rereads, get_order-create_order}
use microservices_platform.Repository.Totals.{AddsUp, IsStatus, IsBalanced}
use microservices_platform.Server.Balancing.{get_order-AddsUp}
use microservices_platform.Server.Relisting.{Lists, list_orders-create_order}
use microservices_platform.Server.Persistence.{stored_in, Apart, IsKept, create_order-Recorded}
use microservices_platform.Repository.{
  order_repository, create, store, draft, insert_items, identify, update_status, get_by_id,
  get_items, collect, list_by_user,
}
use microservices_platform.Fixtures.{tallies-UuidLaws, two_mice, mouse}
use microservices_platform.Fixtures.Disk.{
  Disk, disk, disk_uuids, disk-Transactional, disk-Selecting, disk-Updating, disk-Failing,
  disk-Listing, blank,
}
use microservices_platform.Fixtures.Net.{
  network, net_logger, net_uuids, net_shelf, local_config, flaky,
}

service_create_order-Returns_example :
    Returns
      (create_order
        (order_service network net_logger net_uuids net_shelf (local_config (pos 2)))
        two_mice
        flaky).0
service_create_order-Returns_example =
    service_create_order-Returns network net_logger net_uuids net_shelf (local_config (pos 2)) 2
      refl (λ o w. tt) (λ id status w. tt) two_mice flaky

-- The service over the database in memory: its siblings know every user, sell mice, and accept the
-- card.
abbrev disk_shop : OrderService Disk
disk_shop = record {
  repo = order_repository disk disk_uuids;
  verify_user_exists = λ user_id w. (ok tt, w);
  get_product = λ product_id w. (ok mouse, w);
  charge = λ r w. (ok (record { transaction_id = "txn_1"; status = "SUCCEEDED"; reason = "" }), w);
  logger = λ line w. w;
  uuids = disk_uuids;
}

abbrev disk_shop-Apart : Apart disk_shop disk disk-Transactional
disk_shop-Apart = record { tables-charge = λ r w. refl; tables-log = λ l w. refl }

-- The identifiers and times are the ticks of the disk.
abbrev mice_placed : Order
mice_placed = record {
  id = 5000;
  user_id = 2;
  status = confirmed;
  total_cents = pos 3998;
  currency = "USD";
  items =
      record {
        id = 5001;
        product_id = 3;
        sku = "SKU-WIRELESS-MOUSE";
        quantity = pos 2;
        unit_price_cents = pos 1999;
      }
      ∷ [];
  created_at = 5002;
  updated_at = 5002;
}

placing_run :
    (create_order (stored_in disk_shop disk disk-Transactional) two_mice blank).0
    ≡ ok (mice_placed, none)
unfolding create_order prepare price_items price_item settle finish final_status conclude
    record_status charge_request add64 mul64 wrap64 ◌+ℤ◌ ◌*ℤ◌ create store draft insert_items
    identify update_status
placing_run = refl

create_order-Recorded_example :
    IsKept disk_shop disk disk-Transactional mice_placed
      (create_order (stored_in disk_shop disk disk-Transactional) two_mice blank).1
create_order-Recorded_example =
    create_order-Recorded disk_shop disk disk-Transactional disk_shop-Apart disk-Updating two_mice
      blank placing_run

disk_shop-Away : Away disk_shop disk disk-Transactional
disk_shop-Away = record { tables-verify = λ id w. refl; tables-fetch = λ id w. refl }

-- The disk has no orders yet.
placing_fresh :
    (order : Order) (before : Disk)
    → prepare (stored_in disk_shop disk disk-Transactional) two_mice blank ≡ (ok order, before)
    → find_row order.id before.kept_tables.orders ≡ none
unfolding prepare price_items price_item add64 mul64 wrap64 ◌+ℤ◌ ◌*ℤ◌
placing_fresh order before h =
    subst (λ (r : Outcome Order × Disk). find_row order.id r.1.kept_tables.orders ≡ none) h refl

create_order-Turns_example :
    Run disk_shop disk disk-Transactional (at disk_shop disk disk-Transactional blank []) (
      at disk_shop disk disk-Transactional
        (create_order (stored_in disk_shop disk disk-Transactional) two_mice blank).1
        [])
create_order-Turns_example =
    create_order-Turns disk_shop disk disk-Transactional disk_shop-Apart disk-Updating
      disk_shop-Away two_mice blank [] placing_fresh (subst Returns (sym placing_run) tt)

disk_uuids-UuidLaws : UuidLaws disk_uuids
disk_uuids-UuidLaws = record { parse-to_string = tallies-UuidLaws.parse-to_string }

placing-IsNew :
    IsNew disk_shop disk disk-Transactional disk_shop-Apart disk-Updating disk-Failing two_mice
      blank
unfolding prepare price_items price_item add64 mul64 wrap64 ◌+ℤ◌ ◌*ℤ◌
placing-IsNew order before h =
    subst (λ (r : Outcome Order × Disk). items_of order.id r.1.kept_tables.items ≡ []) h refl

-- The times of the order as it is read have microseconds.
abbrev mice_read : Order
mice_read = record mice_placed { created_at = 5000; updated_at = 5000 }

get_order-create_order_example :
    (found : Order) × (reply 200 (one_order mice_read) ≡ reply 200 (one_order found))
    × Rereads disk_shop disk disk-Transactional disk_shop-Apart disk-Updating disk-Failing
        mice_placed found
        (Handlers.create_order
          (stored_in disk_shop disk disk-Transactional)
          (value two_mice)
          blank).1
unfolding Handlers.create_order Handlers.get_order reply_to_placed reply_to_found get_order
    create_order prepare price_items price_item settle finish final_status conclude record_status
    charge_request add64 mul64 wrap64 ◌+ℤ◌ ◌*ℤ◌ create store draft insert_items identify
    update_status get_by_id get_items collect
get_order-create_order_example =
    get_order-create_order disk_shop disk disk-Transactional disk_shop-Apart disk-Updating
      disk-Failing disk-Selecting disk_uuids-UuidLaws two_mice blank
      {r = reply 201 (one_order mice_placed)} {g = reply 200 (one_order mice_read)}
      {placed = mice_placed} placing-IsNew refl refl refl refl

list_orders-create_order_example :
    (found : List Order) × (reply 200 (orders (record mice_read { items = [] } ∷ []) 1)
      ≡ reply 200 (orders found (length found)))
    × Lists disk_shop disk disk-Transactional disk_shop-Apart disk-Updating disk-Failing mice_placed
        (Handlers.create_order
          (stored_in disk_shop disk disk-Transactional)
          (value two_mice)
          blank).1
        found
unfolding Handlers.create_order Handlers.list_orders reply_to_placed reply_to_listed
    list_orders_by_user create_order prepare price_items price_item settle finish final_status
    conclude record_status charge_request add64 mul64 wrap64 ◌+ℤ◌ ◌*ℤ◌ create store draft
    insert_items identify update_status list_by_user collect
list_orders-create_order_example =
    list_orders-create_order disk_shop disk disk-Transactional disk_shop-Apart disk-Updating
      disk-Failing disk-Listing disk_uuids-UuidLaws two_mice blank
      {r = reply 201 (one_order mice_placed)}
      {g = reply 200 (orders (record mice_read { items = [] } ∷ []) 1)} {placed = mice_placed}
      placing-IsNew refl refl refl refl

blank-IsBalanced : IsBalanced blank.kept_tables
blank-IsBalanced id = refl

abbrev placed_disk : Disk
placed_disk = (create_order (stored_in disk_shop disk disk-Transactional) two_mice blank).1

placing_turns :
    Run disk_shop disk disk-Transactional
      (at disk_shop disk disk-Transactional blank [])
      (at disk_shop disk disk-Transactional placed_disk [])
placing_turns =
    create_order-Turns disk_shop disk disk-Transactional disk_shop-Apart disk-Updating
      disk_shop-Away two_mice blank [] placing_fresh (subst Returns (sym placing_run) tt)

get_order-AddsUp_example :
    (found : Order) × (reply 200 (one_order mice_read) ≡ reply 200 (one_order found))
    × AddsUp found
    × IsStatus found.status
unfolding Handlers.get_order reply_to_found get_order create_order prepare price_items price_item
    settle finish final_status conclude record_status charge_request add64 mul64 wrap64 ◌+ℤ◌ ◌*ℤ◌
    create store draft insert_items identify update_status get_by_id get_items collect
get_order-AddsUp_example =
    get_order-AddsUp disk_shop disk disk-Transactional disk-Selecting disk-Updating disk-Failing
      disk_uuids-UuidLaws blank-IsBalanced placing_turns 5000 {g = reply 200 (one_order mice_read)}
      refl refl
