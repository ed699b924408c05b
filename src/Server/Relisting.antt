-- ===== src/Server/Relisting.antt =====
-- An order that was posted and is then listed: what the list of its user shows.
use microservices_platform.Prelude.{◌≡◌, refl, sym, subst, ◌⊎◌, List, [], map, length, some}
use mathlib.Core.List.{Perm, Mem, mem-map_of_mem}
use mathlib.Core.List.Perm
use microservices_platform.Go.{ok, value}
use microservices_platform.Uuid.{Time, UuidLaws}
use microservices_platform.Models.{Order, pending, CreateOrderRequest}
use microservices_platform.Service.{OrderService}
use microservices_platform.Repository.{OrderRow, Pool, row_of, order_of, list_by_user}
use microservices_platform.Repository.Tables.{Transactional, micros, kept}
use microservices_platform.Repository.Updating.{Updating}
use microservices_platform.Repository.Interleaving.{Failing}
use microservices_platform.Repository.Listing.{
  orders_of, orders_of-find_row, IsNewestFirst, IsNewestFirst-order_of, Listing, list_by_user_lem,
}
use microservices_platform.Handlers.{Reply, reply, orders, create_order, list_orders}
use microservices_platform.Handlers.Showing.{
  shown, create_order-world, create_order-shown, list_orders-shown,
}
use microservices_platform.Server.Persistence.{stored_in, Apart, Unsaved}
use microservices_platform.Server.Remaining.{IsNew, Remains, create_order-Remains}

module _ {W Tx : Type 0} (s : OrderService W) (p : Pool W Tx) (d : Transactional p s.uuids)
    (a : Apart s p d) (u : Updating p s.uuids d) (f : Failing p s.uuids d) where
  -- How an order that was placed is listed: without its items.
  abbrev pub ListedAs : Order → Order → W → Type 0
  ListedAs placed listed w =
      ((time : Time) × (listed ≡ record placed {
        items = [];
        status = listed.status;
        created_at = micros placed.created_at;
        updated_at = time;
      }))
      × ((listed.status ≡ placed.status)
          ⊎ ((listed.status ≡ pending) × Unsaved s p d placed.id placed.status w))

  -- The list of a user: the stored orders of this user, the newest first, without their items; this
  -- one among them.
  pub record Lists (placed : Order) (w : W) (found : List Order) : Type 0 where
    pub stored : Perm found (map order_of (orders_of placed.user_id (d.tables w).orders))
    pub newest : IsNewestFirst (λ o. o.created_at) found
    pub among : (listed : Order) × Mem listed found × ListedAs placed listed w

  list_by_user-Lists :
      (l : Listing p s.uuids d) (placed : Order) (w : W) {found : List Order}
      → Remains s p d a u f placed w
      → (list_by_user p s.uuids placed.user_id w).0 ≡ ok found
      → Lists placed w found
  list_by_user-Lists l placed w {found} (items, (time, status, at, which)) got =
      let (rows, same, perm, newest) = list_by_user_lem p s.uuids d l placed.user_id w got in
      let row : OrderRow = record (kept (row_of placed)) { status = status; updated_at = time } in
      let in_rows : Mem row rows =
        (Perm.mem_iff perm).1 (orders_of-find_row placed.id (d.tables w).orders at) in
      rw same (record {
        stored = Perm.map order_of perm;
        newest = IsNewestFirst-order_of rows newest;
        among = (order_of row, mem-map_of_mem order_of in_rows, ((time, refl), which));
      })

  -- When a POST has shown an order and a GET of the list of its user is then answered with 200, it
  -- shows the stored orders of this user, the newest first, and their number, each without its
  -- items; and among them the order of the POST, its created_at cut to microseconds, with the
  -- status that the POST showed, or PENDING if that status could not be stored, with the log line
  -- of the failed UpdateStatus as the last thing that the POST did. Assumes that no item of the
  -- prepared order was stored before (IsNew), the documented effects of transactions, SELECT and
  -- UPDATE (Transactional, Listing, Updating, Failing), that uuid.Parse reads what String writes
  -- (UuidLaws), that the payment client and the log do not write to the tables (Apart), and that
  -- nobody else does.
  pub list_orders-create_order :
      Listing p s.uuids d
      → UuidLaws s.uuids
      → (req : CreateOrderRequest) (w : W) {r g : Reply} {placed : Order} → IsNew s p d a u f req w
      → (create_order (stored_in s p d) (value req) w).0 ≡ ok r
      → shown r.body ≡ some placed
      → let w' = (create_order (stored_in s p d) (value req) w).1 in
        (list_orders (stored_in s p d) (s.uuids.to_string placed.user_id) w').0 ≡ ok g
        → g.status ≡ 200
        → (found : List Order) × (g ≡ reply 200 (orders found (length found)))
          × Lists placed w' found
  list_orders-create_order l laws req w {r} {g} {placed} fresh posted shows gotten fine =
      let placer = stored_in s p d in
      let w' = (create_order placer (value req) w).1 in
      let (e, placing) = create_order-shown placer req w posted shows in
      let (found, reply_is, got) = list_orders-shown placer laws placed.user_id w' gotten fine in
      (
        found,
        reply_is,
        list_by_user-Lists l placed w'
            (subst (λ x. Remains s p d a u f placed x) (sym (create_order-world placer req w))
              (create_order-Remains s p d a u f req w fresh placing))
            got,
      )
