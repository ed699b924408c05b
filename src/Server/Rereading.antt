-- ===== src/Server/Rereading.antt =====
-- An order that was posted and is then read: what the second reply shows.
use microservices_platform.Prelude.{◌≡◌, sym, ap, ◌∙◌, ◌⊎◌, subst, some}
use mathlib.Core.List.{Perm}
use microservices_platform.Go.{ok, value}
use microservices_platform.Uuid.{Time, UuidLaws}
use microservices_platform.Models.{Order, OrderStatus, pending, CreateOrderRequest}
use microservices_platform.Service.{OrderService}
use microservices_platform.Repository.{OrderRow, Pool, row_of, order_of, get_by_id}
use microservices_platform.Repository.Tables.{Transactional, micros, kept}
use microservices_platform.Repository.Finding.{Selecting, get_by_id_lem}
use microservices_platform.Repository.Updating.{Updating}
use microservices_platform.Repository.Interleaving.{Failing}
use microservices_platform.Handlers.{Reply, reply, one_order, create_order, get_order}
use microservices_platform.Handlers.Showing.{
  shown, create_order-world, create_order-shown, get_order-shown,
}
use microservices_platform.Server.Persistence.{stored_in, Apart, Unsaved}
use microservices_platform.Server.Remaining.{Remains, IsNew, create_order-Remains}

module _ {W Tx : Type 0} (s : OrderService W) (p : Pool W Tx) (d : Transactional p s.uuids)
    (a : Apart s p d) (u : Updating p s.uuids d) (f : Failing p s.uuids d) where
  -- What is read of an order that was placed.
  abbrev pub Rereads : Order → Order → W → Type 0
  Rereads placed found w =
      Perm found.items placed.items
      × ((time : Time) × (found ≡ record placed {
        items = found.items;
        status = found.status;
        created_at = micros placed.created_at;
        updated_at = time;
      }))
      × ((found.status ≡ placed.status)
          ⊎ ((found.status ≡ pending) × Unsaved s p d placed.id placed.status w))

  get_by_id-Rereads :
      (q : Selecting p s.uuids d) (placed : Order) (w : W) {found : Order}
      → Remains s p d a u f placed w
      → (get_by_id p s.uuids placed.id w).0 ≡ ok found
      → Rereads placed found w
  get_by_id-Rereads q placed w {found} (items, (time, status, at, which)) got =
      let (row, found_row, whole, perm) = get_by_id_lem p s.uuids d q placed.id w got in
      let row_is : row ≡ record (kept (row_of placed)) { status = status; updated_at = time } =
        cc in
      let whole' : found ≡ record placed {
        items = found.items;
        status = status;
        created_at = micros placed.created_at;
        updated_at = time;
      } =
        whole ∙ ap (λ (r : OrderRow). record (order_of r) { items = found.items }) row_is in
      let status_is : found.status ≡ status = ap (λ (o : Order). o.status) whole' in
      (
        subst (λ is. Perm found.items is) items perm,
        (
          time,
          whole'
              ∙ ap
                  (λ (x : OrderStatus). record placed {
                    items = found.items;
                    status = x;
                    created_at = micros placed.created_at;
                    updated_at = time;
                  })
                  (sym status_is),
        ),
        subst (λ x. (x ≡ placed.status) ⊎ ((x ≡ pending) × Unsaved s p d placed.id placed.status w))
            (sym status_is) which,
      )

  -- When a POST has shown an order and a GET of its identifier is then answered with 200, it shows
  -- the same order: its items in some order, its times cut to microseconds (updated_at perhaps of
  -- the update), and the status that the POST showed, or PENDING if that status could not be
  -- stored, with the log line of the failed UpdateStatus as the last thing that the POST did.
  -- Assumes that no item of the prepared order was stored before (IsNew), the documented effects
  -- of transactions, SELECT and UPDATE (Transactional, Selecting, Updating, Failing), that
  -- uuid.Parse reads what String writes (UuidLaws), that the payment client and the log do not
  -- write to the tables (Apart), and that nobody else does.
  pub get_order-create_order :
      Selecting p s.uuids d
      → UuidLaws s.uuids
      → (req : CreateOrderRequest) (w : W) {r g : Reply} {placed : Order} → IsNew s p d a u f req w
      → (create_order (stored_in s p d) (value req) w).0 ≡ ok r
      → shown r.body ≡ some placed
      → let w' = (create_order (stored_in s p d) (value req) w).1 in
        (get_order (stored_in s p d) (s.uuids.to_string placed.id) w').0 ≡ ok g
        → g.status ≡ 200
        → (found : Order) × (g ≡ reply 200 (one_order found)) × Rereads placed found w'
  get_order-create_order q laws req w {r} {g} {placed} fresh posted shows gotten fine =
      let w' = (create_order (stored_in s p d) (value req) w).1 in
      let (e, placing) = create_order-shown (stored_in s p d) req w posted shows in
      let (found, reply_is, got) =
        get_order-shown (stored_in s p d) laws placed.id w' gotten fine in
      (
        found,
        reply_is,
        get_by_id-Rereads q placed w'
            (subst (λ x. Remains s p d a u f placed x)
              (sym (create_order-world (stored_in s p d) req w))
              (create_order-Remains s p d a u f req w fresh placing))
            got,
      )
