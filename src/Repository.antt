-- ===== src/Repository.antt =====
-- internal/repository/order_repository.go: the orders in PostgreSQL, over the package pgx.
pub mod Tables
pub mod Storing
pub mod Creating
pub mod Finding
pub mod Listing
pub mod Updating
pub mod Keys
pub mod Totals
pub mod Seed
pub mod Interleaving
pub mod Schema
mod Tests
use microservices_platform.Prelude.{
  ℕ, ◌==◌, String, ℤ, Bool, List, [], ◌∷◌, ◌++◌, map, Option, none, some, if◌then◌else◌,
}
use microservices_platform.Errors.{Error, sentinel, stored_order_not_found, no_rows, is}
use microservices_platform.Go.{
  Go, Result, value, failure, pure, throw, run, lift, attempt, rethrow, effect, ◌>>=◌, ◌>>◌,
}
use microservices_platform.Uuid.{Uuid, Uuids, Time, nil_uuid}
use microservices_platform.Models.{Order, OrderItem, OrderStatus}
use microservices_platform.Service.{OrderRepository}

-- The columns of the table orders, and those of order_items but for order_id.
pub record OrderRow : Type 0 where
  pub id : Uuid
  pub user_id : Uuid
  pub status : OrderStatus
  pub total_cents : ℤ
  pub currency : String
  pub created_at : Time
  pub updated_at : Time

-- The statements that the package sends with `Exec`, with their arguments.
pub data Statement : Type 0 where
  insert_order : OrderRow → Statement
  insert_item : Uuid → OrderItem → Statement
  set_status : OrderStatus → Time → Uuid → Statement

-- What the loop over `rows` meets: what `Scan` makes of each row, and `rows.Err()` at the end.
pub record Rows (A : Type 0) : Type 0 where
  pub scanned : List (Result A)
  pub failed_with : Option Error

-- What the package uses of pgx and of the clock. `Tx` is a handle for a transaction.
pub record Pool (W Tx : Type 0) : Type 0 where
  pub begin : W → Result Tx × W
  pub exec_in : Tx → Statement → W → Option Error × W
  pub commit : Tx → W → Option Error × W
  pub rollback : Tx → W → W
  -- `pool.Exec`, with the number of rows that it changed.
  pub exec : Statement → W → Result ℕ × W
  -- `SELECT ... FROM orders WHERE id = $1`, with its `Scan`.
  pub query_order : Uuid → W → Result OrderRow × W
  -- `SELECT ... FROM orders WHERE user_id = $1 ORDER BY created_at DESC`
  pub query_orders : Uuid → W → Result (Rows OrderRow) × W
  -- `SELECT ... FROM order_items WHERE order_id = $1`
  pub query_items : Uuid → W → Result (Rows OrderItem) × W
  -- `rows.Close()`
  pub close_rows : W → W
  -- `time.Now()`
  pub now : W → Time × W

-- The row of an order, and an order with no items as a row is scanned into it.
abbrev pub row_of : Order → OrderRow
row_of o = record {
  id = o.id;
  user_id = o.user_id;
  status = o.status;
  total_cents = o.total_cents;
  currency = o.currency;
  created_at = o.created_at;
  updated_at = o.updated_at;
}

abbrev pub order_of : OrderRow → Order
order_of r = record {
  id = r.id;
  user_id = r.user_id;
  status = r.status;
  total_cents = r.total_cents;
  currency = r.currency;
  items = [];
  created_at = r.created_at;
  updated_at = r.updated_at;
}

-- An order with both of its times set.
abbrev pub stamp : Time → Order → Order
stamp now order = record order { created_at = now; updated_at = now }

abbrev must : {W : Type 0} → (W → Option Error × W) → Go W (Unit {0})
must f = do failed ← run f; elim failed [ none ↦ pure tt | some e ↦ throw e ]

-- `defer f()`, in a function that goes on with `m`.
abbrev deferring : {W A : Type 0} → (W → W) → Go W A → Go W A
deferring f m w = let (r, w') = m w in (r, f w')

-- The loop over `rows`: it returns at the first row that cannot be scanned.
unfoldable pub collect : {A : Type 0} → List (Result A) → List A → Result (List A)
collect [] found = value found
collect (failure e ∷ rows) found = failure e
collect (value a ∷ rows) found = collect rows (found ++ (a ∷ []))

abbrev pub with_err : {A : Type 0} → Option Error → Result (List A) → Result (List A)
with_err none found = found
with_err (some e) (value found) = failure e
with_err (some e) (failure e') = failure e'

-- The query, the loop with the deferred close, and `rows.Err()`.
abbrev pub read_rows : {W A : Type 0} → (W → W) → (W → Result (Rows A) × W) → Go W (List A)
read_rows close query = do
  queried ← run query
  rows ← lift queried
  effect close
  lift (with_err rows.failed_with (collect rows.scanned []))

module _ {W Tx : Type 0} (p : Pool W Tx) (uuids : Uuids W) where
  -- An item with the nil identifier gets a new one.
  unfoldable pub identify : OrderItem → Go W OrderItem
  identify item =
      if item.id == nil_uuid
      then (do id ← run uuids.new; pure (record item { id = id }))
      else pure item

  -- The loop over `order.Items`, which returns the items as it leaves them.
  unfoldable pub insert_items : Tx → Uuid → List OrderItem → Go W (List OrderItem)
  insert_items tx order_id [] = pure []
  insert_items tx order_id (item ∷ items) = do
    identified ← identify item
    must (p.exec_in tx (insert_item order_id identified))
    rest ← insert_items tx order_id items
    pure (identified ∷ rest)

  -- `Create` from the call of `time.Now` to the end of the loop.
  unfoldable pub draft : Tx → Order → Go W Order
  draft tx order = do
    now ← run p.now
    must (p.exec_in tx (insert_order (row_of (stamp now order))))
    items ← insert_items tx order.id order.items
    pure (record (stamp now order) { items = items })

  -- `Create` once the transaction has begun.
  unfoldable pub store : Tx → Order → Go W Order
  store tx order = do drafted ← draft tx order; must (p.commit tx); pure drafted

  -- `Create`
  unfoldable pub create : Order → Go W Order
  create order = do begun ← run p.begin; tx ← lift begun; deferring (p.rollback tx) (store tx order)

  -- `getItems`
  unfoldable pub get_items : Uuid → Go W (List OrderItem)
  get_items order_id = read_rows p.close_rows (p.query_items order_id)

  -- `GetByID`
  unfoldable pub get_by_id : Uuid → Go W Order
  get_by_id id = do
    queried ← run (p.query_order id)
    row ← rethrow (λ e. if is e no_rows then sentinel stored_order_not_found else e) (lift queried)
    items ← get_items id
    pure (record (order_of row) { items = items })

  -- `ListByUser`
  unfoldable pub list_by_user : Uuid → Go W (List Order)
  list_by_user user_id = do
    rows ← read_rows p.close_rows (p.query_orders user_id)
    pure (map order_of rows)

  -- `UpdateStatus`
  unfoldable pub update_status : Uuid → OrderStatus → Go W (Unit {0})
  update_status id status = do
    now ← run p.now
    tag ← run (p.exec (set_status status now id))
    changed ← lift tag
    if changed == 0 then throw (sentinel stored_order_not_found) else pure tt

  -- `PostgresOrderRepository`
  abbrev pub order_repository : OrderRepository W
  order_repository = record {
    create = create;
    get_by_id = get_by_id;
    list_by_user = list_by_user;
    update_status = update_status;
  }
