-- ===== src/Repository/Tables.antt =====
-- The tables that the statements of internal/repository work on, and what the package relies on of
-- PostgreSQL and pgx: the documented effect of each statement while nobody else writes.
use microservices_platform.Prelude.{
  ◌-◌, ◌%◌, ◌==◌, ◌≡◌, ◌⊎◌, List, [], ◌∷◌, ◌++◌, map, none, some, if◌then◌else◌,
}
use microservices_platform.Errors.{Error}
use microservices_platform.Go.{value}
use microservices_platform.Uuid.{Uuid, Uuids, Time}
use microservices_platform.Models.{Order, OrderItem}
use microservices_platform.Repository.{
  OrderRow, Statement, insert_order, insert_item, set_status, Pool, row_of,
}

pub record Tables : Type 0 where
  pub orders : List OrderRow
  pub items : List (Uuid × OrderItem)

-- A column of type TIMESTAMPTZ keeps microseconds.
abbrev pub micros : Time → Time
micros t = t - t % 1000

abbrev pub kept : OrderRow → OrderRow
kept r = record r { created_at = micros r.created_at; updated_at = micros r.updated_at }

abbrev pub restatus : Statement → OrderRow → OrderRow
restatus (insert_order row) r = r
restatus (insert_item id item) r = r
restatus (set_status status time id) r =
    if r.id == id then record r { status = status; updated_at = micros time } else r

abbrev pub apply : Statement → Tables → Tables
apply (insert_order row) t = record t { orders = kept row ∷ t.orders }
apply (insert_item id item) t = record t { items = t.items ++ ((id, item) ∷ []) }
apply (set_status status time id) t = record t {
  orders = map (restatus (set_status status time id)) t.orders;
}

abbrev pub insert_all : Uuid → List OrderItem → Tables → Tables
insert_all id [] t = t
insert_all id (item ∷ items) t = insert_all id items (apply (insert_item id item) t)

-- All the rows of one order are added.
abbrev pub saved : Order → Tables → Tables
saved o t = insert_all o.id o.items (apply (insert_order (row_of o)) t)

module _ {W Tx : Type 0} (p : Pool W Tx) (uuids : Uuids W) where
  -- The tables as others see them, and as a transaction sees them. After a failure to commit,
  -- either may be what is kept.
  pub record Transactional : Type 0 where
    pub tables : W → Tables
    pub view : Tx → W → Tables
    pub tables-begin : (w : W) → tables (p.begin w).1 ≡ tables w
    pub view-begin : (w : W) {tx : Tx} → (p.begin w).0 ≡ value tx → view tx (p.begin w).1 ≡ tables w
    pub tables-exec_in : (tx : Tx) (s : Statement) (w : W) → tables (p.exec_in tx s w).1 ≡ tables w
    pub view-exec_in :
        (tx : Tx) (s : Statement) (w : W)
        → (p.exec_in tx s w).0 ≡ none
        → view tx (p.exec_in tx s w).1 ≡ apply s (view tx w)
    pub tables-commit :
        (tx : Tx) (w : W) → (p.commit tx w).0 ≡ none → tables (p.commit tx w).1 ≡ view tx w
    pub tables-commit_failed :
        (tx : Tx) (w : W) {e : Error}
        → (p.commit tx w).0 ≡ some e
        → (tables (p.commit tx w).1 ≡ tables w) ⊎ (tables (p.commit tx w).1 ≡ view tx w)
    pub tables-rollback : (tx : Tx) (w : W) → tables (p.rollback tx w) ≡ tables w
    pub tables-now : (w : W) → tables (p.now w).1 ≡ tables w
    pub view-now : (tx : Tx) (w : W) → view tx (p.now w).1 ≡ view tx w
    pub tables-new : (w : W) → tables (uuids.new w).1 ≡ tables w
    pub view-new : (tx : Tx) (w : W) → view tx (uuids.new w).1 ≡ view tx w
