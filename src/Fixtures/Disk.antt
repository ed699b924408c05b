-- ===== src/Fixtures/Disk.antt =====
-- A database of two tables in memory.
use microservices_platform.Prelude.{
  ℕ, ◌+◌, ◌≡◌, refl, sym, ap, subst, ◌∙◌, ◌++◌, append-nil, append_assoc, inr, List, [], ◌∷◌, map,
  Option, none, some,
}
use mathlib.Core.List.{Perm}
use mathlib.Core.List.Perm
use microservices_platform.Errors.{sentinel, no_rows}
use microservices_platform.Go.{Result, value, failure}
use microservices_platform.Uuid.{Uuids}
use microservices_platform.Fixtures.{tally_of, read_tally}
use microservices_platform.Repository.{
  OrderRow, Statement, insert_order, insert_item, set_status, Rows, Pool, collect,
}
use microservices_platform.Repository.Tables.{Tables, Transactional, apply}
use microservices_platform.Repository.Finding.{find_row, items_of, Selecting}
use microservices_platform.Repository.Listing.{orders_of, IsNewestFirst, Listing}
use microservices_platform.Fixtures.Newest.{
  newest_first, newest_first-Perm, newest_first-IsNewestFirst,
}
use microservices_platform.Repository.Interleaving.{Failing}
use microservices_platform.Repository.Updating.{count_rows, Updating}

-- The tables, those that the one transaction sees, and a count of the calls for time and chance.
pub record Disk : Type 0 where
  pub kept_tables : Tables
  pub seen : Tables
  pub ticks : ℕ

abbrev pub selected : Option OrderRow → Result OrderRow
selected none = failure (sentinel no_rows)
selected (some r) = value r

abbrev pub updated_rows : Statement → Tables → ℕ
updated_rows (set_status status time id) t = count_rows id t.orders
updated_rows (insert_order row) t = 1
updated_rows (insert_item id item) t = 1

abbrev pub rows_of : {A : Type 0} → List A → Rows A
rows_of xs = record { scanned = map value xs; failed_with = none }

abbrev pub disk : Pool Disk (Unit {0})
disk = record {
  begin = λ w. (value tt, record w { seen = w.kept_tables });
  exec_in = λ tx s w. (none, record w { seen = apply s w.seen });
  commit = λ tx w. (none, record w { kept_tables = w.seen });
  rollback = λ tx w. w;
  exec = λ s w.
      (value (updated_rows s w.kept_tables), record w { kept_tables = apply s w.kept_tables });
  query_order = λ id w. (selected (find_row id w.kept_tables.orders), w);
  query_orders = λ id w. (value (rows_of (newest_first (orders_of id w.kept_tables.orders))), w);
  query_items = λ id w. (value (rows_of (items_of id w.kept_tables.items)), w);
  close_rows = λ w. w;
  now = λ w. (w.ticks, record w { ticks = w.ticks + 1 });
}

abbrev pub disk_uuids : Uuids Disk
disk_uuids = record {
  parse = read_tally;
  to_string = tally_of;
  new = λ w. (w.ticks, record w { ticks = w.ticks + 1 });
}

abbrev pub disk-Transactional : Transactional disk disk_uuids
disk-Transactional = record {
  tables = λ w. w.kept_tables;
  view = λ tx w. w.seen;
  tables-begin = λ w. refl;
  view-begin = λ w e. refl;
  tables-exec_in = λ tx s w. refl;
  view-exec_in = λ tx s w e. refl;
  tables-commit = λ tx w e. refl;
  tables-commit_failed = λ tx w e. inr refl;
  tables-rollback = λ tx w. refl;
  tables-now = λ w. refl;
  view-now = λ tx w. refl;
  tables-new = λ w. refl;
  view-new = λ tx w. refl;
}

abbrev pub blank : Disk
blank = record {
  kept_tables = record { orders = []; items = [] };
  seen = record { orders = []; items = [] };
  ticks = 5000;
}

pub selected-value : (o : Option OrderRow) {r : OrderRow} → selected o ≡ value r → o ≡ some r
selected-value none h = absurd (cc)
selected-value (some r) h = cc

collect-value : {A : Type 0} (xs acc : List A) → collect (map value xs) acc ≡ value (acc ++ xs)
unfolding collect
collect-value [] acc = ap value (sym (append-nil acc))
collect-value (x ∷ xs) acc =
    collect-value xs (acc ++ (x ∷ [])) ∙ ap value (append_assoc acc (x ∷ []) xs)

pub rows_of-eq-value :
    {A : Type 0} (xs : List A) {rows : Rows A} {items : List A}
    → rows_of xs ≡ rows
    → collect rows.scanned [] ≡ value items
    → xs ≡ items
rows_of-eq-value {A} xs {rows} {items} e f =
    let g : Result.value xs ≡ value items =
      sym (collect-value xs []) ∙ ap (λ (r : Rows A). collect r.scanned []) e ∙ f in
    cc

abbrev pub disk-Selecting : Selecting disk disk_uuids disk-Transactional
disk-Selecting = record {
  tables-query_order = λ id w. refl;
  found_order = λ id w e. selected-value (find_row id w.kept_tables.orders) e;
  found_items = λ id w {rows} {items} e whole f.
      subst (λ xs. Perm items xs)
        (sym (rows_of-eq-value (items_of id w.kept_tables.items) {rows = rows} (cc) f))
        (Perm.refl items);
}

abbrev pub disk-Updating : Updating disk disk_uuids disk-Transactional
disk-Updating = record { applied = λ status time id w e. refl; counted = λ status time id w e. cc }

abbrev pub disk-Failing : Failing disk disk_uuids disk-Transactional
disk-Failing = record { unapplied = λ status time id w h. cc }

abbrev pub disk-Listing : Listing disk disk_uuids disk-Transactional
disk-Listing = record {
  found_orders = λ user_id w {rows} {found} e whole f.
      let stored = orders_of user_id w.kept_tables.orders in
      let all : newest_first stored ≡ found =
        rows_of-eq-value (newest_first stored) {rows = rows} (cc) f in
      (
        subst (λ (xs : List OrderRow). Perm xs stored) all (newest_first-Perm stored),
        subst (λ (xs : List OrderRow). IsNewestFirst (λ r. r.created_at) xs) all
            (newest_first-IsNewestFirst stored),
      );
}
