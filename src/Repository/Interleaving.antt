-- ===== src/Repository/Interleaving.antt =====
-- Calls of the repository by requests that run at the same time: between two of them anything may
-- happen that leaves the tables alone.
pub mod Statuses
pub mod Totals
pub mod Seeded
mod Tests
use microservices_platform.Prelude.{
  ◌≡◌, ◌≢◌, refl, sym, ◌∙◌, ap, subst, ◌⊎◌, inl, inr, ◌==◌, ==_iff, Bool-cases, Bool, true, false,
  none, some, List, [], ◌∷◌, ◌++◌, All, arith,
}
use microservices_platform.Errors.{Error}
use microservices_platform.Go.{ok, err, value, failure}
use microservices_platform.Go.Laws.{Result-cases}
use microservices_platform.Uuid.{Uuid, Uuids, Time}
use microservices_platform.Models.{Order, OrderStatus, pending, confirmed, failed}
use microservices_platform.Repository.{OrderRow, Pool, set_status, row_of, create, update_status}
use microservices_platform.Repository.Tables.{Tables, Transactional, apply, saved, kept}
use microservices_platform.Repository.Storing.{Stamped}
use microservices_platform.Repository.Creating.{create-Atomic, create-Stamped}
use microservices_platform.Repository.Finding.{find_row, find_row-saved}
use microservices_platform.Repository.Updating.{Updating}
use microservices_platform.Repository.Totals.{AddsUp}
use microservices_platform.Repository.Keys.{
  find_row-set_status, find_row-set_other, find_row-saved_other,
}

abbrev pub IsFinal : OrderStatus → Type 0
IsFinal status = (status ≡ confirmed) ⊎ (status ≡ failed)

-- What may become of a row: nothing, or its status changes from PENDING to a final one.
abbrev pub Evolves : OrderRow → OrderRow → Type 0
Evolves r r' =
    (r' ≡ r)
    ⊎ ((r.status ≡ pending)
        × IsFinal r'.status
        × (r' ≡ record r { status = r'.status; updated_at = r'.updated_at }))

-- The world, and the orders that were stored by calls which have yet to update their status.
pub record System (W : Type 0) : Type 0 where
  pub world : W
  pub calls : List Uuid

-- An order whose status is yet to come is stored, and pending.
abbrev pub IsOpen : Tables → Uuid → Type 0
IsOpen t id = (row : OrderRow) × (find_row id t.orders ≡ some row) × (row.status ≡ pending)

module _ {W Tx : Type 0} (p : Pool W Tx) (uuids : Uuids W) (d : Transactional p uuids) where
  -- An `UPDATE` that fails has changed what it would have, or nothing.
  pub record Failing : Type 0 where
    pub unapplied :
        (status : OrderStatus) (time : Time) (id : Uuid) (w : W) {e : Error}
        → (p.exec (set_status status time id) w).0 ≡ failure e
        → let w' = (p.exec (set_status status time id) w).1 in
          (d.tables w' ≡ d.tables w)
          ⊎ (d.tables w' ≡ apply (set_status status time id) (d.tables w))

  -- The next thing to happen: a call stores a pending order, with the total of its
  -- lines, under a new key, or fails to; a call
  -- that has stored an order sets its final status, once; or the tables are left alone. That a new
  -- row has a new key is what PRIMARY KEY of the table orders enforces.
  pub data Turn (s : System W) : System W → Type 0 where
    stores :
        (order : Order) {stored : Order}
        → order.status ≡ pending
        → AddsUp order
        → find_row order.id (d.tables s.world).orders ≡ none
        → (create p uuids order s.world).0 ≡ ok stored
        → Turn s (record { world = (create p uuids order s.world).1; calls = stored.id ∷ s.calls })
    loses :
        (order : Order) {e : Error}
        → order.status ≡ pending
        → AddsUp order
        → find_row order.id (d.tables s.world).orders ≡ none
        → (create p uuids order s.world).0 ≡ err e
        → Turn s (record { world = (create p uuids order s.world).1; calls = s.calls })
    updates :
        (before : List Uuid) (id : Uuid) (after : List Uuid) (status : OrderStatus)
        → s.calls ≡ before ++ (id ∷ after)
        → IsFinal status
        → Turn s (record {
          world = (update_status p uuids id status s.world).1;
          calls = before ++ after;
        })
    works : (w : W) → d.tables w ≡ d.tables s.world → Turn s (record { world = w; calls = s.calls })

  pub data Turns (s : System W) : System W → Type 0 where
    here : Turns s s
    next : {t u : System W} → Turns s t → Turn t u → Turns s u
