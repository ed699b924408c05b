-- ===== src/Repository/Interleaving/Totals.antt =====
-- Orders and their items, however the calls of several requests are interleaved.
use microservices_platform.Prelude.{◌≡◌, sym, ◌∙◌, ap, subst, inl, inr, none}
use microservices_platform.Uuid.{Uuids}
use microservices_platform.Models.{Order, pending}
use microservices_platform.Repository.{Pool}
use microservices_platform.Repository.Tables.{Tables, Transactional, saved}
use microservices_platform.Repository.Storing.{Stamped}
use microservices_platform.Repository.Creating.{create-Atomic, create-Stamped}
use microservices_platform.Repository.Finding.{find_row}
use microservices_platform.Repository.Updating.{Updating}
use microservices_platform.Repository.Totals.{
  AddsUp, AddsUp-Stamped, IsBalanced, IsBalanced-saved, IsBalanced-set_status,
}
use microservices_platform.Repository.Interleaving.{
  System, Failing, Turn, stores, loses, updates, works, Turns, here, next,
}
use microservices_platform.Repository.Interleaving.Statuses.{tables-update_status}

-- A stamped version of a new order whose lines add up.
saved_version-IsBalanced :
    (order stored : Order) (t : Tables)
    → Stamped order stored
    → order.status ≡ pending
    → AddsUp order
    → find_row order.id t.orders ≡ none
    → IsBalanced t
    → IsBalanced (saved stored t)
saved_version-IsBalanced order stored t stamped new adds fresh h =
    IsBalanced-saved stored t (ap (λ (o : Order). o.status) stamped.2 ∙ new)
      (AddsUp-Stamped order stored stamped adds)
      (ap (λ (o : Order). find_row o.id t.orders) stamped.2 ∙ fresh) h

module _ {W Tx : Type 0} (p : Pool W Tx) (uuids : Uuids W) (d : Transactional p uuids)
    (u : Updating p uuids d) (f : Failing p uuids d) where
  Turn-IsBalanced :
      {s t : System W}
      → Turn p uuids d s t
      → IsBalanced (d.tables s.world)
      → IsBalanced (d.tables t.world)
  Turn-IsBalanced (works w same) h = subst IsBalanced (sym same) h
  Turn-IsBalanced {s} (stores order {stored} new adds fresh done) h =
      let (stamped, saved_it) = create-Stamped p uuids d order s.world done in
      subst IsBalanced (sym saved_it)
        (saved_version-IsBalanced order stored (d.tables s.world) stamped new adds fresh h)
  Turn-IsBalanced {s} (loses order new adds fresh bad) h =
      elim (create-Atomic p uuids d order s.world) [
        | inl same ↦ subst IsBalanced (sym same) h
        | inr (stored, stamped, saved_it) ↦
            subst IsBalanced (sym saved_it)
              (saved_version-IsBalanced order stored (d.tables s.world) stamped new adds fresh h)
      ]
  Turn-IsBalanced {s} (updates before id after status at final) h =
      elim (tables-update_status p uuids d u f id status s.world) [
        | inl same ↦ subst IsBalanced (sym same) h
        | inr done ↦
            subst IsBalanced (sym done)
              (IsBalanced-set_status status (p.now s.world).0 id (d.tables s.world) (inr final) h)
      ]

  -- However the turns of several calls of CreateOrder follow each other, if it held before, it
  -- holds afterwards that an identifier without a row in orders has no rows in order_items, and
  -- that every row in orders has the status PENDING, CONFIRMED or FAILED and a total_cents that is
  -- the sum of quantity times unit_price_cents over its items, wrapped to 64 bits. Assumes the
  -- documented effects of transactions and of an UPDATE that succeeds or fails (Transactional,
  -- Updating, Failing).
  pub Turns-IsBalanced :
      {s t : System W}
      → Turns p uuids d s t
      → IsBalanced (d.tables s.world)
      → IsBalanced (d.tables t.world)
  Turns-IsBalanced here h = h
  Turns-IsBalanced (next before turn) h = Turn-IsBalanced turn (Turns-IsBalanced before h)
