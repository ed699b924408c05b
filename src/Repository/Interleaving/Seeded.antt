-- ===== src/Repository/Interleaving/Seeded.antt =====
-- A database that starts with its migrations, however the calls of several requests follow.
use microservices_platform.Prelude.{◌≡◌, sym, ◌∙◌, ap, subst, inl, inr, some, []}
use microservices_platform.Uuid.{Uuids, Time}
use microservices_platform.Repository.{Pool}
use microservices_platform.Repository.Tables.{Tables, Transactional, kept}
use microservices_platform.Repository.Finding.{find_row}
use microservices_platform.Repository.Updating.{Updating}
use microservices_platform.Repository.Totals.{IsBalanced}
use microservices_platform.Repository.Seed.{seed_id, seed_row, seeded, seeded-IsBalanced}
use microservices_platform.Repository.Interleaving.{System, Failing, Turns}
use microservices_platform.Repository.Interleaving.Statuses.{IsSound, Turns-Evolves}
use microservices_platform.Repository.Interleaving.Totals.{Turns-IsBalanced}

module _ {W Tx : Type 0} (p : Pool W Tx) (uuids : Uuids W) (d : Transactional p uuids)
    (u : Updating p uuids d) (f : Failing p uuids d) where
  -- From the tables that the seed migration leaves in an empty database, with no order open,
  -- however the turns of several calls of CreateOrder follow each other: the tables are balanced
  -- (IsBalanced), the open orders are distinct, stored and PENDING (IsSound), and the row of the
  -- seeded order is as it was. Assumes the documented effects of transactions and of an UPDATE
  -- that succeeds or fails (Transactional, Updating, Failing).
  pub Turns-seeded :
      (now : Time) (w : W) {t : System W}
      → d.tables w ≡ seeded now
      → Turns p uuids d (record { world = w; calls = [] }) t
      → IsBalanced (d.tables t.world)
        × IsSound p uuids d u f t
        × (find_row seed_id (d.tables t.world).orders ≡ some (kept (seed_row now)))
  Turns-seeded now w {t} start turns =
      let at_start = ap (λ (x : Tables). find_row seed_id x.orders) start in
      let (sound, moves) = Turns-Evolves p uuids d u f (tt, tt) turns in
      let (row, at, evolves) = moves seed_id (kept (seed_row now)) at_start in
      (
        Turns-IsBalanced p uuids d u f turns (subst IsBalanced (sym start) (seeded-IsBalanced now)),
        sound,
        elim evolves [ inl same ↦ at ∙ ap some same | inr (still_open, final, rest) ↦ absurd (cc) ],
      )
