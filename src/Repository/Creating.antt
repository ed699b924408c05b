-- ===== src/Repository/Creating.antt =====
-- `Create` as a whole, on the tables.
use microservices_platform.Prelude.{◌≡◌, ◌⊎◌, inl, inr, arith}
use microservices_platform.Go.{ok}
use microservices_platform.Go.Laws.{Result-cases}
use microservices_platform.Uuid.{Uuids}
use microservices_platform.Models.{Order}
use microservices_platform.Repository.{Pool, store, create}
use microservices_platform.Repository.Tables.{saved, Transactional}
use microservices_platform.Repository.Storing.{Stamped, tables-store, store-eq-ok}

module _ {W Tx : Type 0} (p : Pool W Tx) (uuids : Uuids W) (d : Transactional p uuids) where
  -- However Create ends, the tables are as they were or hold all the rows of one stamped version
  -- of the order besides: never a part of them. Assumes the documented effects of transactions
  -- (Transactional): statements in one are seen by others only once it is committed, and a failed
  -- commit may have been kept or not; and that nobody else writes meanwhile.
  pub create-Atomic :
      (order : Order) (w : W)
      → (d.tables (create p uuids order w).1 ≡ d.tables w)
        ⊎ ((stored : Order) × Stamped order stored
            × (d.tables (create p uuids order w).1 ≡ saved stored (d.tables w)))
  unfolding create
  create-Atomic order w = elim (Result-cases (p.begin w).0) [
    | inl (tx, begun) ↦
        let w₁ = (p.begin w).1 in
        let after = d.tables-rollback tx (store p uuids tx order w₁).1 in
        elim (tables-store p uuids d tx order w₁) [
          | inl same ↦ inl (ground (arith, after, d.tables-begin w))
          | inr (stored, stamped, same) ↦
              inr (stored, stamped, ground (arith, after, d.view-begin w begun))
        ]
    | inr (e, bad) ↦ inl (ground (arith, d.tables-begin w))
  ]

  -- When Create returns, the order differs from the one it was given only in its two times, which
  -- are equal, and in new identifiers for items that had the nil one, and exactly its rows were
  -- added to the tables, under the same assumptions on transactions (Transactional).
  pub create-Stamped :
      (order : Order) (w : W) {stored : Order}
      → (create p uuids order w).0 ≡ ok stored
      → Stamped order stored × (d.tables (create p uuids order w).1 ≡ saved stored (d.tables w))
  unfolding create
  create-Stamped order w h = elim (Result-cases (p.begin w).0) [
    | inl (tx, begun) ↦
        let w₁ = (p.begin w).1 in
        let (stamped, same) = store-eq-ok p uuids d tx order w₁ (ground arith) in
        (
          stamped,
          ground (
            arith,
            same,
            d.tables-rollback tx (store p uuids tx order w₁).1,
            d.view-begin w begun,
          ),
        )
    | inr (e, bad) ↦ absurd (ground arith)
  ]
