-- ===== src/Repository/Interleaving/Statuses.antt =====
-- The status of a stored order, however the calls of several requests are interleaved.
use microservices_platform.Prelude.{
  ◌≡◌, ◌≢◌, refl, sym, ◌∙◌, ap, subst, ◌⊎◌, inl, inr, ◌==◌, ==_iff, Bool-cases, none, some, List,
  [], ◌∷◌, ◌++◌, All, All-map, All-remove, All-zip, arith,
}
use microservices_platform.Go.Laws.{Result-cases}
use microservices_platform.Uuid.{Uuid, Uuids, Time}
use microservices_platform.Models.{Order, OrderStatus, pending}
use microservices_platform.Repository.{OrderRow, Pool, set_status, row_of, update_status}
use microservices_platform.Repository.Tables.{Tables, Transactional, apply, saved, kept, micros}
use microservices_platform.Repository.Storing.{Stamped}
use microservices_platform.Repository.Creating.{create-Atomic, create-Stamped}
use microservices_platform.Repository.Finding.{find_row, find_row-saved}
use microservices_platform.Repository.Updating.{Updating}
use microservices_platform.Repository.Keys.{
  find_row-set_status, find_row-set_other, find_row-saved_other,
}
use microservices_platform.Repository.Interleaving.{
  IsFinal, Evolves, System, Failing, Turn, stores, loses, updates, works, Turns, here, next, IsOpen,
}

-- No identifier stands twice.
abbrev Distinct : List Uuid → Type 0
Distinct [] = Unit
Distinct (x ∷ xs) = All (λ y. y ≢ x) xs × Distinct xs

Distinct-remove :
    (before : List Uuid) (x : Uuid) (after : List Uuid)
    → Distinct (before ++ (x ∷ after))
    → All (λ y. y ≢ x) (before ++ after) × Distinct (before ++ after)
Distinct-remove [] x after h = h
Distinct-remove (b ∷ before) x after h =
    let (apart, others) = All-remove (λ y. y ≢ b) before x after h.0 in
    let (from_x, distinct) = Distinct-remove before x after h.1 in
    (((λ e. apart (sym e)), from_x), (others, distinct))

abbrev IsConsistent : Tables → List Uuid → Type 0
IsConsistent t calls = All (IsOpen t) calls × Distinct calls

final-ne-pending : (status : OrderStatus) → IsFinal status → status ≢ pending
final-ne-pending status (inl e) = λ h. cc
final-ne-pending status (inr e) = λ h. cc

Evolves-trans : (a b c : OrderRow) → Evolves a b → Evolves b c → Evolves a c
Evolves-trans a b c (inl e) k = subst (λ r. Evolves r c) e k
Evolves-trans a b c (inr h) (inl e) = subst (λ r. Evolves a r) (sym e) (inr h)
Evolves-trans a b c (inr (open_yet, final, e)) (inr (reopened, again, e')) =
    absurd (final-ne-pending b.status final reopened)

-- Where a row is after the tables have changed.
abbrev Moves : Tables → Tables → Type 0
Moves t t' =
    (id : Uuid) (row : OrderRow)
    → find_row id t.orders ≡ some row
    → (row' : OrderRow) × (find_row id t'.orders ≡ some row') × Evolves row row'

-- What is kept from some tables to others.
abbrev KeepsFrom : Tables → List Uuid → Tables → Type 0
KeepsFrom t₀ calls t = IsConsistent t calls × Moves t₀ t

Moves-saved : (o : Order) (t : Tables) → find_row o.id t.orders ≡ none → Moves t (saved o t)
Moves-saved o t fresh id row at = (row, find_row-saved_other o t id fresh at, inl refl)

-- A new order is a further open one.
stored-IsConsistent :
    (o : Order) (t : Tables) (calls : List Uuid)
    → o.status ≡ pending
    → find_row o.id t.orders ≡ none
    → IsConsistent t calls
    → IsConsistent (saved o t) (o.id ∷ calls) × IsConsistent (saved o t) calls
stored-IsConsistent o t calls new fresh (opens, distinct) =
    let still : All (IsOpen (saved o t)) calls =
      All-map (λ id (row, at, e). (row, find_row-saved_other o t id fresh at, e)) calls opens in
    let others : All (λ id. id ≢ o.id) calls =
      All-map (λ id (row, at, e) same. ground (arith)) calls opens in
    ((((kept (row_of o), find_row-saved o t, new), still), (others, distinct)), (still, distinct))

module _ (status : OrderStatus) (time : Time) (id : Uuid) (t : Tables) where
  Moves-set_status : IsOpen t id → IsFinal status → Moves t (apply (set_status status time id) t)
  Moves-set_status (r, at, open_yet) final j row found = elim (Bool-cases (j == id)) [
    | inl same ↦
        let e : j ≡ id = (==_iff j id).0 same in
        let e' : row ≡ r = ground arith in
        (
          record r { status = status; updated_at = micros time },
          rw e (find_row-set_status status time id t.orders at),
          rw e' (inr (open_yet, final, refl)),
        )
    | inr other ↦
        let apart : j ≢ id = ground arith in
        (row, find_row-set_other status time id j t.orders apart ∙ found, inl refl)
  ]

  IsOpen-set_other :
      (j : Uuid) → j ≢ id → IsOpen t j → IsOpen (apply (set_status status time id) t) j
  IsOpen-set_other j apart (row, at, e) =
      (row, find_row-set_other status time id j t.orders apart ∙ at, e)

  updated-IsConsistent :
      (calls : List Uuid)
      → All (λ j. j ≢ id) calls
      → IsConsistent t calls
      → IsConsistent (apply (set_status status time id) t) calls
  updated-IsConsistent calls others (opens, distinct) =
      (All-zip IsOpen-set_other calls others opens, distinct)

module _ {W Tx : Type 0} (p : Pool W Tx) (uuids : Uuids W) (d : Transactional p uuids)
    (u : Updating p uuids d) (f : Failing p uuids d) where
  -- Whatever `UpdateStatus` returns, the tables are updated or as they were.
  pub tables-update_status :
      (id : Uuid) (status : OrderStatus) (w : W)
      → let t' = d.tables (update_status p uuids id status w).1 in
        (t' ≡ d.tables w) ⊎ (t' ≡ apply (set_status status (p.now w).0 id) (d.tables w))
  unfolding update_status
  tables-update_status id status w =
      elim (Result-cases (p.exec (set_status status (p.now w).0 id) (p.now w).1).0) [
        | inl (n, e) ↦
            let done = u.applied status (p.now w).0 id (p.now w).1 e in
            inr (ground (arith, done, d.tables-now w))
        | inr (e, bad) ↦ elim (f.unapplied status (p.now w).0 id (p.now w).1 bad) [
          | inl same ↦ inl (ground (arith, same, d.tables-now w))
          | inr done ↦ inr (ground (arith, done, d.tables-now w))
        ]
      ]

  abbrev pub IsSound : System W → Type 0
  IsSound s = IsConsistent (d.tables s.world) s.calls

  -- One turn keeps what is sound, and moves every row as it may.
  abbrev Keeps : System W → System W → Type 0
  Keeps s t = IsSound t × Moves (d.tables s.world) (d.tables t.world)

  unmoved : (t : Tables) → Moves t t
  unmoved t id row at = (row, at, inl refl)

  -- The stored order is as new as the one that was to be stored.
  Stamped-new :
      (order stored : Order) (t : Tables)
      → Stamped order stored
      → order.status ≡ pending
      → find_row order.id t.orders ≡ none
      → (stored.status ≡ pending) × (find_row stored.id t.orders ≡ none)
  Stamped-new order stored t stamped new fresh = (
    ap (λ (o : Order). o.status) stamped.2 ∙ new,
    ap (λ (o : Order). find_row o.id t.orders) stamped.2 ∙ fresh,
  )

  Turn-Keeps : {s t : System W} → IsSound s → Turn p uuids d s t → Keeps s t
  Turn-Keeps {s} h (works w same) =
      subst (KeepsFrom (d.tables s.world) s.calls) (sym same) (h, unmoved (d.tables s.world))
  Turn-Keeps {s} h (stores order {stored} new adds fresh done) =
      let (stamped, saved_it) = create-Stamped p uuids d order s.world done in
      let (new', fresh') = Stamped-new order stored (d.tables s.world) stamped new fresh in
      subst (KeepsFrom (d.tables s.world) (stored.id ∷ s.calls)) (sym saved_it) (
        (stored-IsConsistent stored (d.tables s.world) s.calls new' fresh' h).0,
        Moves-saved stored (d.tables s.world) fresh',
      )
  Turn-Keeps {s} h (loses order new adds fresh bad) = elim (create-Atomic p uuids d order s.world) [
    | inl same ↦
        subst (KeepsFrom (d.tables s.world) s.calls) (sym same) (h, unmoved (d.tables s.world))
    | inr (stored, stamped, saved_it) ↦
        let (new', fresh') = Stamped-new order stored (d.tables s.world) stamped new fresh in
        subst (KeepsFrom (d.tables s.world) s.calls) (sym saved_it) (
          (stored-IsConsistent stored (d.tables s.world) s.calls new' fresh' h).1,
          Moves-saved stored (d.tables s.world) fresh',
        )
  ]
  Turn-Keeps {s} h (updates before id after status at final) =
      let (opens, distinct) = subst (λ calls. IsConsistent (d.tables s.world) calls) at h in
      let (open_id, others_open) = All-remove (IsOpen (d.tables s.world)) before id after opens in
      let (apart, others_distinct) = Distinct-remove before id after distinct in
      elim (tables-update_status id status s.world) [
        | inl same ↦
            subst (KeepsFrom (d.tables s.world) (before ++ after)) (sym same)
              ((others_open, others_distinct), unmoved (d.tables s.world))
        | inr done ↦ subst (KeepsFrom (d.tables s.world) (before ++ after)) (sym done) (
          updated-IsConsistent status (p.now s.world).0 id (d.tables s.world) (before ++ after)
              apart (others_open, others_distinct),
          Moves-set_status status (p.now s.world).0 id (d.tables s.world) open_id final,
        )
      ]

  -- However the turns of several calls of CreateOrder follow each other, the row of every stored
  -- order is still there afterwards, and it is as it was, or it was PENDING and is CONFIRMED or
  -- FAILED, with all other columns but updated_at as they were; and the open orders are again
  -- distinct, stored and PENDING. Assumes this last of the start (IsSound), and the documented
  -- effects of transactions and of an UPDATE that succeeds or fails (Transactional, Updating,
  -- Failing).
  pub Turns-Evolves :
      {s t : System W}
      → IsSound s
      → Turns p uuids d s t
      → IsSound t
        × ((id : Uuid) (row : OrderRow)
            → find_row id (d.tables s.world).orders ≡ some row
            → (row' : OrderRow) × (find_row id (d.tables t.world).orders ≡ some row')
              × Evolves row row')
  Turns-Evolves {s} h here = (h, unmoved (d.tables s.world))
  Turns-Evolves h (next before turn) =
      let (sound, moves) = Turns-Evolves h before in
      let (sound', moves') = Turn-Keeps sound turn in
      (
        sound',
        λ id row at.
            let (row₁, at₁, e₁) = moves id row at in
            let (row₂, at₂, e₂) = moves' id row₁ at₁ in
            (row₂, at₂, Evolves-trans row row₁ row₂ e₁ e₂),
      )
