-- ===== src/Repository/Storing.antt =====
-- `Create`: all the rows of an order are stored, or none.
use microservices_platform.Prelude.{
  ◌≡◌, refl, ◌∙◌, ap, ◌⊎◌, inl, inr, Bool-cases, Option-cases, List, [], ◌∷◌, arith, ◌==◌, none,
}
use microservices_platform.Go.{ok}
use microservices_platform.Go.Laws.{Outcome-cases}
use microservices_platform.Uuid.{Uuid, Uuids, nil_uuid}
use microservices_platform.Models.{Order, OrderItem}
use microservices_platform.Repository.{
  Pool, row_of, insert_order, insert_item, stamp, identify, insert_items, draft, store,
}
use microservices_platform.Repository.Tables.{apply, insert_all, saved, Transactional}

-- The items in order, each as it was or, if its identifier was nil, with a new one.
abbrev pub Identified : List OrderItem → List OrderItem → Type 0
Identified [] [] = Unit
Identified [] (i ∷ is) = ⊥
Identified (r ∷ rs) [] = ⊥
Identified (r ∷ rs) (i ∷ is) =
    ((i ≡ r) ⊎ ((r.id ≡ nil_uuid) × (i ≡ record r { id = i.id }))) × Identified rs is

-- The order as `Create` leaves it: stamped with one time, and its items identified.
abbrev pub Stamped : Order → Order → Type 0
Stamped order stored =
    (stored.updated_at ≡ stored.created_at)
    × Identified order.items stored.items
    × (stored ≡ record order {
      items = stored.items;
      created_at = stored.created_at;
      updated_at = stored.updated_at;
    })

module _ {W Tx : Type 0} (p : Pool W Tx) (uuids : Uuids W) (d : Transactional p uuids)
    (tx : Tx) where
  tables-identify : (item : OrderItem) (w : W) → d.tables (identify p uuids item w).1 ≡ d.tables w
  unfolding identify
  tables-identify item w = ground (arith, d.tables-new w)

  view-identify : (item : OrderItem) (w : W) → d.view tx (identify p uuids item w).1 ≡ d.view tx w
  unfolding identify
  view-identify item w = ground (arith, d.view-new tx w)

  identify_lem :
      (r : OrderItem) (w : W)
      → (i : OrderItem) × ((identify p uuids r w).0 ≡ ok i)
        × ((i ≡ r) ⊎ ((r.id ≡ nil_uuid) × (i ≡ record r { id = i.id })))
  unfolding identify
  identify_lem r w = elim (Bool-cases (r.id == nil_uuid)) [
    | inl is_nil ↦ (record r { id = (uuids.new w).0 }, rw is_nil refl, inr (ground arith, refl))
    | inr is_set ↦ (r, rw is_set refl, inl refl)
  ]

  tables-insert_items :
      (id : Uuid) (items : List OrderItem) (w : W)
      → d.tables (insert_items p uuids tx id items w).1 ≡ d.tables w
  unfolding insert_items
  tables-insert_items id [] w = refl
  tables-insert_items id (r ∷ rs) w =
      let (i, named, same) = identify_lem r w in
      let w₁ = (identify p uuids r w).1 in
      let w₂ = (p.exec_in tx (insert_item id i) w₁).1 in
      ground (
        arith,
        named,
        tables-identify r w,
        d.tables-exec_in tx (insert_item id i) w₁,
        tables-insert_items id rs w₂,
      )

  -- A round of the loop that came to its end, and the rounds after it.
  insert_items-eq-ok :
      (id : Uuid) (r : OrderItem) (rs : List OrderItem) (w : W) {stored : List OrderItem}
      → (insert_items p uuids tx id (r ∷ rs) w).0 ≡ ok stored
      → let w₁ = (identify p uuids r w).1 in
        (i : OrderItem) × (rest : List OrderItem) × ((i ≡ r)
          ⊎ ((r.id ≡ nil_uuid) × (i ≡ record r { id = i.id })))
        × ((p.exec_in tx (insert_item id i) w₁).0 ≡ none)
        × (let w₂ = (p.exec_in tx (insert_item id i) w₁).1 in
            ((insert_items p uuids tx id rs w₂).0 ≡ ok rest)
            × (stored ≡ i ∷ rest)
            × ((insert_items p uuids tx id (r ∷ rs) w).1 ≡ (insert_items p uuids tx id rs w₂).1))
  unfolding insert_items
  insert_items-eq-ok id r rs w h =
      let (i, named, same) = identify_lem r w in
      let w₁ = (identify p uuids r w).1 in
      let w₂ = (p.exec_in tx (insert_item id i) w₁).1 in
      elim (Option-cases (p.exec_in tx (insert_item id i) w₁).0) [
        | inl done ↦ elim (Outcome-cases (insert_items p uuids tx id rs w₂).0) [
          | inl (rest, more) ↦
              (i, rest, same, done, (more, ground (arith, named), ground (arith, named)))
          | inr (inl (e, bad)) ↦ absurd (ground (arith, named))
          | inr (inr (m, bad)) ↦ absurd (ground (arith, named))
        ]
        | inr (e, bad) ↦ absurd (ground (arith, named))
      ]

  view-insert_items :
      (id : Uuid) (items : List OrderItem) (w : W) {stored : List OrderItem}
      → (insert_items p uuids tx id items w).0 ≡ ok stored
      → Identified items stored
        × (d.view tx (insert_items p uuids tx id items w).1 ≡ insert_all id stored (d.view tx w))
  view-insert_items id [] w {stored} h =
      let e : stored ≡ [] = unfold insert_items in ground arith in
      rw e (tt, unfold insert_items in refl)
  view-insert_items id (r ∷ rs) w h =
      let (i, rest, same, done, (more, e, last)) = insert_items-eq-ok id r rs w h in
      let w₁ = (identify p uuids r w).1 in
      let (identified, added) =
        view-insert_items id rs (p.exec_in tx (insert_item id i) w₁).1 more in
      rw e (
        (same, identified),
        rw last (
            added
            ∙ ap (insert_all id rest) (
                d.view-exec_in tx (insert_item id i) w₁ done
                ∙ ap (apply (insert_item id i)) (view-identify r w))),
      )

  tables-draft : (order : Order) (w : W) → d.tables (draft p uuids tx order w).1 ≡ d.tables w
  unfolding draft
  tables-draft order w =
      let (now, w₁) = p.now w in
      let inserting = insert_order (row_of (stamp now order)) in
      ground (
        arith,
        d.tables-now w,
        d.tables-exec_in tx inserting w₁,
        tables-insert_items order.id order.items (p.exec_in tx inserting w₁).1,
      )

  view-draft :
      (order : Order) (w : W) {stored : Order}
      → (draft p uuids tx order w).0 ≡ ok stored
      → Stamped order stored × (d.view tx (draft p uuids tx order w).1 ≡ saved stored (d.view tx w))
  unfolding draft
  view-draft order w {stored} h =
      let now = (p.now w).0 in
      let w₁ = (p.now w).1 in
      let inserting = insert_order (row_of (stamp now order)) in
      let w₂ = (p.exec_in tx inserting w₁).1 in
      elim (Option-cases (p.exec_in tx inserting w₁).0) [
        | inl done ↦ elim (Outcome-cases (insert_items p uuids tx order.id order.items w₂).0) [
          | inl (items, all) ↦
              let (identified, added) = view-insert_items order.id order.items w₂ all in
              let same : stored ≡ record (stamp now order) { items = items } = ground arith in
              rw same (
                (refl, identified, refl),
                ground (arith, added, d.view-exec_in tx inserting w₁ done, d.view-now tx w),
              )
          | inr (inl (e, bad)) ↦ absurd (ground arith)
          | inr (inr (m, bad)) ↦ absurd (ground arith)
        ]
        | inr (e, bad) ↦ absurd (ground arith)
      ]

  pub tables-store :
      (order : Order) (w : W)
      → (d.tables (store p uuids tx order w).1 ≡ d.tables w)
        ⊎ ((stored : Order) × Stamped order stored
            × (d.tables (store p uuids tx order w).1 ≡ saved stored (d.view tx w)))
  unfolding store
  tables-store order w = elim (Outcome-cases (draft p uuids tx order w).0) [
    | inl (stored, drafted) ↦
        let (stamped, seen) = view-draft order w drafted in
        let w₁ = (draft p uuids tx order w).1 in
        elim (Option-cases (p.commit tx w₁).0) [
          | inl done ↦ inr (stored, stamped, ground (arith, d.tables-commit tx w₁ done))
          | inr (e, bad) ↦ elim (d.tables-commit_failed tx w₁ bad) [
            | inl same ↦ inl (ground (arith, tables-draft order w))
            | inr same ↦ inr (stored, stamped, ground arith)
          ]
        ]
    | inr (inl (e, bad)) ↦ inl (ground (arith, tables-draft order w))
    | inr (inr (m, bad)) ↦ inl (ground (arith, tables-draft order w))
  ]

  pub store-eq-ok :
      (order : Order) (w : W) {stored : Order}
      → (store p uuids tx order w).0 ≡ ok stored
      → Stamped order stored × (d.tables (store p uuids tx order w).1 ≡ saved stored (d.view tx w))
  unfolding store
  store-eq-ok order w {stored} h = elim (Outcome-cases (draft p uuids tx order w).0) [
    | inl (drafted, q) ↦
        let (stamped, seen) = view-draft order w q in
        let w₁ = (draft p uuids tx order w).1 in
        elim (Option-cases (p.commit tx w₁).0) [
          | inl done ↦
              let same : stored ≡ drafted = ground arith in
              rw same (stamped, ground (arith, d.tables-commit tx w₁ done))
          | inr (e, bad) ↦ absurd (ground arith)
        ]
    | inr (inl (e, bad)) ↦ absurd (ground arith)
    | inr (inr (m, bad)) ↦ absurd (ground arith)
  ]
