-- ===== src/Server/Concurrency.antt =====
-- A call of `CreateOrder` over the repository, as turns among those of other requests.
use microservices_platform.Prelude.{
  ◌≡◌, refl, sym, ◌∙◌, inl, inr, subst, Option, none, List, [], ◌∷◌, String, arith,
}
use microservices_platform.Errors.{Error}
use microservices_platform.Go.{Outcome, ok, Result, value, failure}
use microservices_platform.Go.Laws.{Outcome-cases, >>=-ok, Returns}
use microservices_platform.Uuid.{Uuid}
use microservices_platform.Models.{Order, OrderStatus, pending, CreateOrderRequest}
use microservices_platform.Client.Wire.{ChargeResult}
use microservices_platform.Service.{
  OrderService, prepare, charge_request, final_status, record_status, conclude, finish, settle,
  create_order,
}
use microservices_platform.Go.Costs.{Tariff}
use microservices_platform.Service.Traffic.{Asking, prepare-Costs}
use microservices_platform.Service.Outcomes.{
  final_status_lem, answer_status, verdict-IsSettledStatus,
}
use microservices_platform.Service.Preparing.{prepare-Prepared}
use microservices_platform.Repository.{Pool, update_status, create}
use microservices_platform.Repository.Tables.{Transactional}
use microservices_platform.Repository.Finding.{find_row}
use microservices_platform.Repository.Updating.{Updating}
use microservices_platform.Repository.Totals.{AddsUp}
use microservices_platform.Repository.Interleaving.{
  IsFinal, System, stores, loses, updates, works, Turns, here, next,
}
use microservices_platform.Server.Persistence.{stored_in, Apart, unsaved_line, tables-final_status}

answer_status-IsFinal : (r : Result ChargeResult) → IsFinal (answer_status r)
unfolding answer_status
answer_status-IsFinal (value charged) = elim (verdict-IsSettledStatus (ok charged)) [
  | inl (e, rest) ↦ inl e
  | inr (e, rest) ↦ inr e
]
answer_status-IsFinal (failure e) = inr refl

module _ {W Tx : Type 0} (s : OrderService W) (p : Pool W Tx) (d : Transactional p s.uuids) where
  -- The clients of user-service and product-service do not write to the tables either.
  pub record Away : Type 0 where
    pub tables-verify : (id : String) (w : W) → d.tables (s.verify_user_exists id w).1 ≡ d.tables w
    pub tables-fetch : (id : String) (w : W) → d.tables (s.get_product id w).1 ≡ d.tables w

  abbrev placer : OrderService W
  placer = stored_in s p d

  -- The world, and the orders whose status is yet to come.
  abbrev pub at : W → List Uuid → System W
  at w calls = record { world = w; calls = calls }

  abbrev pub Run : System W → System W → Type 0
  Run = Turns p s.uuids d

  module _ (away : Away) where
    -- A step that leaves the tables alone.
    abbrev by_tables : Tariff W
    by_tables = record {
      Step = λ k w w'. d.tables w' ≡ d.tables w;
      stays = λ w. refl;
      follows = λ j k u v w first then. then ∙ first;
    }

    asking_apart : Asking placer by_tables
    asking_apart = record {
      verifying = λ id. record { leads = λ w. (0, omega arith, away.tables-verify id w) };
      fetching = λ id. record { leads = λ w. (0, omega arith, away.tables-fetch id w) };
      numbering = d.tables-new;
    }

    tables-prepare :
        (req : CreateOrderRequest) (w : W) → d.tables (prepare placer req w).1 ≡ d.tables w
    tables-prepare req w =
        let (k, few, same) = (prepare-Costs placer by_tables asking_apart req).leads w in same

  Run-trans : {x y z : System W} → Run x y → Run y z → Run x z
  Run-trans before here = before
  Run-trans before (next after turn) = next (Run-trans before after) turn

  module _ (a : Apart s p d) (u : Updating p s.uuids d) where
    -- Whatever becomes of the update, only its log line follows.
    pub tables-conclude :
        (order : Order) (status : OrderStatus) (w : W)
        → d.tables (conclude placer order status w).1
          ≡ d.tables (update_status p s.uuids order.id status w).1
    unfolding conclude record_status
    tables-conclude order status w =
        elim (Outcome-cases (update_status p s.uuids order.id status w).0) [
          | inl (done, e) ↦ ground arith
          | inr (inl (cause, bad)) ↦
              let line = unsaved_line s p d order.id cause in
              ground (arith, a.tables-log line (update_status p s.uuids order.id status w).1)
          | inr (inr (m, bad)) ↦ ground arith
        ]

    finish-Run :
        (order : Order) (r : Result ChargeResult) (w₀ w : W) (calls : List Uuid)
        → d.tables w ≡ d.tables w₀
        → Run (at w₀ (order.id ∷ calls)) (at (finish placer order r w).1 calls)
    unfolding finish
    finish-Run order r w₀ w calls same =
        let w₁ = (final_status placer order r w).1 in
        let status = answer_status r in
        let concluded : finish placer order r w ≡ conclude placer order status w₁ =
          >>=-ok (final_status placer order r) (conclude placer order) w
            (final_status_lem placer order r w) in
        subst
          (λ (x : Outcome (Order × Option Error) × W).
            Run (at w₀ (order.id ∷ calls)) (at x.1 calls))
          (sym concluded)
          (next
            (next (next here (works w₁ (tables-final_status s p d a u order r w ∙ same)))
              (updates [] order.id calls status refl (answer_status-IsFinal r)))
            (works (conclude placer order status w₁).1 (tables-conclude order status w₁)))

    settle-Run :
        (order : Order) (w : W) (calls : List Uuid)
        → Returns (settle placer order w).0
        → Run (at w (order.id ∷ calls)) (at (settle placer order w).1 calls)
    unfolding settle
    settle-Run order w calls h =
        let w₁ = (s.charge (charge_request placer order) w).1 in
        let same = a.tables-charge (charge_request placer order) w in
        let ends : Outcome (Order × Option Error) × W → Type 0 =
          λ x. Run (at w (order.id ∷ calls)) (at x.1 calls) in
        elim (Outcome-cases (s.charge (charge_request placer order) w).0) [
          | inl (c, paid) ↦
              let charged : settle placer order w ≡ finish placer order (value c) w₁ =
                ground arith in
              subst ends (sym charged) (finish-Run order (value c) w w₁ calls same)
          | inr (inl (e, bad)) ↦
              let charged : settle placer order w ≡ finish placer order (failure e) w₁ =
                ground arith in
              subst ends (sym charged) (finish-Run order (failure e) w w₁ calls same)
          | inr (inr (m, bad)) ↦ absurd (ground arith)
        ]

    module _ (away : Away) where
      -- When CreateOrder, over the PostgreSQL repository, returns, with an order or with an error,
      -- what it did to the world is a sequence of turns (a pending order, with the total of its
      -- lines, stored under a new key, a failure to store one, a final status set for an order
      -- that is open, work that leaves the tables alone), after which the same orders are open as
      -- before. Assumes that the identifier of the prepared order is no stored order's, the
      -- documented effects of transactions and UPDATE (Transactional, Updating), that the clients
      -- and the log do not write to the tables (Away, Apart), and that nobody else acts meanwhile.
      pub create_order-Turns :
          (req : CreateOrderRequest) (w : W) (calls : List Uuid)
          → ((order : Order) (before : W)
              → prepare placer req w ≡ (ok order, before)
              → find_row order.id (d.tables before).orders ≡ none)
          → Returns (create_order placer req w).0
          → Run (at w calls) (at (create_order placer req w).1 calls)
      unfolding create_order
      create_order-Turns req w calls fresh h =
          let before = (prepare placer req w).1 in
          let ends : Outcome (Order × Option Error) × W → Type 0 =
            λ x. Run (at w calls) (at x.1 calls) in
          let read : Run (at w calls) (at before calls) =
            next here (works before (tables-prepare away req w)) in
          elim (Outcome-cases (prepare placer req w).0) [
            | inl (order, prepared) ↦
                let both : prepare placer req w ≡ (ok order, before) = ground arith in
                let prepared_so = prepare-Prepared placer req w both in
                let new : order.status ≡ pending = prepared_so.is_pending in
                let adds : AddsUp order = prepared_so.summed in
                let absent = fresh order before both in
                let after = (create p s.uuids order before).1 in
                elim (Outcome-cases (create p s.uuids order before).0) [
                  | inl (stored, created) ↦
                      let same : create_order placer req w ≡ settle placer stored after =
                        ground arith in
                      subst ends (sym same) (
                        Run-trans (next read (stores order new adds absent created))
                          (settle-Run stored after calls (ground arith)))
                  | inr (inl (e, bad)) ↦
                      let same : (create_order placer req w).1 ≡ after = ground arith in
                      subst (λ w'. Run (at w calls) (at w' calls)) (sym same)
                        (next read (loses order new adds absent bad))
                  | inr (inr (m, bad)) ↦ absurd (ground arith)
                ]
            | inr (inl (e, bad)) ↦
                let same : (create_order placer req w).1 ≡ before = ground arith in
                subst (λ w'. Run (at w calls) (at w' calls)) (sym same) read
            | inr (inr (m, bad)) ↦ absurd (ground arith)
          ]
