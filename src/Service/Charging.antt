-- ===== src/Service/Charging.antt =====
-- What the answer to a charge makes of an order.
use microservices_platform.Prelude.{
  ◌≡◌, ◌≢◌, refl, sym, ◌∙◌, ap, ◌⊎◌, inl, inr, Bool-cases, str_eq, eq_iff, none, some, arith,
}
use microservices_platform.Errors.{Error, sentinel, service, ServiceError}
use microservices_platform.Go.{Outcome, ok, err, panicked}
use microservices_platform.Go.Laws.{Returns}
use microservices_platform.Models.{Order, OrderStatus, confirmed, failed, CreateOrderRequest}
use microservices_platform.Client.Wire.{ChargeRequest, ChargeResult}
use microservices_platform.Service
use microservices_platform.Service.{OrderService, charge_request}
use microservices_platform.Service.Outcomes.{NoPanic, answer_status, verdict, declined}
use microservices_platform.Service.Preparing.{Prepared}
use microservices_platform.Service.Placing.{create_order-Placed, create_order_of_Placed}

-- What payment-service may answer.
abbrev pub Accepts : Outcome ChargeResult → Type 0
Accepts r = (c : ChargeResult) × (r ≡ ok c) × (c.status ≡ "SUCCEEDED")

abbrev pub Declines : Outcome ChargeResult → Type 0
Declines r =
    ((e : Error) × (r ≡ err e)) ⊎ ((c : ChargeResult) × (r ≡ ok c) × (c.status ≢ "SUCCEEDED"))

verdict_of_Accepts : (r : Outcome ChargeResult) → Accepts r → verdict r ≡ confirmed
unfolding answer_status
verdict_of_Accepts r (c, paid, status) = rw (paid, status) refl

verdict_of_Declines : (r : Outcome ChargeResult) → Declines r → verdict r ≡ failed
unfolding answer_status
verdict_of_Declines r (inl (e, bad)) = rw bad refl
verdict_of_Declines r (inr (c, bad, status)) = elim (Bool-cases (str_eq c.status "SUCCEEDED")) [
  | inl same ↦ absurd (status ((eq_iff c.status "SUCCEEDED").0 same))
  | inr other ↦ rw bad (rw other refl)
]

answer-cases : (r : Outcome ChargeResult) → Returns r → Accepts r ⊎ Declines r
answer-cases (ok c) h = elim (Bool-cases (str_eq c.status "SUCCEEDED")) [
  | inl same ↦ inl (c, refl, (eq_iff c.status "SUCCEEDED").0 same)
  | inr other ↦ inr (inr (c, refl, λ same. ground (arith, (eq_iff c.status "SUCCEEDED").1 same)))
]
answer-cases (err e) h = inr (inl (e, refl))
answer-cases (panicked m) h = absurd h

-- A verdict without an error is an accepted charge.
confirmed_if : (status : OrderStatus) → status ≡ confirmed → none ≡ declined status
unfolding declined
confirmed_if status e = rw e refl

declined_if :
    (status : OrderStatus)
    → status ≡ failed
    → some (sentinel (service ServiceError.payment_declined)) ≡ declined status
unfolding declined
declined_if status e = rw e refl

module _ {W : Type 0} (s : OrderService W) (n : NoPanic s) (req : CreateOrderRequest) (w : W) where
  -- What payment-service is to be asked for an order: its total, in its currency, under its
  -- identifier and its user's.
  abbrev pub own_charge : Order → ChargeRequest
  own_charge order = record {
    order_id = s.uuids.to_string order.id;
    user_id = s.uuids.to_string order.user_id;
    amount_cents = order.total_cents;
    currency = order.currency;
  }

  -- An order that is prepared from the request and stored; the charge of it is answered like this;
  -- and how it is returned.
  abbrev pub Charges : (Outcome ChargeResult → Type 0) → OrderStatus → Order → Type 0
  Charges Answers status placed =
      (order : Order) × (before : W) × (stored : Order) × Prepared s req order w before
      × ((s.repo.create order before).0 ≡ ok stored)
      × Answers (s.charge (own_charge stored) (s.repo.create order before).1).0
      × (placed ≡ record stored { status = status })

  pub Placed-Accepts :
      (placed : Order)
      → (Service.create_order s req w).0 ≡ ok (placed, none)
      → Charges Accepts confirmed placed
  unfolding charge_request
  Placed-Accepts placed h =
      let P = create_order-Placed s req w h in
      let answer = (s.charge (charge_request s P.stored) (s.repo.create P.order P.before).1).0 in
      let (status, same, whole, fine) = P.settled in
      elim (answer-cases answer (n.charging _ _)) [
        | inl yes_it_is ↦
            let final : status ≡ confirmed = same ∙ verdict_of_Accepts answer yes_it_is in
            (
              P.order,
              P.before,
              P.stored,
              P.prepared,
              P.saved,
              yes_it_is,
              whole ∙ ap (λ (x : OrderStatus). record P.stored { status = x }) final,
            )
        | inr no_it_is_not ↦
            let final : status ≡ failed = same ∙ verdict_of_Declines answer no_it_is_not in
            let bad = declined_if status final in absurd (cc)
      ]

  pub Placed-Declines :
      (placed : Order) (e : Error)
      → (Service.create_order s req w).0 ≡ ok (placed, some e)
      → Charges Declines failed placed × (e ≡ sentinel (service ServiceError.payment_declined))
  unfolding charge_request
  Placed-Declines placed e h =
      let P = create_order-Placed s req w h in
      let answer = (s.charge (charge_request s P.stored) (s.repo.create P.order P.before).1).0 in
      let (status, same, whole, bad) = P.settled in
      elim (answer-cases answer (n.charging _ _)) [
        | inl yes_it_is ↦
            let fine = confirmed_if status (same ∙ verdict_of_Accepts answer yes_it_is) in
            absurd (cc)
        | inr no_it_is_not ↦
            let final : status ≡ failed = same ∙ verdict_of_Declines answer no_it_is_not in
            let bad' = declined_if status final in
            (
              (
                P.order,
                P.before,
                P.stored,
                P.prepared,
                P.saved,
                no_it_is_not,
                whole ∙ ap (λ (x : OrderStatus). record P.stored { status = x }) final,
              ),
              cc,
            )
      ]

  pub Accepts-placed :
      (placed : Order)
      → Charges Accepts confirmed placed
      → (Service.create_order s req w).0 ≡ ok (placed, none)
  unfolding charge_request
  Accepts-placed placed (order, before, stored, prepared, saved, yes_it_is, whole) =
      create_order_of_Placed s req n w (record {
        order = order;
        before = before;
        prepared = prepared;
        stored = stored;
        saved = saved;
        settled =
            (confirmed, sym (verdict_of_Accepts _ yes_it_is), whole, confirmed_if confirmed refl);
      })

  pub Declines-placed :
      (placed : Order)
      → Charges Declines failed placed
      → (Service.create_order s req w).0
        ≡ ok (placed, some (sentinel (service ServiceError.payment_declined)))
  unfolding charge_request
  Declines-placed placed (order, before, stored, prepared, saved, no_it_is_not, whole) =
      create_order_of_Placed s req n w (record {
        order = order;
        before = before;
        prepared = prepared;
        stored = stored;
        saved = saved;
        settled =
            (failed, sym (verdict_of_Declines _ no_it_is_not), whole, declined_if failed refl);
      })
