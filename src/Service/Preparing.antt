-- ===== src/Service/Preparing.antt =====
-- `CreateOrder` down to the call of the repository, against a description of the order that it makes.
use microservices_platform.Prelude.{
  ◌≡◌, subst, refl, sym, ◌∙◌, ap, ℤ, pos, List, [], arith, int_laws,
}
use microservices_platform.Int64.{wrap64}
use microservices_platform.Uuid.{Uuid}
use microservices_platform.Go.{ok, value}
use microservices_platform.Go.Laws.{Outcome-value, Result-value}
use microservices_platform.Models.{Order, OrderItem, pending, CreateOrderRequest}
use microservices_platform.Service.{OrderService, price_items, prepare}
use microservices_platform.Service.Pricing.{
  Priced, exact_total, sum64, sum64-eq-wrap64, price_items-Priced, price_items_of_Priced,
}

module _ {W : Type 0} (s : OrderService W) (req : CreateOrderRequest) where
  -- The worlds after the user was verified, and after the order got its identifier.
  abbrev pub verified_world : W → W
  verified_world w = (s.verify_user_exists req.user_id w).1

  abbrev pub numbered_world : W → W
  numbered_world w = (s.uuids.new (verified_world w)).1

  -- What an order says of the request, and of the answers of the siblings, when it is first stored.
  pub record Prepared (order : Order) (w w' : W) : Type 0 where
    pub parsed : s.uuids.parse req.user_id ≡ value order.user_id
    pub verified : (s.verify_user_exists req.user_id w).0 ≡ ok tt
    pub numbered : (s.uuids.new (verified_world w)).0 ≡ order.id
    pub priced : Priced s req.items order.items (numbered_world w) w'
    pub summed : order.total_cents ≡ wrap64 (exact_total order.items)
    pub is_pending : order.status ≡ pending
    pub in_dollars : order.currency ≡ "USD"
    pub unstamped : (order.created_at ≡ 0) × (order.updated_at ≡ 0)

  sum64_from_zero : (is : List OrderItem) → sum64 (pos 0) is ≡ wrap64 (exact_total is)
  sum64_from_zero is = sum64-eq-wrap64 (pos 0) is (omega arith) ∙ ap wrap64 (omega int_laws)

  -- The order that the code builds.
  abbrev draft : Uuid → Uuid → ℤ × List OrderItem → Order
  draft id user_id priced = record {
    id = id;
    user_id = user_id;
    status = pending;
    total_cents = priced.0;
    currency = "USD";
    items = priced.1;
    created_at = 0;
    updated_at = 0;
  }

  prepare-draft :
      (w : W) (user_id : Uuid) (lines : ℤ × List OrderItem) (w' : W)
      → s.uuids.parse req.user_id ≡ value user_id
      → (s.verify_user_exists req.user_id w).0 ≡ ok tt
      → price_items s req.items (pos 0) [] (numbered_world w) ≡ (ok lines, w')
      → prepare s req w ≡ (ok (draft (s.uuids.new (verified_world w)).0 user_id lines), w')
  unfolding prepare
  prepare-draft w user_id lines w' p v e = ground arith

  -- A preparation that succeeds has gone through its three steps.
  prepare-eq-ok :
      (w : W) {order : Order} {w' : W}
      → prepare s req w ≡ (ok order, w')
      → (user_id : Uuid) × (lines : ℤ × List OrderItem) × (s.uuids.parse req.user_id
          ≡ value user_id)
        × ((s.verify_user_exists req.user_id w).0 ≡ ok tt)
        × (price_items s req.items (pos 0) [] (numbered_world w) ≡ (ok lines, w'))
  unfolding prepare
  prepare-eq-ok w h =
      let (user_id, p) = Result-value (s.uuids.parse req.user_id) (λ e p. ground arith) in
      let (u, v) =
        Outcome-value (s.verify_user_exists req.user_id w).0 (λ e q. ground arith)
          (λ e q. ground arith) in
      let (lines, e) =
        Outcome-value (price_items s req.items (pos 0) [] (numbered_world w)).0
          (λ e q. ground arith) (λ e q. ground arith) in
      (user_id, lines, p, v, ground arith)

  Prepared-draft :
      (w : W) (user_id : Uuid) (lines : ℤ × List OrderItem) (w' : W)
      → s.uuids.parse req.user_id ≡ value user_id
      → (s.verify_user_exists req.user_id w).0 ≡ ok tt
      → price_items s req.items (pos 0) [] (numbered_world w) ≡ (ok lines, w')
      → Prepared (draft (s.uuids.new (verified_world w)).0 user_id lines) w w'
  Prepared-draft w user_id lines w' p v e =
      let (is, same, priced, summed) =
        price_items-Priced s req.items (pos 0) [] (numbered_world w) e in
      record {
        parsed = p;
        verified = v;
        numbered = refl;
        priced = rw same priced;
        summed =
            summed
            ∙ sum64_from_zero is
            ∙ ap (λ (x : List OrderItem). wrap64 (exact_total x)) (sym same);
        is_pending = refl;
        in_dollars = refl;
        unstamped = (refl, refl);
      }

  pub prepare-Prepared :
      (w : W) {order : Order} {w' : W} → prepare s req w ≡ (ok order, w') → Prepared order w w'
  prepare-Prepared w {order} {w'} h =
      let (user_id, lines, p, v, e) = prepare-eq-ok w h in
      subst (λ o. Prepared o w w') (cc (h, prepare-draft w user_id lines w' p v e))
        (Prepared-draft w user_id lines w' p v e)

  pub prepare_of_Prepared :
      (w : W) (order : Order) (w' : W) → Prepared order w w' → prepare s req w ≡ (ok order, w')
  prepare_of_Prepared w order w' P =
      prepare-draft w order.user_id (order.total_cents, order.items) w' P.parsed P.verified
        (price_items_of_Priced s req.items order.items (pos 0) [] (numbered_world w) w' P.priced
          ∙ rw (sum64_from_zero, P.summed))
      ∙ ground arith
