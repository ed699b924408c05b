-- ===== src/Handlers/Showing.antt =====
-- Which order a reply shows, and where the handlers have it from.
use microservices_platform.Prelude.{
  ℕ, ◌≡◌, ap, sym, ◌∙◌, inl, inr, List, length, Option, none, some, arith,
}
use microservices_platform.Errors.{Error, ServiceError}
use microservices_platform.Go.{ok, value}
use microservices_platform.Go.Laws.{Outcome-cases}
use microservices_platform.Uuid.{Uuid, UuidLaws}
use microservices_platform.Models.{Order, CreateOrderRequest}
use microservices_platform.Service
use microservices_platform.Service.{OrderService}
use microservices_platform.Handlers.{
  Reply, ReplyBody, reply, problem, one_order, orders, alive, readiness, write_service_error,
  reply_to_placed, reply_to_listed, create_order, get_order, list_orders,
}
use microservices_platform.Handlers.ErrorMapping.{status_of, write_service_error-cases}
use microservices_platform.Handlers.Reading.{get_order-replies}

-- The order in the body of a reply.
abbrev pub shown : ReplyBody → Option Order
shown (problem code message order) = order
shown (one_order order) = some order
shown (orders found count) = none
shown (alive status name time) = none
shown (readiness status database) = none

pub shown-write_service_error :
    (e : Error) (order : Option Order) → shown (write_service_error e order).body ≡ order
shown-write_service_error e order = elim (write_service_error-cases e order) [
  | inl (k, wraps, written) ↦ ap (λ (r : Reply). shown r.body) written
  | inr (others, written) ↦ ap (λ (r : Reply). shown r.body) written
]

status_of-ne-200 : (k : ServiceError) → status_of k ≡ 200 → ⊥
unfolding status_of
status_of-ne-200 k h = ground arith

write_service_error-ne-200 :
    (e : Error) (order : Option Order) → (write_service_error e order).status ≡ 200 → ⊥
write_service_error-ne-200 e order h = elim (write_service_error-cases e order) [
  | inl (k, wraps, written) ↦ status_of-ne-200 k (sym (ap (λ (r : Reply). r.status) written) ∙ h)
  | inr (others, written) ↦
      let bad : ◌≡◌ {A = ℕ} 500 200 = sym (ap (λ (r : Reply). r.status) written) ∙ h in
      absurd (omega arith)
]

module _ {W : Type 0} (s : OrderService W) where
  pub create_order-world :
      (req : CreateOrderRequest) (w : W)
      → (create_order s (value req) w).1 ≡ (Service.create_order s req w).1
  unfolding create_order
  create_order-world req w = ground arith

  -- The order in a reply to a POST is the one that the service returned.
  pub create_order-shown :
      (req : CreateOrderRequest) (w : W) {r : Reply} {placed : Order}
      → (create_order s (value req) w).0 ≡ ok r
      → shown r.body ≡ some placed
      → (e : Option Error) × ((Service.create_order s req w).0 ≡ ok (placed, e))
  unfolding create_order reply_to_placed
  create_order-shown req w {r} {placed} h shows =
      elim (Outcome-cases (Service.create_order s req w).0) [
        | inl ((o, none), p) ↦ (none, ground arith)
        | inl ((o, some e), p) ↦
            let same : r ≡ write_service_error e (some o) = ground arith in
            let order : some o ≡ some placed =
              sym (shown-write_service_error e (some o))
              ∙ ap (λ (x : Reply). shown x.body) (sym same)
              ∙ shows in
            (some e, p ∙ cc)
        | inr (inl (e, p)) ↦
            let same : r ≡ write_service_error e none = ground arith in
            let order : none ≡ some placed =
              sym (shown-write_service_error e none)
              ∙ ap (λ (x : Reply). shown x.body) (sym same)
              ∙ shows in
            absurd (cc)
        | inr (inr (m, p)) ↦ absurd (ground arith)
      ]

  -- A reply 200 to a GET shows the order that the repository found.
  pub get_order-shown :
      UuidLaws s.uuids
      → (id : Uuid) (w : W) {g : Reply} → (get_order s (s.uuids.to_string id) w).0 ≡ ok g
      → g.status ≡ 200
      → (found : Order) × (g ≡ reply 200 (one_order found)) × ((s.repo.get_by_id id w).0 ≡ ok found)
  unfolding Service.get_order
  get_order-shown laws id w {g} h fine = elim (get_order-replies s laws id w h) [
    | inl (found, got, same) ↦ (found, same, ground arith)
    | inr (e, got, same) ↦
        absurd (write_service_error-ne-200 e none (ap (λ (r : Reply). r.status) (sym same) ∙ fine))
  ]

  -- A reply 200 to the list of a user shows the orders that the repository found, and their number.
  pub list_orders-shown :
      UuidLaws s.uuids
      → (user_id : Uuid) (w : W) {l : Reply}
      → (list_orders s (s.uuids.to_string user_id) w).0 ≡ ok l
      → l.status ≡ 200
      → (found : List Order) × (l ≡ reply 200 (orders found (length found)))
        × ((s.repo.list_by_user user_id w).0 ≡ ok found)
  unfolding list_orders reply_to_listed Service.list_orders_by_user
  list_orders-shown laws user_id w {l} h fine =
      elim (Outcome-cases (s.repo.list_by_user user_id w).0) [
        | inl (found, got) ↦ (found, ground (arith, laws.parse-to_string user_id), got)
        | inr (inl (e, bad)) ↦
            let same : l ≡ write_service_error e none =
              ground (arith, laws.parse-to_string user_id) in
            absurd
              (write_service_error-ne-200 e none (ap (λ (r : Reply). r.status) (sym same) ∙ fine))
        | inr (inr (m, bad)) ↦ absurd (ground (arith, laws.parse-to_string user_id))
      ]
