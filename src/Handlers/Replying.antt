-- ===== src/Handlers/Replying.antt =====
-- The handlers of internal/handlers end by writing a reply, unless the service panics.
use microservices_platform.Prelude.{◌≡◌, ◌≢◌, inl, inr, ℤ, String, Option, arith}
use microservices_platform.Errors.{Error}
use microservices_platform.Go.{ok, err, panicked, Result, value, failure}
use microservices_platform.Go.Laws.{Returns, Outcome-cases}
use microservices_platform.Uuid.{Time}
use microservices_platform.Models.{CreateOrderRequest}
use microservices_platform.Service
use microservices_platform.Service.{OrderService}
use microservices_platform.Handlers.{
  Reply, reply_to_placed, create_order, get_order, list_orders, health, ready,
}

module _ {W : Type 0} where
  pub health-ne-err : (now : W → Time × W) (w : W) (e : Error) → (health now w).0 ≢ err e
  unfolding health
  health-ne-err now w e h = cc

  pub ready-ne-err :
      (ping : ℤ → W → Option Error × W) (w : W) (e : Error) → (ready ping w).0 ≢ err e
  unfolding ready
  ready-ne-err ping w e h = ground arith

module _ {W : Type 0} (s : OrderService W) where
  pub create_order-ne-err :
      (bound : Result CreateOrderRequest) (w : W) (e : Error) → (create_order s bound w).0 ≢ err e
  unfolding create_order
  create_order-ne-err (failure cause) w e h = cc
  create_order-ne-err (value req) w e h = ground arith

  pub get_order-ne-err : (param : String) (w : W) (e : Error) → (get_order s param w).0 ≢ err e
  unfolding get_order
  get_order-ne-err param w e h = ground arith

  pub list_orders-ne-err : (param : String) (w : W) (e : Error) → (list_orders s param w).0 ≢ err e
  unfolding list_orders
  list_orders-ne-err param w e h = ground arith

  pub create_order-replied :
      (req : CreateOrderRequest) (w : W)
      → Returns (Service.create_order s req w).0
      → (r : Reply) × ((create_order s (value req) w).0 ≡ ok r)
  unfolding create_order
  create_order-replied req w h = elim (Outcome-cases (Service.create_order s req w).0) [
    | inl (v, p) ↦ (reply_to_placed (value v), ground arith)
    | inr (inl (e, p)) ↦ (reply_to_placed (failure e), ground arith)
    | inr (inr (m, p)) ↦ ground arith
  ]

  pub create_order-panicked :
      (req : CreateOrderRequest) (w : W) {m : String} {w' : W}
      → Service.create_order s req w ≡ (panicked m, w')
      → create_order s (value req) w ≡ (panicked m, w')
  unfolding create_order
  create_order-panicked req w h = ground arith
