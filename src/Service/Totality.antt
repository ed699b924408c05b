-- ===== src/Service/Totality.antt =====
-- `CreateOrder` comes back when what it calls does.
use microservices_platform.Prelude.{String, ℤ, List, [], ◌∷◌, arith}
use microservices_platform.Go.Laws.{Returns}
use microservices_platform.Models.{Order, OrderItem, CreateOrderRequest, CreateOrderItemRequest}
use microservices_platform.Service.{OrderService, price_item, price_items, prepare, create_order}
use microservices_platform.Service.Outcomes.{NoPanic, settle_lem}

module _ {W : Type 0} (s : OrderService W) where
  -- No call of the clients and of the repository that places an order panics.
  pub record Calm : Type 0 where
    pub verifying : (id : String) (w : W) → Returns (s.verify_user_exists id w).0
    pub fetching : (id : String) (w : W) → Returns (s.get_product id w).0
    pub creating : (o : Order) (w : W) → Returns (s.repo.create o w).0
    pub ending : NoPanic s

  module _ (calm : Calm) where
    price_item-Returns : (r : CreateOrderItemRequest) (w : W) → Returns (price_item s r w).0
    unfolding price_item
    price_item-Returns r w = ground (arith, calm.fetching r.product_id w)

    price_items-Returns :
        (rs : List CreateOrderItemRequest) (total : ℤ) (items : List OrderItem) (w : W)
        → Returns (price_items s rs total items w).0
    unfolding price_items
    price_items-Returns [] total items w = tt
    price_items-Returns (r ∷ rs) total items w =
        grind (arith, price_item-Returns r w, price_items-Returns rs)

    prepare-Returns : (req : CreateOrderRequest) (w : W) → Returns (prepare s req w).0
    unfolding prepare
    prepare-Returns req w = grind (arith, calm.verifying req.user_id, price_items-Returns req.items)

    -- `CreateOrder` comes back, with an order or an error.
    pub create_order-Returns : (req : CreateOrderRequest) (w : W) → Returns (create_order s req w).0
    unfolding create_order
    create_order-Returns req w =
        grind (arith, prepare-Returns req w, calm.creating, settle_lem s calm.ending)
