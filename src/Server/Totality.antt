-- ===== src/Server/Totality.antt =====
-- Whether an order can be placed at all depends on the number of retries in the settings.
use microservices_platform.Prelude.{ℕ, ◌≡◌, ◌<>◌, pos, negsuc, none, arith}
use microservices_platform.Go.{panicked, value}
use microservices_platform.Go.Laws.{Returns}
use microservices_platform.Log.{Logger}
use microservices_platform.Uuid.{Uuid, Uuids}
use microservices_platform.Models.{Order, OrderStatus, CreateOrderRequest}
use microservices_platform.Config.{Config}
use microservices_platform.Client.Wire.{ChargeRequest}
use microservices_platform.Client.Http.{Transport, failure_line}
use microservices_platform.Client.Calls.Answers.{calls-Returns, verify_user_exists-panics}
use microservices_platform.Service.{OrderRepository, prepare, create_order}
use microservices_platform.Service.Totality.{Calm, create_order-Returns}
use microservices_platform.Server.{order_service, resilient_client}

module _ {W Body : Type 0} (t : Transport W Body) (logger : Logger W) (uuids : Uuids W)
    (repo : OrderRepository W) (cfg : Config) where
  some_charge : ChargeRequest
  some_charge = record { order_id = ""; user_id = ""; amount_cents = pos 0; currency = "" }

  order_service-Calm :
      (n : ℕ)
      → cfg.http_retry_attempts ≡ pos n
      → ((o : Order) (w : W) → Returns (repo.create o w).0)
      → ((id : Uuid) (status : OrderStatus) (w : W) → Returns (repo.update_status id status w).0)
      → Calm (order_service t logger uuids repo cfg)
  order_service-Calm n e creating updating = record {
    verifying = λ id w. (calls-Returns t logger _ n id some_charge w e).0;
    fetching = λ id w. (calls-Returns t logger _ n id some_charge w e).1;
    creating = creating;
    ending = record {
      charging = λ r w. (calls-Returns t logger _ n "" r w e).2;
      updating = λ o status w. updating o.id status w;
    };
  }

  -- In the service that main puts together, with a number of retries in the settings that is not
  -- negative and a repository whose Create and UpdateStatus do not panic, CreateOrder ends,
  -- without a panic, for every request and whatever the network does.
  pub service_create_order-Returns :
      (n : ℕ)
      → cfg.http_retry_attempts ≡ pos n
      → ((o : Order) (w : W) → Returns (repo.create o w).0)
      → ((id : Uuid) (status : OrderStatus) (w : W) → Returns (repo.update_status id status w).0)
      → (req : CreateOrderRequest) (w : W)
      → Returns (create_order (order_service t logger uuids repo cfg) req w).0
  service_create_order-Returns n e creating updating =
      create_order-Returns _ (order_service-Calm n e creating updating)

  -- In the service that main puts together, with a negative number of retries in the settings,
  -- CreateOrder panics on every request whose user identifier uuid can parse, after one log line
  -- and without a request to user-service.
  pub service_create_order-panics :
      (n : ℕ) (req : CreateOrderRequest) (id : Uuid) (w : W)
      → cfg.http_retry_attempts ≡ negsuc n
      → uuids.parse req.user_id ≡ value id
      → create_order (order_service t logger uuids repo cfg) req w ≡ (
        panicked "runtime error: invalid memory address or nil pointer dereference",
        logger
            (failure_line
              (resilient_client cfg cfg.user_service_url "user-service")
              "GET"
              (cfg.user_service_url <> "/api/v1/users/" <> req.user_id)
              none)
            w,
      )
  unfolding create_order prepare
  service_create_order-panics n req id w e parsed = ground (
    arith,
    verify_user_exists-panics t logger (resilient_client cfg cfg.user_service_url "user-service") n
        req.user_id w e,
  )
