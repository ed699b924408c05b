-- ===== src/Server.antt =====
-- cmd/server/main.go: the parts of order-service put together.
pub mod Totality
pub mod Persistence
pub mod Routes
pub mod Posting
pub mod Concurrency
pub mod Lifecycle
pub mod Startup
pub mod Storable
pub mod Unknown
pub mod Remaining
pub mod Rereading
pub mod Relisting
pub mod Balancing
pub mod Traffic
mod Tests
use microservices_platform.Prelude.{String, [], ◌∷◌, ℤ, str_eq, if◌then◌else◌}
use microservices_platform.Errors.{Error, text}
use microservices_platform.Log.{Logger, Level, LogLine, Value}
use microservices_platform.Uuid.{Uuids}
use microservices_platform.Config.{Config}
use microservices_platform.Client.Http.{Transport, ResilientClient}
use microservices_platform.Client.Calls.{verify_user_exists, get_product, charge}
use microservices_platform.Service.{OrderService, OrderRepository}

-- `parseLevel`
pub parse_level : String → Level
parse_level level =
    if str_eq level "debug"
    then Level.debug
    else if str_eq level "warn"
    then Level.warn
    else if str_eq level "error"
    then Level.error
    else Level.info

abbrev pub error_line : String → Error → LogLine
error_line message e = record {
  level = Level.error;
  message = message;
  attrs = ("error", Value.text (text e)) ∷ [];
}

-- `client.NewResilientClient` with the settings that the three clients share.
abbrev pub resilient_client : Config → String → String → ResilientClient
resilient_client cfg base_url service_name = record {
  timeout = cfg.http_client_timeout;
  retry_attempts = cfg.http_retry_attempts;
  retry_backoff = cfg.http_retry_backoff;
  base_url = base_url;
  service_name = service_name;
}

module _ {W Body : Type 0} (t : Transport W Body) (logger : Logger W) (uuids : Uuids W)
    (repo : OrderRepository W) where
  -- The service of `main`, over its repository.
  abbrev pub order_service : Config → OrderService W
  order_service cfg = record {
    repo = repo;
    verify_user_exists =
        verify_user_exists t logger (resilient_client cfg cfg.user_service_url "user-service");
    get_product =
        get_product t logger (resilient_client cfg cfg.product_service_url "product-service");
    charge = charge t logger (resilient_client cfg cfg.payment_service_url "payment-service");
    logger = logger;
    uuids = uuids;
  }
