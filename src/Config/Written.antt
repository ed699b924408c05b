-- ===== src/Config/Written.antt =====
-- internal/config/config.go and .env.example: an environment in which every variable is set.
use microservices_platform.Prelude.{
  ◌≡◌, ◌≢◌, String, ℤ, pos, ◌*ℤ◌, none, some, List, [], ◌∷◌, str_eq, if◌then◌else◌,
}
use microservices_platform.Int64.{IsInt64}
use microservices_platform.Go.{Result, value}
use microservices_platform.Config.{Config, Environment, second, millisecond}

-- The values of a file as .env.example, and the numbers that some of them are.
pub record EnvFile : Type 0 where
  pub server_port : String
  pub log_level : String
  pub environment : String
  pub shutdown_timeout_seconds : String
  pub db_host : String
  pub db_port : String
  pub db_name : String
  pub db_user : String
  pub db_password : String
  pub db_max_open_conns : String
  pub db_max_idle_conns : String
  pub db_connect_timeout_seconds : String
  pub user_service_url : String
  pub product_service_url : String
  pub payment_service_url : String
  pub http_client_timeout_seconds : String
  pub http_client_retry_attempts : String
  pub http_client_retry_backoff_ms : String

pub record Numbers : Type 0 where
  pub shutdown_timeout_seconds : ℤ
  pub db_max_open_conns : ℤ
  pub db_max_idle_conns : ℤ
  pub db_connect_timeout_seconds : ℤ
  pub http_client_timeout_seconds : ℤ
  pub http_client_retry_attempts : ℤ
  pub http_client_retry_backoff_ms : ℤ

-- The variables of .env.example, in its order.
abbrev pub variables : EnvFile → List (String × String)
variables f =
    ("SERVER_PORT", f.server_port)
    ∷ ("LOG_LEVEL", f.log_level)
    ∷ ("ENVIRONMENT", f.environment)
    ∷ ("SHUTDOWN_TIMEOUT_SECONDS", f.shutdown_timeout_seconds)
    ∷ ("DB_HOST", f.db_host)
    ∷ ("DB_PORT", f.db_port)
    ∷ ("DB_NAME", f.db_name)
    ∷ ("DB_USER", f.db_user)
    ∷ ("DB_PASSWORD", f.db_password)
    ∷ ("DB_MAX_OPEN_CONNS", f.db_max_open_conns)
    ∷ ("DB_MAX_IDLE_CONNS", f.db_max_idle_conns)
    ∷ ("DB_CONNECT_TIMEOUT_SECONDS", f.db_connect_timeout_seconds)
    ∷ ("USER_SERVICE_URL", f.user_service_url)
    ∷ ("PRODUCT_SERVICE_URL", f.product_service_url)
    ∷ ("PAYMENT_SERVICE_URL", f.payment_service_url)
    ∷ ("HTTP_CLIENT_TIMEOUT_SECONDS", f.http_client_timeout_seconds)
    ∷ ("HTTP_CLIENT_RETRY_ATTEMPTS", f.http_client_retry_attempts)
    ∷ ("HTTP_CLIENT_RETRY_BACKOFF_MS", f.http_client_retry_backoff_ms)
    ∷ []

-- The environment of a process that is started with these variables.
abbrev pub environment_of : List (String × String) → Environment
environment_of [] key = none
environment_of ((name, v) ∷ rest) key =
    let found = environment_of rest key in if str_eq key name then some v else found

-- No value is empty, but perhaps the password.
pub record IsFilled (f : EnvFile) : Type 0 where
  pub server_port : f.server_port ≢ ""
  pub log_level : f.log_level ≢ ""
  pub environment : f.environment ≢ ""
  pub shutdown_timeout_seconds : f.shutdown_timeout_seconds ≢ ""
  pub db_host : f.db_host ≢ ""
  pub db_port : f.db_port ≢ ""
  pub db_name : f.db_name ≢ ""
  pub db_user : f.db_user ≢ ""
  pub db_max_open_conns : f.db_max_open_conns ≢ ""
  pub db_max_idle_conns : f.db_max_idle_conns ≢ ""
  pub db_connect_timeout_seconds : f.db_connect_timeout_seconds ≢ ""
  pub user_service_url : f.user_service_url ≢ ""
  pub product_service_url : f.product_service_url ≢ ""
  pub payment_service_url : f.payment_service_url ≢ ""
  pub http_client_timeout_seconds : f.http_client_timeout_seconds ≢ ""
  pub http_client_retry_attempts : f.http_client_retry_attempts ≢ ""
  pub http_client_retry_backoff_ms : f.http_client_retry_backoff_ms ≢ ""

-- `strconv.Atoi` reads the numbers.
pub record IsRead (atoi : String → Result ℤ) (f : EnvFile) (n : Numbers) : Type 0 where
  pub shutdown_timeout_seconds : atoi f.shutdown_timeout_seconds ≡ value n.shutdown_timeout_seconds
  pub db_max_open_conns : atoi f.db_max_open_conns ≡ value n.db_max_open_conns
  pub db_max_idle_conns : atoi f.db_max_idle_conns ≡ value n.db_max_idle_conns
  pub db_connect_timeout_seconds :
      atoi f.db_connect_timeout_seconds ≡ value n.db_connect_timeout_seconds
  pub http_client_timeout_seconds :
      atoi f.http_client_timeout_seconds ≡ value n.http_client_timeout_seconds
  pub http_client_retry_attempts :
      atoi f.http_client_retry_attempts ≡ value n.http_client_retry_attempts
  pub http_client_retry_backoff_ms :
      atoi f.http_client_retry_backoff_ms ≡ value n.http_client_retry_backoff_ms

-- A `time.Duration` can be each of the durations: at most 292 years.
pub record Fits (n : Numbers) : Type 0 where
  pub shutdown_timeout_seconds : IsInt64 (n.shutdown_timeout_seconds *ℤ second)
  pub db_connect_timeout_seconds : IsInt64 (n.db_connect_timeout_seconds *ℤ second)
  pub http_client_timeout_seconds : IsInt64 (n.http_client_timeout_seconds *ℤ second)
  pub http_client_retry_backoff_ms : IsInt64 (n.http_client_retry_backoff_ms *ℤ millisecond)

-- The settings that are written in the file, durations in nanoseconds.
abbrev pub written : EnvFile → Numbers → Config
written f n = record {
  server_port = f.server_port;
  log_level = f.log_level;
  environment = f.environment;
  shutdown_timeout = n.shutdown_timeout_seconds *ℤ pos 1_000_000_000;
  db_host = f.db_host;
  db_port = f.db_port;
  db_name = f.db_name;
  db_user = f.db_user;
  db_password = f.db_password;
  db_max_open_conns = n.db_max_open_conns;
  db_max_idle_conns = n.db_max_idle_conns;
  db_connect_timeout = n.db_connect_timeout_seconds *ℤ pos 1_000_000_000;
  user_service_url = f.user_service_url;
  product_service_url = f.product_service_url;
  payment_service_url = f.payment_service_url;
  http_client_timeout = n.http_client_timeout_seconds *ℤ pos 1_000_000_000;
  http_retry_attempts = n.http_client_retry_attempts;
  http_retry_backoff = n.http_client_retry_backoff_ms *ℤ pos 1_000_000;
}

module _ (atoi : String → Result ℤ) where
  module _ (f : EnvFile) (n : Numbers) where
    abbrev env : Environment
    env = environment_of (variables f)
