-- ===== src/Config.antt =====
-- internal/config/config.go: the settings, from the environment.
pub mod Settings
pub mod Written
mod Tests
use microservices_platform.Prelude.{
  suc, decimal, negsuc, String, ◌<>◌, false, ℤ, pos, Option, none, some, str_eq, if◌then◌else◌,
}
use microservices_platform.Int64.{mul64}
use microservices_platform.Errors.{Error, foreign}
use microservices_platform.Go.{Result, value, failure}

pub record Config : Type 0 where
  pub server_port : String
  pub log_level : String
  pub environment : String
  pub shutdown_timeout : ℤ
  pub db_host : String
  pub db_port : String
  pub db_name : String
  pub db_user : String
  pub db_password : String
  pub db_max_open_conns : ℤ
  pub db_max_idle_conns : ℤ
  pub db_connect_timeout : ℤ
  pub user_service_url : String
  pub product_service_url : String
  pub payment_service_url : String
  pub http_client_timeout : ℤ
  pub http_retry_attempts : ℤ
  pub http_retry_backoff : ℤ

-- `os.LookupEnv`, in an environment that does not change.
abbrev pub Environment : Type 0
Environment = String → Option String

-- `getEnv`
pub get_env : Environment → String → String → String
get_env env key fallback = elim (env key) [
  | none ↦ fallback
  | some v ↦ if str_eq v "" then fallback else v
]

abbrev pub second : ℤ
second = pos 1_000_000_000

abbrev pub millisecond : ℤ
millisecond = pos 1_000_000

-- `atoi` is `strconv.Atoi`.
module _ (atoi : String → Result ℤ) where
  -- `getEnvInt`
  pub get_env_int : Environment → String → ℤ → ℤ
  get_env_int env key fallback = elim (env key) [
    | none ↦ fallback
    | some v ↦
        if str_eq v "" then fallback else elim (atoi v) [ value i ↦ i | failure e ↦ fallback ]
  ]

  -- The settings that `Load` reads, before it looks at them.
  pub read_config : Environment → Config
  read_config env = record {
    server_port = get_env env "SERVER_PORT" "8082";
    log_level = get_env env "LOG_LEVEL" "info";
    environment = get_env env "ENVIRONMENT" "development";
    shutdown_timeout = mul64 (get_env_int env "SHUTDOWN_TIMEOUT_SECONDS" (pos 10)) second;
    db_host = get_env env "DB_HOST" "localhost";
    db_port = get_env env "DB_PORT" "5432";
    db_name = get_env env "DB_NAME" "shopstream_orders";
    db_user = get_env env "DB_USER" "shopstream";
    db_password = get_env env "DB_PASSWORD" "";
    db_max_open_conns = get_env_int env "DB_MAX_OPEN_CONNS" (pos 10);
    db_max_idle_conns = get_env_int env "DB_MAX_IDLE_CONNS" (pos 5);
    db_connect_timeout = mul64 (get_env_int env "DB_CONNECT_TIMEOUT_SECONDS" (pos 5)) second;
    user_service_url = get_env env "USER_SERVICE_URL" "http://localhost:8081";
    product_service_url = get_env env "PRODUCT_SERVICE_URL" "http://localhost:8000";
    payment_service_url = get_env env "PAYMENT_SERVICE_URL" "http://localhost:8083";
    http_client_timeout = mul64 (get_env_int env "HTTP_CLIENT_TIMEOUT_SECONDS" (pos 3)) second;
    http_retry_attempts = get_env_int env "HTTP_CLIENT_RETRY_ATTEMPTS" (pos 2);
    http_retry_backoff =
        mul64 (get_env_int env "HTTP_CLIENT_RETRY_BACKOFF_MS" (pos 200)) millisecond;
  }

  -- `Load`
  pub load : Environment → Result Config
  load env =
      let cfg = read_config env in
      if str_eq cfg.db_user ""
      then failure (foreign false "DB_USER must not be empty")
      else value cfg

-- An `int`, as the verb `%d` prints it.
abbrev pub signed_decimal : ℤ → String
signed_decimal (pos n) = decimal n
signed_decimal (negsuc n) = "-" <> decimal (suc n)

-- `DatabaseDSN`; `whole_seconds d` is `int(d.Seconds())`.
pub database_dsn : (ℤ → ℤ) → Config → String
database_dsn whole_seconds cfg =
    "postgres://"
    <> cfg.db_user
    <> ":"
    <> cfg.db_password
    <> "@"
    <> cfg.db_host
    <> ":"
    <> cfg.db_port
    <> "/"
    <> cfg.db_name
    <> "?sslmode=disable&connect_timeout="
    <> signed_decimal (whole_seconds cfg.db_connect_timeout)
