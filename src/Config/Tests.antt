-- ===== src/Config/Tests.antt =====
-- Settings of a concrete environment.
use microservices_platform.Prelude.{
  ◌≡◌, refl, String, false, ℤ, pos, negsuc, none, some, List, [], ◌∷◌, str_eq, if◌then◌else◌,
}
use microservices_platform.Errors.{foreign}
use microservices_platform.Go.{Result, value, failure}
use microservices_platform.Config.{Environment, get_env, get_env_int}
use microservices_platform.Config.Written.{EnvFile, Numbers}

-- It reads one number.
abbrev read_minus_one : String → Result ℤ
read_minus_one v =
    if str_eq v "-1" then value (negsuc 0) else failure (foreign false "invalid syntax")

-- One variable is set, and one is empty.
abbrev shell : Environment
shell key =
    if str_eq key "HTTP_CLIENT_RETRY_ATTEMPTS"
    then some "-1"
    else if str_eq key "DB_USER"
    then some ""
    else none

shell_retries : get_env_int read_minus_one shell "HTTP_CLIENT_RETRY_ATTEMPTS" (pos 2) ≡ negsuc 0
unfolding get_env_int
shell_retries = refl

shell_db_user : get_env shell "DB_USER" "shopstream" ≡ "shopstream"
unfolding get_env
shell_db_user = refl

-- A file as .env.example, with a number of retries below zero.
abbrev production : EnvFile
production = record {
  server_port = "8082";
  log_level = "info";
  environment = "production";
  shutdown_timeout_seconds = "15";
  db_host = "orders-db";
  db_port = "5432";
  db_name = "shopstream_orders";
  db_user = "orders";
  db_password = "";
  db_max_open_conns = "20";
  db_max_idle_conns = "5";
  db_connect_timeout_seconds = "5";
  user_service_url = "http://user-service:8081";
  product_service_url = "http://product-service:8000";
  payment_service_url = "http://payment-service:8083";
  http_client_timeout_seconds = "3";
  http_client_retry_attempts = "-1";
  http_client_retry_backoff_ms = "200";
}

abbrev production_numbers : Numbers
production_numbers = record {
  shutdown_timeout_seconds = pos 15;
  db_max_open_conns = pos 20;
  db_max_idle_conns = pos 5;
  db_connect_timeout_seconds = pos 5;
  http_client_timeout_seconds = pos 3;
  http_client_retry_attempts = negsuc 0;
  http_client_retry_backoff_ms = pos 200;
}

abbrev read_table : List (String × ℤ) → String → Result ℤ
read_table [] v = failure (foreign false "invalid syntax")
read_table ((text, i) ∷ rest) v =
    let found = read_table rest v in if str_eq v text then value i else found

abbrev read_some : String → Result ℤ
read_some = read_table (
    ("15", pos 15)
    ∷ ("20", pos 20)
    ∷ ("5", pos 5)
    ∷ ("3", pos 3)
    ∷ ("-1", negsuc 0)
    ∷ ("200", pos 200)
    ∷ [])
