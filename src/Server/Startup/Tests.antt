-- ===== src/Server/Startup/Tests.antt =====
-- A start whose database does not answer.
use microservices_platform.Prelude.{
  ◌≡◌, refl, ◌⊎◌, String, false, ℤ, pos, negsuc, some, none, List, [], ◌∷◌,
}
use microservices_platform.Errors.{foreign}
use microservices_platform.Go.{Result, value, failure}
use microservices_platform.Log.{LogLine}
use microservices_platform.Config.{Environment}
use microservices_platform.Server.Startup.{
  Boot, int32, start, read, IsServing, IsRefusedStart, start-cases,
}

-- The world is what was logged; a pool is the largest number of its connections.
abbrev down : Boot (List LogLine) ℤ ℤ
down = record {
  parse_config = λ dsn. value (pos 4);
  sized = λ most least settings. most;
  new_pool = λ settings w. (value settings, w);
  ping = λ pool timeout w. (some (foreign false "connection refused"), w);
  default_logger = λ line w. line ∷ w;
  json_logger = λ level line w. line ∷ w;
}

abbrev unset : Environment
unset key = none

abbrev no_number : String → Result ℤ
no_number v = failure (foreign false "invalid syntax")

abbrev seconds : ℤ → ℤ
seconds d = pos 5

int32_wraps : int32 (pos 2_147_483_648) ≡ negsuc 2_147_483_647
int32_wraps = refl

start-cases_example :
    let r = start down no_number seconds unset [] in
    let cfg = read down no_number seconds unset [] in
    IsServing down no_number seconds cfg [] r.0 ⊎ IsRefusedStart down no_number seconds cfg r.1 r.0
start-cases_example = start-cases down no_number seconds unset []
