-- ===== src/Server/Startup.antt =====
-- cmd/server/main.go down to the wiring: the settings, the log, and the database.
mod Tests
use microservices_platform.Prelude.{
  ℕ, ◌-◌, ◌%◌, ◌^◌, ltb, ◌≡◌, refl, ◌∙◌, ◌⊎◌, inl, inr, String, ℤ, pos, negsuc, Option, none, some,
  Option-cases, List, [], ◌∷◌, if◌then◌else◌, arith,
}
use microservices_platform.Errors.{Error, text}
use microservices_platform.Go.{Result, value, failure}
use microservices_platform.Go.Laws.{Result-cases}
use microservices_platform.Log.{Logger, LogLine, Level, Value}
use microservices_platform.Config.{Config, Environment, load, read_config, database_dsn}
use microservices_platform.Config.Settings.{load_lem}
use microservices_platform.Server.{error_line, parse_level}

-- What main uses of pgxpool and of log/slog. `sized` sets MaxConns and MinConns.
pub record Boot (W Settings Pool : Type 0) : Type 0 where
  pub parse_config : String → Result Settings
  pub sized : ℤ → ℤ → Settings → Settings
  pub new_pool : Settings → W → Result Pool × W
  pub ping : Pool → ℤ → W → Option Error × W
  pub default_logger : Logger W
  pub json_logger : Level → Logger W

abbrev signed32 : ℕ → ℤ
signed32 w = if ltb w (2 ^ 31) then pos w else negsuc (2 ^ 32 - w - 1)

-- `int32(n)`
abbrev pub int32 : ℤ → ℤ
int32 (pos n) = signed32 (n % 2 ^ 32)
int32 (negsuc n) = signed32 (2 ^ 32 - 1 - n % 2 ^ 32)

-- Main goes on with its settings and its pool, or `os.Exit` has ended the process.
pub data Started (Pool : Type 0) : Type 0 where
  serving : Config → Pool → Started Pool
  exit : ℕ → Started Pool

module _ {W Settings Pool : Type 0} (b : Boot W Settings Pool) (atoi : String → Result ℤ)
    (whole_seconds : ℤ → ℤ) where
  -- The log line of an error, and `os.Exit(1)`.
  abbrev quit : Logger W → String → Error → W → Started Pool × W
  quit logger message e w = (exit 1, logger (error_line message e) w)

  abbrev pub logger_of : Config → Logger W
  logger_of cfg = b.json_logger (parse_level cfg.log_level)

  abbrev pub settings_of : Config → Settings → Settings
  settings_of cfg = b.sized (int32 cfg.db_max_open_conns) (int32 cfg.db_max_idle_conns)

  -- `pool.Ping`, once there is a pool.
  ping_pool : Config → Result Pool × W → Started Pool × W
  ping_pool cfg (failure e, w) = quit (logger_of cfg) "failed to create database pool" e w
  ping_pool cfg (value pool, w) =
      let (down, w') = b.ping pool cfg.db_connect_timeout w in
      elim down [
        | some e ↦ quit (logger_of cfg) "database is unreachable at startup" e w'
        | none ↦ (serving cfg pool, w')
      ]

  -- `pgxpool.NewWithConfig`, once the connection string is parsed.
  make_pool : Config → Result Settings → W → Started Pool × W
  make_pool cfg (failure e) w = quit (logger_of cfg) "invalid database configuration" e w
  make_pool cfg (value settings) w = ping_pool cfg (b.new_pool (settings_of cfg settings) w)

  -- `main` down to the ping.
  boot : Result Config → W → Started Pool × W
  boot (failure e) w = quit b.default_logger "invalid configuration" e w
  boot (value cfg) w = make_pool cfg (b.parse_config (database_dsn whole_seconds cfg)) w

  pub start : Environment → W → Started Pool × W
  start env w = boot (load atoi env) w

  -- Everything that the start needs has worked.
  abbrev pub IsServing : Config → W → Started Pool → Type 0
  IsServing cfg w s =
      (settings : Settings) × (pool : Pool) × (s ≡ serving cfg pool)
      × (b.parse_config (database_dsn whole_seconds cfg) ≡ value settings)
      × ((b.new_pool (settings_of cfg settings) w).0 ≡ value pool)
      × ((b.ping pool cfg.db_connect_timeout (b.new_pool (settings_of cfg settings) w).1).0 ≡ none)

  -- A step failed: the process ends with code 1, and the last thing it does is to log the error.
  abbrev pub IsRefusedStart : Config → W → Started Pool → Type 0
  IsRefusedStart cfg w' s =
      (message : String) × (e : Error) × (w₁ : W) × (s ≡ exit 1)
      × (w' ≡ logger_of cfg (error_line message e) w₁)
      × ((message ≡ "invalid database configuration")
          ⊎ ((message ≡ "failed to create database pool")
              ⊎ (message ≡ "database is unreachable at startup")))

  module _ (env : Environment) (w : W) where
    -- The settings that are read, and the pool that is made for a parsed connection string.
    abbrev pub read : Config
    read = read_config atoi env

    abbrev parsed_from : Result Settings
    parsed_from = b.parse_config (database_dsn whole_seconds read)

    abbrev made_by : Settings → Result Pool × W
    made_by settings = b.new_pool (settings_of read settings) w

    start-unparsed :
        {e : Error}
        → parsed_from ≡ failure e
        → start env w ≡ (exit 1, logger_of read (error_line "invalid database configuration" e) w)
    unfolding start boot make_pool
    start-unparsed bad = rw (load_lem atoi env) (rw bad refl)

    start-parsed :
        {settings : Settings}
        → parsed_from ≡ value settings
        → start env w ≡ ping_pool read (made_by settings)
    unfolding start boot make_pool
    start-parsed good = rw (load_lem atoi env) (rw good refl)

    ping_pool-failed :
        {settings : Settings} {e : Error}
        → (made_by settings).0 ≡ failure e
        → ping_pool read (made_by settings) ≡ (
          exit 1,
          logger_of read (error_line "failed to create database pool" e) (made_by settings).1,
        )
    unfolding ping_pool
    ping_pool-failed bad = rw (bad, ping_pool) refl

    ping_pool-made :
        {settings : Settings} {pool : Pool}
        → (made_by settings).0 ≡ value pool
        → let (down, w') = b.ping pool read.db_connect_timeout (made_by settings).1 in
          ping_pool read (made_by settings) ≡ (elim down [
            | some e ↦ quit (logger_of read) "database is unreachable at startup" e w'
            | none ↦ (serving read pool, w')
          ])
    unfolding ping_pool
    ping_pool-made good = rw (good, ping_pool) refl

    -- Main down to its ping ends in one of two ways: it serves the settings that it read, with a
    -- pool that was made from their connection string and their sizes and that answered the ping;
    -- or it exits with code 1 and the last thing that it does is an error line with one of three
    -- messages, and never with "invalid configuration".
    pub start-cases : let r = start env w in IsServing read w r.0 ⊎ IsRefusedStart read r.1 r.0
    start-cases = elim (Result-cases parsed_from) [
      | inr (e, bad) ↦
          rw (start-unparsed bad)
            (inr ("invalid database configuration", e, w, refl, refl, inl refl))
      | inl (settings, parsed) ↦ elim (Result-cases (made_by settings).0) [
        | inr (e, bad) ↦ rw (start-parsed parsed ∙ ping_pool-failed bad) (
            inr (
              "failed to create database pool",
              e,
              (made_by settings).1,
              refl,
              refl,
              inr (inl refl),
            ))
        | inl (pool, made) ↦
            let pinged = b.ping pool read.db_connect_timeout (made_by settings).1 in
            elim (Option-cases pinged.0) [
              | inl up ↦
                  rw (start-parsed parsed ∙ ping_pool-made made)
                    (rw up (inl (settings, pool, refl, parsed, made, up)))
              | inr (e, bad) ↦ rw (start-parsed parsed ∙ ping_pool-made made) (
                  rw bad (
                    inr (
                      "database is unreachable at startup",
                      e,
                      pinged.1,
                      refl,
                      refl,
                      inr (inr refl),
                    )))
            ]
      ]
    ]
