-- ===== src/Config/Settings.antt =====
-- What the settings can be, whatever is in the environment.
use microservices_platform.Prelude.{
  ◌≡◌, ◌≢◌, inl, inr, refl, String, ℤ, str_eq, Bool-cases, Option-cases, eq_iff, arith,
}
use microservices_platform.Go.{Result, value}
use microservices_platform.Config.{Environment, get_env, read_config, load}

-- A setting with a default is never empty: an empty variable counts as one that is not set.
pub get_env-ne-empty :
    (env : Environment) (key fallback : String) → fallback ≢ "" → get_env env key fallback ≢ ""
unfolding get_env
get_env-ne-empty env key fallback h = elim (Option-cases (env key)) [
  | inl unset ↦ rw (unset, get_env) h
  | inr (v, set) ↦ elim (Bool-cases (str_eq v "")) [
    | inl empty ↦ rw (set, empty, get_env) h
    | inr full ↦ rw (set, full, get_env) (λ e. ground (arith, (eq_iff v "").1 e))
  ]
]

module _ (atoi : String → Result ℤ) where
  db_user_ne_empty : (env : Environment) → get_env env "DB_USER" "shopstream" ≢ ""
  db_user_ne_empty env =
      get_env-ne-empty env "DB_USER" "shopstream"
        (λ e. ground (arith, (eq_iff "shopstream" "").1 e))

  -- Load returns the settings that it read, in every environment: its test for an empty DB_USER
  -- never fails, since an empty variable gives the default.
  pub load_lem : (env : Environment) → load atoi env ≡ value (read_config atoi env)
  unfolding load read_config
  load_lem env = elim (Bool-cases (str_eq (get_env env "DB_USER" "shopstream") "")) [
    | inl empty ↦
        absurd (db_user_ne_empty env ((eq_iff (get_env env "DB_USER" "shopstream") "").0 empty))
    | inr full ↦ rw (full, load, read_config) refl
  ]
