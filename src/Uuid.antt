-- ===== src/Uuid.antt =====
-- Identifiers and times, as order-service uses them from github.com/google/uuid and from the
-- package time.
use microservices_platform.Prelude.{ℕ, ◌≡◌, String}
use microservices_platform.Go.{Result, value}

-- A `uuid.UUID` is an array of sixteen bytes: here the number that they spell. `uuid.Nil` is 0.
abbrev pub Uuid : Type 0
Uuid = ℕ

abbrev pub nil_uuid : Uuid
nil_uuid = 0

-- A `time.Time`, in nanoseconds after Go's zero time.
abbrev pub Time : Type 0
Time = ℕ

-- The functions of the package uuid, over the world that gives `New` its random bits.
pub record Uuids (W : Type 0) : Type 0 where
  pub parse : String → Result Uuid
  pub to_string : Uuid → String
  pub new : W → Uuid × W

-- The package documents that `Parse` reads what `String` writes.
pub record UuidLaws {W : Type 0} (u : Uuids W) : Type 0 where
  pub parse-to_string : (id : Uuid) → u.parse (u.to_string id) ≡ value id
