-- ===== src/Log.antt =====
-- Structured log lines (log/slog).
use microservices_platform.Prelude.{String, ℤ, List}

pub data Level : Type 0 where
  debug info warn error : Level

-- A duration is written by its method `String`.
pub data Value : Type 0 where
  text : String → Value
  int : ℤ → Value
  duration : ℤ → Value
  null : Value

pub record LogLine : Type 0 where
  pub level : Level
  pub message : String
  pub attrs : List (String × Value)

-- A `*slog.Logger`: writing a line changes the world, and cannot fail.
abbrev pub Logger : Type 0 → Type 0
Logger W = LogLine → W → W
