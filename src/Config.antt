-- ===== src/Config.antt =====
-- internal/config/config.go: the part of the configuration that the projector reads.
--
-- Every count is a natural number: `validate` of the source refuses a negative one before use.
pub mod Validation
use flow_indicator.Base.{ℕ, Bool}
use flow_indicator.Floats.{Float64}

pub record Window : Type 0 where
  pub rolling_turns : ℕ
  pub correction_durability_turns : ℕ
  pub dereference_outcome_turns : ℕ
  pub trend_durability_turns : ℕ

pub record Thresholds : Type 0 where
  pub minimum_control_baseline : ℕ
  pub thrash_repair_depth : ℕ
  pub serialization_warn : Float64
  pub serialization_high : Float64
  pub repeated_obligations_warn : ℕ

pub record Privacy : Type 0 where
  pub store_text : Bool
  pub store_snippets : Bool
  pub snippet_chars : ℕ

pub record Config : Type 0 where
  pub window : Window
  pub thresholds : Thresholds
  pub privacy : Privacy
