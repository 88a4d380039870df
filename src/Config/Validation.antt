-- ===== src/Config/Validation.antt =====
-- internal/config/config.go: the defaults, and the configurations that `Validate` lets through.
--
-- `FileConfig` is the configuration as it is read: a count may be negative.
pub mod Accepted
use flow_indicator.Base.{
  ℕ, ◌≡◌, ◌↔◌, refl, inl, inr, String, Bool, true, false, not, ◌&&◌, ◌||◌, Option, none, some, List,
  [], ◌∷◌, same, if◌then◌else◌, ℤ, pos, negsuc, ◌≤◌, below, pos_part, All, Bool-cases, Option-cases,
  arith,
}
use flow_indicator.Floats.{Float64, Floats, literal}
use flow_indicator.Config.{Config}

pub record FileConfig : Type 0 where
  pub rolling_turns : ℤ
  pub correction_durability_turns : ℤ
  pub dereference_outcome_turns : ℤ
  pub trend_durability_turns : ℤ
  pub minimum_control_baseline : ℤ
  pub thrash_repair_depth : ℤ
  pub serialization_warn : Float64
  pub serialization_high : Float64
  pub repeated_obligations_warn : ℤ
  pub mode : String
  pub endpoint : String
  pub model : String
  pub live_deadline_ms : ℤ
  pub workers : ℤ
  pub max_queue : ℤ
  pub store_text : Bool
  pub store_snippets : Bool
  pub snippet_chars : ℤ

-- `Default`.
unfoldable pub default_config : FileConfig
default_config = record {
  rolling_turns = pos 30;
  correction_durability_turns = pos 10;
  dereference_outcome_turns = pos 3;
  trend_durability_turns = pos 2;
  minimum_control_baseline = pos 8;
  thrash_repair_depth = pos 3;
  serialization_warn = literal 3 1;
  serialization_high = literal 6 1;
  repeated_obligations_warn = pos 2;
  mode = "heuristic";
  endpoint = "";
  model = "";
  live_deadline_ms = pos 200;
  workers = pos 1;
  max_queue = pos 32;
  store_text = false;
  store_snippets = true;
  snippet_chars = pos 160;
}

pub record Check : Type 0 where
  pub name : String
  pub got : ℤ
  pub least : ℤ

abbrev check : String → ℤ → ℕ → Check
check name got least = record { name = name; got = got; least = pos least }

abbrev pub checks : FileConfig → List Check
checks c =
    check "window.rolling_turns" c.rolling_turns 1
    ∷ check "window.correction_durability_turns" c.correction_durability_turns 1
    ∷ check "window.trend_durability_turns" c.trend_durability_turns 1
    ∷ check "window.dereference_outcome_turns" c.dereference_outcome_turns 1
    ∷ check "thresholds.minimum_control_baseline" c.minimum_control_baseline 1
    ∷ check "thresholds.thrash_repair_depth" c.thrash_repair_depth 1
    ∷ check "thresholds.repeated_obligations_warn" c.repeated_obligations_warn 1
    ∷ check "privacy.snippet_chars" c.snippet_chars 0
    ∷ check "classifier.live_deadline_ms" c.live_deadline_ms 1
    ∷ check "classifier.workers" c.workers 1
    ∷ check "classifier.max_queue" c.max_queue 1
    ∷ []

pub data Invalid : Type 0 where
  too_small : String → Invalid
  warn_not_positive high_below_warn no_endpoint no_model unknown_mode : Invalid

pub first_too_small : List Check → Option Invalid
first_too_small [] = none
first_too_small (ch ∷ rest) =
    let later = first_too_small rest in
    if below ch.got ch.least then some (too_small ch.name) else later

pub check_mode : FileConfig → Option Invalid
check_mode c =
    if same c.mode "none" || same c.mode "heuristic"
    then none
    else if same c.mode "openai-compatible" || same c.mode "hybrid"
    then if same c.endpoint ""
      then some no_endpoint
      else if same c.model ""
      then some no_model
      else none
    else some unknown_mode

-- The checks that follow the loop over the counts.
pub check_rest : Floats → FileConfig → Option Invalid
unfolding check_mode
check_rest fl c =
    if fl.le c.serialization_warn (literal 0 1)
    then some warn_not_positive
    else if fl.lt c.serialization_high c.serialization_warn
    then some high_below_warn
    else check_mode c

-- `Validate`: `none` is the nil error.
unfoldable pub validate : Floats → FileConfig → Option Invalid
unfolding first_too_small check_rest
validate fl c = elim (first_too_small (checks c)) [ some e ↦ some e | none ↦ check_rest fl c ]

-- What a validated configuration is for the projector.
abbrev pub projector_config : FileConfig → Config
projector_config c = record {
  window = record {
    rolling_turns = pos_part c.rolling_turns;
    correction_durability_turns = pos_part c.correction_durability_turns;
    dereference_outcome_turns = pos_part c.dereference_outcome_turns;
    trend_durability_turns = pos_part c.trend_durability_turns;
  };
  thresholds = record {
    minimum_control_baseline = pos_part c.minimum_control_baseline;
    thrash_repair_depth = pos_part c.thrash_repair_depth;
    serialization_warn = c.serialization_warn;
    serialization_high = c.serialization_high;
    repeated_obligations_warn = pos_part c.repeated_obligations_warn;
  };
  privacy = record {
    store_text = c.store_text;
    store_snippets = c.store_snippets;
    snippet_chars = pos_part c.snippet_chars;
  };
}
