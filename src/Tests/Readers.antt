-- ===== src/Tests/Readers.antt =====
-- A tail, the sentences of a text, a model's answer and a configuration on small inputs.
use flow_indicator.Base.{
  ℕ, ◌≡◌, ◌↔◌, refl, true, false, none, some, List, [], ◌∷◌, ◌++◌, arith, length, take, pos,
}
use flow_indicator.Floats.{exact, literal}
use flow_indicator.Stream.Tail.{Tail, Poll, open_tail, opened, follow}
use flow_indicator.Stream.Tail.Delivery.{IsAt, watch-delivers}
use flow_indicator.Classify.{forward_work}
use flow_indicator.Classify.Sentences.{bytes, sentences}
use flow_indicator.Classify.Sentences.Tiling.{Tiles, rejoin, sentences_tile}
use flow_indicator.Classify.OpenAi.{ModelOutput, tile, validate}
use flow_indicator.Classify.OpenAi.Tiling.{Covers, validate-tile}
use flow_indicator.Config.Validation as Validation
use flow_indicator.Config.Validation.{default_config}
use flow_indicator.Config.Validation.Accepted.{InRange, is_served, validate-none}
use flow_indicator.Tests.Rules.{env}

-- Two records and the start of a third.
abbrev log : List ℕ
log = 97 ∷ 10 ∷ 98 ∷ 10 ∷ 99 ∷ []

abbrev shows : List ℕ → Poll
shows contents = record {
  stat_fails = false;
  contents = contents;
  limit = 2;
  read_fails = false;
  context_ended = false;
}

abbrev start : Tail
start = record { position = 0; offset = 0; partial = [] }

-- The first call finds half a record, then the rest of it; the second reads on.
abbrev calls : List (List Poll)
calls = (shows (97 ∷ []) ∷ shows log ∷ []) ∷ (shows log ∷ shows log ∷ []) ∷ []

opened_at_start : open_tail true true true 0 (some 0) ≡ opened start
unfolding open_tail
opened_at_start = refl

watch-delivers_example :
    IsAt log (follow start calls).1
    × (take (follow start calls).1.offset log ≡ [] ++ (follow start calls).0)
watch-delivers_example =
    watch-delivers log true true true 0 (some 0) start calls (omega arith) opened_at_start
      ((refl, (refl, tt)), ((refl, (refl, tt)), tt))

two_delivered : (follow start calls).0 ≡ 97 ∷ 10 ∷ 98 ∷ 10 ∷ []
unfolding follow
two_delivered = refl

sentences_tile_example :
    Tiles (sentences "Stop. Go on!\nNow") 0 16
    × (rejoin (bytes "Stop. Go on!\nNow") (sentences "Stop. Go on!\nNow")
        ≡ bytes "Stop. Go on!\nNow")
sentences_tile_example = sentences_tile "Stop. Go on!\nNow"

four_sentences : length (sentences "Stop. Go on!\nNow") ≡ 4
unfolding sentences
four_sentences = refl

-- A model that labels the second word only.
abbrev half : ModelOutput
half = record {
  segments = record { label = some forward_work; start = pos 3; end = pos 5 } ∷ [];
  pointer = record { is_pointer = false; pointer_type = "unknown"; text = "" };
  correction = record { is_correction = false; target_type = ""; target_key = "" };
  obligations = [];
  resolutions = [];
  repair = record {
    target_repaired = none;
    new_scope = pos 0;
    new_tasks = pos 0;
    new_validation = pos 0;
    new_constraints = pos 0;
  };
  confidence = literal 1 2;
  confidence_fits = true;
}

half_passes : validate env half "go on" [] ≡ none
unfolding validate
half_passes = refl

validate-tile_example : Covers (tile half "go on") 0 5
validate-tile_example = validate-tile env half "go on" [] half_passes

two_segments : length (tile half "go on") ≡ 2
unfolding tile
two_segments = refl

validate-none_example : (Validation.validate exact default_config ≡ none) ↔ (
    InRange default_config
    × (exact.le default_config.serialization_warn (literal 0 1) ≡ false)
    × (exact.lt default_config.serialization_high default_config.serialization_warn ≡ false)
    × (is_served default_config ≡ true))
validate-none_example = validate-none exact default_config

default_passes : Validation.validate exact default_config ≡ none
unfolding Validation.validate default_config
default_passes = refl
