-- ===== src/Tests/Rules.antt =====
-- A ruleset of literal words, and what the marker classifier reads.
use Prim.Native.Char.{code}
use Prim.Native.String.{len}
use text.Mathlib.Text.{find?}
use flow_indicator.Base.{◌+◌, String, none, some, [], ◌∷◌, is_some, leb, ◌&&◌, if◌then◌else◌}
use flow_indicator.Floats.{exact}
use flow_indicator.Stream.{Record, Unicode}
use flow_indicator.Profile.{Regexp, Ruleset}
use flow_indicator.Classify.{Input, ObligationRef, RepairRef}
use flow_indicator.Classify.Structure.{Env}
use flow_indicator.Metrics.Snapshot.{open_episode}
use flow_indicator.Tests.Data.{ascii}

-- Lower-case letters are the letters.
abbrev letters : Unicode
letters = record ascii { is_letter = λ c. leb b'a' (code c) && leb (code c) b'z' }

abbrev pub env : Env
env = record {
  unicode = letters;
  floats = exact;
  truncate = λ x. 2;
  release_evidence = λ marker cover. marker;
}

abbrev word : String → Regexp
word w = record {
  match_string = λ s. is_some (find? s w);
  find_string = λ s. if is_some (find? s w) then w else "";
  find_string_index = λ s. elim (find? s w) [ none ↦ none | some i ↦ some (i, i + len w) ];
  find_all_string = λ s. if is_some (find? s w) then w ∷ [] else [];
  find_all_string_index = λ s. elim (find? s w) [ none ↦ [] | some i ↦ (i, i + len w) ∷ [] ];
}

abbrev pub rules : Ruleset
rules = record {
  profile = record { parameters = []; discriminators = [] };
  compiled = ("release", word "forget") ∷ ("positive", word "must") ∷ [];
  hash = "0";
}

abbrev pub short_ref : ObligationRef
short_ref = record {
  id = 0;
  key = "keep it short";
  repeat_key = "short";
  kind = "positive";
  text = "keep it short";
}

abbrev pub awaiting : RepairRef
awaiting = record {
  id = 0;
  depth = 1;
  status = open_episode;
  target_key = "";
  target_paths = "a.go" ∷ [];
  trigger_seq = 1;
}

abbrev pub input_of : Record → Input
input_of r = record {
  turn = r;
  prior_operator_text = [];
  unresolved_obligations = short_ref ∷ [];
  active_repair = some awaiting;
}
