-- ===== src/Classify/Heuristic/References.antt =====
-- internal/classify/heuristic.go: what an operator's text refers to and corrects.
use flow_indicator.Base.{
  String, Bool, true, false, not, ◌&&◌, ◌||◌, List, [], ◌∷◌, same, if◌then◌else◌,
}
use flow_indicator.Stream.{normalize, map_chars, add_members}
use flow_indicator.Profile.{Ruleset, match, find, find_all}
use flow_indicator.Classify.{Pointer, Correction, ObligationCandidate}
use flow_indicator.Classify.Structure.{Env, rune_count}

abbrev pub no_pointer : Pointer
no_pointer = record { is_pointer = false; pointer_type = "unknown"; chars = 0; text = "" }

abbrev first_pointer : Ruleset → String → List (String × String) → Pointer
first_pointer rs text [] = no_pointer
first_pointer rs text (probe ∷ probes) =
    let later = first_pointer rs text probes in
    let m = find rs probe.0 text in
    if same m ""
    then later
    else record { is_pointer = true; pointer_type = probe.1; chars = rune_count m; text = m }

unfoldable pub extract_pointer : Ruleset → String → Pointer
unfolding find
extract_pointer rs text = first_pointer rs text (
    ("pointer_task", "task")
    ∷ ("pointer_file", "file")
    ∷ ("pointer_namespace", "namespace")
    ∷ ("pointer_operation", "operation")
    ∷ ("pointer_quote", "quote")
    ∷ ("pointer_alias", "alias")
    ∷ [])

abbrev correction_target : Pointer → String
correction_target p = if p.is_pointer then p.pointer_type else "unknown"

abbrev key_from : Env → Pointer → List ObligationCandidate → String
key_from env p [] = if p.is_pointer then normalize env.unicode p.text else ""
key_from env p (o ∷ obligations) =
    let later = key_from env p obligations in
    if same o.kind "stop" || same o.kind "scope" then o.key else later

unfoldable pub correction_key : Env → List ObligationCandidate → Pointer → String
unfolding normalize
correction_key env obligations p = key_from env p obligations

-- `namedPaths`: each match once, in the order first seen.
unfoldable pub named_paths : Ruleset → String → List String
unfolding find_all add_members
named_paths rs text = add_members [] (find_all rs "pointer_file" text)

abbrev pub no_correction : Correction
no_correction = record {
  is_correction = false;
  target_type = "unknown";
  target_key = "";
  marker = "";
  target_paths = [];
  structural = false;
}

abbrev corrected : Env → Ruleset → String → List ObligationCandidate → Pointer → String → Correction
corrected env rs text obligations p marker = record {
  is_correction = true;
  target_type = correction_target p;
  target_key = correction_key env obligations p;
  marker = map_chars env.unicode.to_lower marker;
  target_paths = named_paths rs text;
  structural = false;
}

-- The two tiers of markers; `bulk` says that the text is delivered material, `repeats` that it
-- repeats an unresolved obligation.
unfoldable pub find_correction :
    Env → Ruleset → String → (bulk repeats : Bool) → List ObligationCandidate → Pointer → Correction
unfolding find match correction_key named_paths
find_correction env rs text bulk repeats obligations p =
    let tier1 = if bulk then "" else find rs "correction_tier1" text in
    if not (same tier1 "")
    then corrected env rs text obligations p tier1
    else if repeats && match rs "correction_tier2" text
    then corrected env rs text obligations p (find rs "correction_tier2" text)
    else no_correction
