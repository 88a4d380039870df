-- ===== src/Store.antt =====
-- internal/store/session.go: the names of a session's directory and files; I/O is left out.
use Prim.Native.Char.{Char, code}
use text.Mathlib.Text.{starts_with}
use flow_indicator.Base.{
  ◌≡◌, refl, inl, inr, String, Bool, true, false, ◌&&◌, ◌||◌, List, [], ◌∷◌, same, contains, leb,
  ◌==◌, if◌then◌else◌, Bool-cases,
}
use flow_indicator.Event.{Kind}
use flow_indicator.Stream.{map_chars, trim_func, trim_left, trim_right}

abbrev between : Char → Char → Char → Bool
between low c high = leb (code low) (code c) && leb (code c) (code high)

-- A character that `SanitizeID` keeps.
abbrev is_kept : Char → Bool
is_kept c =
    between "a" c "z"
    || between "A" c "Z"
    || between "0" c "9"
    || code c == b'-'
    || code c == b'_'
    || code c == b'.'

abbrev clean : Char → Char
clean c = if is_kept c then c else "-"

abbrev is_edge : Char → Bool
is_edge c = code c == b'-' || code c == b'.'

-- `SanitizeID`.
unfoldable pub sanitize_id : String → String
unfolding trim_func
sanitize_id id = if same id "" then "unknown-stream" else trim_func is_edge (map_chars clean id)

-- The append-only files of a session.
pub data EventFile : Type 0 where
  observations classifications obligations repairs metrics : EventFile

-- The texts of the kinds.
abbrev pub kind_text : Kind → String
kind_text Kind.record_observed = "record_observed"
kind_text Kind.observation_stopped = "observation_stopped"
kind_text Kind.operator_interrupt = "operator_interrupt"
kind_text Kind.segments_classified = "segments_classified"
kind_text Kind.correction_candidate = "correction_candidate"
kind_text Kind.stop_candidate = "stop_candidate"
kind_text Kind.reset_candidate = "reset_candidate"
kind_text Kind.pointer_candidate = "pointer_candidate"
kind_text Kind.obligation_candidate = "obligation_candidate"
kind_text Kind.near_repeat_candidate = "near_repeat_candidate"
kind_text Kind.expansion_candidate = "repair_expansion_candidate"
kind_text Kind.classifier_failed = "classifier_failed"
kind_text Kind.obligation_introduced = "obligation_introduced"
kind_text Kind.obligation_repeated = "obligation_repeated"
kind_text Kind.obligation_satisfied = "obligation_satisfied"
kind_text Kind.obligation_violated = "obligation_violated"
kind_text Kind.obligation_released = "obligation_released"
kind_text Kind.obligation_superseded = "obligation_superseded"
kind_text Kind.obligation_revived = "obligation_revived"
kind_text Kind.repair_opened = "repair_opened"
kind_text Kind.repair_deepened = "repair_deepened"
kind_text Kind.repair_provisional_close = "repair_provisionally_closed"
kind_text Kind.repair_durable_close = "repair_durably_closed"
kind_text Kind.repair_recurred = "repair_recurred"
kind_text Kind.repair_reset = "repair_reset"
kind_text Kind.repair_status = "repair_status"
kind_text Kind.pointer_resolved = "pointer_resolved"
kind_text Kind.epoch_advanced = "epoch_advanced"
kind_text Kind.regime_changed = "regime_changed"
kind_text Kind.trend_emerged = "trend_emerged"
kind_text Kind.state_at_observation_stop = "state_at_observation_stop"
kind_text Kind.metrics_computed = "metrics_computed"

abbrev observed_kinds : List String
observed_kinds = "record_observed" ∷ "observation_stopped" ∷ "operator_interrupt" ∷ []

abbrev classified_kinds : List String
classified_kinds =
    "segments_classified" ∷ "correction_candidate" ∷ "stop_candidate" ∷ "reset_candidate"
    ∷ "pointer_candidate" ∷ "obligation_candidate" ∷ "near_repeat_candidate"
    ∷ "repair_expansion_candidate" ∷ "classifier_failed" ∷ "semantic_classification_completed" ∷ []

abbrev metric_kinds : List String
metric_kinds =
    "pointer_resolved" ∷ "epoch_advanced" ∷ "regime_changed" ∷ "trend_emerged" ∷ "metrics_computed"
    ∷ "state_at_observation_stop" ∷ []

abbrev file_by_prefix : String → EventFile
file_by_prefix kind =
    if starts_with kind "obligation_"
    then obligations
    else if starts_with kind "repair_"
    then repairs
    else classifications

-- `FileFor`.
unfoldable pub file_for : String → EventFile
file_for kind =
    if contains kind observed_kinds
    then observations
    else if contains kind classified_kinds
    then classifications
    else if contains kind metric_kinds
    then metrics
    else file_by_prefix kind

-- Every character of a text is kept by `SanitizeID`.
pub IsSafe : String → Type 0
IsSafe String.[] = Unit
IsSafe (String.◌∷◌ c s) = (is_kept c ≡ true) × IsSafe s

clean-kept : (c : Char) → is_kept (clean c) ≡ true
clean-kept c = elim (Bool-cases (is_kept c)) [ inl k ↦ rw (k, k) refl | inr n ↦ rw n refl ]

map_chars-IsSafe : (s : String) → IsSafe (map_chars clean s)
unfolding IsSafe
map_chars-IsSafe String.[] = tt
map_chars-IsSafe (String.◌∷◌ c s) = (clean-kept c, map_chars-IsSafe s)

choice-IsSafe : (b : Bool) (s t : String) → IsSafe s → IsSafe t → IsSafe (if b then s else t)
choice-IsSafe true s t p q = p
choice-IsSafe false s t p q = q

trim_left-IsSafe : (s : String) → IsSafe s → IsSafe (trim_left is_edge s)
unfolding trim_left IsSafe
trim_left-IsSafe String.[] p = tt
trim_left-IsSafe (String.◌∷◌ c s) p =
    choice-IsSafe (is_edge c) (trim_left is_edge s) (String.◌∷◌ c s) (trim_left-IsSafe s p.1) p

trim_right-IsSafe : (s : String) → IsSafe s → IsSafe (trim_right is_edge s)
unfolding trim_right IsSafe
trim_right-IsSafe String.[] p = tt
trim_right-IsSafe (String.◌∷◌ c s) p =
    let rest = trim_right is_edge s in
    choice-IsSafe (same rest "" && is_edge c) "" (String.◌∷◌ c rest) tt
      (p.0, trim_right-IsSafe s p.1)

unknown-IsSafe : IsSafe "unknown-stream"
unfolding IsSafe
unknown-IsSafe = (
  refl,
  (
    refl,
    (
      refl,
      (refl, (refl, (refl, (refl, (refl, (refl, (refl, (refl, (refl, (refl, (refl, tt))))))))))),
    ),
  ),
)

-- A name that `SanitizeID` gives has no character but letters, digits, `-`, `_` and `.`.
sanitize_id-IsSafe : (id : String) → IsSafe (sanitize_id id)
unfolding sanitize_id trim_func
sanitize_id-IsSafe id =
    let cleaned = map_chars clean id in
    let left = trim_left is_edge cleaned in
    choice-IsSafe (same id "") "unknown-stream" (trim_right is_edge left) unknown-IsSafe
      (trim_right-IsSafe left (trim_left-IsSafe cleaned (map_chars-IsSafe id)))

-- An id of dots and slashes has an empty name.
sanitize_id_empty : sanitize_id "../.." ≡ ""
unfolding sanitize_id
sanitize_id_empty = refl

-- A candidate that shares the prefix of the repairs is no change of their state.
file_for_expansion : file_for (kind_text Kind.expansion_candidate) ≡ classifications
unfolding file_for
file_for_expansion = refl

-- A change of an episode goes to the repairs, and one of an obligation to the obligations.
file_for_changes :
    (file_for (kind_text Kind.repair_durable_close) ≡ repairs)
    × (file_for (kind_text Kind.obligation_revived) ≡ obligations)
unfolding file_for
file_for_changes = (refl, refl)
