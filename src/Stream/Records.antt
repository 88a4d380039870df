-- ===== src/Stream/Records.antt =====
-- internal/stream/record.go and action.go: one record of the interaction and what it did.
use flow_indicator.Base.{
  ℕ, suc, String, Bool, true, false, not, ◌&&◌, ◌||◌, Option, none, some, List, [], ◌∷◌, ◌++◌, same,
  if◌then◌else◌, lookup, contains,
}

pub data SpeakerClass : Type 0 where
  human agent tool system unknown_speaker : SpeakerClass

pub data ActionVerb : Type 0 where
  read write execute search_targets ask unknown_verb : ActionVerb

pub record Action : Type 0 where
  pub verb : ActionVerb
  pub targets : List String
  pub argv : List String
  pub was_failed : Bool

pub record SourceRef : Type 0 where
  pub adapter : String
  pub path : String
  pub offset : ℕ
  pub record_sha256 : String

-- A time.Time is its distance in nanoseconds from Go's zero time: 0 is the zero time.
pub record Record : Type 0 where
  pub stream_id : String
  pub turn_id : String
  pub seq : ℕ
  pub timestamp : ℕ
  pub speaker : String
  pub speaker_class : SpeakerClass
  pub text : String
  pub actions : List Action
  pub reply_to : String
  pub source : SourceRef
  pub metadata : List (String × String)

-- Reading a Go map of texts: a missing key is the empty text.
abbrev pub meta : Record → String → String
meta r k = elim (lookup k r.metadata) [ none ↦ "" | some v ↦ v ]

abbrev is_human : SpeakerClass → Bool
is_human human = true
is_human _ = false

abbrev pub is_agent : SpeakerClass → Bool
is_agent agent = true
is_agent _ = false

-- `operatorInputModes`.
unfoldable pub operator_input_mode : String → Bool
operator_input_mode m = same m "" || same m "typed" || same m "structured_answer"

unfoldable pub is_operator_turn : Record → Bool
unfolding operator_input_mode
is_operator_turn r =
    is_human r.speaker_class
    && not (same (meta r "sidechain") "true")
    && operator_input_mode (meta r "input_mode")

abbrev same_verb : ActionVerb → ActionVerb → Bool
same_verb read read = true
same_verb write write = true
same_verb execute execute = true
same_verb search_targets search_targets = true
same_verb ask ask = true
same_verb unknown_verb unknown_verb = true
same_verb _ _ = false

-- `seen` of the source holds exactly the targets already in `out`.
unfoldable pub add_targets : List String → List String → List String
add_targets out [] = out
add_targets out (t ∷ ts) =
    add_targets (if same t "" || contains t out then out else out ++ t ∷ []) ts

abbrev skipped : Option ActionVerb → Action → Bool
skipped none a = false
skipped (some v) a = not (same_verb a.verb v)

unfoldable pub targets_of_from : List String → List Action → Option ActionVerb → List String
unfolding add_targets
targets_of_from out [] verb = out
targets_of_from out (a ∷ actions) verb =
    targets_of_from (if skipped verb a then out else add_targets out a.targets) actions verb

-- The empty verb of the source, which selects every action, is `none`.
unfoldable pub targets_of : List Action → Option ActionVerb → List String
unfolding targets_of_from
targets_of actions verb = targets_of_from [] actions verb

unfoldable pub write_targets : Record → List String
unfolding targets_of
write_targets r = targets_of r.actions (some write)

unfoldable pub path_targets : Record → List String
unfolding targets_of
path_targets r = targets_of r.actions none

unfoldable pub count_failed : List Action → ℕ
count_failed [] = 0
count_failed (a ∷ actions) =
    let rest = count_failed actions in if a.was_failed then suc rest else rest

unfoldable pub failed_actions : Record → ℕ
unfolding count_failed
failed_actions r = count_failed r.actions
