-- ===== src/Profile.antt =====
-- internal/profile: the rules that the marker classifier reads, as far as it reads them.
--
-- A compiled pattern is the regexp package's: its methods are a record, of which nothing is assumed.
use flow_indicator.Base.{ℕ, String, Bool, false, Option, none, some, List, [], lookup}
use flow_indicator.Floats.{Float64}

-- A match is its first byte and the byte after its last.
pub record Regexp : Type 0 where
  pub match_string : String → Bool
  pub find_string : String → String
  pub find_string_index : String → Option (ℕ × ℕ)
  pub find_all_string : String → List String
  pub find_all_string_index : String → List (ℕ × ℕ)

pub record Profile : Type 0 where
  pub parameters : List (String × Float64)
  pub discriminators : List (String × Bool)

-- `hash` is what `rulesHash` gives for the profile.
pub record Ruleset : Type 0 where
  pub profile : Profile
  pub compiled : List (String × Regexp)
  pub hash : String

-- `Group`: a nil pattern is `none`.
unfoldable pub group : Ruleset → String → Option Regexp
group rs name = lookup name rs.compiled

unfoldable pub match : Ruleset → String → String → Bool
unfolding group
match rs name text = elim (group rs name) [ none ↦ false | some re ↦ re.match_string text ]

unfoldable pub find : Ruleset → String → String → String
unfolding group
find rs name text = elim (group rs name) [ none ↦ "" | some re ↦ re.find_string text ]

-- The place where the leftmost match starts.
unfoldable pub find_index : Ruleset → String → String → Option ℕ
unfolding group
find_index rs name text = elim (group rs name) [
  | none ↦ none
  | some re ↦ elim (re.find_string_index text) [ none ↦ none | some m ↦ some m.0 ]
]

unfoldable pub find_all : Ruleset → String → String → List String
unfolding group
find_all rs name text = elim (group rs name) [ none ↦ [] | some re ↦ re.find_all_string text ]

-- `Param`, of the ruleset and of its profile.
unfoldable pub param : Ruleset → String → Float64 → Float64
param rs name fallback = elim (lookup name rs.profile.parameters) [ none ↦ fallback | some v ↦ v ]

-- `On`, of the ruleset and of its profile.
unfoldable pub on_switch : Ruleset → String → Bool → Bool
on_switch rs name fallback = elim (lookup name rs.profile.discriminators) [
  | none ↦ fallback
  | some v ↦ v
]
