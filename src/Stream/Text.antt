-- ===== src/Stream/Text.antt =====
-- internal/stream/normalize.go: lines, the comparison form, tokens. A text is valid UTF-8.
use Prim.Native.Char.{Char, code}
use Prim.Native.String.{String, len}
use flow_indicator.Base.{
  ℕ, suc, ◌+◌, ◌-◌, Bool, not, ◌&&◌, ◌||◌, List, [], ◌∷◌, ◌++◌, same, ◌==◌, if◌then◌else◌, contains,
  length,
}
use flow_indicator.Floats.{Float64, literal, quotient}

-- The tables of Go's unicode package.
pub record Unicode : Type 0 where
  pub to_lower : Char → Char
  pub is_space : Char → Bool
  pub is_punct : Char → Bool
  pub is_letter : Char → Bool
  pub is_digit : Char → Bool

pub record Line : Type 0 where
  pub text : String
  pub start : ℕ
  pub end : ℕ

abbrev pub prepend : Char → List String → List String
prepend c [] = String.◌∷◌ c "" ∷ []
prepend c (t ∷ ts) = String.◌∷◌ c t ∷ ts

-- The pieces of a text between the characters that satisfy `p`, empty pieces included.
unfoldable pub split_at : (Char → Bool) → String → List String
split_at p String.[] = "" ∷ []
split_at p (String.◌∷◌ c s) = let rest = split_at p s in if p c then "" ∷ rest else prepend c rest

abbrev pub is_newline : Char → Bool
is_newline c = code c == 10

unfoldable pub spans_from : ℕ → List String → List Line
spans_from start [] = []
spans_from start (t ∷ ts) =
    record { text = t; start = start; end = start + len t } ∷ spans_from (start + len t + 1) ts

-- `Lines`.
unfoldable pub lines : String → List Line
unfolding split_at spans_from
lines s = if same s "" then [] else spans_from 0 (split_at is_newline s)

abbrev pub not_empty : List String → List String
not_empty [] = []
not_empty (t ∷ ts) = let rest = not_empty ts in if same t "" then rest else t ∷ rest

-- strings.FieldsFunc.
unfoldable pub fields_func : (Char → Bool) → String → List String
unfolding split_at
fields_func p s = not_empty (split_at p s)

abbrev pub append_text : String → String → String
append_text String.[] t = t
append_text (String.◌∷◌ c s) t = String.◌∷◌ c (append_text s t)

-- strings.Join.
unfoldable pub join : String → List String → String
join sep [] = ""
join sep (t ∷ []) = t
join sep (t ∷ u ∷ ts) = append_text t (append_text sep (join sep (u ∷ ts)))

abbrev pub map_chars : (Char → Char) → String → String
map_chars f String.[] = ""
map_chars f (String.◌∷◌ c s) = String.◌∷◌ (f c) (map_chars f s)

unfoldable pub trim_left : (Char → Bool) → String → String
trim_left p String.[] = ""
trim_left p (String.◌∷◌ c s) = let rest = trim_left p s in if p c then rest else String.◌∷◌ c s

unfoldable pub trim_right : (Char → Bool) → String → String
trim_right p String.[] = ""
trim_right p (String.◌∷◌ c s) =
    let rest = trim_right p s in if same rest "" && p c then "" else String.◌∷◌ c rest

-- strings.TrimFunc.
unfoldable pub trim_func : (Char → Bool) → String → String
unfolding trim_left trim_right
trim_func p s = trim_right p (trim_left p s)

-- `Normalize`.
unfoldable pub normalize : Unicode → String → String
unfolding fields_func join trim_func
normalize u s =
    trim_func (λ c. u.is_punct c || u.is_space c)
      (join " " (fields_func u.is_space (map_chars u.to_lower s)))

abbrev is_code : Char → ℕ → Bool
is_code c n = code c == n

abbrev token_break : Unicode → Char → Bool
token_break u c =
    not (u.is_letter c)
    && not (u.is_digit c)
    && not (is_code c b'_')
    && not (is_code c b'-')
    && not (is_code c b'/')
    && not (is_code c b'.')

abbrev token_edge : Char → Bool
token_edge c = is_code c b'-' || is_code c b'.' || is_code c b'/' || is_code c b'_'

abbrev trim_each : List String → List String
trim_each [] = []
trim_each (t ∷ ts) = trim_func token_edge t ∷ trim_each ts

-- `Tokens`.
unfoldable pub tokens : Unicode → String → List String
unfolding fields_func trim_func
tokens u s = not_empty (trim_each (fields_func (token_break u) (map_chars u.to_lower s)))

-- A Go set of texts is a list that names each member once.
unfoldable pub add_member : List String → String → List String
add_member set t = if contains t set then set else set ++ t ∷ []

unfoldable pub add_members : List String → List String → List String
unfolding add_member
add_members set [] = set
add_members set (t ∷ ts) = add_members (add_member set t) ts

unfoldable pub token_set : Unicode → String → List String
unfolding tokens add_members
token_set u s = add_members [] (tokens u s)

unfoldable pub count_shared : List String → List String → ℕ
count_shared [] b = 0
count_shared (t ∷ ts) b = let rest = count_shared ts b in if contains t b then suc rest else rest

-- `Jaccard`.
unfoldable pub jaccard : List String → List String → Float64
unfolding count_shared
jaccard a b =
    let inter = count_shared a b in
    let union = length a + length b - inter in
    if length a == 0 || length b == 0 || union == 0 then literal 0 1 else quotient inter union
