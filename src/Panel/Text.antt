-- ===== src/Panel/Text.antt =====
-- pkg/panel/text.go and box.go: texts measured without their ANSI attributes.
pub mod Trimming
pub mod Width
use Prim.Native.Char.{Char, code}
use Prim.Native.String.{len, slice}
use text.Mathlib.Text.{starts_with}
use flow_indicator.Base.{
  ℕ, zero, suc, ◌+◌, ◌-◌, ◌/◌, String, Bool, true, false, not, ◌&&◌, ◌||◌, List, [], ◌∷◌, ◌++◌,
  same, ltb, leb, ◌==◌, if◌then◌else◌, max, min,
}
use flow_indicator.Stream.{append_text, trim_right}

abbrev pub reset : String
reset = "\u{1b}[0m"

abbrev pub dim : String
dim = "\u{1b}[2m"

-- `Paint`.
abbrev pub paint : String → String → Bool → String
paint text ansi color =
    if not color || same ansi "" then text else append_text ansi (append_text text reset)

-- Whether an escape sequence is open after a character.
abbrev pub after : Bool → Char → Bool
after esc c = if esc then not (code c == b'm') else code c == 27

abbrev pub is_column : Bool → Char → Bool
is_column esc c = not esc && not (code c == 27)

-- The loop of `VisibleLen`.
abbrev pub visible_from : Bool → String → ℕ
visible_from esc String.[] = 0
visible_from esc (String.◌∷◌ c s) =
    let rest = visible_from (after esc c) s in if is_column esc c then suc rest else rest

abbrev pub visible_len : String → ℕ
visible_len s = visible_from false s

abbrev pub put : Char → String × Bool → String × Bool
put c out = (String.◌∷◌ c out.0, out.1)

-- The loop of `Fit`, with what it writes and whether it met an attribute.
pub fit_from : ℕ → ℕ → Bool → Bool → String → String × Bool
fit_from width seen esc colored String.[] = ("", colored)
fit_from width seen esc colored (String.◌∷◌ c s) = elim esc [
  | true ↦ put c (fit_from width seen (not (code c == b'm')) colored s)
  | false ↦ elim (code c == 27) [
    | true ↦ put c (fit_from width seen true true s)
    | false ↦ elim (seen == width - 1) [
      | true ↦ ("", colored)
      | false ↦ put c (fit_from width (seen + 1) false colored s)
    ]
  ]
]

-- `Fit`.
unfoldable pub fit : String → ℕ → String
unfolding fit_from
fit s width =
    if leb (visible_len s) width
    then s
    else if width == 0
    then ""
    else let (out, colored) = fit_from width 0 false false s in
      append_text out (append_text "…" (if colored then reset else ""))

-- strings.Repeat of a character.
abbrev pub repeat : Char → ℕ → String
repeat c zero = ""
repeat c (suc n) = String.◌∷◌ c (repeat c n)

abbrev pub spaces : ℕ → String
spaces n = repeat " " n

-- `Pad`, `PadLeft`, `Center`: a difference that is not positive adds nothing.
abbrev pub pad : String → ℕ → String
pad s width = append_text s (spaces (width - visible_len s))

abbrev pub pad_left : String → ℕ → String
pad_left s width = append_text (spaces (width - visible_len s)) s

abbrev pub center : String → ℕ → String
center s width =
    let n = width - visible_len s in
    append_text (spaces (n / 2)) (append_text s (spaces (n - n / 2)))

-- `Ends`.
unfoldable pub ends : String → String → ℕ → String
unfolding fit
ends left right width =
    let taken = visible_len right in
    if leb width taken
    then fit right width
    else let cut = fit left (width - taken - 1) in
      append_text cut (append_text (spaces (width - visible_len cut - taken)) right)

abbrev is_blank : Char → Bool
is_blank c = code c == b' '

abbrev pub trim_spaces : String → String
trim_spaces s = trim_right is_blank s

-- strings.CutSuffix of `Reset`: the texts that end with it.
abbrev pub ends_with_reset : String → Bool
ends_with_reset s = leb 4 (len s) && same (slice s (len s - 4) (len s)) reset

-- `TrimRightVisible`.
unfoldable pub trim_right_visible : String → String
unfolding trim_right
trim_right_visible s =
    if ends_with_reset s
    then append_text (trim_spaces (slice s 0 (len s - 4))) reset
    else trim_spaces s

pub record Box : Type 0 where
  pub title : String
  pub least : ℕ
  pub most : ℕ

-- `Chrome`.
abbrev pub chrome : ℕ
chrome = 4

-- `Inner`; a box is at least as wide as its chrome.
unfoldable pub inner : Box → ℕ → ℕ → ℕ
inner b requested natural =
    let asked = if requested == 0 then b.most else requested in
    let bounded = min (max asked b.least) b.most in
    max (min (bounded - chrome) natural) (b.least - chrome)

abbrev pub content_row : ℕ → String → String
content_row width line = append_text "│ " (append_text (pad (fit line width) width) " │")

abbrev pub content_rows : ℕ → List String → List String
content_rows width [] = []
content_rows width (line ∷ lines) = content_row width line ∷ content_rows width lines

-- `Render`, as the list of its lines.
unfoldable pub render : Box → ℕ → List String → List String
unfolding fit
render b width lines =
    let head = if same b.title "" then "┌" else append_text "┌─ " (append_text b.title " ") in
    let top = append_text head (append_text (repeat "─" (width + 3 - visible_len head)) "┐") in
    let bottom = append_text "└" (append_text (repeat "─" (width + 2)) "┘") in
    top ∷ (content_rows width lines ++ bottom ∷ [])
