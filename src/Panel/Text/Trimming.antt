-- ===== src/Panel/Text/Trimming.antt =====
-- Trimming the spaces at the end of a coloured text; pkg/panel/text.go.
use Prim.Native.Char.{Char, code}
use Prim.Native.String.{len, slice}
use flow_indicator.Base.{
  ◌≡◌, refl, sym, ap, ◌∙◌, inl, inr, String, Bool, true, false, ◌&&◌, same, same_iff, ◌-◌, ◌==◌,
  Bool-cases, arith,
}
use flow_indicator.Stream.{trim_right}
use flow_indicator.Panel.Text.{reset, after, trim_spaces, trim_right_visible, ends_with_reset}
use flow_indicator.Panel.Text.Width.{IsClosed, open_after, open-append}

and-left : (a b : Bool) → a && b ≡ true → a ≡ true
and-left true b h = refl
and-left false b h = cc

pub and-right : (a b : Bool) → a && b ≡ true → b ≡ true
and-right true b h = h
and-right false b h = cc

after-space : (esc : Bool) (c : Char) → code c == b' ' ≡ true → after esc c ≡ esc
after-space true c h = ground arith
after-space false c h = ground arith

-- Trimmed spaces change nothing of an escape sequence.
pub trim_right-open : (esc : Bool) (s : String) → open_after esc (trim_spaces s) ≡ open_after esc s
unfolding trim_right
trim_right-open esc String.[] = refl
trim_right-open esc (String.◌∷◌ c s) =
    let ih = trim_right-open (after esc c) s in
    elim (Bool-cases (same (trim_spaces s) "" && code c == b' ')) [
      | inl cut ↦
          let empty : trim_spaces s ≡ "" = (same_iff (trim_spaces s) "").0 (and-left _ _ cut) in
          let spaced : after esc c ≡ esc =
            after-space esc c (and-right (same (trim_spaces s) "") _ cut) in
          rw cut (sym spaced ∙ ap (open_after (after esc c)) (sym empty) ∙ ih)
      | inr kept ↦ rw kept ih
    ]

reset-IsClosed : (esc : Bool) → open_after esc reset ≡ false
reset-IsClosed true = refl
reset-IsClosed false = refl

pub trim_right_visible-IsClosed : (s : String) → IsClosed s → IsClosed (trim_right_visible s)
unfolding trim_right_visible
trim_right_visible-IsClosed s p = elim (Bool-cases (ends_with_reset s)) [
  | inl colored ↦
      let body = trim_spaces (slice s 0 (len s - 4)) in
      rw colored (open-append false body reset ∙ reset-IsClosed (open_after false body))
  | inr plain ↦ rw plain (trim_right-open false s ∙ p)
]
