-- ===== src/Panel/Text/Width.antt =====
-- How many columns the texts of a panel take; pkg/panel/text.go, box.go.
use Prim.Native.Char.{code}
use flow_indicator.Base.{
  ℕ, zero, suc, ◌+◌, ◌-◌, ◌/◌, ◌≡◌, ◌<◌, refl, ap, ◌∙◌, inl, inr, String, Bool, true, false, not,
  ◌||◌, same, leb, ◌==◌, if◌then◌else◌, max, min, Bool-cases, leb→le, arith,
}
use flow_indicator.Stream.{append_text}
use flow_indicator.Panel.Text.{
  reset, paint, after, visible_from, visible_len, put, fit_from, fit, spaces, pad, pad_left, center,
  ends, content_row,
}

-- Whether an escape sequence is open at the end of a text.
abbrev pub open_after : Bool → String → Bool
open_after esc String.[] = esc
open_after esc (String.◌∷◌ c s) = open_after (after esc c) s

-- No escape sequence is left open.
abbrev pub IsClosed : String → Type 0
IsClosed s = open_after false s ≡ false

visible-append :
    (esc : Bool) (s t : String)
    → visible_from esc (append_text s t) ≡ visible_from esc s + visible_from (open_after esc s) t
visible-append esc String.[] t = omega arith
visible-append esc (String.◌∷◌ c s) t = ground (arith, visible-append (after esc c) s t)

pub open-append :
    (esc : Bool) (s t : String) → open_after esc (append_text s t) ≡ open_after (open_after esc s) t
open-append esc String.[] t = refl
open-append esc (String.◌∷◌ c s) t = open-append (after esc c) s t

pub append-IsClosed : (s t : String) → IsClosed s → IsClosed t → IsClosed (append_text s t)
append-IsClosed s t p q = open-append false s t ∙ ap (λ e. open_after e t) p ∙ q

pub visible_len-append :
    (s t : String) → IsClosed s → visible_len (append_text s t) ≡ visible_len s + visible_len t
visible_len-append s t p =
    visible-append false s t ∙ ap (λ e. visible_from false s + visible_from e t) p

pub spaces-IsClosed : (n : ℕ) → IsClosed (spaces n)
spaces-IsClosed zero = refl
spaces-IsClosed (suc n) = spaces-IsClosed n

pub visible_len-spaces : (n : ℕ) → visible_len (spaces n) ≡ n
visible_len-spaces zero = refl
visible_len-spaces (suc n) = ap suc (visible_len-spaces n)

pub paint-IsClosed :
    (text ansi : String) (color : Bool)
    → IsClosed text
    → IsClosed ansi
    → IsClosed (paint text ansi color)
paint-IsClosed text ansi color p q = elim (Bool-cases (not color || same ansi "")) [
  | inl off ↦ rw off p
  | inr on ↦
      rw on (append-IsClosed ansi (append_text text reset) q (append-IsClosed text reset p refl))
]

-- A cut text is one column short of the width, and ends outside of an escape sequence.
fit_from-cut :
    (width seen : ℕ) (esc colored : Bool) (s : String)
    → seen < width
    → width < seen + visible_from esc s
    → (visible_from esc (fit_from width seen esc colored s).0 + seen + 1 ≡ width)
      × (open_after esc (fit_from width seen esc colored s).0 ≡ false)
unfolding fit_from
fit_from-cut width seen esc colored String.[] lt over = absurd (omega arith)
fit_from-cut width seen true colored (String.◌∷◌ c s) lt over =
    fit_from-cut width seen (not (code c == b'm')) colored s lt over
fit_from-cut width seen false colored (String.◌∷◌ c s) lt over = elim (Bool-cases (code c == 27)) [
  | inl escape ↦
      let over' : width < seen + visible_from true s = rw escape at over in
      let e : fit_from width seen false colored (String.◌∷◌ c s)
          ≡ put c (fit_from width seen true true s) =
        rw (fit_from, escape) refl in
      rw (e, open_after, escape) (fit_from-cut width seen true true s lt over')
  | inr plain ↦ elim (Bool-cases (seen == width - 1)) [
    | inl full ↦
        let e : fit_from width seen false colored (String.◌∷◌ c s) ≡ ("", colored) =
          rw (fit_from, plain, full) refl in
        rw e (ground arith, refl)
    | inr room ↦
        let over' : width < seen + 1 + visible_from false s =
          let more : width < seen + suc (visible_from false s) = rw plain at over in omega arith in
        let ih = fit_from-cut width (seen + 1) false colored s (ground arith) over' in
        let e : fit_from width seen false colored (String.◌∷◌ c s)
            ≡ put c (fit_from width (seen + 1) false colored s) =
          rw (fit_from, plain, room) refl in
        rw (e, open_after, plain) (omega (arith, ih.0), ih.1)
  ]
]

tail_width :
    (colored : Bool)
    → (visible_len (append_text "…" (if colored then reset else "")) ≡ 1)
      × IsClosed (append_text "…" (if colored then reset else ""))
tail_width true = (refl, refl)
tail_width false = (refl, refl)

leb-false : (a b : ℕ) → leb a b ≡ false → b < a
leb-false a b h = ground arith

pub fit-width :
    (s : String) (width : ℕ)
    → IsClosed s
    → (visible_len (fit s width) ≡ min (visible_len s) width) × IsClosed (fit s width)
unfolding fit
fit-width s width p = elim (Bool-cases (leb (visible_len s) width)) [
  | inl fits ↦ rw fits (ground arith, p)
  | inr long ↦ elim (Bool-cases (width == 0)) [
    | inl nothing ↦ rw (long, nothing) (ground arith, refl)
    | inr some_room ↦
        let cut = fit_from-cut width 0 false false s (ground arith) (ground arith) in
        let out = (fit_from width 0 false false s).0 in
        let colored = (fit_from width 0 false false s).1 in
        let tail = append_text "…" (if colored then reset else "") in
        let (one, closed) = tail_width colored in
        rw (long, some_room)
          (
            omega (
              arith,
              cut.0,
              visible_len-append out tail cut.1,
              one,
              (leb-false (visible_len s) width long),
            ),
            append-IsClosed out tail cut.1 closed,
          )
  ]
]

pub pad-width :
    (s : String) (width : ℕ)
    → IsClosed s
    → (visible_len (pad s width) ≡ max (visible_len s) width) × IsClosed (pad s width)
pad-width s width p =
    let n = width - visible_len s in
    (
      omega (arith, visible_len-append s (spaces n) p, visible_len-spaces n),
      append-IsClosed s (spaces n) p (spaces-IsClosed n),
    )

pub pad_left-IsClosed : (s : String) (width : ℕ) → IsClosed s → IsClosed (pad_left s width)
pad_left-IsClosed s width p =
    append-IsClosed (spaces (width - visible_len s)) s (spaces-IsClosed (width - visible_len s)) p

pub center-IsClosed : (s : String) (width : ℕ) → IsClosed s → IsClosed (center s width)
center-IsClosed s width p =
    let n = width - visible_len s in
    append-IsClosed (spaces (n / 2)) (append_text s (spaces (n - n / 2))) (spaces-IsClosed (n / 2))
      (append-IsClosed s (spaces (n - n / 2)) p (spaces-IsClosed (n - n / 2)))

-- `Ends` gives a text of exactly the width asked for, and leaves no escape sequence open if
-- neither text does.
pub ends-width :
    (left right : String) (width : ℕ)
    → IsClosed left
    → IsClosed right
    → (visible_len (ends left right width) ≡ width) × IsClosed (ends left right width)
unfolding ends
ends-width left right width p q = elim (Bool-cases (leb width (visible_len right))) [
  | inl wide ↦
      let f = fit-width right width q in
      rw wide (omega (arith, f.0, leb→le width (visible_len right) wide), f.1)
  | inr room ↦
      let lt = leb-false width (visible_len right) room in
      let space = width - visible_len right - 1 in
      let (short, closed) = fit-width left space p in
      let cut = fit left space in
      let gap = width - visible_len cut - visible_len right in
      let rest = append_text (spaces gap) right in
      rw room (
        omega (
          arith,
          lt,
          short,
          visible_len-append cut rest closed,
          visible_len-append (spaces gap) right (spaces-IsClosed gap),
          visible_len-spaces gap,
        ),
        append-IsClosed cut rest closed
            (append-IsClosed (spaces gap) right (spaces-IsClosed gap) q),
      )
]

-- A line of a box takes the inner width and the chrome, however long its text.
pub content_row-width :
    (width : ℕ) (line : String) → IsClosed line → visible_len (content_row width line) ≡ width + 4
content_row-width width line p =
    let (short, closed) = fit-width line width p in
    let (full, closed') = pad-width (fit line width) width closed in
    let body = pad (fit line width) width in
    let left : visible_len "│ " ≡ 2 = refl in
    let right : visible_len " │" ≡ 2 = refl in
    omega (
      arith,
      short,
      full,
      left,
      right,
      visible_len-append "│ " (append_text body " │") refl,
      visible_len-append body " │" closed',
    )
