-- ===== src/Panel/Pane.antt =====
-- pkg/panel/box.go: labelled lines inside a box.
use flow_indicator.Base.{ℕ, ◌-◌, ◌≡◌, String, Bool, max}
use flow_indicator.Stream.{append_text}
use flow_indicator.Panel.Text.{dim, paint, visible_len, fit, pad_left}
use flow_indicator.Panel.Text.Width.{IsClosed}

pub record Pane : Type 0 where
  pub label_width : ℕ
  pub width : ℕ
  pub color : Bool

-- `ValueW`.
abbrev pub value_width : Pane → ℕ
value_width p = max (p.width - p.label_width - 2) 1

-- `Row`.
unfoldable pub pane_row : Pane → String → String → String → String
pane_row p label value ansi =
    append_text (paint (append_text (pad_left label p.label_width) "  ") dim p.color)
      (paint (fit value (value_width p)) ansi p.color)

-- An attribute takes no column, and closes its escape sequence.
abbrev pub IsAttribute : String → Type 0
IsAttribute ansi = (visible_len ansi ≡ 0) × IsClosed ansi
