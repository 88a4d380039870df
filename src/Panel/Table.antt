-- ===== src/Panel/Table.antt =====
-- pkg/panel/table.go: rows of cells laid out at shared column widths.
pub mod Lines
use flow_indicator.Base.{
  ℕ, zero, suc, ◌+◌, ◌-◌, String, Bool, true, false, not, ◌&&◌, ◌||◌, Option, none, some, List, [],
  ◌∷◌, ◌++◌, same, ltb, leb, ◌==◌, if◌then◌else◌, max, length, get_elem?,
}
use flow_indicator.Stream.{append_text}
use flow_indicator.Classify.Structure.{rune_count}
use flow_indicator.Panel.Text.{
  dim, paint, spaces, pad, pad_left, center, ends, trim_spaces, trim_right_visible,
}

pub record Cell : Type 0 where
  pub id : String
  pub numeric : String
  pub unit : String
  pub detail : String

pub record Row : Type 0 where
  pub label : String
  pub cells : List Cell
  pub tail : String

pub record Table : Type 0 where
  pub rows : List Row
  pub heads : List String
  pub tail_head : String
  pub min_figure : ℕ

-- `Options`; a nil style is `none`.
pub record Options : Type 0 where
  pub color : Bool
  pub styles : Option (String → String)

abbrev pub style : Options → String → String
style o id = elim o.styles [ none ↦ "" | some f ↦ f id ]

-- `colWidth`.
pub record ColWidth : Type 0 where
  pub numeric : ℕ
  pub unit : ℕ
  pub detail : ℕ

abbrev pub total_width : ColWidth → ℕ
total_width c = c.numeric + c.unit + (if c.detail == 0 then 0 else 1 + c.detail)

abbrev most_cells : List Row → ℕ
most_cells [] = 0
most_cells (r ∷ rows) = max (length r.cells) (most_cells rows)

abbrev pub columns : Table → ℕ
columns t = most_cells t.rows

-- `headFor`, and a row's cell, which is empty past its last.
abbrev pub head_for : List String → ℕ → String
head_for heads i = elim (get_elem? heads i) [ none ↦ "" | some h ↦ h ]

abbrev pub no_cell : Cell
no_cell = record { id = ""; numeric = ""; unit = ""; detail = "" }

abbrev pub cell_at : Row → ℕ → Cell
cell_at r i = elim (get_elem? r.cells i) [ none ↦ no_cell | some c ↦ c ]

-- The widest parts of column `i`.
abbrev widest : ℕ → List Row → ColWidth
widest i [] = record { numeric = 0; unit = 0; detail = 0 }
widest i (r ∷ rows) =
    let c = cell_at r i in
    let rest = widest i rows in
    record {
      numeric = max (rune_count c.numeric) rest.numeric;
      unit = max (rune_count c.unit) rest.unit;
      detail = max (rune_count c.detail) rest.detail;
    }

-- `DefaultMinFigure`.
abbrev default_min_figure : ℕ
default_min_figure = 5

abbrev floored : Table → ℕ → ColWidth → ColWidth
floored t i c =
    let least = if t.min_figure == 0 then default_min_figure else t.min_figure in
    let wide : ColWidth = record {
      numeric = max c.numeric least;
      unit = max c.unit 1;
      detail = c.detail;
    } in
    record wide { detail = wide.detail + (rune_count (head_for t.heads i) - total_width wide) }

abbrev widths_from : Table → ℕ → ℕ → List ColWidth
widths_from t i zero = []
widths_from t i (suc left) = floored t i (widest i t.rows) ∷ widths_from t (i + 1) left

pub record Measures : Type 0 where
  pub label_width : ℕ
  pub cell_widths : List ColWidth
  pub tail_width : ℕ

abbrev widest_label : List Row → ℕ
widest_label [] = 0
widest_label (r ∷ rows) = max (rune_count r.label) (widest_label rows)

abbrev widest_tail : List Row → ℕ
widest_tail [] = 0
widest_tail (r ∷ rows) = max (rune_count r.tail) (widest_tail rows)

unfoldable pub measure : Table → ℕ → Measures
measure t keep = record {
  label_width = widest_label t.rows;
  cell_widths = widths_from t 0 keep;
  tail_width = max (widest_tail t.rows) (rune_count t.tail_head);
}

abbrev cells_width : List ColWidth → ℕ
cells_width [] = 0
cells_width (c ∷ cs) = total_width c + 2 + cells_width cs

-- `width`, and `Natural`.
unfoldable pub width_of : Measures → ℕ
width_of m = m.label_width + m.tail_width + 2 + cells_width m.cell_widths

unfoldable pub natural : Table → ℕ
unfolding measure width_of
natural t = width_of (measure t (columns t))

-- `drawCell`.
unfoldable pub draw_cell : Options → Cell → ColWidth → String
draw_cell o c w =
    let ansi = style o c.id in
    let plain = not (not (same ansi "") && not (same c.numeric "")) in
    let numeric = pad_left c.numeric w.numeric in
    let unit = pad c.unit w.unit in
    let body =
      append_text (if plain then numeric else paint numeric ansi o.color)
        (if plain then unit else paint unit ansi o.color) in
    if w.detail == 0 || (same c.detail "" && not (same c.numeric ""))
    then pad body (total_width w)
    else if same c.numeric ""
    then pad
        (append_text (spaces (w.numeric + w.unit + 1)) (paint (pad c.detail w.detail) dim o.color))
        (total_width w)
    else append_text body (append_text " " (paint (pad c.detail w.detail) dim o.color))

abbrev pub head_cells : List String → ℕ → List ColWidth → String
head_cells heads i [] = ""
head_cells heads i (c ∷ cs) =
    append_text "  "
      (append_text (center (head_for heads i) (total_width c)) (head_cells heads (i + 1) cs))

abbrev pub row_cells : Options → Row → ℕ → List ColWidth → String
row_cells o r i [] = ""
row_cells o r i (c ∷ cs) =
    append_text "  " (append_text (draw_cell o (cell_at r i) c) (row_cells o r (i + 1) cs))

abbrev pub draw_row : Options → Measures → ℕ → Row → String
draw_row o m w r =
    ends
      (trim_right_visible (
        append_text (paint (pad_left r.label m.label_width) dim o.color)
          (row_cells o r 0 m.cell_widths)))
      (paint r.tail dim o.color) w

abbrev pub draw_rows : Options → Measures → ℕ → List Row → List String
draw_rows o m w [] = []
draw_rows o m w (r ∷ rows) = draw_row o m w r ∷ draw_rows o m w rows

-- `draw`.
unfoldable pub draw_lines : Table → Options → Measures → ℕ → List String
unfolding ends draw_cell trim_right_visible
draw_lines t o m w =
    paint
      (ends (trim_spaces (append_text (spaces m.label_width) (head_cells t.heads 0 m.cell_widths)))
        t.tail_head w)
      dim o.color
    ∷ draw_rows o m w t.rows

-- The loop of `Draw`, from `keep` columns down.
unfoldable pub draw_keeping : Table → Options → ℕ → ℕ → List String
unfolding measure width_of draw_lines
draw_keeping t o w zero = []
draw_keeping t o w (suc keep) =
    let m = measure t (suc keep) in
    let fewer = draw_keeping t o w keep in
    if ltb w (width_of m) && ltb 1 (suc keep) then fewer else draw_lines t o m w

unfoldable pub draw : Table → Options → ℕ → List String
unfolding draw_keeping
draw t o w = draw_keeping t o w (columns t)
