-- ===== src/Panel/Table/Lines.antt =====
-- Every line of a table takes the width that it is drawn at; pkg/panel/table.go.
use flow_indicator.Base.{
  ℕ, zero, suc, ◌+◌, ◌≡◌, refl, ap, ◌∙◌, inl, inr, String, Bool, true, false, not, ◌&&◌, ◌||◌,
  Option, none, some, List, [], ◌∷◌, same, ltb, ◌==◌, if◌then◌else◌, Bool-cases, get_elem?, All,
  length, ◌<◌, arith,
}
use flow_indicator.Stream.{append_text}
use flow_indicator.Panel.Text.{
  reset, dim, paint, spaces, pad, pad_left, center, ends, trim_spaces, trim_right_visible,
  visible_len,
}
use flow_indicator.Panel.Text.Width.{
  IsClosed, append-IsClosed, paint-IsClosed, pad-width, pad_left-IsClosed, center-IsClosed,
  spaces-IsClosed, ends-width, visible_len-append,
}
use flow_indicator.Panel.Text.Trimming.{and-right, trim_right-open, trim_right_visible-IsClosed}
use flow_indicator.Panel.Table.{
  Cell, Row, Table, Options, style, ColWidth, Measures, total_width, head_for, no_cell, cell_at,
  draw_cell, head_cells, row_cells, draw_row, draw_rows, draw_lines, draw_keeping, draw, columns,
  measure, width_of,
}

abbrev pub IsClosedCell : Cell → Type 0
IsClosedCell c = IsClosed c.numeric × IsClosed c.unit × IsClosed c.detail

abbrev pub IsClosedRow : Row → Type 0
IsClosedRow r = IsClosed r.label × IsClosed r.tail × All IsClosedCell r.cells

-- No text and no style of the table leaves an escape sequence open.
pub record IsDrawable (t : Table) (o : Options) : Type 0 where
  pub rows : All IsClosedRow t.rows
  pub heads : All IsClosed t.heads
  pub tail_head : IsClosed t.tail_head
  pub styles : (id : String) → IsClosed (style o id)

either : (b : Bool) (s t : String) → IsClosed s → IsClosed t → IsClosed (if b then s else t)
either true s t p q = p
either false s t p q = q

head_for-IsClosed : (heads : List String) (i : ℕ) → All IsClosed heads → IsClosed (head_for heads i)
head_for-IsClosed [] i p = refl
head_for-IsClosed (h ∷ heads) zero p = p.0
head_for-IsClosed (h ∷ heads) (suc i) p = head_for-IsClosed heads i p.1

abbrev cell_or_none : Option Cell → Cell
cell_or_none c = elim c [ none ↦ no_cell | some c ↦ c ]

cells-IsClosed :
    (cells : List Cell) (i : ℕ)
    → All IsClosedCell cells
    → IsClosedCell (cell_or_none (get_elem? cells i))
cells-IsClosed [] i p = (refl, refl, refl)
cells-IsClosed (c ∷ cells) zero p = p.0
cells-IsClosed (c ∷ cells) (suc i) p = cells-IsClosed cells i p.1

visible_len-paint :
    (s : String) (color : Bool) → IsClosed s → visible_len (paint s dim color) ≡ visible_len s
visible_len-paint s true p =
    let none : visible_len reset ≡ 0 = refl in omega (arith, visible_len-append s reset p, none)
visible_len-paint s false p = refl

abbrev too_wide : Table → ℕ → ℕ → Bool
unfolding measure width_of
too_wide t w keep = ltb w (width_of (measure t keep)) && ltb 1 keep

more_kept : (t : Table) (w keep : ℕ) → too_wide t w (suc keep) ≡ true → 0 < keep
unfolding too_wide
more_kept t w keep h =
    let many : ltb 1 (suc keep) ≡ true = and-right (ltb w (width_of (measure t (suc keep)))) _ h in
    ground arith

length-draw_rows :
    (o : Options) (m : Measures) (w : ℕ) (rows : List Row)
    → length (draw_rows o m w rows) ≡ length rows
length-draw_rows o m w [] = refl
length-draw_rows o m w (r ∷ rows) = ap suc (length-draw_rows o m w rows)

length-draw_lines :
    (t : Table) (o : Options) (m : Measures) (w : ℕ)
    → length (draw_lines t o m w) ≡ suc (length t.rows)
unfolding draw_lines
length-draw_lines t o m w = ap suc (length-draw_rows o m w t.rows)

module _ (t : Table) (o : Options) (v : IsDrawable t o) where
  draw_cell-IsClosed : (c : Cell) (w : ColWidth) → IsClosedCell c → IsClosed (draw_cell o c w)
  unfolding draw_cell
  draw_cell-IsClosed c w (pn, pu, pd) =
      let numeric = pad_left c.numeric w.numeric in
      let unit = pad c.unit w.unit in
      let detail = paint (pad c.detail w.detail) dim o.color in
      let cn = pad_left-IsClosed c.numeric w.numeric pn in
      let cu = (pad-width c.unit w.unit pu).1 in
      let ansi = style o c.id in
      let plain = not (not (same ansi "") && not (same c.numeric "")) in
      let a = if plain then numeric else paint numeric ansi o.color in
      let b = if plain then unit else paint unit ansi o.color in
      let ca : IsClosed a =
        either plain numeric (paint numeric ansi o.color) cn
          (paint-IsClosed numeric ansi o.color cn (v.styles c.id)) in
      let cb : IsClosed b =
        either plain unit (paint unit ansi o.color) cu
          (paint-IsClosed unit ansi o.color cu (v.styles c.id)) in
      let body = append-IsClosed a b ca cb in
      let word =
        paint-IsClosed (pad c.detail w.detail) dim o.color (pad-width c.detail w.detail pd).1
          refl in
      either (w.detail == 0 || (same c.detail "" && not (same c.numeric ""))) _ _
        (pad-width (append_text a b) (total_width w) body).1
        (either (same c.numeric "") _ _
          (pad-width (append_text (spaces (w.numeric + w.unit + 1)) detail) (total_width w) (
            append-IsClosed (spaces (w.numeric + w.unit + 1)) detail
              (spaces-IsClosed (w.numeric + w.unit + 1)) word)).1
          (append-IsClosed (append_text a b) (append_text " " detail) body
            (append-IsClosed " " detail refl word)))

  cell_at-IsClosed : (r : Row) (i : ℕ) → IsClosedRow r → IsClosedCell (cell_at r i)
  cell_at-IsClosed r i p = cells-IsClosed r.cells i p.2

  row_cells-IsClosed :
      (r : Row) (i : ℕ) (cs : List ColWidth) → IsClosedRow r → IsClosed (row_cells o r i cs)
  row_cells-IsClosed r i [] p = refl
  row_cells-IsClosed r i (c ∷ cs) p =
      append-IsClosed "  " (append_text (draw_cell o (cell_at r i) c) (row_cells o r (i + 1) cs))
        refl
        (append-IsClosed (draw_cell o (cell_at r i) c) (row_cells o r (i + 1) cs)
          (draw_cell-IsClosed (cell_at r i) c (cell_at-IsClosed r i p))
          (row_cells-IsClosed r (i + 1) cs p))

  head_cells-IsClosed : (i : ℕ) (cs : List ColWidth) → IsClosed (head_cells t.heads i cs)
  head_cells-IsClosed i [] = refl
  head_cells-IsClosed i (c ∷ cs) =
      let head = center (head_for t.heads i) (total_width c) in
      append-IsClosed "  " (append_text head (head_cells t.heads (i + 1) cs)) refl (
        append-IsClosed head (head_cells t.heads (i + 1) cs)
          (center-IsClosed (head_for t.heads i) (total_width c)
            (head_for-IsClosed t.heads i v.heads))
          (head_cells-IsClosed (i + 1) cs))

  draw_row-width :
      (m : Measures) (w : ℕ) (r : Row) → IsClosedRow r → visible_len (draw_row o m w r) ≡ w
  draw_row-width m w r p =
      let label = paint (pad_left r.label m.label_width) dim o.color in
      let cells = row_cells o r 0 m.cell_widths in
      let closed =
        append-IsClosed label cells
          (paint-IsClosed (pad_left r.label m.label_width) dim o.color
            (pad_left-IsClosed r.label m.label_width p.0) refl)
          (row_cells-IsClosed r 0 m.cell_widths p) in
      (ends-width (trim_right_visible (append_text label cells)) (paint r.tail dim o.color) w
        (trim_right_visible-IsClosed (append_text label cells) closed)
        (paint-IsClosed r.tail dim o.color p.1 refl)).0

  draw_rows-width :
      (m : Measures) (w : ℕ) (rows : List Row)
      → All IsClosedRow rows
      → All (λ line. visible_len line ≡ w) (draw_rows o m w rows)
  draw_rows-width m w [] p = tt
  draw_rows-width m w (r ∷ rows) p = (draw_row-width m w r p.0, draw_rows-width m w rows p.1)

  draw_lines-width :
      (m : Measures) (w : ℕ) → All (λ line. visible_len line ≡ w) (draw_lines t o m w)
  unfolding draw_lines
  draw_lines-width m w =
      let heads = append_text (spaces m.label_width) (head_cells t.heads 0 m.cell_widths) in
      let closed =
        append-IsClosed (spaces m.label_width) (head_cells t.heads 0 m.cell_widths)
          (spaces-IsClosed m.label_width) (head_cells-IsClosed 0 m.cell_widths) in
      let head =
        ends-width (trim_spaces heads) t.tail_head w (trim_right-open false heads ∙ closed)
          v.tail_head in
      (
        visible_len-paint (ends (trim_spaces heads) t.tail_head w) o.color head.1 ∙ head.0,
        draw_rows-width m w t.rows v.rows,
      )

  draw_keeping-width :
      (w keep : ℕ)
      → 0 < keep
      → (length (draw_keeping t o w keep) ≡ suc (length t.rows))
        × All (λ line. visible_len line ≡ w) (draw_keeping t o w keep)
  unfolding draw_keeping
  draw_keeping-width w zero h = absurd (omega arith)
  draw_keeping-width w (suc keep) h = elim (Bool-cases (too_wide t w (suc keep))) [
    | inl wide ↦ rw wide (draw_keeping-width w keep (more_kept t w keep wide))
    | inr fits ↦
        let m = measure t (suc keep) in rw fits (length-draw_lines t o m w, draw_lines-width m w)
  ]

  -- A table with at least one column, none of whose texts and styles leaves an escape sequence
  -- open, is drawn as one line for its head and one for each row, each of exactly the width asked
  -- for.
  pub draw-width :
      (w : ℕ)
      → 0 < columns t
      → (length (draw t o w) ≡ suc (length t.rows))
        × All (λ line. visible_len line ≡ w) (draw t o w)
  unfolding draw
  draw-width w h = draw_keeping-width w (columns t) h
