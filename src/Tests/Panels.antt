-- ===== src/Tests/Panels.antt =====
-- Tables and texts of a panel.
use flow_indicator.Base.{
  ◌+◌, ◌≡◌, refl, String, true, none, some, List, [], ◌∷◌, length, All, arith, ltb, lookup,
}
use flow_indicator.Floats.{Float64, of_int, exact}
use flow_indicator.Panel.Text.{visible_len}
use flow_indicator.Panel.Pane.{Pane}
use flow_indicator.Panel.Track.{
  Tracker, new_tracker, observe, active, marked, IsMap, over_mark_within, active-observe,
}
use flow_indicator.Panel.Table.{Table, Options, draw}
use flow_indicator.Panel.Table.Lines.{IsDrawable, draw-width}

abbrev table : Table
table = record {
  rows =
      record {
        label = "corrections";
        cells = record { id = "rate"; numeric = "12.5"; unit = "%"; detail = "up" } ∷ [];
        tail = "40 turns";
      }
      ∷ [];
  heads = "now" ∷ [];
  tail_head = "over";
  min_figure = 0;
}

abbrev options : Options
options = record { color = true; styles = none }

drawable : IsDrawable table options
drawable = record {
  rows = ((refl, refl, ((refl, refl, refl), tt)), tt);
  heads = (refl, tt);
  tail_head = refl;
  styles = λ id. refl;
}

draw-width_example :
    (length (draw table options 40) ≡ 2)
    × All (λ line. visible_len line ≡ 40) (draw table options 40)
draw-width_example = draw-width table options drawable 40 (omega arith)

abbrev pane : Pane
pane = record { label_width = 8; width = 24; color = true }

-- The rate was 1 and is 2.
abbrev before : List (String × Float64)
before = ("rate", of_int 1) ∷ []

abbrev values : List (String × Float64)
values = ("rate", of_int 2) ∷ []

abbrev tracker : Tracker
tracker = record (new_tracker 10 ("rate" ∷ []) []) { prev = some before }

values-IsMap : IsMap values
unfolding IsMap
values-IsMap = (refl, tt)

active-observe_example :
    lookup "rate" (active (observe exact values 5 tracker) 7)
    ≡ over_mark_within
        (ltb 7 (5 + tracker.hold))
        (marked exact tracker before values "rate")
        (lookup "rate" (active tracker 7))
active-observe_example = active-observe exact tracker before values 5 7 "rate" refl values-IsMap
