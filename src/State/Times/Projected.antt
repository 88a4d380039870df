-- ===== src/State/Times/Projected.antt =====
-- Opening, deepening and closing keep the times of the episodes; internal/state/projector.go.
use flow_indicator.Base.{
  ℕ, ◌+◌, ◌-◌, inl, inr, String, List, [], ◌∷◌, ◌==◌, leb, get_elem?, All, All-append, Bool-cases,
  Option-cases,
}
use flow_indicator.Stream.{Record}
use flow_indicator.Classify.{Result}
use flow_indicator.State.Repair.{Repair, close, reopen, new_repair}
use flow_indicator.State.Episodes.{Episodes, project_repair, cycle_unanswered, target_equivalent}
use flow_indicator.State.Episodes.Corrections.{
  Moment, retire_active, reopen_closing, deepen, recur, corrected, append_repair, open_or_recur,
  project_correction,
}
use flow_indicator.State.Episodes.Turn.{
  keeps_open, provisionally_closed, project_open, re_edited, open_structural_repair,
}
use flow_indicator.State.Times.{
  InYears, IsTimed, Fits, TimedStep, All-update_at, All-get_elem?, either-InYears,
}

-- The times that an episode may start at.
abbrev pub TimedMoment : Moment → Type 0
TimedMoment m = InYears m.last_agent_time × InYears m.operator_time

append_repair-IsTimed :
    (r : Repair) (e : Episodes)
    → IsTimed r
    → All IsTimed e.repairs
    → All IsTimed (append_repair r e).repairs
append_repair-IsTimed r e t v = All-append IsTimed e.repairs (r ∷ []) v (t, tt)

deepen-IsTimed :
    (turn : ℕ) (paths : List String) (r : Repair) → IsTimed r → IsTimed (deepen turn paths r)
unfolding reopen deepen
deepen-IsTimed turn paths r t = (t.0, t.1, tt)

corrected-IsTimed :
    (m : Moment) (rec : Record) (res : Result) (id : ℕ)
    → InYears rec.timestamp
    → TimedMoment m
    → IsTimed (corrected m rec res id)
unfolding new_repair
corrected-IsTimed m rec res id h k =
    let start = either-InYears (m.last_agent_time == 0) rec.timestamp m.last_agent_time h k.0 in
    (start, start, tt)

open_or_recur-IsTimed :
    (m : Moment) (rec : Record) (res : Result) (e : Episodes)
    → InYears rec.timestamp
    → TimedMoment m
    → All IsTimed e.repairs
    → TimedStep (open_or_recur m rec res e)
unfolding open_or_recur recur
open_or_recur-IsTimed m rec res e h k v =
    let fresh = corrected m rec res (e.repair_count + 1) in
    let timed = corrected-IsTimed m rec res (e.repair_count + 1) h k in
    let all = append_repair-IsTimed fresh e timed v in
    elim (Option-cases (reopen_closing res.correction.target_key e)) [
      | inl n ↦ rw (open_or_recur, n) (all, (timed, tt))
      | inr (back, s) ↦ elim (Option-cases (get_elem? e.repairs back.position)) [
        | inl n ↦ rw (open_or_recur, s, n) (all, (timed, tt))
        | inr (r, at) ↦
            let paths = res.correction.target_paths in
            let old = All-get_elem? IsTimed e.repairs back.position r at v in
            rw (open_or_recur, s, at)
              (
                All-update_at IsTimed (recur m.turn_index paths) back.position e.repairs
                    (λ x t. deepen-IsTimed m.turn_index paths x t) v,
                (deepen-IsTimed m.turn_index paths r old, tt),
              )
      ]
    ]

retire_active-IsTimed :
    (rec : Record) (i : ℕ) (r : Repair) (e : Episodes)
    → InYears rec.timestamp
    → IsTimed r
    → All IsTimed e.repairs
    → TimedStep (retire_active rec i r e)
unfolding retire_active close
retire_active-IsTimed rec i r e h t v =
    (All-update_at IsTimed _ i e.repairs (λ x s. (s.0, s.1, h)) v, ((t.0, t.1, h), tt))

project_correction-IsTimed :
    (m : Moment) (rec : Record) (res : Result) (e : Episodes)
    → InYears rec.timestamp
    → TimedMoment m
    → All IsTimed e.repairs
    → TimedStep (project_correction m rec res e)
unfolding project_correction
project_correction-IsTimed m rec res e h k v = elim (Option-cases e.active) [
  | inl n ↦ rw (project_correction, n) (open_or_recur-IsTimed m rec res e h k v)
  | inr (i, s) ↦ elim (Option-cases (get_elem? e.repairs i)) [
    | inl n ↦ rw (project_correction, s, n) (open_or_recur-IsTimed m rec res e h k v)
    | inr (r, at) ↦
        let timed = All-get_elem? IsTimed e.repairs i r at v in
        elim (Bool-cases (target_equivalent r.target_key res.correction.target_key)) [
          | inl same_target ↦
              let paths = res.correction.target_paths in
              rw (project_correction, s, at, same_target)
                (
                  All-update_at IsTimed (deepen m.turn_index paths) i e.repairs
                      (λ x t. deepen-IsTimed m.turn_index paths x t) v,
                  (deepen-IsTimed m.turn_index paths r timed, tt),
                )
          | inr other ↦
              let first = retire_active rec i r e in
              let (v₁, fit₁) = retire_active-IsTimed rec i r e h timed v in
              let (v₂, fit₂) = open_or_recur-IsTimed m rec res first.0 h k v₁ in
              rw (project_correction, s, at, other)
                (v₂, All-append (λ d. Fits d.payload) first.1 _ fit₁ fit₂)
        ]
  ]
]

project_open-IsTimed :
    (m : Moment) (rec : Record) (res : Result) (i : ℕ) (r : Repair) (e : Episodes)
    → InYears rec.timestamp
    → IsTimed r
    → All IsTimed e.repairs
    → TimedStep (project_open m rec res i r e)
unfolding project_open close
project_open-IsTimed m rec res i r e h t v = elim (Bool-cases (keeps_open res)) [
  | inl kept ↦ elim (Bool-cases (leb m.durability (m.turn_index - r.active_index))) [
    | inl due ↦
        rw (project_open, kept, due)
          (All-update_at IsTimed _ i e.repairs (λ x s. (s.0, s.1, h)) v, ((t.0, t.1, h), tt))
    | inr early ↦ rw (project_open, kept, early) (v, tt)
  ]
  | inr done ↦
      rw (project_open, done)
        (
          All-update_at IsTimed (provisionally_closed m.turn_index rec.timestamp) i e.repairs
              (λ x s. (s.0, s.1, h)) v,
          ((t.0, t.1, h), tt),
        )
]

pub project_repair-IsTimed :
    (m : Moment) (rec : Record) (res : Result) (e : Episodes)
    → InYears rec.timestamp
    → TimedMoment m
    → All IsTimed e.repairs
    → TimedStep (project_repair m rec res e)
unfolding project_repair
project_repair-IsTimed m rec res e h k v = elim (Bool-cases res.correction.is_correction) [
  | inl c ↦ rw (project_repair, c) (project_correction-IsTimed m rec res e h k v)
  | inr plain ↦ elim (Bool-cases (cycle_unanswered e)) [
    | inl u ↦ rw (project_repair, plain, u) (v, tt)
    | inr a ↦ elim (Option-cases e.active) [
      | inl n ↦ rw (project_repair, plain, a, n) (v, tt)
      | inr (i, s) ↦ elim (Option-cases (get_elem? e.repairs i)) [
        | inl n ↦ rw (project_repair, plain, a, s, n) (v, tt)
        | inr (r, at) ↦
            rw (project_repair, plain, a, s, at)
              (project_open-IsTimed m rec res i r e h (All-get_elem? IsTimed e.repairs i r at v) v)
      ]
    ]
  ]
]

pub open_structural_repair-IsTimed :
    (m : Moment) (rec : Record) (p : String) (ps : List String) (e : Episodes)
    → InYears rec.timestamp
    → TimedMoment m
    → All IsTimed e.repairs
    → TimedStep (open_structural_repair m rec p ps e)
unfolding open_structural_repair new_repair
open_structural_repair-IsTimed m rec p ps e h k v =
    let start = either-InYears (m.operator_time == 0) rec.timestamp m.operator_time h k.1 in
    let timed : IsTimed (re_edited m rec p ps (e.repair_count + 1)) = (start, start, tt) in
    (append_repair-IsTimed (re_edited m rec p ps (e.repair_count + 1)) e timed v, (timed, tt))
