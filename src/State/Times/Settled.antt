-- ===== src/State/Times/Settled.antt =====
-- Settling, ending and attributing keep the times of the episodes; internal/state/projector.go.
use flow_indicator.Base.{
  ℕ, ◌+◌, ◌-◌, inl, inr, Bool, List, [], ◌∷◌, ◌==◌, leb, same, get_elem?, update_at, All,
  All-append, Bool-cases, Option-cases,
}
use flow_indicator.Stream.{Record}
use flow_indicator.State.Repair.{Repair, close}
use flow_indicator.State.Episodes.{
  Episodes, settle_pollution, settle_durability, attribute, finish_active, reset_episodes,
}
use flow_indicator.State.Episodes.Store.{count_record}
use flow_indicator.State.Episodes.Settle.{
  Settling, settle_one, settle_from, with_status, made_durable,
}
use flow_indicator.State.Episodes.Ending.{reset_active, abandon_closing}
use flow_indicator.State.Times.{
  InYears, IsTimed, Fits, AllFit, TimedStep, All-update_at, All-get_elem?, touch-IsTimed,
}

pub attribute-IsTimed :
    (rec : Record) (chars : ℕ) (e : Episodes)
    → InYears rec.timestamp
    → All IsTimed e.repairs
    → All IsTimed (attribute rec chars e).repairs
unfolding attribute
attribute-IsTimed rec chars e h v = elim (Option-cases e.active) [
  | inl n ↦ rw (attribute, n) v
  | inr (i, s) ↦
      rw (attribute, s)
        (All-update_at IsTimed (count_record rec.timestamp chars) i e.repairs
          (λ r t.
            touch-IsTimed rec.timestamp
              (record r { chars = r.chars + chars; records = r.records + 1 }) h t)
          v)
]

pub settle_pollution-IsTimed :
    (again : Bool) (e : Episodes) → All IsTimed e.repairs → TimedStep (settle_pollution again e)
unfolding settle_pollution
settle_pollution-IsTimed again e v = elim (Option-cases e.cycle) [
  | inl n ↦ rw (settle_pollution, n) (v, tt)
  | inr (c, s) ↦ elim (Bool-cases (c.records == 0)) [
    | inl empty ↦ rw (settle_pollution, s, empty) (v, tt)
    | inr full ↦ elim (Option-cases (get_elem? e.repairs c.repair)) [
      | inl n ↦ rw (settle_pollution, s, full, n) (v, tt)
      | inr (r, at) ↦
          rw (settle_pollution, s, full, at)
            (All-update_at IsTimed _ c.repair e.repairs (λ r t. t) v, (tt, tt))
    ]
  ]
]

abbrev TimedSettling : Settling → Type 0
TimedSettling s = All IsTimed s.repairs × AllFit s.out

settle_one-IsTimed :
    (durability turn i : ℕ) (s : Settling)
    → TimedSettling s
    → TimedSettling (settle_one durability turn i s)
unfolding settle_one
settle_one-IsTimed durability turn i s v = elim (Option-cases (get_elem? s.repairs i)) [
  | inl n ↦ rw (settle_one, n) v
  | inr (r, at) ↦
      let timed = All-get_elem? IsTimed s.repairs i r at v.0 in
      elim (Bool-cases (leb durability (turn - r.close_index))) [
        | inr early ↦ rw (settle_one, at, early) v
        | inl due ↦ elim (Bool-cases (same r.target_key "")) [
          | inl unnamed ↦
              rw (settle_one, at, due, unnamed)
                (
                  All-update_at IsTimed with_status i s.repairs (λ r t. t) v.0,
                  All-append (λ d. Fits d.payload) s.out _ v.1 (timed, tt),
                )
          | inr named ↦
              rw (settle_one, at, due, named)
                (
                  All-update_at IsTimed made_durable i s.repairs (λ r t. t) v.0,
                  All-append (λ d. Fits d.payload) s.out _ v.1 (timed, tt),
                )
        ]
      ]
]

settle_from-IsTimed :
    (durability turn : ℕ) (is : List ℕ) (s : Settling)
    → TimedSettling s
    → TimedSettling (settle_from durability turn is s)
unfolding settle_from
settle_from-IsTimed durability turn [] s v = v
settle_from-IsTimed durability turn (i ∷ is) s v =
    settle_from-IsTimed durability turn is (settle_one durability turn i s)
      (settle_one-IsTimed durability turn i s v)

pub settle_durability-IsTimed :
    (durability turn : ℕ) (e : Episodes)
    → All IsTimed e.repairs
    → TimedStep (settle_durability durability turn e)
unfolding settle_durability
settle_durability-IsTimed durability turn e v =
    settle_from-IsTimed durability turn e.closing
      (record { repairs = e.repairs; keep = []; out = [] }) (v, tt)

pub finish_active-IsTimed : (e : Episodes) → All IsTimed e.repairs → TimedStep (finish_active e)
unfolding finish_active close
finish_active-IsTimed e v = elim (Option-cases e.active) [
  | inl n ↦ rw (finish_active, n) (v, tt)
  | inr (i, s) ↦ elim (Option-cases (get_elem? e.repairs i)) [
    | inl n ↦ rw (finish_active, s, n) (v, tt)
    | inr (r, at) ↦
        let timed = All-get_elem? IsTimed e.repairs i r at v in
        rw (finish_active, s, at)
          (
            All-update_at IsTimed _ i e.repairs (λ r t. (t.0, t.1, t.1)) v,
            ((timed.0, timed.1, timed.1), tt),
          )
  ]
]

reset_active-IsTimed :
    (rec : Record) (e : Episodes)
    → InYears rec.timestamp
    → All IsTimed e.repairs
    → TimedStep (reset_active rec e)
unfolding reset_active close
reset_active-IsTimed rec e h v = elim (Option-cases e.active) [
  | inl n ↦ rw (reset_active, n) (v, tt)
  | inr (i, s) ↦ elim (Option-cases (get_elem? e.repairs i)) [
    | inl n ↦ rw (reset_active, s, n) (v, tt)
    | inr (r, at) ↦
        let timed = All-get_elem? IsTimed e.repairs i r at v in
        rw (reset_active, s, at)
          (
            All-update_at IsTimed _ i e.repairs (λ r t. (t.0, t.1, h)) v,
            ((timed.0, timed.1, h), tt),
          )
  ]
]

abandon_closing-IsTimed :
    (is : List ℕ) (repairs : List Repair)
    → All IsTimed repairs
    → All IsTimed (abandon_closing is repairs).0 × AllFit (abandon_closing is repairs).1
unfolding abandon_closing
abandon_closing-IsTimed [] repairs v = (v, tt)
abandon_closing-IsTimed (i ∷ is) repairs v = elim (Option-cases (get_elem? repairs i)) [
  | inl n ↦ rw (abandon_closing, n) (abandon_closing-IsTimed is repairs v)
  | inr (r, at) ↦
      let (vs, fit) =
        abandon_closing-IsTimed is (update_at with_status i repairs)
          (All-update_at IsTimed with_status i repairs (λ r t. t) v) in
      rw (abandon_closing, at) (vs, (All-get_elem? IsTimed repairs i r at v, fit))
]

pub reset_episodes-IsTimed :
    (rec : Record) (e : Episodes)
    → InYears rec.timestamp
    → All IsTimed e.repairs
    → TimedStep (reset_episodes rec e)
unfolding reset_episodes
reset_episodes-IsTimed rec e h v =
    let (va, fa) = reset_active-IsTimed rec e h v in
    let e' = (reset_active rec e).0 in
    let (vc, fc) = abandon_closing-IsTimed e'.closing e'.repairs va in
    (vc, All-append (λ d. Fits d.payload) (reset_active rec e).1 _ fa fc)
