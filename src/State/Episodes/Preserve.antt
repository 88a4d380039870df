-- ===== src/State/Episodes/Preserve.antt =====
-- The operations that change one episode in place keep the store consistent.
use flow_indicator.Base.{
  ℕ, ◌+◌, ◌<◌, ◌≡◌, refl, sym, ◌∙◌, ap, inl, inr, Bool, false, not, Option, none, some, [], ◌∷◌,
  arith, ◌==◌, length, length-append, get_elem?, get_elem?-lt, append_last_origin, is_some, member,
  Option-cases, Bool-cases,
}
use flow_indicator.Metrics.Snapshot.{open_episode}
use flow_indicator.Stream.{Record}
use flow_indicator.State.Repair.{Repair, touch}
use flow_indicator.State.Episodes.Store.{Episodes, ResponseCycle, change, attribute, count_record}
use flow_indicator.State.Episodes.Settle.{settle_pollution}
use flow_indicator.State.Episodes.Corrections.{append_repair}
use flow_indicator.State.Episodes.Invariant.{
  IsConsistent, is_open, is_provisional, moved-IsConsistent,
}

-- A change of an episode that leaves its number, status and closing time alone.
pub change-IsConsistent :
    (i : ℕ) (f : Repair → Repair) (e : Episodes)
    → ((r : Repair) → ((f r).id ≡ r.id) × ((f r).status ≡ r.status) × ((f r).closed ≡ r.closed))
    → IsConsistent e
    → IsConsistent (change i f e)
change-IsConsistent i f e h v =
    moved-IsConsistent e v i f e.active e.closing e.cycle
      (λ r at pl.
        let (a, b, c) = h r in
        record {
          id_is = a ∙ pl.id_is;
          open_is = ap is_open b ∙ pl.open_is;
          provisional_is = ap is_provisional b ∙ pl.provisional_is;
          closed_is = ap is_some c ∙ pl.closed_is ∙ ap (λ s. not (is_open s)) (sym b);
        })
      (λ j ne. refl) (λ j ne. refl) v.distinct v.active_in v.closing_in v.cycle_in

pub cycle-IsConsistent :
    (c : Option ResponseCycle) (e : Episodes)
    → ((x : ResponseCycle) → c ≡ some x → x.repair < length e.repairs)
    → IsConsistent e
    → IsConsistent (record e { cycle = c })
cycle-IsConsistent c e h v = record {
  counted = v.counted;
  placed = v.placed;
  active_in = v.active_in;
  closing_in = v.closing_in;
  distinct = v.distinct;
  cycle_in = h;
}

count_record-keeps :
    (t chars : ℕ) (r : Repair)
    → ((count_record t chars r).id ≡ r.id)
      × ((count_record t chars r).status ≡ r.status)
      × ((count_record t chars r).closed ≡ r.closed)
unfolding touch
count_record-keeps t chars r = ground arith

pub attribute-IsConsistent :
    (rec : Record) (chars : ℕ) (e : Episodes)
    → IsConsistent e
    → IsConsistent (attribute rec chars e)
unfolding attribute
attribute-IsConsistent rec chars e v = elim (Option-cases e.active) [
  | inl n ↦ let eq : attribute rec chars e ≡ e = rw n refl in rw eq v
  | inr (i, s) ↦
      let eq : attribute rec chars e ≡ change i (count_record rec.timestamp chars) e = rw s refl in
      rw eq (
        change-IsConsistent i (count_record rec.timestamp chars) e
          (count_record-keeps rec.timestamp chars) v)
]

pub settle_pollution-IsConsistent :
    (again : Bool) (e : Episodes) → IsConsistent e → IsConsistent (settle_pollution again e).0
unfolding settle_pollution
settle_pollution-IsConsistent again e v = elim (Option-cases e.cycle) [
  | inl n ↦ let eq : (settle_pollution again e).0 ≡ e = rw n refl in rw eq v
  | inr (c, cy) ↦ elim (Bool-cases (c.records == 0)) [
    | inl z ↦ let eq : (settle_pollution again e).0 ≡ e = rw (cy, z) refl in rw eq v
    | inr z ↦ elim (Option-cases (get_elem? e.repairs c.repair)) [
      | inl n ↦ let eq : (settle_pollution again e).0 ≡ e = rw (cy, z, n) refl in rw eq v
      | inr (r, at) ↦
          rw (cy, z, at)
            (moved-IsConsistent e v c.repair _ e.active e.closing none
              (λ x at' pl. record {
                id_is = pl.id_is;
                open_is = pl.open_is;
                provisional_is = pl.provisional_is;
                closed_is = pl.closed_is;
              })
              (λ j ne. refl) (λ j ne. refl) v.distinct v.active_in v.closing_in (λ x h. cc))
    ]
  ]
]

not_closing_yet : (e : Episodes) → IsConsistent e → member (length e.repairs) e.closing ≡ false
not_closing_yet e v = elim (Bool-cases (member (length e.repairs) e.closing)) [
  | inl t ↦ absurd (omega (arith, v.closing_in (length e.repairs) t))
  | inr f ↦ f
]

-- A new open episode, when none was open.
pub append_repair-IsConsistent :
    (r : Repair) (e : Episodes)
    → e.active ≡ none
    → r.id ≡ e.repair_count + 1
    → r.status ≡ open_episode
    → r.closed ≡ none
    → IsConsistent e
    → IsConsistent (append_repair r e)
append_repair-IsConsistent r e n i s c v =
    let l = length-append e.repairs (r ∷ []) in
    let fresh = not_closing_yet e v in
    record {
      counted = omega (arith, v.counted);
      placed = λ j x h. elim (append_last_origin e.repairs r j x h) [
        | inl (q, p) ↦
            rw (q, p)
              (record {
                id_is = ground (arith, v.counted);
                open_is = ground arith;
                provisional_is = ground (arith, fresh);
                closed_is = ground arith;
              })
        | inr at ↦
            let pl = v.placed j x at in
            record {
              id_is = pl.id_is;
              open_is = ground (arith, pl.open_is, get_elem?-lt e.repairs j {x = x} at);
              provisional_is = pl.provisional_is;
              closed_is = pl.closed_is;
            }
      ];
      active_in = λ j h. ground arith;
      closing_in = λ j h. omega (arith, v.closing_in j h);
      distinct = v.distinct;
      cycle_in = λ x h. ground arith;
    }
