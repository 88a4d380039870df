-- ===== src/State/Episodes/Reopening.antt =====
-- A correction opens, deepens or reopens an episode and keeps the store consistent.
use flow_indicator.Base.{
  ℕ, ◌+◌, ◌≡◌, ◌≢◌, refl, sym, ◌∙◌, inl, inr, String, true, false, none, some, List, [], ◌∷◌, ◌++◌,
  arith, ◌==◌, ◌-◌, leb, same, get_elem?, update_at, member, Distinct, lt-get_elem?, Option-cases,
  Bool-cases, member-append_middle, Distinct-append_last, append-nil,
}
use flow_indicator.Metrics.Snapshot.{provisional, undetermined}
use flow_indicator.Stream.{Record}
use flow_indicator.Classify.{Result}
use flow_indicator.State.Repair.{Repair, close, reopen, new_repair}
use flow_indicator.State.Episodes.Store.{Episodes, new_cycle, open_cycle, cycle_unanswered, change}
use flow_indicator.State.Episodes.Corrections.{
  Moment, Reopened, behind, find_closing, reopen_closing, corrected, append_repair, open_or_recur,
  recur, deepen, retire_active, project_correction, target_equivalent, merge_paths,
}
use flow_indicator.State.Episodes.Turn.{
  keeps_open, provisionally_closed, project_open, project_repair, open_structural_repair, re_edited,
}
use flow_indicator.State.Episodes.Invariant.{IsConsistent, is_open, moved-IsConsistent}
use flow_indicator.State.Episodes.Preserve.{append_repair-IsConsistent}
use flow_indicator.State.Episodes.Closing.{close_active-IsConsistent, open-not_provisional}

-- The position that is reopened leaves `closing`, which otherwise stays as it is.
pub record IsTaken (closing : List ℕ) (b : Reopened) : Type 0 where
  pub found : member b.position closing ≡ true
  pub distinct : Distinct b.rest
  pub gone : member b.position b.rest ≡ false
  pub others : (j : ℕ) → b.position ≢ j → member j b.rest ≡ member j closing

not_member : (j i : ℕ) (is : List ℕ) → member j is ≡ true → member i is ≡ false → j ≢ i
not_member j i is h k q = let h' : member i is ≡ true = rw (← q) h in cc

behind-IsTaken :
    (i : ℕ) (is : List ℕ) (b : Reopened)
    → member i is ≡ false
    → IsTaken is b
    → IsTaken (i ∷ is) (record b { rest = i ∷ b.rest })
behind-IsTaken i is b out t =
    let ne : b.position ≢ i = λ q. not_member b.position i is t.found out q in
    record {
      found = ground (arith, t.found);
      distinct = (t.others i ne ∙ out, t.distinct);
      gone = ground (arith, t.gone);
      others = λ j n. ground (arith, t.others j n);
    }

find_closing-IsTaken :
    (key : String) (repairs : List Repair) (is : List ℕ) (b : Reopened)
    → Distinct is
    → find_closing key repairs is ≡ some b
    → IsTaken is b
unfolding find_closing
find_closing-IsTaken key repairs [] b d h = cc
find_closing-IsTaken key repairs (i ∷ is) b d h =
    let later : behind i (find_closing key repairs is) ≡ some b → IsTaken (i ∷ is) b = λ q.
      elim (Option-cases (find_closing key repairs is)) [
        | inl n ↦ absurd (ground arith)
        | inr (b', f) ↦
            let e : record b' { rest = i ∷ b'.rest } ≡ b = ground arith in
            rw (← e) (behind-IsTaken i is b' d.0 (find_closing-IsTaken key repairs is b' d.1 f))
      ] in
    elim (Option-cases (get_elem? repairs i)) [
      | inl n ↦ later (ground arith)
      | inr (r, at) ↦ elim (Bool-cases (same r.target_key key)) [
        | inl s ↦
            let e : record { position = i; rest = is } ≡ b = ground arith in
            rw (← e) (record {
              found = ground arith;
              distinct = d.1;
              gone = d.0;
              others = λ j n. ground arith;
            })
        | inr s ↦ later (ground arith)
      ]
    ]

opening-IsConsistent :
    (m : Moment) (rec : Record) (res : Result) (e : Episodes)
    → e.active ≡ none
    → IsConsistent e
    → IsConsistent (append_repair (corrected m rec res (e.repair_count + 1)) e)
unfolding new_repair
opening-IsConsistent m rec res e n v =
    append_repair-IsConsistent (corrected m rec res (e.repair_count + 1)) e n refl refl refl v

reopen_closing-IsTaken :
    (key : String) (e : Episodes) (b : Reopened)
    → Distinct e.closing
    → reopen_closing key e ≡ some b
    → IsTaken e.closing b
unfolding reopen_closing
reopen_closing-IsTaken key e b d h = elim (Bool-cases (same key "")) [
  | inl s ↦ absurd (ground arith)
  | inr s ↦ find_closing-IsTaken key e.repairs e.closing b d (ground arith)
]

recur-IsConsistent :
    (turn : ℕ) (paths : List String) (b : Reopened) (e : Episodes)
    → e.active ≡ none
    → IsConsistent e
    → IsTaken e.closing b
    → IsConsistent (
        open_cycle b.position (record e {
          repairs = update_at (recur turn paths) b.position e.repairs;
          active = some b.position;
          closing = b.rest;
        }))
unfolding reopen merge_paths deepen recur
recur-IsConsistent turn paths b e n v t =
    let inside = v.closing_in b.position t.found in
    moved-IsConsistent e v b.position (recur turn paths) (some b.position) b.rest
      (some (new_cycle b.position))
      (λ x at p. record {
        id_is = p.id_is;
        open_is = ground arith;
        provisional_is = sym t.gone;
        closed_is = refl;
      })
      (λ j ne. ground (arith, n)) t.others t.distinct (λ j h. ground (arith, inside))
      (λ j h. elim (Bool-cases (b.position == j)) [
        | inl z ↦ ground (arith, inside)
        | inr z ↦ v.closing_in j (sym (t.others j (ground arith)) ∙ h)
      ])
      (λ c h. ground (arith, inside))

pub open_or_recur-IsConsistent :
    (m : Moment) (rec : Record) (res : Result) (e : Episodes)
    → e.active ≡ none
    → IsConsistent e
    → IsConsistent (open_or_recur m rec res e).0
unfolding open_or_recur reopen_closing
open_or_recur-IsConsistent m rec res e n v =
    elim (Option-cases (reopen_closing res.correction.target_key e)) [
      | inl n₁ ↦ rw (open_or_recur, n₁) (opening-IsConsistent m rec res e n v)
      | inr (b, f) ↦
          let t = reopen_closing-IsTaken res.correction.target_key e b v.distinct f in
          let (r, at) = lt-get_elem? e.repairs b.position (v.closing_in b.position t.found) in
          rw (open_or_recur, f, at)
            (recur-IsConsistent m.turn_index res.correction.target_paths b e n v t)
    ]

retire_active-IsConsistent :
    (rec : Record) (i : ℕ) (r : Repair) (e : Episodes)
    → e.active ≡ some i
    → IsConsistent e
    → IsConsistent (retire_active rec i r e).0
unfolding retire_active close
retire_active-IsConsistent rec i r e act v =
    close_active-IsConsistent e i (close undetermined rec.timestamp) undetermined e.closing none v
      act refl (λ r. (refl, refl, refl)) (λ m. (v.distinct, m)) (λ j ne. refl) (λ c h. cc)

retire_active-none :
    (rec : Record) (i : ℕ) (r : Repair) (e : Episodes) → (retire_active rec i r e).0.active ≡ none
unfolding retire_active
retire_active-none rec i r e = refl

deepen-IsConsistent :
    (turn i : ℕ) (paths : List String) (e : Episodes)
    → e.active ≡ some i
    → IsConsistent e
    → IsConsistent (open_cycle i (change i (deepen turn paths) e))
unfolding reopen merge_paths deepen recur
deepen-IsConsistent turn i paths e act v =
    moved-IsConsistent e v i (deepen turn paths) e.active e.closing (some (new_cycle i))
      (λ x at p.
        let is_o : is_open x.status ≡ true = ground (arith, p.open_is, act) in
        record {
          id_is = p.id_is;
          open_is = ground (arith, act);
          provisional_is = sym (open-not_provisional x.status is_o) ∙ p.provisional_is;
          closed_is = refl;
        })
      (λ j ne. refl) (λ j ne. refl) v.distinct v.active_in v.closing_in
      (λ c h. ground (arith, v.active_in i act))

project_correction-IsConsistent :
    (m : Moment) (rec : Record) (res : Result) (e : Episodes)
    → IsConsistent e
    → IsConsistent (project_correction m rec res e).0
unfolding project_correction
project_correction-IsConsistent m rec res e v = elim (Option-cases e.active) [
  | inl n ↦
      let eq : project_correction m rec res e ≡ open_or_recur m rec res e = rw n refl in
      rw eq (open_or_recur-IsConsistent m rec res e n v)
  | inr (i, act) ↦
      let (r, at) = lt-get_elem? e.repairs i (v.active_in i act) in
      elim (Bool-cases (target_equivalent r.target_key res.correction.target_key)) [
        | inl t ↦
            rw (project_correction, act, at, t)
              (deepen-IsConsistent m.turn_index i res.correction.target_paths e act v)
        | inr t ↦
            rw (project_correction, act, at, t)
              (open_or_recur-IsConsistent m rec res (retire_active rec i r e).0
                (retire_active-none rec i r e) (retire_active-IsConsistent rec i r e act v))
      ]
]

project_open-IsConsistent :
    (m : Moment) (rec : Record) (res : Result) (i : ℕ) (r : Repair) (e : Episodes)
    → e.active ≡ some i
    → IsConsistent e
    → IsConsistent (project_open m rec res i r e).0
unfolding project_open close
project_open-IsConsistent m rec res i r e act v = elim (Bool-cases (keeps_open res)) [
  | inl k ↦ elim (Bool-cases (leb m.durability (m.turn_index - r.active_index))) [
    | inl w ↦
        rw (project_open, k, w)
          (close_active-IsConsistent e i (close undetermined rec.timestamp) undetermined e.closing
            none v act refl (λ r. (refl, refl, refl)) (λ m. (v.distinct, m)) (λ j ne. refl)
            (λ c h. cc))
    | inr w ↦ rw (project_open, k, w) v
  ]
  | inr k ↦
      rw (project_open, k)
        (close_active-IsConsistent e i (provisionally_closed m.turn_index rec.timestamp) provisional
          (e.closing ++ i ∷ []) e.cycle v act refl (λ r. (refl, refl, refl))
          (λ o. (
            Distinct-append_last i e.closing v.distinct o,
            ground (arith, member-append_middle i i e.closing []),
          ))
          (λ j ne. ground (arith, member-append_middle j i e.closing [], append-nil e.closing))
          v.cycle_in)
]

-- On consistent episodes, `projectRepair` leaves them consistent on every branch: deepening,
-- retiring and opening, recurring, closing for now, running out, and doing nothing.
pub project_repair-IsConsistent :
    (m : Moment) (rec : Record) (res : Result) (e : Episodes)
    → IsConsistent e
    → IsConsistent (project_repair m rec res e).0
unfolding project_repair
project_repair-IsConsistent m rec res e v = elim (Bool-cases res.correction.is_correction) [
  | inl c ↦ rw (project_repair, c) (project_correction-IsConsistent m rec res e v)
  | inr c ↦ elim (Bool-cases (cycle_unanswered e)) [
    | inl u ↦ rw (project_repair, c, u) v
    | inr u ↦ elim (Option-cases e.active) [
      | inl n ↦ let eq : project_repair m rec res e ≡ (e, []) = ground arith in rw eq v
      | inr (i, act) ↦
          let (r, at) = lt-get_elem? e.repairs i (v.active_in i act) in
          rw (project_repair, c, u, act, at) (project_open-IsConsistent m rec res i r e act v)
    ]
  ]
]

-- A re-edit that opens an episode, when none is open, keeps the store consistent.
pub open_structural_repair-IsConsistent :
    (m : Moment) (rec : Record) (p : String) (ps : List String) (e : Episodes)
    → e.active ≡ none
    → IsConsistent e
    → IsConsistent (open_structural_repair m rec p ps e).0
unfolding open_structural_repair new_repair
open_structural_repair-IsConsistent m rec p ps e n v =
    append_repair-IsConsistent (re_edited m rec p ps (e.repair_count + 1)) e n refl refl refl v
