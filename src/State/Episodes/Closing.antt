-- ===== src/State/Episodes/Closing.antt =====
-- Closing the open episode, and settling those that wait to be durable, keep the store consistent.
use flow_indicator.Base.{
  ℕ, ◌<◌, ◌≡◌, ◌≢◌, refl, sym, ◌∙◌, ap, inl, inr, true, false, not, Option, none, some, List, [],
  ◌∷◌, ◌++◌, append_assoc, append-nil, arith, ◌==◌, ◌-◌, leb, same, length, update_at, is_some,
  member, Distinct, lt-get_elem?, Option-cases, Bool-cases, member-append_middle,
  Distinct-append_middle,
}
use flow_indicator.Metrics.Snapshot.{
  RepairStatus, open_episode, provisional, undetermined, reset_episode, durable, abandoned,
}
use flow_indicator.Stream.{Record}
use flow_indicator.State.Repair.{Repair, close}
use flow_indicator.State.Episodes.Store.{Episodes, ResponseCycle}
use flow_indicator.State.Episodes.Settle.{
  settle_one, settle_from, settle_durability, Settling, with_status, made_durable,
}
use flow_indicator.State.Episodes.Ending.{
  reset_active, abandon_closing, reset_episodes, finish_active,
}
use flow_indicator.State.Episodes.Invariant.{
  IsConsistent, is_open, is_provisional, moved-IsConsistent,
}

pub open-not_provisional : (s : RepairStatus) → is_open s ≡ true → is_provisional s ≡ false
open-not_provisional open_episode h = refl
open-not_provisional provisional h = cc
open-not_provisional durable h = cc
open-not_provisional reset_episode h = cc
open-not_provisional abandoned h = cc
open-not_provisional undetermined h = cc

provisional-not_open : (s : RepairStatus) → is_provisional s ≡ true → is_open s ≡ false
provisional-not_open provisional h = refl
provisional-not_open open_episode h = cc
provisional-not_open durable h = cc
provisional-not_open reset_episode h = cc
provisional-not_open abandoned h = cc
provisional-not_open undetermined h = cc

-- The open episode gets a status that is not open; `closing` gets it exactly if it is provisional.
pub close_active-IsConsistent :
    (e : Episodes) (i : ℕ) (f : Repair → Repair) (s : RepairStatus) (closing : List ℕ)
    (cycle : Option ResponseCycle)
    → IsConsistent e
    → e.active ≡ some i
    → is_open s ≡ false
    → ((r : Repair) → ((f r).id ≡ r.id) × ((f r).status ≡ s) × (is_some (f r).closed ≡ true))
    → (member i e.closing ≡ false → (Distinct closing × (member i closing ≡ is_provisional s)))
    → ((j : ℕ) → i ≢ j → member j closing ≡ member j e.closing)
    → ((c : ResponseCycle) → cycle ≡ some c → c.repair < length e.repairs)
    → IsConsistent (record e {
      repairs = update_at f i e.repairs;
      active = none;
      closing = closing;
      cycle = cycle;
    })
close_active-IsConsistent e i f s closing cycle v act ns h d others cyc =
    let (r, at) = lt-get_elem? e.repairs i (v.active_in i act) in
    let pl = v.placed i r at in
    let is_o : is_open r.status ≡ true = ground (arith, pl.open_is, act) in
    let out : member i e.closing ≡ false =
      sym pl.provisional_is ∙ open-not_provisional r.status is_o in
    let (d', m) = d out in
    moved-IsConsistent e v i f none closing cycle
      (λ x at' p.
        let (a, b, c) = h x in
        record {
          id_is = a ∙ p.id_is;
          open_is = ap is_open b ∙ ns;
          provisional_is = ap is_provisional b ∙ sym m;
          closed_is = c ∙ ap not (sym (ap is_open b ∙ ns));
        })
      (λ j ne. ground (arith, act)) others d' (λ j x. cc)
      (λ j x. elim (Bool-cases (i == j)) [
        | inl q ↦ ground (arith, v.active_in i act)
        | inr q ↦ v.closing_in j (sym (others j (ground arith)) ∙ x)
      ])
      cyc

-- An episode that waits to be durable gets its last status and leaves `closing`.
pub drop_closing-IsConsistent :
    (e : Episodes) (i : ℕ) (f : Repair → Repair) (xs ys : List ℕ)
    → IsConsistent e
    → e.closing ≡ xs ++ i ∷ ys
    → ((r : Repair)
        → ((f r).id ≡ r.id)
          × (is_open (f r).status ≡ false)
          × (is_provisional (f r).status ≡ false)
          × ((f r).closed ≡ r.closed))
    → IsConsistent (record e { repairs = update_at f i e.repairs; closing = xs ++ ys })
drop_closing-IsConsistent e i f xs ys v q h =
    let (d, out) = Distinct-append_middle i xs ys (rw (← q) v.distinct) in
    let others : (j : ℕ) → i ≢ j → member j (xs ++ ys) ≡ member j e.closing =
      λ j ne. rw q (ground (arith, member-append_middle j i xs ys)) in
    let here : member i e.closing ≡ true = rw q (ground (arith, member-append_middle i i xs ys)) in
    moved-IsConsistent e v i f e.active (xs ++ ys) e.cycle
      (λ x at p.
        let (a, b, c, k) = h x in
        let no : is_open x.status ≡ false =
          provisional-not_open x.status (p.provisional_is ∙ here) in
        record {
          id_is = a ∙ p.id_is;
          open_is = b ∙ sym no ∙ p.open_is;
          provisional_is = c ∙ sym out;
          closed_is = ap is_some k ∙ p.closed_is ∙ ap not (no ∙ sym b);
        })
      (λ j ne. refl) others d v.active_in
      (λ j x. elim (Bool-cases (i == j)) [
        | inl z ↦ ground (arith, v.closing_in i here)
        | inr z ↦ v.closing_in j (sym (others j (ground arith)) ∙ x)
      ])
      v.cycle_in

-- The episodes while `settleDurability` runs, with `is` still to be looked at.
abbrev settling : Episodes → Settling → List ℕ → Episodes
settling e s is = record e { repairs = s.repairs; closing = s.keep ++ is }

settle_one-IsConsistent :
    (durability turn i : ℕ) (is : List ℕ) (e : Episodes) (s : Settling)
    → IsConsistent (settling e s (i ∷ is))
    → IsConsistent (settling e (settle_one durability turn i s) is)
unfolding settle_one
settle_one-IsConsistent durability turn i is e s v =
    let here : member i (s.keep ++ i ∷ is) ≡ true =
      ground (arith, member-append_middle i i s.keep is) in
    let (r, at) = lt-get_elem? s.repairs i (v.closing_in i here) in
    elim (Bool-cases (leb durability (turn - r.close_index))) [
      | inl t ↦ elim (Bool-cases (same r.target_key "")) [
        | inl k ↦
            rw (at, settle_one, t, k)
              (drop_closing-IsConsistent (settling e s (i ∷ is)) i with_status s.keep is v refl
                (λ r. (refl, refl, refl, refl)))
        | inr k ↦
            rw (at, settle_one, t, k)
              (drop_closing-IsConsistent (settling e s (i ∷ is)) i made_durable s.keep is v refl
                (λ r. (refl, refl, refl, refl)))
      ]
      | inr t ↦ rw (at, settle_one, t, append_assoc s.keep (i ∷ []) is) v
    ]

settle_from-IsConsistent :
    (durability turn : ℕ) (is : List ℕ) (e : Episodes) (s : Settling)
    → IsConsistent (settling e s is)
    → IsConsistent (settling e (settle_from durability turn is s) [])
unfolding settle_from
settle_from-IsConsistent durability turn [] e s v = v
settle_from-IsConsistent durability turn (i ∷ is) e s v =
    settle_from-IsConsistent durability turn is e (settle_one durability turn i s)
      (settle_one-IsConsistent durability turn i is e s v)

pub settle_durability-IsConsistent :
    (durability turn : ℕ) (e : Episodes)
    → IsConsistent e
    → IsConsistent (settle_durability durability turn e).0
unfolding settle_durability
settle_durability-IsConsistent durability turn e v =
    let s₀ : Settling = record { repairs = e.repairs; keep = []; out = [] } in
    let w = settle_from-IsConsistent durability turn e.closing e s₀ v in
    rw (← append-nil (settle_from durability turn e.closing s₀).keep) w

abandon_closing-IsConsistent :
    (is : List ℕ) (e : Episodes)
    → e.closing ≡ is
    → IsConsistent e
    → IsConsistent (record e { repairs = (abandon_closing is e.repairs).0; closing = [] })
unfolding abandon_closing
abandon_closing-IsConsistent [] e q v = rw (← q) v
abandon_closing-IsConsistent (i ∷ is) e q v =
    let here : member i e.closing ≡ true = rw q (ground arith) in
    let (r, at) = lt-get_elem? e.repairs i (v.closing_in i here) in
    let w = drop_closing-IsConsistent e i with_status [] is v q (λ r. (refl, refl, refl, refl)) in
    rw (at, abandon_closing)
      (abandon_closing-IsConsistent is
        (record e { repairs = update_at with_status i e.repairs; closing = is }) refl w)

pub reset_active-IsConsistent :
    (rec : Record) (e : Episodes) → IsConsistent e → IsConsistent (reset_active rec e).0
unfolding reset_active close
reset_active-IsConsistent rec e v = elim (Option-cases e.active) [
  | inl n ↦ let eq : (reset_active rec e).0 ≡ e = rw n refl in rw eq v
  | inr (i, act) ↦
      let (r, at) = lt-get_elem? e.repairs i (v.active_in i act) in
      rw (reset_active, act, at)
        (close_active-IsConsistent e i (close reset_episode rec.timestamp) reset_episode e.closing
          none v act refl (λ r. (refl, refl, refl)) (λ m. (v.distinct, m)) (λ j ne. refl)
          (λ c h. cc))
]

pub reset_episodes-IsConsistent :
    (rec : Record) (e : Episodes) → IsConsistent e → IsConsistent (reset_episodes rec e).0
unfolding reset_episodes
reset_episodes-IsConsistent rec e v =
    abandon_closing-IsConsistent (reset_active rec e).0.closing (reset_active rec e).0 refl
      (reset_active-IsConsistent rec e v)

pub finish_active-IsConsistent : (e : Episodes) → IsConsistent e → IsConsistent (finish_active e).0
unfolding finish_active close
finish_active-IsConsistent e v = elim (Option-cases e.active) [
  | inl n ↦ let eq : (finish_active e).0 ≡ e = rw n refl in rw eq v
  | inr (i, act) ↦
      let (r, at) = lt-get_elem? e.repairs i (v.active_in i act) in
      rw (finish_active, act, at)
        (close_active-IsConsistent e i (λ (x : Repair). close undetermined x.last_activity x)
          undetermined e.closing none v act refl (λ r. (refl, refl, refl)) (λ m. (v.distinct, m))
          (λ j ne. refl) (λ c h. cc))
]
