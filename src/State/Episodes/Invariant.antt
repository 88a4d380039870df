-- ===== src/State/Episodes/Invariant.antt =====
-- What holds of the episodes at all times; internal/state/projector.go and repair.go.
use flow_indicator.Base.{
  ℕ, ◌+◌, ◌<◌, ◌≡◌, ◌≢◌, refl, sym, ◌∙◌, inl, inr, Bool, true, false, not, Option, none, some, List,
  ◌==◌, length, get_elem?, update_at, length-update_at, update_at_origin, is_some, member, Distinct,
}
use flow_indicator.Metrics.Snapshot.{RepairStatus, open_episode, provisional}
use flow_indicator.State.Repair.{Repair}
use flow_indicator.State.Episodes.Store.{Episodes, ResponseCycle, no_episodes}

abbrev pub is_open : RepairStatus → Bool
is_open open_episode = true
is_open _ = false

abbrev pub is_provisional : RepairStatus → Bool
is_provisional provisional = true
is_provisional _ = false

abbrev pub points_to : Option ℕ → ℕ → Bool
points_to none i = false
points_to (some j) i = j == i

-- The episode at a position is open exactly if it is the active one, awaits durability exactly if
-- it is in `closing`, and carries a closing time exactly if it is not open.
pub record IsPlaced (active : Option ℕ) (closing : List ℕ) (i : ℕ) (r : Repair) : Type 0 where
  pub id_is : r.id ≡ i + 1
  pub open_is : is_open r.status ≡ points_to active i
  pub provisional_is : is_provisional r.status ≡ member i closing
  pub closed_is : is_some r.closed ≡ not (is_open r.status)

pub record IsConsistent (e : Episodes) : Type 0 where
  pub counted : e.repair_count ≡ length e.repairs
  pub placed :
      (i : ℕ) (r : Repair) → get_elem? e.repairs i ≡ some r → IsPlaced e.active e.closing i r
  pub active_in : (i : ℕ) → e.active ≡ some i → i < length e.repairs
  pub closing_in : (i : ℕ) → member i e.closing ≡ true → i < length e.repairs
  pub distinct : Distinct e.closing
  pub cycle_in : (c : ResponseCycle) → e.cycle ≡ some c → c.repair < length e.repairs

pub no_episodes-IsConsistent : IsConsistent no_episodes
no_episodes-IsConsistent = record {
  counted = refl;
  placed = λ i r h. cc;
  active_in = λ i h. cc;
  closing_in = λ i h. cc;
  distinct = tt;
  cycle_in = λ c h. cc;
}

-- One episode changes in place, and the pointers change only at its position.
module _ (e : Episodes) (v : IsConsistent e) (i : ℕ) (f : Repair → Repair) (active : Option ℕ)
    (closing : List ℕ) (cycle : Option ResponseCycle) where
  abbrev moved : Episodes
  moved = record {
    repairs = update_at f i e.repairs;
    active = active;
    closing = closing;
    repair_count = e.repair_count;
    cycle = cycle;
  }

  module _
      (here : (r : Repair)
        → get_elem? e.repairs i ≡ some r
        → IsPlaced e.active e.closing i r
        → IsPlaced active closing i (f r))
      (same_active : (j : ℕ) → i ≢ j → points_to active j ≡ points_to e.active j)
      (same_closing : (j : ℕ) → i ≢ j → member j closing ≡ member j e.closing) where
    moved-IsPlaced :
        (j : ℕ) (r : Repair) → get_elem? moved.repairs j ≡ some r → IsPlaced active closing j r
    moved-IsPlaced j r h =
        let (r₀, at, d) = update_at_origin f i j e.repairs r h in
        elim d [
          | inl (q, e') ↦ rw (← q, e') (here r₀ (rw q at) (rw q (v.placed j r₀ at)))
          | inr (ne, e') ↦
              let pl = v.placed j r₀ at in
              rw e' (record {
                id_is = pl.id_is;
                open_is = pl.open_is ∙ sym (same_active j ne);
                provisional_is = pl.provisional_is ∙ sym (same_closing j ne);
                closed_is = pl.closed_is;
              })
        ]

    pub moved-IsConsistent :
        Distinct closing
        → ((j : ℕ) → active ≡ some j → j < length e.repairs)
        → ((j : ℕ) → member j closing ≡ true → j < length e.repairs)
        → ((c : ResponseCycle) → cycle ≡ some c → c.repair < length e.repairs)
        → IsConsistent moved
    moved-IsConsistent d a m c =
        let l = length-update_at f i e.repairs in
        record {
          counted = v.counted ∙ sym l;
          placed = moved-IsPlaced;
          active_in = λ j h. rw l (a j h);
          closing_in = λ j h. rw l (m j h);
          distinct = d;
          cycle_in = λ x h. rw l (c x h);
        }
