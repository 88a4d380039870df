-- ===== src/State/Episodes/Settle.antt =====
-- What the next operator turn settles: pollution and durability;
-- internal/state/projector.go.
use flow_indicator.Base.{
  ℕ, ◌+◌, ◌-◌, Bool, none, some, List, [], ◌∷◌, ◌++◌, ltb, leb, ◌==◌, same, if◌then◌else◌, length,
  get_elem?, update_at,
}
use flow_indicator.Metrics.{pollution_assessment}
use flow_indicator.Metrics.Snapshot.{durable, undetermined}
use flow_indicator.State.Repair.{Repair}
use flow_indicator.Event.{derived, repair_durable_close, repair_status}
use flow_indicator.State.Payloads.{
  Draft, draft, License, repair_payload, repair_status_payload, pollution_payload,
  no_target_equivalence,
}
use flow_indicator.State.Episodes.Store.{Episodes, Step}

-- `settlePollution`.
unfoldable pub settle_pollution : Bool → Episodes → Step
unfolding pollution_assessment
settle_pollution again e = elim e.cycle [
  | none ↦ (e, [])
  | some c ↦ if c.records == 0 then (e, []) else elim (get_elem? e.repairs c.repair) [
    | none ↦ (e, [])
    | some r ↦
        let a = pollution_assessment (record {
          target_repaired = c.repaired;
          expansions = c.expansions;
          immediate_correction = again;
          writes = c.writes;
          named = ltb 0 (length r.target_paths);
        }) in
        (
          record e {
            repairs =
                update_at
                  (λ (x : Repair). record x {
                    expansions = x.expansions + c.expansions;
                    pollution = a.status;
                    repair_claimed = c.claimed;
                  })
                  c.repair e.repairs;
            cycle = none;
          },
          draft repair_status derived (
                pollution_payload (record {
                  repair_id = r.id;
                  agent_turn = c.first_agent;
                  cycle_records = c.records;
                  claimed_repaired = c.claimed;
                  target_repaired = c.repaired;
                  expansions = c.expansions;
                  immediate_correction = again;
                  cycle_writes = c.writes;
                  cycle_interrupts = c.interrupts;
                  cycle_failed_actions = c.failed_actions;
                  status = a.status;
                  evidence = a.premise;
                }))
              ∷ [],
        )
  ]
]

-- The loop of `settleDurability` over `closing`: the store, `keep`, and what was emitted.
pub record Settling : Type 0 where
  pub repairs : List Repair
  pub keep : List ℕ
  pub out : List Draft

abbrev pub with_status : Repair → Repair
with_status r = record r { status = undetermined }

abbrev pub made_durable : Repair → Repair
made_durable r = record r { status = durable }

unfoldable pub settle_one : ℕ → ℕ → ℕ → Settling → Settling
settle_one durability turn i s = elim (get_elem? s.repairs i) [
  | none ↦ s
  | some r ↦
      if leb durability (turn - r.close_index)
      then if same r.target_key ""
        then record s {
          repairs = update_at with_status i s.repairs;
          out =
              s.out
              ++ draft repair_status derived
                  (repair_status_payload (with_status r) undetermined no_target_equivalence)
                ∷ [];
        }
        else record s {
          repairs = update_at made_durable i s.repairs;
          out =
              s.out
              ++ draft repair_durable_close derived
                  (repair_payload (made_durable r) License.durable)
                ∷ [];
        }
      else record s { keep = s.keep ++ i ∷ [] }
]

unfoldable pub settle_from : ℕ → ℕ → List ℕ → Settling → Settling
unfolding settle_one
settle_from durability turn [] s = s
settle_from durability turn (i ∷ is) s =
    settle_from durability turn is (settle_one durability turn i s)

-- `settleDurability`.
unfoldable pub settle_durability : ℕ → ℕ → Episodes → Step
unfolding settle_from
settle_durability durability turn e =
    let s =
      settle_from durability turn e.closing (record { repairs = e.repairs; keep = []; out = [] }) in
    (record e { repairs = s.repairs; closing = s.keep }, s.out)
