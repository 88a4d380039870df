-- ===== src/State/Episodes/Store.antt =====
-- The store of repair episodes, and what a record adds to the response cycle;
-- internal/state/projector.go.
use flow_indicator.Base.{
  ℕ, ◌+◌, Bool, true, false, Option, none, some, List, [], ◌==◌, if◌then◌else◌, get_elem?,
  update_at,
}
use flow_indicator.Stream.{Record}
use flow_indicator.Classify.{Result, expansions}
use flow_indicator.State.Repair.{Repair, touch}
use flow_indicator.State.Payloads.{Draft}

pub record ResponseCycle : Type 0 where
  pub repair : ℕ
  pub first_agent : ℕ
  pub records : ℕ
  pub agent_turns : ℕ
  pub claimed : Bool
  pub repaired : Option Bool
  pub expansions : ℕ
  pub writes : ℕ
  pub interrupts : ℕ
  pub failed_actions : ℕ

pub record Episodes : Type 0 where
  pub repairs : List Repair
  pub active : Option ℕ
  pub closing : List ℕ
  pub repair_count : ℕ
  pub cycle : Option ResponseCycle

abbrev pub no_episodes : Episodes
no_episodes = record { repairs = []; active = none; closing = []; repair_count = 0; cycle = none }

-- A method's new state, and what it emitted in order.
abbrev pub Step : Type 0
Step = Episodes × List Draft

abbrev pub change : ℕ → (Repair → Repair) → Episodes → Episodes
change i f e = record e { repairs = update_at f i e.repairs }

-- The open episode, if there is one. No pointer of a reachable state dangles.
abbrev pub active_repair : Episodes → Option Repair
active_repair e = elim e.active [ none ↦ none | some i ↦ get_elem? e.repairs i ]

abbrev pub count_record : ℕ → ℕ → Repair → Repair
unfolding touch
count_record timestamp chars r =
    touch timestamp (record r { chars = r.chars + chars; records = r.records + 1 })

-- `attribute`.
unfoldable pub attribute : Record → ℕ → Episodes → Episodes
unfolding touch
attribute rec chars e = elim e.active [
  | none ↦ e
  | some i ↦ change i (count_record rec.timestamp chars) e
]

abbrev pub new_cycle : ℕ → ResponseCycle
new_cycle i = record {
  repair = i;
  first_agent = 0;
  records = 0;
  agent_turns = 0;
  claimed = false;
  repaired = none;
  expansions = 0;
  writes = 0;
  interrupts = 0;
  failed_actions = 0;
}

-- `openCycle`.
abbrev pub open_cycle : ℕ → Episodes → Episodes
open_cycle i e = record e { cycle = some (new_cycle i) }

-- `cycleUnanswered`.
unfoldable pub cycle_unanswered : Episodes → Bool
cycle_unanswered e = elim e.cycle [ none ↦ false | some c ↦ c.agent_turns == 0 ]

abbrev pub answered : ℕ → Result → ResponseCycle → ResponseCycle
unfolding expansions
answered seq res c = record c {
  records = c.records + 1;
  agent_turns = c.agent_turns + 1;
  first_agent = if c.first_agent == 0 then seq else c.first_agent;
  expansions = c.expansions + expansions res.repair;
  claimed = if res.repair.claimed_repaired then true else c.claimed;
  repaired = elim res.repair.target_repaired [ none ↦ c.repaired | some b ↦ some b ];
}

-- The part of `projectAgent` that reaches the cycle.
unfoldable pub project_agent_cycle : ℕ → Result → Episodes → Episodes
unfolding expansions
project_agent_cycle seq res e = elim e.cycle [
  | none ↦ e
  | some c ↦ record e { cycle = some (answered seq res c) }
]

-- The part of `Push` that an interruption marker, a tool or a system record reaches in the cycle.
unfoldable pub count_interrupt : Episodes → Episodes
count_interrupt e = elim e.cycle [
  | none ↦ e
  | some c ↦ record e { cycle = some (record c { interrupts = c.interrupts + 1 }) }
]

unfoldable pub count_other_record : ℕ → Episodes → Episodes
count_other_record failed e = elim e.cycle [
  | none ↦ e
  | some c ↦ record e {
    cycle = some (record c { records = c.records + 1; failed_actions = c.failed_actions + failed });
  }
]

-- The part of `observeWrites` that counts in the cycle.
unfoldable pub count_writes : ℕ → ℕ → Episodes → Episodes
count_writes n failed e = elim e.cycle [
  | none ↦ e
  | some c ↦ record e {
    cycle = some (record c { writes = c.writes + n; failed_actions = c.failed_actions + failed });
  }
]
