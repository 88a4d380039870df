-- ===== src/State/Log.antt =====
-- The events of one record in the order of emission: the `out` slices of internal/state.
use flow_indicator.Base.{Bool, Option, none, some, List, [], ◌∷◌, ◌++◌}
use flow_indicator.Event.{Event, Builder, emit}
use flow_indicator.State.Payloads.{Payload, Draft}

-- `marshals` tells which payloads json.Marshal takes. `panic` is the first one that it refused:
-- from there on nothing runs, and nothing is emitted.
pub record Log : Type 0 where
  pub builder : Builder
  pub out : List (Event Payload)
  pub marshals : Payload → Bool
  pub panic : Option Payload

abbrev pub empty_log : (Payload → Bool) → Builder → Log
empty_log marshals b = record { builder = b; out = []; marshals = marshals; panic = none }

abbrev pub enter : Payload → Log → Option (Builder × Event Payload) → Log
enter x l none = record l { panic = some x }
enter x l (some (b, e)) = record l { builder = b; out = l.out ++ e ∷ [] }

-- `out = append(out, b.Emit(...))`.
unfoldable pub say_one : Draft → Log → Log
unfolding emit
say_one d l = elim l.panic [
  | some _ ↦ l
  | none ↦ enter d.payload l (emit l.marshals d.kind d.evidence_class d.payload l.builder)
]

-- The same for what a method emitted, in order.
unfoldable pub say : List Draft → Log → Log
unfolding say_one
say [] l = l
say (d ∷ ds) l = say ds (say_one d l)
