-- ===== src/State/Repair.antt =====
-- internal/state/repair.go: one repair episode.
use flow_indicator.Base.{ℕ, String, Bool, false, Option, none, some, List, [], ◌==◌, if◌then◌else◌}
use flow_indicator.Metrics.{Pollution, unset}
use flow_indicator.Metrics.Snapshot.{RepairStatus, open_episode}

-- `id` is the number n of the source's "rep-n". Times are nanoseconds from Go's zero time.
pub record Repair : Type 0 where
  pub id : ℕ
  pub trigger_agent_turn : ℕ
  pub first_correction_turn : ℕ
  pub target_type : String
  pub target_key : String
  pub target_paths : List String
  pub structural : Bool
  pub depth : ℕ
  pub status : RepairStatus
  pub start : ℕ
  pub last_activity : ℕ
  pub closed : Option ℕ
  pub epoch : ℕ
  pub chars : ℕ
  pub records : ℕ
  pub pointer_chars : ℕ
  pub expansions : ℕ
  pub pollution : Pollution
  pub recurred : Bool
  pub repair_claimed : Bool
  pub close_index : ℕ
  pub active_index : ℕ

unfoldable pub new_repair : ℕ → ℕ → ℕ → ℕ → String → String → ℕ → ℕ → Repair
new_repair id epoch trigger_turn correction_turn target_type target_key pointer_chars start =
    record {
      id = id;
      trigger_agent_turn = trigger_turn;
      first_correction_turn = correction_turn;
      target_type = target_type;
      target_key = target_key;
      target_paths = [];
      structural = false;
      depth = 1;
      status = open_episode;
      start = start;
      last_activity = start;
      closed = none;
      epoch = epoch;
      chars = 0;
      records = 0;
      pointer_chars = pointer_chars;
      expansions = 0;
      pollution = unset;
      recurred = false;
      repair_claimed = false;
      close_index = 0;
      active_index = 0;
    }

unfoldable pub close : RepairStatus → ℕ → Repair → Repair
close status t r = record r { status = status; closed = some t }

unfoldable pub reopen : Repair → Repair
reopen r = record r { status = open_episode; closed = none }

unfoldable pub touch : ℕ → Repair → Repair
touch t r = if t == 0 then r else record r { last_activity = t }

unfoldable pub end : Repair → ℕ
end r = elim r.closed [ some t ↦ t | none ↦ r.last_activity ]
