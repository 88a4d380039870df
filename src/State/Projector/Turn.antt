-- ===== src/State/Projector/Turn.antt =====
-- One operator turn: `projectOperator` and what it calls; internal/state/projector.go.
use flow_indicator.Base.{
  ℕ, ◌+◌, Bool, true, false, not, ◌&&◌, some, List, [], ◌∷◌, ◌++◌, if◌then◌else◌, length, is_none,
  push_bounded,
}
use flow_indicator.Stream.{Record, normalize}
use flow_indicator.Observe.{Observation}
use flow_indicator.Metrics.Snapshot.{Snapshot, Regime}
use flow_indicator.Classify.{Result}
use flow_indicator.Event.{
  derived, epoch_advanced, regime_changed, metrics_computed, trend_emerged, set_epoch,
}
use flow_indicator.State.Regime.{decide, Decision}
use flow_indicator.State.Obligations.{mark_unknown}
use flow_indicator.State.Trend
use flow_indicator.State.Trend.{Trend, degrading}
use flow_indicator.State.Episodes.{
  settle_pollution, settle_durability, project_repair, attribute, reset_episodes,
}
use flow_indicator.State.Pointers.{PendingPointer, add_baseline, resolve_pointers, drop_pointers}
use flow_indicator.State.Payloads.{
  Draft, draft, epoch_payload, regime_payload, metrics_payload, trend_payload,
}
use flow_indicator.State.Projector.Defs.{
  Setup, Projector, Pass, update, report, with_episodes, with_pointers, moment, clear_rolling, u64,
}
use flow_indicator.State.Projector.Classified.{buckets_of}
use flow_indicator.State.Projector.Measure.{measure, regime_input}
use flow_indicator.State.Projector.Demands.{ObligationTurn, project_obligations}

-- `p.turnIndex++`, and the rolling state of a new epoch.
unfoldable pub begin_turn : Projector → Projector
unfolding clear_rolling
begin_turn p =
    let p' = record p { turn_index = p.turn_index + 1 } in
    if p.reset_pending then clear_rolling p' else p'

unfoldable pub mark_repeats : List ℕ → Projector → Projector
mark_repeats [] p = p
mark_repeats (i ∷ is) p = record p {
  rolling = record (p.rolling) {
    obligation_repeats = p.rolling.obligation_repeats ++ p.turn_index ∷ [];
  };
}

-- `baselineEligible`.
unfoldable pub baseline_eligible : Projector → Result → Bool
baseline_eligible p res = not res.correction.is_correction && is_none p.episodes.active

abbrev new_pointer : Setup → Projector → Record → Observation → Result → PendingPointer
unfolding normalize baseline_eligible
new_pointer setup p rec obs res = record {
  seq = rec.seq;
  turn_index = p.turn_index;
  key = normalize setup.unicode res.pointer.text;
  pointer_type = res.pointer.pointer_type;
  pointer_chars = res.pointer.chars;
  turn_chars = obs.chars;
  remaining = setup.config.window.dereference_outcome_turns;
  baseline = baseline_eligible p res;
  evaluated = false;
}

-- The pointer, the window, the corrections and the prior text that the turn leaves.
unfoldable pub remember : Setup → Record → Observation → Result → Projector → Projector
unfolding buckets_of normalize baseline_eligible
remember setup rec obs res p =
    let n = setup.config.window.rolling_turns in
    record p {
      pointers =
          if res.pointer.is_pointer
          then record (p.pointers) {
            pending = p.pointers.pending ++ new_pointer setup p rec obs res ∷ [];
          }
          else p.pointers;
      rolling = record (p.rolling) {
        window =
            push_bounded n p.rolling.window
              (record { chars = obs.chars; buckets = buckets_of res });
        corrections =
            if res.correction.is_correction
            then p.rolling.corrections ++ p.turn_index ∷ []
            else p.rolling.corrections;
        prior_operator_text = push_bounded n p.rolling.prior_operator_text rec.text;
      };
    }

-- `applyReset`. The event that closes the epoch still belongs to it.
unfoldable pub apply_reset : Record → Pass → Pass
unfolding reset_episodes drop_pointers mark_unknown set_epoch
apply_reset rec w0 =
    let w1 = with_pointers drop_pointers (with_episodes (reset_episodes rec) w0) in
    let p = w1.projector in
    let (o, ids) = mark_unknown p.obligations in
    let next = u64 (p.epoch + 1) in
    let w2 =
      report (draft epoch_advanced derived (epoch_payload p.epoch next rec.seq ids) ∷ []) w1 in
    record {
      projector = record p { obligations = o; epoch = next; reset_pending = true };
      log = record (w2.log) { builder = set_epoch next w2.log.builder };
    }

abbrev pub same_regime : Regime → Regime → Bool
same_regime Regime.flow Regime.flow = true
same_regime Regime.drift Regime.drift = true
same_regime Regime.recovery Regime.recovery = true
same_regime Regime.thrash Regime.thrash = true
same_regime Regime.reset Regime.reset = true
same_regime _ _ = false

abbrev pub regime_drafts : Regime → Decision → List Draft
regime_drafts from d =
    if same_regime d.regime from
    then []
    else draft regime_changed derived (regime_payload from d.regime d.rule) ∷ []

unfoldable pub trend_drafts : ℕ → List Trend → List Draft
unfolding degrading
trend_drafts turn [] = []
trend_drafts turn (t ∷ ts) =
    draft trend_emerged derived (trend_payload t (degrading t) turn) ∷ trend_drafts turn ts

-- The turn joins the baseline after it was measured against the earlier ones.
unfoldable pub join_control : Setup → Observation → Result → Projector → Projector
unfolding baseline_eligible add_baseline
join_control setup obs res p =
    if not res.pointer.is_pointer && baseline_eligible p res
    then record p { pointers = add_baseline setup.config.window.rolling_turns obs.chars p.pointers }
    else p

-- The snapshot with the decision that was made on it.
abbrev decided_snapshot : Decision → Snapshot → Snapshot
decided_snapshot d s = record s { regime = some d.regime; regime_rule = d.rule }

-- The last part of `projectOperator`: the snapshot, the regime and the trends.
unfoldable pub conclude : Setup → Record → Observation → Result → ℕ → Pass → Pass
unfolding measure regime_input decide Trend.observe join_control degrading
conclude setup rec obs res introduced w =
    let s0 = measure setup w.projector rec obs introduced in
    let p = join_control setup obs res w.projector in
    let d = decide setup.floats (regime_input setup p res.reset s0) in
    let s = decided_snapshot d s0 in
    let t = Trend.observe setup.floats setup.config s p.trends in
    report
      (regime_drafts p.regime d
        ++ draft metrics_computed derived (metrics_payload s) ∷ trend_drafts p.turn_index t.1)
      (record w { projector = record p { regime = d.regime; snapshot = some s; trends = t.0 } })

-- What the previous turns left open, in its fixed order.
unfoldable pub settle_previous : Setup → Result → Pass → Pass
unfolding settle_pollution resolve_pointers settle_durability
settle_previous setup res w0 =
    let again = res.correction.is_correction in
    let n = setup.config.window.rolling_turns in
    let w1 = with_episodes (settle_pollution again) w0 in
    let p = w1.projector in
    let w2 = with_pointers (resolve_pointers n p.last_agent_seq p.turn_index res) w1 in
    with_episodes
      (settle_durability setup.config.window.correction_durability_turns w2.projector.turn_index) w2

-- The obligations and the episodes of the turn itself.
unfoldable pub project_turn : Setup → Record → Observation → Result → ObligationTurn → Pass → Pass
unfolding project_repair attribute remember mark_repeats
project_turn setup rec obs res t w0 =
    let p = mark_repeats t.repeated (record (w0.projector) { obligations = t.obligations }) in
    let w1 = report t.out (record w0 { projector = p }) in
    let w2 = with_episodes (project_repair (moment setup p) rec res) w1 in
    let q = w2.projector in
    record w2 {
      projector =
          remember setup rec obs res (record q { episodes = attribute rec obs.chars q.episodes });
    }

-- `projectOperator`.
unfoldable pub project_operator : Setup → Record → Observation → Result → Pass → Pass
unfolding begin_turn settle_previous project_obligations project_turn apply_reset conclude
project_operator setup rec obs res w0 =
    let w1 = settle_previous setup res (update begin_turn w0) in
    let t = project_obligations setup w1.projector rec res in
    let w2 = project_turn setup rec obs res t w1 in
    let w3 = if res.reset then apply_reset rec w2 else w2 in
    conclude setup rec obs res (length t.introduced) w3
