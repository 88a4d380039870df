-- ===== src/State/Times/Drafts.antt =====
-- What is emitted besides the episodes holds no time; internal/state/projector.go.
use flow_indicator.Base.{
  ℕ, ◌-◌, inl, inr, Bool, true, false, not, ◌||◌, ◌&&◌, List, [], ◌∷◌, ◌++◌, get_elem?, All-append,
  Bool-cases, Option-cases, if◌then◌else◌, leb, ltb, length,
}
use flow_indicator.Stream.{Record}
use flow_indicator.Classify.{
  Result, Provenance, ObligationCandidate, NearRepeat, ObligationResolution, chars_in, forward,
}
use flow_indicator.Event.{
  Kind, classified, segments_classified, correction_candidate, stop_candidate, reset_candidate,
  pointer_candidate, expansion_candidate, derived, metrics_computed,
}
use flow_indicator.State.Obligations.{Obligation, Obligations, Revival, apply, resolve, violate}
use flow_indicator.State.Episodes.{target_equivalent}
use flow_indicator.State.Pointers.{
  PendingPointer, Pointers, Settled, settle_pointer, settle_pointers, resolve_pointers, outcomes_of,
}
use flow_indicator.State.Regime.{Decision}
use flow_indicator.State.Trend.{Trend}
use flow_indicator.State.Payloads.{
  Draft, draft, Payload, Evidence, segments_payload, correction_payload, marker_payload,
  pointer_payload, expansion_payload, metrics_payload,
}
use flow_indicator.State.Projector.Defs.{Setup, Projector}
use flow_indicator.Metrics.Snapshot.{Regime, Snapshot}
use flow_indicator.State.Projector.Classified.{
  when, buckets_of, active_id, candidate_drafts, near_repeat_drafts, classified_events,
}
use flow_indicator.State.Projector.Demands.{
  about, is_blank, can_resolve, resolve_one, resolve_obligations, introduced_drafts, revived_drafts,
  corrects, violate_repeated, repeat_obligations, project_obligations,
}
use flow_indicator.State.Projector.Turn.{same_regime, regime_drafts, trend_drafts}
use flow_indicator.State.Times.{Fits, AllFit}

pub append-AllFit : (ds es : List Draft) → AllFit ds → AllFit es → AllFit (ds ++ es)
append-AllFit ds es h k = All-append (λ d. Fits d.payload) ds es h k

either-AllFit : (b : Bool) (s t : Settled) → AllFit s.1 → AllFit t.1 → AllFit (if b then s else t).1
either-AllFit true s t h k = h
either-AllFit false s t h k = k

settle_pointer-AllFit :
    (rolling last turn : ℕ) (res : Result) (pp : PendingPointer) (q : Pointers)
    → AllFit (settle_pointer rolling last turn res pp q).1
unfolding settle_pointer
settle_pointer-AllFit rolling last turn res pp q = either-AllFit (leb last pp.seq) _ _ tt (
    either-AllFit (not pp.evaluated && res.correction.is_correction) _ _ (tt, tt)
      (either-AllFit (not pp.evaluated && (res.acceptance || ltb 0 (chars_in res forward))) _ _
        (tt, tt)
        (either-AllFit
          (res.correction.is_correction && target_equivalent pp.key res.correction.target_key) _ _
          (tt, tt) (either-AllFit (ltb 0 (pp.remaining - 1)) _ _ tt (tt, tt)))))

settle_pointers-AllFit :
    (rolling last turn : ℕ) (res : Result) (pps : List PendingPointer) (q : Pointers)
    → AllFit (settle_pointers rolling last turn res pps q).1
unfolding settle_pointers
settle_pointers-AllFit rolling last turn res [] q = tt
settle_pointers-AllFit rolling last turn res (pp ∷ pps) q =
    let one = settle_pointer rolling last turn res pp q in
    append-AllFit one.1 _ (settle_pointer-AllFit rolling last turn res pp q)
      (settle_pointers-AllFit rolling last turn res pps one.0)

pub resolve_pointers-AllFit :
    (rolling last turn : ℕ) (res : Result) (q : Pointers)
    → AllFit (resolve_pointers rolling last turn res q).1
unfolding resolve_pointers
resolve_pointers-AllFit rolling last turn res q =
    settle_pointers-AllFit rolling last turn res q.pending (record q { pending = [] })

pub outcomes_of-AllFit : (why : Evidence) (pps : List PendingPointer) → AllFit (outcomes_of why pps)
outcomes_of-AllFit why [] = tt
outcomes_of-AllFit why (pp ∷ pps) = (tt, outcomes_of-AllFit why pps)

about-AllFit :
    (o : Obligations) (i : ℕ) (f : Obligation → Draft)
    → ((ob : Obligation) → Fits (f ob).payload)
    → AllFit (about o i f)
about-AllFit o i f h = elim (Option-cases (get_elem? o.order i)) [
  | inl n ↦ rw (about, n) tt
  | inr (ob, at) ↦ rw (about, at) (h ob, tt)
]

resolve_one-AllFit :
    (setup : Setup) (seq : ℕ) (res : Result) (r : ObligationResolution) (o : Obligations)
    → AllFit (resolve_one setup seq res r o).1
unfolding resolve_one
resolve_one-AllFit setup seq res r o =
    elim (Bool-cases
      (not (can_resolve setup.capabilities r.kind) || is_blank setup.unicode r.evidence)) [
        | inl dropped ↦ rw (resolve_one, dropped) tt
        | inr used ↦ elim (Option-cases (resolve seq r.key r.kind o).1) [
          | inl n ↦ rw (resolve_one, used, n) tt
          | inr (i, s) ↦
              rw (resolve_one, used, s) (about-AllFit (resolve seq r.key r.kind o).0 i _ (λ ob. tt))
        ]
      ]

resolve_obligations-AllFit :
    (setup : Setup) (seq : ℕ) (res : Result) (rs : List ObligationResolution) (o : Obligations)
    → AllFit (resolve_obligations setup seq res rs o).1
unfolding resolve_obligations
resolve_obligations-AllFit setup seq res [] o = tt
resolve_obligations-AllFit setup seq res (r ∷ rs) o =
    let one = resolve_one setup seq res r o in
    append-AllFit one.1 _ (resolve_one-AllFit setup seq res r o)
      (resolve_obligations-AllFit setup seq res rs one.0)

introduced_drafts-AllFit : (o : Obligations) (is : List ℕ) → AllFit (introduced_drafts o is)
introduced_drafts-AllFit o [] = tt
introduced_drafts-AllFit o (i ∷ is) =
    append-AllFit _ (introduced_drafts o is) (about-AllFit o i _ (λ ob. tt))
      (introduced_drafts-AllFit o is)

revived_drafts-AllFit : (o : Obligations) (rs : List Revival) → AllFit (revived_drafts o rs)
revived_drafts-AllFit o [] = tt
revived_drafts-AllFit o (r ∷ rs) =
    append-AllFit _ (revived_drafts o rs) (about-AllFit o r.obligation _ (λ ob. tt))
      (revived_drafts-AllFit o rs)

violate_repeated-AllFit :
    (res : Result) (ob : Obligation) (o : Obligations) → AllFit (violate_repeated res ob o).1
unfolding violate_repeated
violate_repeated-AllFit res ob o = elim (Bool-cases (corrects res ob)) [
  | inr other ↦ rw (violate_repeated, other) tt
  | inl about_it ↦ elim (Option-cases (violate ob.key o).1) [
    | inl n ↦ rw (violate_repeated, about_it, n) tt
    | inr (i, s) ↦
        rw (violate_repeated, about_it, s) (about-AllFit (violate ob.key o).0 i _ (λ v. tt))
  ]
]

repeat_obligations-AllFit :
    (res : Result) (is : List ℕ) (o : Obligations) → AllFit (repeat_obligations res is o).1
unfolding repeat_obligations
repeat_obligations-AllFit res [] o = tt
repeat_obligations-AllFit res (i ∷ is) o = elim (Option-cases (get_elem? o.order i)) [
  | inl n ↦ rw (repeat_obligations, n) (repeat_obligations-AllFit res is o)
  | inr (ob, at) ↦
      let one = violate_repeated res ob o in
      rw (repeat_obligations, at)
        (
          tt,
          append-AllFit one.1 _ (violate_repeated-AllFit res ob o)
              (repeat_obligations-AllFit res is one.0),
        )
]

pub project_obligations-AllFit :
    (setup : Setup) (p : Projector) (rec : Record) (res : Result)
    → AllFit (project_obligations setup p rec res).out
unfolding project_obligations
project_obligations-AllFit setup p rec res =
    let first = resolve_obligations setup rec.seq res res.resolutions p.obligations in
    let a = apply rec.seq p.epoch p.turn_index res.obligations first.0 in
    let introduced = introduced_drafts-AllFit a.surface a.introduced in
    let revived = revived_drafts-AllFit a.surface a.revived in
    let resolved = resolve_obligations-AllFit setup rec.seq res res.resolutions p.obligations in
    append-AllFit _ _ (append-AllFit _ _ (append-AllFit first.1 _ resolved introduced) revived)
      (repeat_obligations-AllFit res a.repeated a.surface)

when-AllFit : (b : Bool) (d : Draft) → Fits d.payload → AllFit (when b d)
when-AllFit true d h = (h, tt)
when-AllFit false d h = tt

candidate_drafts-AllFit :
    (prov : Provenance) (cs : List ObligationCandidate) → AllFit (candidate_drafts prov cs)
candidate_drafts-AllFit prov [] = tt
candidate_drafts-AllFit prov (c ∷ cs) = (tt, candidate_drafts-AllFit prov cs)

near_repeat_drafts-AllFit :
    (prov : Provenance) (ns : List NearRepeat) → AllFit (near_repeat_drafts prov ns)
near_repeat_drafts-AllFit prov [] = tt
near_repeat_drafts-AllFit prov (n ∷ ns) = (tt, near_repeat_drafts-AllFit prov ns)

pub classified_events-AllFit :
    (p : Projector) (rec : Record) (res : Result) → AllFit (classified_events p rec res)
unfolding classified_events buckets_of
classified_events-AllFit p rec res =
    let prov = res.provenance in
    let said =
      λ (b : Bool) (x : Kind) (y : Payload) (h : Fits y). when-AllFit b (draft x classified y) h in
    let segments =
      said (ltb 0 (length res.segments)) segments_classified
        (segments_payload prov res.segments (buckets_of res)) tt in
    let correction =
      said res.correction.is_correction correction_candidate
        (correction_payload prov res.correction p.last_agent_seq) tt in
    let stop = said res.stop stop_candidate (marker_payload prov "stop") tt in
    let reset = said res.reset reset_candidate (marker_payload prov "reset") tt in
    let pointer =
      said res.pointer.is_pointer pointer_candidate (pointer_payload prov res.pointer) tt in
    let marks =
      append-AllFit _ _
        (append-AllFit _ _ (append-AllFit _ _ (append-AllFit _ _ segments correction) stop) reset)
        pointer in
    let lists =
      append-AllFit _ _ (append-AllFit _ _ marks (candidate_drafts-AllFit prov res.obligations))
        (near_repeat_drafts-AllFit prov res.near_repeats) in
    append-AllFit _ _ lists (
      when-AllFit _
        (draft expansion_candidate classified
          (expansion_payload prov res.repair (active_id p.episodes)))
        tt)

regime_drafts-AllFit : (from : Regime) (d : Decision) → AllFit (regime_drafts from d)
regime_drafts-AllFit from d = elim (Bool-cases (same_regime d.regime from)) [
  | inl stays ↦ rw stays tt
  | inr changes ↦ rw changes (tt, tt)
]

trend_drafts-AllFit : (turn : ℕ) (ts : List Trend) → AllFit (trend_drafts turn ts)
unfolding trend_drafts
trend_drafts-AllFit turn [] = tt
trend_drafts-AllFit turn (t ∷ ts) = (tt, trend_drafts-AllFit turn ts)

-- What `projectOperator` ends with.
pub concluding-AllFit :
    (from : Regime) (d : Decision) (s : Snapshot) (turn : ℕ) (ts : List Trend)
    → AllFit (
        regime_drafts from d
        ++ draft metrics_computed derived (metrics_payload s) ∷ trend_drafts turn ts)
concluding-AllFit from d s turn ts =
    append-AllFit (regime_drafts from d) _ (regime_drafts-AllFit from d)
      (tt, trend_drafts-AllFit turn ts)
