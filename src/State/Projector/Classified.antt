-- ===== src/State/Projector/Classified.antt =====
-- What the classifier sees and what its result emits; internal/state/projector.go and payloads.go.
use flow_indicator.Base.{
  ℕ, zero, suc, not, String, Bool, true, false, ◌&&◌, ◌||◌, Option, none, some, List, [], ◌∷◌, ◌++◌,
  ltb, leb, ◌==◌, if◌then◌else◌, length, is_some,
}
use Prim.Native.String.{count as rune_count}
use flow_indicator.Config.{Privacy}
use flow_indicator.Stream.{Record, is_agent}
use flow_indicator.Classify.{
  Result, Input, ObligationRef, RepairRef, Provenance, ObligationCandidate, NearRepeat, chars_in,
  expansions,
}
use flow_indicator.Classify
use flow_indicator.Metrics.{Buckets}
use flow_indicator.Event.{
  classified, segments_classified, correction_candidate, stop_candidate, reset_candidate,
  pointer_candidate, obligation_candidate, near_repeat_candidate, expansion_candidate,
}
use flow_indicator.State.Obligations.{Obligation, unresolved_candidates}
use flow_indicator.State.Repair.{Repair}
use flow_indicator.State.Episodes.{Episodes, active_repair}
use flow_indicator.State.Payloads.{
  Draft, draft, segments_payload, correction_payload, marker_payload, pointer_payload,
  candidate_payload, near_repeat_payload, expansion_payload,
}
use flow_indicator.State.Projector.Defs.{Projector}

abbrev take_runes : ℕ → String → String
take_runes n String.[] = ""
take_runes zero (String.◌∷◌ c s) = ""
take_runes (suc n) (String.◌∷◌ c s) = String.◌∷◌ c (take_runes n s)

-- `snippet`.
unfoldable pub snippet : Privacy → String → String
snippet p text =
    if p.store_text
    then text
    else if not p.store_snippets || p.snippet_chars == 0
    then ""
    else if leb (rune_count text) p.snippet_chars
    then text
    else take_runes p.snippet_chars text

abbrev refs_of : List Obligation → List ObligationRef
refs_of [] = []
refs_of (ob ∷ obs) =
    record {
      id = ob.id;
      key = ob.key;
      repeat_key = ob.repeat_key;
      kind = ob.kind;
      text = ob.source_text;
    }
    ∷ refs_of obs

abbrev repair_ref : Repair → RepairRef
repair_ref r = record {
  id = r.id;
  depth = r.depth;
  status = r.status;
  target_key = r.target_key;
  target_paths = r.target_paths;
  trigger_seq = r.trigger_agent_turn;
}

-- `input`.
unfoldable pub input : Projector → Record → Input
unfolding unresolved_candidates
input p rec = record {
  turn = rec;
  prior_operator_text = p.rolling.prior_operator_text;
  unresolved_obligations = refs_of (unresolved_candidates p.obligations);
  active_repair = elim (active_repair p.episodes) [ none ↦ none | some r ↦ some (repair_ref r) ];
}

-- `bucketsOf`.
unfoldable pub buckets_of : Result → Buckets
unfolding chars_in
buckets_of res = record {
  forward = chars_in res Classify.forward;
  control = chars_in res Classify.control;
  recovery = chars_in res Classify.recovery;
  restate = chars_in res Classify.restate;
  other = chars_in res Classify.other;
}

abbrev pub candidate_drafts : Provenance → List ObligationCandidate → List Draft
candidate_drafts prov [] = []
candidate_drafts prov (c ∷ cs) =
    draft obligation_candidate classified (candidate_payload prov c) ∷ candidate_drafts prov cs

abbrev pub near_repeat_drafts : Provenance → List NearRepeat → List Draft
near_repeat_drafts prov [] = []
near_repeat_drafts prov (n ∷ ns) =
    draft near_repeat_candidate classified (near_repeat_payload prov n) ∷ near_repeat_drafts prov ns

abbrev pub when : Bool → Draft → List Draft
when true d = d ∷ []
when false d = []

-- Does an agent's record say something of repair?
abbrev pub says_repair : Record → Result → Bool
unfolding expansions
says_repair rec res =
    is_agent rec.speaker_class
    && (ltb 0 (expansions res.repair)
        || res.repair.claimed_repaired
        || is_some res.repair.target_repaired)

abbrev pub active_id : Episodes → Option ℕ
active_id e = elim (active_repair e) [ none ↦ none | some r ↦ some r.id ]

-- `classifiedEvents`.
unfoldable pub classified_events : Projector → Record → Result → List Draft
unfolding buckets_of expansions
classified_events p rec res =
    when (ltb 0 (length res.segments)) (
      draft segments_classified classified
        (segments_payload res.provenance res.segments (buckets_of res)))
    ++ when res.correction.is_correction (
        draft correction_candidate classified
          (correction_payload res.provenance res.correction p.last_agent_seq))
    ++ when res.stop (draft stop_candidate classified (marker_payload res.provenance "stop"))
    ++ when res.reset (draft reset_candidate classified (marker_payload res.provenance "reset"))
    ++ when res.pointer.is_pointer
        (draft pointer_candidate classified (pointer_payload res.provenance res.pointer))
    ++ candidate_drafts res.provenance res.obligations
    ++ near_repeat_drafts res.provenance res.near_repeats
    ++ when (says_repair rec res) (
        draft expansion_candidate classified
          (expansion_payload res.provenance res.repair (active_id p.episodes)))
