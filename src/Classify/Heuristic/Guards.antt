-- ===== src/Classify/Heuristic/Guards.antt =====
-- What the marker classifier holds back; internal/classify/heuristic.go.
use flow_indicator.Base.{
  ◌≡◌, ◌⊎◌, refl, inl, inr, String, true, false, none, some, List, [], ◌∷◌, same, contains,
  Bool-cases, Option-cases, same_iff, arith,
}
use flow_indicator.Stream.{is_operator_turn, is_agent, write_targets}
use flow_indicator.Profile.{Ruleset}
use flow_indicator.Classify.{Input, RepairRef, RepairSignal}
use flow_indicator.Classify.Structure.{Env}
use flow_indicator.Classify.Heuristic.{
  is_bulk, classify, classify_operator, classify_agent, blank, repair_from_actions, any_named,
  judged,
}
use flow_indicator.Classify.Heuristic.References.{find_correction}

-- The record writes a path that the open correction names.
abbrev pub WritesNamed : Input → Type 0
WritesNamed inp =
    (active : RepairRef) × (w : String) × (inp.active_repair ≡ some active)
    × (contains w active.target_paths ≡ true)
    × (contains w (write_targets inp.turn) ≡ true)

any_named-found :
    (named writes : List String)
    → any_named named writes ≡ true
    → (w : String) × (contains w named ≡ true) × (contains w writes ≡ true)
any_named-found named [] h = cc
any_named-found named (w ∷ writes) h = elim (Bool-cases (contains w named)) [
  | inl hit ↦ (w, hit, ground (arith, same_iff w w))
  | inr miss ↦
      let (v, in_named, in_writes) = any_named-found named writes (ground arith) in
      (v, in_named, ground arith)
]

judged-repaired :
    (named writes : List String) (signal : RepairSignal)
    → signal.target_repaired ≡ none
    → ((judged named writes signal).target_repaired ≡ none)
      ⊎ ((any_named named writes ≡ true)
          × ((judged named writes signal).target_repaired ≡ some true))
judged-repaired [] [] signal h = inl h
judged-repaired [] (w ∷ writes) signal h = inl h
judged-repaired (n ∷ named) [] signal h = inl h
judged-repaired (n ∷ named) (w ∷ writes) signal h =
    elim (Bool-cases (any_named (n ∷ named) (w ∷ writes))) [
      | inl hit ↦ rw (any_named, hit) (inr (refl, refl))
      | inr miss ↦ rw (any_named, miss) (inl h)
    ]

repair_from_actions_sound :
    (inp : Input) (signal : RepairSignal)
    → signal.target_repaired ≡ none
    → ((repair_from_actions inp signal).target_repaired ≡ none)
      ⊎ (WritesNamed inp × ((repair_from_actions inp signal).target_repaired ≡ some true))
unfolding repair_from_actions
repair_from_actions_sound inp signal h = elim (Option-cases inp.active_repair) [
  | inl closed ↦ rw closed (inl h)
  | inr (active, open_repair) ↦
      elim (judged-repaired active.target_paths (write_targets inp.turn) signal h) [
        | inl silent ↦ rw open_repair (inl silent)
        | inr (hit, repaired) ↦
            let (w, in_named, in_writes) =
              any_named-found active.target_paths (write_targets inp.turn) hit in
            rw open_repair (inr ((active, w, refl, in_named, in_writes), repaired))
      ]
]

-- The marker classifier never says that a target was not repaired, and says that it was repaired
-- only if an episode is open and the record writes a path that its correction named.
pub classify-repaired :
    (env : Env) (rs : Ruleset) (inp : Input)
    → ((classify env rs inp).repair.target_repaired ≡ none)
      ⊎ (WritesNamed inp × ((classify env rs inp).repair.target_repaired ≡ some true))
unfolding classify classify_operator classify_agent blank
classify-repaired env rs inp = elim (Bool-cases (is_operator_turn inp.turn)) [
  | inl operator ↦ rw operator (inl refl)
  | inr other ↦ elim (Bool-cases (is_agent inp.turn.speaker_class)) [
    | inr neither ↦ rw (other, neither) (inl refl)
    | inl by_agent ↦
        let acts = repair_from_actions_sound inp (blank rs inp.turn).repair refl in
        elim (Bool-cases (same inp.turn.text "")) [
          | inl silent ↦ rw (other, by_agent, silent) acts
          | inr speaks ↦ rw (other, by_agent, speaks) acts
        ]
  ]
]

-- In a text long enough to be delivered material, an operator's turn is no correction, stops
-- nothing and withdraws nothing.
pub classify-bulk :
    (env : Env) (rs : Ruleset) (inp : Input)
    → is_operator_turn inp.turn ≡ true
    → is_bulk env rs inp.turn.text ≡ true
    → ((classify env rs inp).correction.is_correction ≡ false)
      × ((classify env rs inp).stop ≡ false)
      × ((classify env rs inp).resolutions ≡ [])
unfolding classify classify_operator find_correction
classify-bulk env rs inp operator bulk = rw (operator, bulk) (refl, refl, refl)
