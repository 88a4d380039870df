-- ===== src/State/Obligations.antt =====
-- internal/state/obligation.go: the obligation surface of one stream.
--
-- The `*Obligation` pointers that `order`, `byKey` and `byRepeat` share are positions in `order`,
-- which is the store: an obligation is only ever appended to it and then changed in place.
pub mod Invariant
pub mod Applying
pub mod Resolving
pub mod Outcomes
pub mod Lifecycle
use flow_indicator.Base.{
  ℕ, suc, ◌+◌, String, Bool, true, false, ◌||◌, Option, none, some, List, [], ◌∷◌, ◌++◌, ltb, same,
  if◌then◌else◌, length, get_elem?, update_at, lookup, insert, contains,
}
use flow_indicator.Classify.{
  ObligationCandidate, ResolutionKind, released, superseded, satisfied, unrecognized,
}

pub data ObligationStatus : Type 0 where
  unresolved met violated withdrawn replaced expired undetermined : ObligationStatus

abbrev pub same_status : ObligationStatus → ObligationStatus → Bool
same_status unresolved unresolved = true
same_status met met = true
same_status violated violated = true
same_status withdrawn withdrawn = true
same_status replaced replaced = true
same_status expired expired = true
same_status undetermined undetermined = true
same_status _ _ = false

unfoldable pub resolved : ObligationStatus → Bool
resolved met = true
resolved withdrawn = true
resolved replaced = true
resolved expired = true
resolved _ = false

-- `id` is the number n of the source's "obl-n".
pub record Obligation : Type 0 where
  pub id : ℕ
  pub introduced_turn : ℕ
  pub source_text : String
  pub key : String
  pub repeat_key : String
  pub kind : String
  pub status : ObligationStatus
  pub repeat_count : ℕ
  pub last_repeat_turn : ℕ
  pub epoch : ℕ
  pub resolved_turn : ℕ
  pub introduced_index : ℕ

pub record Revival : Type 0 where
  pub obligation : ℕ
  pub from : ObligationStatus

pub record Obligations : Type 0 where
  pub order : List Obligation
  pub by_key : List (String × ℕ)
  pub by_repeat : List (String × ℕ)
  pub next : ℕ

unfoldable pub new_obligations : Obligations
new_obligations = record { order = []; by_key = []; by_repeat = []; next = 0 }

-- The locals of `Apply`: the surface, `seen`, and the three results.
pub record Applied : Type 0 where
  pub surface : Obligations
  pub seen : List String
  pub introduced : List ℕ
  pub repeated : List ℕ
  pub revived : List Revival

-- Exact identity first, then the content-token index.
unfoldable pub find_existing : Obligations → ObligationCandidate → Option ℕ
find_existing o c = elim (lookup c.key o.by_key) [
  | some i ↦ some i
  | none ↦ if same c.repeat_key "" then none else lookup c.repeat_key o.by_repeat
]

unfoldable pub mark_repeat : ℕ → Obligation → Obligation
unfolding resolved
mark_repeat turn ob = record ob {
  repeat_count = ob.repeat_count + 1;
  last_repeat_turn = turn;
  status =
      if resolved ob.status || same_status ob.status undetermined then unresolved else ob.status;
}

-- A candidate that names an obligation already there. A dangling position, which no surface
-- reached by these operations holds, changes nothing.
unfoldable pub restate : ℕ → ℕ → Applied → Applied
unfolding mark_repeat
restate turn i a = elim (get_elem? a.surface.order i) [
  | none ↦ a
  | some ob ↦
      let o = record (a.surface) { order = update_at (mark_repeat turn) i a.surface.order } in
      if resolved ob.status
      then record a {
        surface = o;
        revived = a.revived ++ record { obligation = i; from = ob.status } ∷ [];
      }
      else record a { surface = o; repeated = a.repeated ++ i ∷ [] }
]

abbrev pub first_stated : ℕ → ℕ → ℕ → ℕ → ObligationCandidate → Obligation
first_stated id turn epoch turn_index c = record {
  id = id;
  introduced_turn = turn;
  source_text = c.text;
  key = c.key;
  repeat_key = c.repeat_key;
  kind = c.kind;
  status = unresolved;
  repeat_count = 0;
  last_repeat_turn = 0;
  epoch = epoch;
  resolved_turn = 0;
  introduced_index = turn_index;
}

unfoldable pub introduce : ℕ → ℕ → ℕ → ObligationCandidate → Applied → Applied
introduce turn epoch turn_index c a =
    let o = a.surface in
    let i = length o.order in
    record a {
      surface = record {
        order = o.order ++ first_stated (o.next + 1) turn epoch turn_index c ∷ [];
        by_key = insert c.key i o.by_key;
        by_repeat = if same c.repeat_key "" then o.by_repeat else insert c.repeat_key i o.by_repeat;
        next = o.next + 1;
      };
      introduced = a.introduced ++ i ∷ [];
    }

abbrev pub seeing : String → Applied → Applied
seeing key a = record a { seen = key ∷ a.seen }

unfoldable pub apply_candidate : ℕ → ℕ → ℕ → ObligationCandidate → Applied → Applied
unfolding find_existing restate introduce
apply_candidate turn epoch turn_index c a =
    if contains c.key a.seen then a else elim (find_existing a.surface c) [
      | some i ↦ restate turn i (seeing c.key a)
      | none ↦ introduce turn epoch turn_index c (seeing c.key a)
    ]

unfoldable pub apply_from : ℕ → ℕ → ℕ → List ObligationCandidate → Applied → Applied
unfolding apply_candidate
apply_from turn epoch turn_index [] a = a
apply_from turn epoch turn_index (c ∷ cs) a =
    apply_from turn epoch turn_index cs (apply_candidate turn epoch turn_index c a)

abbrev pub nothing_applied : Obligations → Applied
nothing_applied o = record { surface = o; seen = []; introduced = []; repeated = []; revived = [] }

-- `Apply`.
unfoldable pub apply : ℕ → ℕ → ℕ → List ObligationCandidate → Obligations → Applied
unfolding apply_from
apply turn epoch turn_index cs o = apply_from turn epoch turn_index cs (nothing_applied o)

-- The status that a resolution kind leaves; a kind not recognized resolves nothing.
unfoldable pub resolution_status : ResolutionKind → Option ObligationStatus
resolution_status released = some withdrawn
resolution_status superseded = some replaced
resolution_status satisfied = some met
resolution_status unrecognized = none

abbrev pub resolve_with : ℕ → ObligationStatus → Obligation → Obligation
resolve_with turn s ob = record ob { status = s; resolved_turn = turn }

-- `Resolve`, with the position of the obligation that it resolved.
unfoldable pub resolve : ℕ → String → ResolutionKind → Obligations → Obligations × Option ℕ
unfolding resolved resolution_status
resolve turn key kind o = elim (lookup key o.by_key) [
  | none ↦ (o, none)
  | some i ↦ elim (get_elem? o.order i) [
    | none ↦ (o, none)
    | some ob ↦ if resolved ob.status then (o, none) else elim (resolution_status kind) [
      | none ↦ (o, none)
      | some s ↦ (record o { order = update_at (resolve_with turn s) i o.order }, some i)
    ]
  ]
]

abbrev pub with_status : ObligationStatus → Obligation → Obligation
with_status s ob = record ob { status = s }

-- `Violate`.
unfoldable pub violate : String → Obligations → Obligations × Option ℕ
violate key o = elim (lookup key o.by_key) [
  | none ↦ (o, none)
  | some i ↦ (record o { order = update_at (with_status violated) i o.order }, some i)
]

-- A candidate that stands: the test of `Unresolved`.
unfoldable pub stands : ObligationStatus → Bool
stands unresolved = true
stands violated = true
stands _ = false

unfoldable pub standing : List Obligation → List Obligation
unfolding stands
standing [] = []
standing (ob ∷ order) = let rest = standing order in if stands ob.status then ob ∷ rest else rest

-- `Unresolved`.
unfoldable pub unresolved_candidates : Obligations → List Obligation
unfolding standing
unresolved_candidates o = standing o.order

abbrev count_repeated : List Obligation → ℕ
count_repeated [] = 0
count_repeated (ob ∷ obs) =
    let rest = count_repeated obs in if ltb 0 ob.repeat_count then suc rest else rest

-- `RepeatedUnresolved`.
unfoldable pub repeated_unresolved : Obligations → ℕ
unfolding unresolved_candidates
repeated_unresolved o = count_repeated (unresolved_candidates o)

unfoldable pub count_in : ObligationStatus → List Obligation → ℕ
count_in s [] = 0
count_in s (ob ∷ order) =
    let rest = count_in s order in if same_status ob.status s then suc rest else rest

-- `CountStatus`.
unfoldable pub count_status : ObligationStatus → Obligations → ℕ
unfolding count_in
count_status s o = count_in s o.order

unfoldable pub forget : Obligation → Obligation
unfolding stands
forget ob = if stands ob.status then with_status undetermined ob else ob

abbrev pub forget_all : List Obligation → List Obligation
forget_all [] = []
forget_all (ob ∷ order) = forget ob ∷ forget_all order

abbrev pub ids_of : List Obligation → List ℕ
ids_of [] = []
ids_of (ob ∷ obs) = ob.id ∷ ids_of obs

-- `MarkUnknown`.
unfoldable pub mark_unknown : Obligations → Obligations × List ℕ
unfolding forget unresolved_candidates
mark_unknown o = (
  record o { order = forget_all o.order; by_key = []; by_repeat = [] },
  ids_of (unresolved_candidates o),
)
