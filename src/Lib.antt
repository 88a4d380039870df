-- ===== src/Lib.antt =====
-- flow-indicator: the projector that folds the records of an agent session into events, metrics
-- and state.
--
-- A record enters `Push` of internal/state/projector.go. The observer measures it
-- (internal/observe), a classifier answers what it says (internal/classify), and the projector
-- emits events through a builder that stamps them (internal/event) while it changes its state:
-- the obligation surface (internal/state/obligation.go), the repair episodes (repair.go), the
-- compact references that wait for an outcome, the rolling lists, the regime (regime.go) and the
-- trends (trend.go), over arithmetic of internal/metrics.
--
-- Files and the code that each models:
-- - Base: shared names; Base/Tests, Base/Lists, Base/Store, Base/Sorting and Base/Int are
--   Boolean tests, lists, stores of shared objects and maps, stable sorts with sums, and
--   integers.
-- - Floats: float64 numbers as the expressions that compute them, with their comparisons as a
--   parameter.
-- - Metrics: Numbers (Value, ratio, median of metrics.go), Families (transmission.go,
--   control.go, obligation.go, dereference.go, recovery.go), Bands (band.go), Assessments
--   (pollution.go), Middle (proves what a median is), Snapshot (the Snapshot of metrics.go and
--   the rules of regime.go); Bounds proves.
-- - Stream: Records (internal/stream/record.go, action.go), Text (normalize.go) and Tail
--   (tail.go); Tail/Bytes and Tail/Delivery prove.
-- - Observe: internal/observe, `Observe`, `gaps`, `repeatChars`, `quotedChars`,
--   `overlapPrevious`, `overlapWindow`.
-- - Config: the fields of internal/config/config.go that the projector reads; Config/Validation
--   is `Default` and `Validate`; Accepted proves.
-- - Profile: the lookups of internal/profile that the marker classifier makes.
-- - Classify: the types of internal/classify/classifier.go and capability.go. Below it,
--   Sentences, Structure, Words and Heuristic (Segments, Obligations, Releases, References) are
--   heuristic.go and structure.go; Worker and Hybrid are async.go, with none.go; Persisted is
--   persisted.go; OpenAi is openai.go without its request. Sentences/Tiling,
--   Heuristic/Releases/Once, Heuristic/Guards, Worker/Counting and OpenAi/Tiling prove.
-- - Labels: internal/labels; Align (align.go), Score (score.go); Align/Units, Align/Candidates,
--   Align/Partition and Score/Accounting prove.
-- - Event: internal/event; `new_builder`, `emit` and `set_epoch` are NewBuilder, Emit and
--   SetEpoch.
-- - State/Obligations: `Apply`, `Resolve`, `Violate`, `Unresolved`, `RepeatedUnresolved`,
--   `CountStatus`, `MarkUnknown`; Invariant, Applying, Resolving, Lifecycle and Outcomes prove.
-- - State/Regime: `Decide`; Rules proves. State/Trend: `observe`; Crossing proves.
-- - State/Repair: one episode. State/Episodes: the store of episodes; Store (`attribute`,
--   `openCycle`, the counts of a cycle), Settle (`settlePollution`, `settleDurability`),
--   Corrections (`projectRepair` for a correction, `retireActive`, `reopenClosing`,
--   `mergePaths`), Turn (`projectRepair`, `openStructuralRepair`), Ending (parts of `applyReset`
--   and `Finish`); Invariant, Preserve, Closing and Reopening prove.
-- - State/Pointers: `resolvePointers`, `addBaseline`, and the parts of `applyReset` and `Finish`
--   that reach references; Outcomes and Baseline prove.
-- - State/Payloads and State/Log: what is emitted, and the `out` slices; Identity proves.
--   State/Times: the times in payloads; Settled, Projected, Drafts, Passes and Records prove
--   that no time after year 9999 comes from earlier ones.
-- - State/Projector: Defs (the state and `New`), Classified (`input`, `snippet`,
--   `classifiedEvents`), Measure (`measure`, `regimeInput`), Demands (`resolveObligations`,
--   `canResolve`, the obligations of a turn), Turn (`projectOperator`, `applyReset`,
--   `baselineEligible`), Push (`Push`, `observeWrites`, `Finish`, `StopObservation`); Invariant,
--   Soundness, Panics, Stamped and Bounded prove.
-- - Panel: pkg/panel; Text (`Fit`, `Ends`, `TrimRightVisible`, `Box`; Width and Trimming prove),
--   Pane (`Pane.Row`), Table (`Table.Draw`; Lines proves), Track (`Observe`, `Active`, `Decay`).
-- - Store: internal/store/session.go; `SanitizeID`, `FileFor`.
-- - Tests: the theorems at concrete inputs.
--
-- State and errors: a method of the source is a function from a state to a state and the drafts
-- of the events that it emits, in order. `none` of `push` is a panic; a log keeps the payload
-- that `Emit` panicked on. A pointer that several fields share is a position in one store. A nil
-- map is `none`, a Go map an association list.
--
-- Numbers: sequence numbers and epochs wrap at 2^64 where they are incremented; every other
-- count is a natural number, and differences are of a later and an earlier turn. A time is its
-- distance from Go's zero time in nanoseconds. Loops are recursion on the list that they range
-- over. Two have fuel: `sentences`, whose index grows at each round, has one round more than the
-- text has bytes, and the theorem on it shows that the spans reach the end; the digits of `pad`
-- have as many rounds as the number. The rounds of `Next` and the steps of the pool are
-- arguments, of any length.
--
-- Parameters: which payloads json.Marshal takes (`IsEncoder` names what a theorem uses of it),
-- the classifier's answer at each record of the projector, the compiled patterns of a profile, a
-- model's decoded answer, digests and JSON texts of a job, what a growing file shows, the
-- Unicode tables, and the comparisons of float64; `IsRounded` names what a theorem uses of the
-- last, and Tests/Numbers has comparisons that meet it.
--
-- Not modelled: requests over the network, adapters and harnesses, files, rendering but for the
-- tables of the panel, calibration, and how profiles are read and merged. The digest of an
-- event's id is kept as what it hashes, and the license sentences of payloads as constructors,
-- one for each place that emits. The text that a payload is encoded to, and stamping a
-- classifier with the epoch, are left out.
pub mod Base
pub mod Classify
pub mod Config
pub mod Event
pub mod Floats
pub mod Labels
pub mod Metrics
pub mod Observe
pub mod Panel
pub mod Profile
pub mod State
pub mod Store
pub mod Stream
pub mod Tests
