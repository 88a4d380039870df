-- ===== src/Stream/Tail.antt =====
-- internal/stream/tail.go: a tail of an append-only file, which yields chunks of whole records.
--
-- What the file shows at each round of the loop of `Next` is an argument, a `Poll`; a byte is a
-- number, and offsets do not reach 2^63.
mod Bytes
pub mod Delivery
use flow_indicator.Base.{
  ℕ, zero, suc, ◌+◌, ◌-◌, Bool, true, false, Option, none, some, List, [], ◌∷◌, ◌++◌, ltb, ◌==◌,
  if◌then◌else◌, length, take, drop, get_elem?,
}

-- `position` is the read position of the `*os.File`.
pub record Tail : Type 0 where
  pub position : ℕ
  pub offset : ℕ
  pub partial : List ℕ

-- One round: whether Stat fails, what the file holds, how many bytes Read gives at most, whether it
-- fails with something else than io.EOF, and whether the context is found ended.
pub record Poll : Type 0 where
  pub stat_fails : Bool
  pub contents : List ℕ
  pub limit : ℕ
  pub read_fails : Bool
  pub context_ended : Bool

pub data Outcome : Type 0 where
  chunk : List ℕ → ℕ → Outcome
  stat_failed truncated read_failed canceled : Outcome
  -- The rounds given are over and the loop goes on.
  waiting : Outcome

pub data Opened : Type 0 where
  opened : Tail → Opened
  open_failed open_stat_failed seek_failed : Opened

abbrev pub clamp_offset : Option ℕ → ℕ → ℕ
clamp_offset none size = size
clamp_offset (some offset) size = if ltb size offset then size else offset

-- `OpenTail`: `none` is `TailFromEnd`; `ok` says which of Open, Stat and Seek succeed.
unfoldable pub open_tail : (open_ok stat_ok seek_ok : Bool) → (size : ℕ) → Option ℕ → Opened
open_tail open_ok stat_ok seek_ok size offset =
    let at = clamp_offset offset size in
    if open_ok
    then if stat_ok
      then if seek_ok
        then opened (record { position = at; offset = at; partial = [] })
        else seek_failed
      else open_stat_failed
    else open_failed

-- `f.Read(buf)`: the bytes at the position, up to the limit.
abbrev pub read_at : ℕ → ℕ → List ℕ → List ℕ
read_at position limit contents = take limit (drop position contents)

abbrev pub is_newline_at : List ℕ → ℕ → Bool
is_newline_at b i = elim (get_elem? b i) [ none ↦ false | some c ↦ c == 10 ]

-- The loop of `lastNewline`, with the places below `n` left to look at.
pub last_newline_from : ℕ → List ℕ → Option ℕ
last_newline_from zero b = none
last_newline_from (suc i) b =
    let below = last_newline_from i b in if is_newline_at b i then some i else below

pub last_newline : List ℕ → Option ℕ
unfolding last_newline_from
last_newline b = last_newline_from (length b) b

-- `n, err := t.f.Read(buf)` and `t.partial = append(t.partial, buf[:n]...)`.
abbrev pub read_in : Tail → List ℕ → Tail
read_in t got = record t { position = t.position + length got; partial = t.partial ++ got }

-- The cut after the last newline, if there is one.
abbrev pub cut_at : Tail → Option ℕ → Option Outcome × Tail
cut_at t none = (none, t)
cut_at t (some cut) = (
  some (chunk (take (cut + 1) t.partial) t.offset),
  record t {
    offset = t.offset + length (take (cut + 1) t.partial);
    partial = drop (cut + 1) t.partial;
  },
)

abbrev pub absorb : Tail → List ℕ → Option Outcome × Tail
absorb t got = cut_at (read_in t got) (last_newline (t.partial ++ got))

-- `Next`, which leaves the rounds that it did not look at to a later call.
unfoldable pub next : Tail → List Poll → Outcome × Tail
unfolding last_newline
next t [] = (waiting, t)
next t (p ∷ ps) =
    if p.stat_fails
    then (stat_failed, t)
    else if ltb (length p.contents) (t.offset + length t.partial)
    then (truncated, t)
    else elim (read_at t.position p.limit p.contents) [
      | c ∷ got ↦ elim (absorb t (c ∷ got)).0 [
        | some out ↦ (out, (absorb t (c ∷ got)).1)
        | none ↦ next (absorb t (c ∷ got)).1 ps
      ]
      | [] ↦
          if p.read_fails
          then (read_failed, t)
          else elim p.context_ended [ true ↦ (canceled, t) | false ↦ next t ps ]
    ]

abbrev pub delivered_by : Outcome → List ℕ
delivered_by (chunk b start) = b
delivered_by _ = []

-- A watch: one call of `Next` after another, each with its own rounds. The bytes delivered, in
-- order, and the tail at the end.
unfoldable pub follow : Tail → List (List Poll) → List ℕ × Tail
unfolding next
follow t [] = ([], t)
follow t (call ∷ calls) =
    let (out, t') = next t call in
    let (later, t'') = follow t' calls in (delivered_by out ++ later, t'')
