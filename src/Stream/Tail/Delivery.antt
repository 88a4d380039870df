-- ===== src/Stream/Tail/Delivery.antt =====
-- A tail of an append-only file skips nothing and delivers nothing twice; internal/stream/tail.go.
use flow_indicator.Base.{
  ℕ, ◌+◌, ◌≤◌, ◌≡◌, ◌≢◌, refl, sym, ap, subst, ◌∙◌, ◌⊎◌, inl, inr, Bool, true, false, Option, none,
  some, List, [], ◌∷◌, ◌++◌, append_assoc, append-nil, arith, length, take, get_elem?, All,
  Bool-cases, Option-cases, List-cases, length-append, length-take, length-drop, get_elem?-drop,
  get_elem?-take, get_elem?-lt, ltb,
}
use flow_indicator.Stream.Tail.{
  Tail, Poll, Outcome, chunk, stat_failed, truncated, read_failed, canceled, waiting, read_at,
  last_newline, absorb, read_in, cut_at, next, delivered_by, follow, open_tail, opened,
  clamp_offset,
}
use flow_indicator.Stream.Tail.Bytes.{
  read-extends, absorb-held, last_newline_from-found, last_newline_from-none,
}

-- The tail stands at a place of the file: it holds the bytes between its offset and its position,
-- and they end no record.
pub record IsAt (file : List ℕ) (t : Tail) : Type 0 where
  pub placed : t.position ≡ t.offset + length t.partial
  pub within : t.position ≤ length file
  pub held : take t.position file ≡ take t.offset file ++ t.partial
  pub unfinished : (j : ℕ) → get_elem? t.partial j ≢ some 10

-- What a round shows is the file up to some length: the file is only appended to.
abbrev pub Shows : List ℕ → Poll → Type 0
Shows file p = p.contents ≡ take (length p.contents) file

-- What a call of `Next` owes: the tail still stands in the file, what was delivered is what lies
-- between the two offsets, and a chunk starts at the offset and ends with a newline.
pub record IsDelivery (file : List ℕ) (t : Tail) (out : Outcome) (t' : Tail) : Type 0 where
  pub kept : IsAt file t'
  pub delivered : take t'.offset file ≡ take t.offset file ++ delivered_by out
  pub whole :
      (b : List ℕ) (start : ℕ)
      → out ≡ chunk b start
      → (start ≡ t.offset) × (n : ℕ) × (length b ≡ n + 1) × (get_elem? b n ≡ some 10)

read_in-held :
    (file contents : List ℕ) (limit : ℕ) (t : Tail)
    → contents ≡ take (length contents) file
    → IsAt file t
    → let t' = read_in t (read_at t.position limit contents) in
      (t'.position ≡ t'.offset + length t'.partial)
      × (t'.position ≤ length file)
      × (take t'.position file ≡ take t'.offset file ++ t'.partial)
read_in-held file contents limit t shown v =
    let got = read_at t.position limit contents in
    let (e, i) = read-extends t.position file contents limit shown v.within in
    (
      omega (arith, length-append t.partial got, v.placed),
      i,
      e ∙ ap (λ ys. ys ++ got) v.held ∙ append_assoc (take t.offset file) t.partial got,
    )

-- The cut keeps what is held in place, and delivers the records that are whole.
cut_at-delivers :
    (file : List ℕ) (t : Tail) (cut : ℕ)
    → t.position ≡ t.offset + length t.partial
    → t.position ≤ length file
    → take t.position file ≡ take t.offset file ++ t.partial
    → last_newline t.partial ≡ some cut
    → IsDelivery file t (chunk (take (cut + 1) t.partial) t.offset) (cut_at t (some cut)).1
unfolding last_newline
cut_at-delivers file t cut placed within held found =
    let (lt, at, clear) = last_newline_from-found (length t.partial) t.partial cut found in
    let size : length (take (cut + 1) t.partial) ≡ cut + 1 =
      length-take (cut + 1) t.partial (omega arith) in
    let (front, back) =
      absorb-held file t.partial t.offset (cut + 1) t.position (omega arith) held placed
        (omega arith) in
    let rest = length-drop (cut + 1) t.partial in
    record {
      kept = record {
        placed = omega (arith, size, rest);
        within = within;
        held = rw size back;
        unfinished = λ j at'.
            let at'' = sym (get_elem?-drop (cut + 1) j t.partial) ∙ at' in
            clear (cut + 1 + j) (omega arith) (get_elem?-lt t.partial (cut + 1 + j) at'') at'';
      };
      delivered = rw size front;
      whole = λ b start e.
          let bytes : take (cut + 1) t.partial ≡ b = cc in
          let starts : start ≡ t.offset = cc in
          (
            starts,
            cut,
            rw (← bytes) size,
            rw (← bytes) (get_elem?-take (cut + 1) cut t.partial (omega arith) ∙ at),
          );
    }

-- One round that read `got`: it delivers, or it keeps its offset and goes on.
abbrev Absorbs : List ℕ → Tail → List ℕ → Type 0
Absorbs file t got =
    let (out, t') = absorb t got in
    ((out ≡ none) × IsAt file t' × (t'.offset ≡ t.offset))
    ⊎ ((made : Outcome) × (out ≡ some made) × IsDelivery file t made t')

absorb-delivers :
    (file contents : List ℕ) (limit : ℕ) (t : Tail)
    → contents ≡ take (length contents) file
    → IsAt file t
    → Absorbs file t (read_at t.position limit contents)
unfolding last_newline
absorb-delivers file contents limit t shown v =
    let got = read_at t.position limit contents in
    let t' = read_in t got in
    let (placed, within, held) = read_in-held file contents limit t shown v in
    elim (Option-cases (last_newline t'.partial)) [
      | inl missing ↦ rw missing (
          inl (
            refl,
            record {
              placed = placed;
              within = within;
              held = held;
              unfinished = λ j at.
                  last_newline_from-none (length t'.partial) t'.partial missing j
                    (get_elem?-lt t'.partial j at) at;
            },
            refl,
          ))
      | inr (cut, found) ↦
          let d = cut_at-delivers file t' cut placed within held found in
          rw found (
            inr (
              chunk (take (cut + 1) t'.partial) t.offset,
              refl,
              record { kept = d.kept; delivered = d.delivered; whole = d.whole },
            ))
    ]

-- An outcome that hands out nothing owes nothing but the place.
quiet :
    (file : List ℕ) (t : Tail) (out : Outcome)
    → IsAt file t
    → delivered_by out ≡ []
    → ((b : List ℕ) (start : ℕ) → out ≢ chunk b start)
    → IsDelivery file t out t
quiet file t out v none_out no_chunk = record {
  kept = v;
  delivered = rw none_out (sym (append-nil _));
  whole = λ b start e. absurd (no_chunk b start e);
}

carried :
    (file : List ℕ) (t u v : Tail) (out : Outcome)
    → u.offset ≡ t.offset
    → IsDelivery file u out v
    → IsDelivery file t out v
carried file t u v out e d = record {
  kept = d.kept;
  delivered = rw (← e) d.delivered;
  whole = rw (← e) d.whole;
}

-- One call of `Next` keeps the tail at its place in an append-only file, delivers what lies
-- between the two offsets, and a chunk it returns starts at the offset and ends with a newline.
pub next-delivers :
    (file : List ℕ) (t : Tail) (polls : List Poll)
    → All (Shows file) polls
    → IsAt file t
    → IsDelivery file t (next t polls).0 (next t polls).1
unfolding next
next-delivers file t [] shown v = quiet file t waiting v refl (λ b start. cc)
next-delivers file t (p ∷ ps) shown v = elim (Bool-cases p.stat_fails) [
  | inl fails ↦ rw fails (quiet file t stat_failed v refl (λ b start. cc))
  | inr stats ↦ elim (Bool-cases (ltb (length p.contents) (t.offset + length t.partial))) [
    | inl short ↦ rw (stats, short) (quiet file t truncated v refl (λ b start. cc))
    | inr long ↦ elim (List-cases (read_at t.position p.limit p.contents)) [
      | inl nothing ↦ elim (Bool-cases p.read_fails) [
        | inl bad ↦ rw (stats, long, nothing, bad) (quiet file t read_failed v refl (λ b start. cc))
        | inr good ↦ elim (Bool-cases p.context_ended) [
          | inl ended ↦
              rw (stats, long, nothing, good, ended) (quiet file t canceled v refl (λ b start. cc))
          | inr goes ↦ rw (stats, long, nothing, good, goes) (next-delivers file t ps shown.1 v)
        ]
      ]
      | inr (c, got, some_read) ↦
          elim (subst (Absorbs file t) some_read
            (absorb-delivers file p.contents p.limit t shown.0 v)) [
              | inl (more, kept, offset) ↦
                  let u = (absorb t (c ∷ got)).1 in
                  rw (stats, long, some_read, more)
                    (carried file t u (next u ps).1 (next u ps).0 offset
                      (next-delivers file u ps shown.1 kept))
              | inr (made, out, d) ↦ rw (stats, long, some_read, out) d
            ]
    ]
  ]
]

-- Call after call, the bytes delivered are those between the two offsets, in order.
pub follow-delivers :
    (file : List ℕ) (t : Tail) (calls : List (List Poll))
    → All (All (Shows file)) calls
    → IsAt file t
    → IsAt file (follow t calls).1
      × (take (follow t calls).1.offset file ≡ take t.offset file ++ (follow t calls).0)
unfolding follow
follow-delivers file t [] shown v = (v, sym (append-nil _))
follow-delivers file t (call ∷ calls) shown v =
    let d = next-delivers file t call shown.0 v in
    let (k, e) = follow-delivers file (next t call).1 calls shown.1 d.kept in
    (
      k,
      e
          ∙ ap (λ ys. ys ++ (follow (next t call).1 calls).0) d.delivered
          ∙ append_assoc (take t.offset file) (delivered_by (next t call).0) _,
    )

clamp_offset-le : (offset : Option ℕ) (size : ℕ) → clamp_offset offset size ≤ size
clamp_offset-le none size = omega arith
clamp_offset-le (some offset) size = ground arith

-- A tail that `OpenTail` returns stands in the file at its offset and holds nothing.
pub open_tail-IsAt :
    (file : List ℕ) (open_ok stat_ok seek_ok : Bool) (size : ℕ) (offset : Option ℕ) (t : Tail)
    → size ≤ length file
    → open_tail open_ok stat_ok seek_ok size offset ≡ opened t
    → IsAt file t
unfolding open_tail
open_tail-IsAt file false stat_ok seek_ok size offset t le e = cc
open_tail-IsAt file true false seek_ok size offset t le e = cc
open_tail-IsAt file true true false size offset t le e = cc
open_tail-IsAt file true true true size offset t le e =
    let at : clamp_offset offset size ≤ size = clamp_offset-le offset size in
    let here : record {
      position = clamp_offset offset size;
      offset = clamp_offset offset size;
      partial = [];
    }
        ≡ t =
      cc in
    rw (← here) (record {
      placed = omega arith;
      within = omega (arith, at);
      held = sym (append-nil _);
      unfinished = λ j at'. let e : ◌≡◌ {A = Option ℕ} none (some 10) = at' in cc;
    })

-- If a tail is opened at no more than the size of an append-only file, and each round of each
-- call of `Next` finds the file up to some length, then the bytes delivered, in order, are
-- exactly those of the file between the offset at the start and the offset at the end, and the
-- bytes held after it are the next ones of the file, up to the read position, without a newline.
pub watch-delivers :
    (file : List ℕ) (open_ok stat_ok seek_ok : Bool) (size : ℕ) (offset : Option ℕ) (t : Tail)
    (calls : List (List Poll))
    → size ≤ length file
    → open_tail open_ok stat_ok seek_ok size offset ≡ opened t
    → All (All (Shows file)) calls
    → let (bytes, t') = follow t calls in
      IsAt file t' × (take t'.offset file ≡ take t.offset file ++ bytes)
watch-delivers file open_ok stat_ok seek_ok size offset t calls le e shown =
    follow-delivers file t calls shown
      (open_tail-IsAt file open_ok stat_ok seek_ok size offset t le e)
