-- ===== src/State/Identity.antt =====
-- The events of one record have different ids; internal/event/event.go, internal/state/projector.go.
use flow_indicator.Base.{
  ℕ, ◌+◌, ◌<◌, ◌≤◌, ◌≡◌, refl, inl, inr, Bool, false, some, Option-cases, Bool-cases, ap, sym, ◌∙◌,
  List, [], ◌∷◌, arith, get_elem?, append_last_origin,
}
use mathlib.Core.Logic.{ite}
use flow_indicator.Event.{Kind, Kind-discrete, Event, Builder, emit, stamp, set_epoch}
use flow_indicator.State.Payloads.{Payload, Draft}
use flow_indicator.State.Log.{Log, empty_log, enter, say_one, say}

-- Every event carries an ordinal that its builder has given away, no two events share an id, and a
-- panic is one on a payload that json.Marshal refuses.
pub record IsStamped (m : Payload → Bool) (l : Log) : Type 0 where
  pub given :
      (i : ℕ) (a : Event Payload)
      → get_elem? l.out i ≡ some a
      → (a.id.seq ≡ l.builder.seq) × (a.id.ordinal < l.builder.ordinals a.id.kind)
  pub distinct :
      (i j : ℕ) (a b : Event Payload)
      → get_elem? l.out i ≡ some a
      → get_elem? l.out j ≡ some b
      → a.id ≡ b.id
      → i ≡ j
  pub encoder : l.marshals ≡ m
  pub refused : (x : Payload) → l.panic ≡ some x → m x ≡ false

ite-le : {A : Type 0} (d : Dec A) (n : ℕ) → n ≤ ite d (n + 1) n
ite-le (yes a) n = omega arith
ite-le (no a) n = omega arith

ite_self : (k : Kind) (d : Dec (k ≡ k)) (n : ℕ) → ite d (n + 1) n ≡ n + 1
ite_self k (yes a) n = refl
ite_self k (no a) n = absurd (a refl)

stamp-IsStamped :
    (m : Payload → Bool) (d : Draft) (l : Log)
    → IsStamped m l
    → IsStamped m (enter d.payload l (some (stamp d.kind d.evidence_class d.payload l.builder)))
unfolding stamp
stamp-IsStamped m d l v =
    let more = λ (j : Kind). ite-le (Kind-discrete j d.kind) (l.builder.ordinals j) in
    let next = ite_self d.kind (Kind-discrete d.kind d.kind) (l.builder.ordinals d.kind) in
    let e : Event Payload = (stamp d.kind d.evidence_class d.payload l.builder).1 in
    record {
      given = λ i a h. elim (append_last_origin l.out e i a h) [
        | inl (q, p) ↦ rw p (refl, omega (arith, next))
        | inr at ↦ let (s, o) = v.given i a at in (s, omega (arith, more a.id.kind))
      ];
      distinct = λ i j a b ha hb q. elim (append_last_origin l.out e i a ha) [
        | inl (i', p) ↦ elim (append_last_origin l.out e j b hb) [
          | inl (j', p') ↦ cc
          | inr at ↦
              let k : d.kind ≡ b.id.kind = cc in
              let o : l.builder.ordinals d.kind ≡ b.id.ordinal = cc in
              let lt = v.given j b at in
              let o' : l.builder.ordinals b.id.kind ≡ b.id.ordinal = rw (← k) o in
              absurd (omega (arith, lt.1, o'))
        ]
        | inr at ↦ elim (append_last_origin l.out e j b hb) [
          | inl (j', p') ↦
              let k : d.kind ≡ a.id.kind = cc in
              let o : l.builder.ordinals d.kind ≡ a.id.ordinal = cc in
              let lt = v.given i a at in
              let o' : l.builder.ordinals a.id.kind ≡ a.id.ordinal = rw (← k) o in
              absurd (omega (arith, lt.1, o'))
          | inr at' ↦ v.distinct i j a b at at' q
        ]
      ];
      encoder = v.encoder;
      refused = v.refused;
    }

say_one-IsStamped :
    (m : Payload → Bool) (d : Draft) (l : Log) → IsStamped m l → IsStamped m (say_one d l)
unfolding say_one emit
say_one-IsStamped m d l v = elim (Option-cases l.panic) [
  | inr (x, over) ↦ rw (say_one, over) v
  | inl going ↦ elim (Bool-cases (l.marshals d.payload)) [
    | inl taken ↦ rw (say_one, emit, going, taken) (stamp-IsStamped m d l v)
    | inr unfit ↦
        let refused : m d.payload ≡ false = sym (ap (λ f. f d.payload) v.encoder) ∙ unfit in
        rw (say_one, emit, going, unfit)
          (record {
            given = v.given;
            distinct = v.distinct;
            encoder = v.encoder;
            refused = λ x h. let e : d.payload ≡ x = cc in ap m (sym e) ∙ refused;
          })
  ]
]

pub say-IsStamped :
    {m : Payload → Bool} (ds : List Draft) (l : Log) → IsStamped m l → IsStamped m (say ds l)
unfolding say
say-IsStamped [] l v = v
say-IsStamped (d ∷ ds) l v = say-IsStamped ds (say_one d l) (say_one-IsStamped _ d l v)

pub empty-IsStamped : (m : Payload → Bool) (b : Builder) → IsStamped m (empty_log m b)
empty-IsStamped m b = record {
  given = λ i a h. cc;
  distinct = λ i j a b ha hb q. cc;
  encoder = refl;
  refused = λ x h. cc;
}

pub set_epoch-IsStamped :
    {m : Payload → Bool} (epoch : ℕ) (l : Log)
    → IsStamped m l
    → IsStamped m (record l { builder = set_epoch epoch l.builder })
unfolding set_epoch
set_epoch-IsStamped epoch l v = record {
  given = v.given;
  distinct = v.distinct;
  encoder = v.encoder;
  refused = v.refused;
}
