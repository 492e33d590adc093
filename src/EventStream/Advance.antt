-- ===== src/EventStream/Advance.antt =====
-- What `nextEvent` leaves of a stream: it never goes back, an event uses up bytes, and it has a source.
use btui.Prelude.{
  ℕ, zero, suc, ◌-◌, ◌≤◌, ◌<◌, ◌≡◌, refl, ap, Option, none, some, List, length, arith, Bool-cases,
  inl, inr,
}
use btui.Result.{Result, ok, throw}
use btui.Range.{Range, empty, read}
use btui.SegmentedMap.{find}
use btui.Entries.{EventSource}
use btui.EntryStream.{Istream, next_entry_payload}
use btui.EntryStream.Positions.{payload-forward}
use btui.EventStream.{
  Event, EventStream, EntryStream, Outcome, after, on_payload, handle_entry, next_event, dispatch,
  deliver, skip, special, read_event, read_event_of, store_event, read_special,
}
use btui.EventStream.Progress.{Shrinks, istream_shrinks}

-- An event that is returned has a source.
abbrev pub HasSource : Outcome (Option Event) → Type 0
HasSource (es, throw e) = Unit {0}
HasSource (es, ok none) = Unit {0}
HasSource (es, ok (some event)) = (source : EventSource) × (event.source ≡ some source)

skip-HasSource : (o : Outcome (Unit {0})) → HasSource (skip o)
skip-HasSource (es, throw e) = tt
skip-HasSource (es, ok u) = tt

store-HasSource :
    (es : EventStream) (source : EventSource) (r : Result (ℕ × Range))
    → HasSource (deliver (store_event es source r))
store-HasSource es source (throw e) = tt
store-HasSource es source (ok (clock, rest)) = (source, refl)

found-HasSource :
    (id : ℕ) (r : Range) (es : EventStream) (o : Option EventSource)
    → HasSource (deliver (read_event_of id r es o))
found-HasSource id r es none = tt
found-HasSource id r es (some source) = store-HasSource es source (read 8 r)

dispatch-HasSource : (es : EventStream) (r : Result (ℕ × Range)) → HasSource (dispatch es r)
unfolding read_event
dispatch-HasSource es (throw e) = tt
dispatch-HasSource es (ok (tag, rest)) = elim (Bool-cases (special tag)) [
  | inl e ↦ rw e (skip-HasSource (read_special tag rest es))
  | inr e ↦ rw e (found-HasSource tag rest es (find tag es.event_sources))
]

handle_entry-HasSource : (p : Range) (es : EventStream) → HasSource (handle_entry p es)
unfolding handle_entry
handle_entry-HasSource p es = dispatch-HasSource es (read 8 p)

-- A stream that does not go back.
pub record Advances {S : Type 0} {input : EntryStream S} (l : Shrinks input) : Type 0 where
  pub keeps :
      (s : S) {s' : S} {r : Result Range}
      → l.Valid s
      → input.next_entry_payload s ≡ (s', r)
      → l.Valid s' × (l.left s' ≤ l.left s)

istream_keeps :
    (s : Istream) {s' : Istream} {r : Result Range}
    → s.pos ≤ length s.content
    → next_entry_payload s ≡ (s', r)
    → (s'.pos ≤ length s'.content) × (length s'.content - s'.pos ≤ length s.content - s.pos)
istream_keeps s {s'} {r} v e =
    let (same, forward, inside) = payload-forward s v e in
    rw same (omega (arith, ap (λ (c : List ℕ). length c) same))

pub istream-Advances : Advances istream_shrinks
istream-Advances = record { keeps = λ s v e. istream_keeps s v e }

module _ {S : Type 0} {input : EntryStream S} (l : Shrinks input) (a : Advances l) where
  -- What a call leaves of the stream.
  abbrev pub Leaves : S → S × Outcome (Option Event) → Type 0
  Leaves s (s', (es', throw e)) = l.Valid s' × (l.left s' ≤ l.left s)
  Leaves s (s', (es', ok none)) = l.Valid s' × (l.left s' ≤ l.left s)
  Leaves s (s', (es', ok (some event))) =
      (l.Valid s' × (l.left s' < l.left s)) × HasSource (es', ok (some event))

  -- A call that goes on from a stream with fewer bytes.
  further :
      (s s' : S)
      → l.left s' < l.left s
      → (r : S × Outcome (Option Event)) → Leaves s' r
      → Leaves s r
  further s s' h (s1, (es1, throw e)) (v, k) = (v, omega arith)
  further s s' h (s1, (es1, ok none)) (v, k) = (v, omega arith)
  further s s' h (s1, (es1, ok (some event))) ((v, k), w) = ((v, omega arith), w)

  abbrev Returns : S → Option (S × Outcome (Option Event)) → Type 0
  Returns s o = (r : S × Outcome (Option Event)) × (o ≡ some r) × Leaves s r

  after-Returns :
      (k : S → EventStream → Option (S × Outcome (Option Event))) (s s' : S)
      (o : Outcome (Option Event))
      → HasSource o
      → l.Valid s'
      → l.left s' < l.left s
      → ((es' : EventStream) → Returns s' (k s' es'))
      → Returns s (after k s' o)
  after-Returns k s s' (es', throw e) w v h g = ((s', (es', throw e)), refl, (v, omega arith))
  after-Returns k s s' (es', ok none) w v h g = let (r, e, q) = g es' in (r, e, further s s' h r q)
  after-Returns k s s' (es', ok (some event)) w v h g =
      ((s', (es', ok (some event))), refl, ((v, h), w))

  payload-Returns :
      (k : S → EventStream → Option (S × Outcome (Option Event))) (s : S) (es : EventStream)
      → l.Valid s
      → ((s' : S) (es' : EventStream) → l.Valid s' → l.left s' < l.left s → Returns s' (k s' es'))
      → (x : S × Result Range) → input.next_entry_payload s ≡ x
      → Returns s (on_payload k es x)
  payload-Returns k s es v g (s', throw e) q = ((s', (es, throw e)), refl, a.keeps s v q)
  payload-Returns k s es v g (s', ok p) q = elim (Bool-cases (empty p)) [
    | inl e ↦ ((s', (es, ok none)), rw e refl, a.keeps s v q)
    | inr e ↦
        let (v', less) = l.shrinks s v q e in
        rw e (
          after-Returns k s s' (handle_entry p es) (handle_entry-HasSource p es) v' less
            (λ es'. g s' es' v' less))
  ]

  pub next_event-Returns :
      (f : ℕ) (s : S) (es : EventStream)
      → l.Valid s
      → l.left s < f
      → Returns s (next_event input f s es)
  unfolding next_event
  next_event-Returns zero s es v h = absurd (omega arith)
  next_event-Returns (suc f) s es v h =
      payload-Returns (λ s' es'. next_event input f s' es') s es v
        (λ s' es' v' less. next_event-Returns f s' es' v' (omega arith))
        (input.next_entry_payload s) refl
