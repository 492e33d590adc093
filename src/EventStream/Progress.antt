-- ===== src/EventStream/Progress.antt =====
-- The loop of `nextEvent` ends: each round uses up bytes of the stream.
use btui.Prelude.{
  ℕ, zero, suc, ◌-◌, ◌≤◌, ◌<◌, ◌≡◌, refl, ap, false, Option, none, some, List, [], ◌∷◌, length,
  length-drop, take, drop, ◌≢◌, arith, Bool-cases, inl, inr,
}
use btui.Result.{Result, ok, throw}
use btui.Range.{Range, view, read, empty, le_value}
use btui.EntryStream.{Istream, next_entry_payload, next_range_payload}
use btui.EntryStream.Positions.{payload-advances}
use btui.EventStream.{
  Event, EventStream, EntryStream, Outcome, after, on_payload, handle_entry, next_event,
}
use btui.EventStream.Decode.{range_stream}

-- `IstreamEntryStream` is an entry stream.
abbrev pub istream_stream : EntryStream Istream
istream_stream = record { next_entry_payload = next_entry_payload }

-- A stream whose payloads use up its bytes.
pub record Shrinks {S : Type 0} (input : EntryStream S) : Type 1 where
  pub Valid : S → Type 0
  pub left : S → ℕ
  pub shrinks :
      (s : S) {s' : S} {p : Range}
      → Valid s
      → input.next_entry_payload s ≡ (s', ok p)
      → empty p ≡ false
      → Valid s' × (left s' < left s)

module _ {S : Type 0} {input : EntryStream S} (l : Shrinks input) where
  -- On a stream whose payloads use up its bytes: with more fuel than bytes are left, `nextEvent`
  -- returns.
  pub next_event_total :
      (f : ℕ) (s : S) (es : EventStream)
      → l.Valid s
      → l.left s < f
      → (r : S × Outcome (Option Event)) × (next_event input f s es ≡ some r)
  unfolding next_event
  next_event_total zero s es v h = absurd (omega arith)
  next_event_total (suc f) s es v h =
      go (λ s' es' v' k. next_event_total f s' es' v' k) (input.next_entry_payload s) refl
    where
      after_some :
          (s' : S) (o : Outcome (Option Event))
          → ((es' : EventStream)
              → (r : S × Outcome (Option Event)) × (next_event input f s' es' ≡ some r))
          → (r : S × Outcome (Option Event)) × (after (λ s1 es1. next_event input f s1 es1) s' o
              ≡ some r)
      after_some s' (es', throw e) k = ((s', (es', throw e)), refl)
      after_some s' (es', ok (some ev)) k = ((s', (es', ok (some ev))), refl)
      after_some s' (es', ok none) k = k es'

      go :
          ((s' : S) (es' : EventStream)
            → l.Valid s'
            → l.left s' < f
            → (r : S × Outcome (Option Event)) × (next_event input f s' es' ≡ some r))
          → (x : S × Result Range) → input.next_entry_payload s ≡ x
          → (r : S × Outcome (Option Event)) × (on_payload
                (λ s1 es1. next_event input f s1 es1)
                es
                x
              ≡ some r)
      go ih (s', throw e) eq = ((s', (es, throw e)), refl)
      go ih (s', ok p) eq = elim (Bool-cases (empty p)) [
        | inl e ↦ ((s', (es, ok none)), rw e)
        | inr e ↦
            let (v', less) = l.shrinks s v eq e in
            rw e (after_some s' (handle_entry p es) (λ es'. ih s' es' v' (omega arith)))
      ]

pub range_shrinks_step :
    (s : Range) {s' : Range} {p : Range}
    → next_range_payload s ≡ (s', ok p)
    → empty p ≡ false
    → length s' < length s
unfolding next_range_payload empty read view
range_shrinks_step s {s'} {p} e f =
    ground (arith, length-drop 4 s, length-drop (le_value (take 4 s)) (drop 4 s))

abbrev pub range_shrinks : Shrinks range_stream
range_shrinks = record {
  Valid = λ s. Unit {0};
  left = λ s. length s;
  shrinks = λ s v e f. (tt, range_shrinks_step s e f);
}

empty-false : (p : Range) → empty p ≡ false → p ≢ []
unfolding empty
empty-false [] f = cc
empty-false (b ∷ p) f = λ e. cc

nonempty : (p : Range) → empty p ≡ false → 0 < length p
unfolding empty
nonempty [] f = cc
nonempty (b ∷ p) f = omega arith

pub istream_shrinks_step :
    (s : Istream) {s' : Istream} {p : Range}
    → s.pos ≤ length s.content
    → next_entry_payload s ≡ (s', ok p)
    → empty p ≡ false
    → (s'.pos ≤ length s'.content) × (length s'.content - s'.pos < length s.content - s.pos)
istream_shrinks_step s {s'} {p} v e f =
    let (good, same, moved, long, is, within) = payload-advances s v e (empty-false p f) in
    rw same (omega (arith, nonempty p f, ap (λ (c : List ℕ). length c) same))

abbrev pub istream_shrinks : Shrinks istream_stream
istream_shrinks = record {
  Valid = λ s. s.pos ≤ length s.content;
  left = λ s. length s.content - s.pos;
  shrinks = λ s v e f. istream_shrinks_step s v e f;
}
