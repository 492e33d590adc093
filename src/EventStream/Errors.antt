-- ===== src/EventStream/Errors.antt =====
-- What an entry leaves of the state when it throws, and that the state stays well formed.
use btui.Prelude.{ℕ, ◌≡◌, refl, subst, Option, none, some, ◌==◌, Bool-cases, inl, inr}
use btui.Result.{Result, ok, throw, Error}
use btui.Range.{Range, read}
use btui.SegmentedMap.{find}
use btui.Entries.{
  EventSource, WriterProp, ClockSync, event_source_entry, writer_prop_entry, clock_sync_entry,
}
use btui.EventStream.{
  EventStream, dispatch, store_event, read_event_of, store_source, store_writer_prop,
  store_clock_sync, read_event_source, read_writer_prop, read_clock_sync, read_event, special,
  read_special, skip, deliver, handle_entry, Outcome,
}

-- What a failed entry may have changed: at most the source of the last event.
pub record Unchanged (es es' : EventStream) : Type 0 where
  pub same_sources : es'.event_sources ≡ es.event_sources
  pub same_writer : es'.writer_prop ≡ es.writer_prop
  pub same_clock : es'.clock_sync ≡ es.clock_sync
  pub same_value : es'.event.clock_value ≡ es.event.clock_value
  pub same_arguments : es'.event.arguments ≡ es.event.arguments

Unchanged-refl : (es : EventStream) → Unchanged es es
Unchanged-refl es = record {
  same_sources = refl;
  same_writer = refl;
  same_clock = refl;
  same_value = refl;
  same_arguments = refl;
}

-- A step keeps the state if it throws.
abbrev KeepsOnThrow : {A : Type 0} → EventStream → EventStream × Result A → Type 0
KeepsOnThrow es (es', throw e) = Unchanged es es'
KeepsOnThrow es (es', ok a) = Unit {0}

source_keeps :
    (es : EventStream) (x : Result (EventSource × Range)) → KeepsOnThrow es (store_source es x)
source_keeps es (throw e) = Unchanged-refl es
source_keeps es (ok (a, r)) = tt

writer_prop_keeps :
    (es : EventStream) (x : Result (WriterProp × Range)) → KeepsOnThrow es (store_writer_prop es x)
writer_prop_keeps es (throw e) = Unchanged-refl es
writer_prop_keeps es (ok (a, r)) = tt

clock_sync_keeps :
    (es : EventStream) (x : Result (ClockSync × Range)) → KeepsOnThrow es (store_clock_sync es x)
clock_sync_keeps es (throw e) = Unchanged-refl es
clock_sync_keeps es (ok (a, r)) = tt

special_keeps : (tag : ℕ) (r : Range) (es : EventStream) → KeepsOnThrow es (read_special tag r es)
unfolding read_special read_event_source read_writer_prop read_clock_sync
special_keeps tag r es = elim (Bool-cases (tag == event_source_entry.tag)) [
  | inl a ↦ rw a (source_keeps es (event_source_entry.deserialize r))
  | inr a ↦ elim (Bool-cases (tag == writer_prop_entry.tag)) [
    | inl b ↦ rw (a, b) (writer_prop_keeps es (writer_prop_entry.deserialize r))
    | inr b ↦ elim (Bool-cases (tag == clock_sync_entry.tag)) [
      | inl c ↦ rw (a, b, c) (clock_sync_keeps es (clock_sync_entry.deserialize r))
      | inr c ↦ rw (a, b, c) tt
    ]
  ]
]

store_event_keeps :
    (es : EventStream) (source : EventSource) (x : Result (ℕ × Range))
    → KeepsOnThrow es (store_event es source x)
store_event_keeps es source (throw e) = record {
  same_sources = refl;
  same_writer = refl;
  same_clock = refl;
  same_value = refl;
  same_arguments = refl;
}
store_event_keeps es source (ok (v, r)) = tt

read_event_of_keeps :
    (id : ℕ) (r : Range) (es : EventStream) (x : Option EventSource)
    → KeepsOnThrow es (read_event_of id r es x)
read_event_of_keeps id r es none = Unchanged-refl es
read_event_of_keeps id r es (some source) = store_event_keeps es source (read 8 r)

skip_keeps :
    (es : EventStream) (x : Outcome (Unit {0})) → KeepsOnThrow es x → KeepsOnThrow es (skip x)
skip_keeps es (es', throw e) h = h
skip_keeps es (es', ok u) h = tt

deliver_keeps :
    (es : EventStream) (x : Outcome (Unit {0})) → KeepsOnThrow es x → KeepsOnThrow es (deliver x)
deliver_keeps es (es', throw e) h = h
deliver_keeps es (es', ok u) h = tt

dispatch_keeps : (es : EventStream) (x : Result (ℕ × Range)) → KeepsOnThrow es (dispatch es x)
unfolding read_event
dispatch_keeps es (throw e) = Unchanged-refl es
dispatch_keeps es (ok (tag, r)) = elim (Bool-cases (special tag)) [
  | inl a ↦ rw a (skip_keeps es (read_special tag r es) (special_keeps tag r es))
  | inr a ↦ rw a (
      deliver_keeps es (read_event tag r es)
        (read_event_of_keeps tag r es (find tag es.event_sources)))
]

-- If an entry makes `nextEvent` throw, then the sources, the writer and the clock stay as they were, and
-- of the last event at most the source has changed.
pub throw-Unchanged :
    (payload : Range) (es : EventStream) {es' : EventStream} {e : Error}
    → handle_entry payload es ≡ (es', throw e)
    → Unchanged es es'
unfolding handle_entry
throw-Unchanged payload es h = subst (KeepsOnThrow es) h (dispatch_keeps es (read 8 payload))
