-- ===== src/EventStream.antt =====
-- include/binlog/EventStream.hpp and EventStream.cpp: from a stream of entries to events. The pointer to
-- an event's source is the source that it points to. A member function that may throw returns the new
-- state beside its result, since the state may have changed before the exception.

pub mod Errors
pub mod Decode
pub mod Progress
pub mod Advance
pub mod Istreams
mod Tests
use btui.Prelude.{
  ℕ, zero, suc, ◌-◌, ◌/◌, ◌%◌, ◌^◌, Bool, Option, none, some, List, [], ◌==◌, if◌then◌else◌,
}
use btui.Result.{Result, ok, throw, Error}
use btui.Range.{Range, read, empty}
use btui.SegmentedMap.{SegmentedMap, new, emplace, find}
use btui.Entries.{
  EventSource, WriterProp, ClockSync, Entry, event_source_entry, writer_prop_entry,
  clock_sync_entry, default_writer_prop, default_clock_sync,
}

pub record Event : Type 0 where
  pub source : Option EventSource
  pub clock_value : ℕ
  pub arguments : Range

pub record EventStream : Type 0 where
  pub event_sources : SegmentedMap EventSource
  pub writer_prop : WriterProp
  pub clock_sync : ClockSync
  pub event : Event

unfoldable pub fresh : EventStream
fresh = record {
  event_sources = new;
  writer_prop = default_writer_prop;
  clock_sync = default_clock_sync;
  event = record { source = none; clock_value = 0; arguments = [] };
}

abbrev pub Outcome : Type 0 → Type 0
Outcome A = EventStream × Result A

-- The members are updated only if `deserialize` does not throw.
abbrev pub store_source : EventStream → Result (EventSource × Range) → Outcome (Unit {0})
store_source es (throw e) = (es, throw e)
store_source es (ok (source, rest)) =
    (record es { event_sources = emplace source.id source es.event_sources }, ok tt)

unfoldable pub read_event_source : Range → EventStream → Outcome (Unit {0})
read_event_source r es = store_source es (event_source_entry.deserialize r)

abbrev pub store_writer_prop : EventStream → Result (WriterProp × Range) → Outcome (Unit {0})
store_writer_prop es (throw e) = (es, throw e)
store_writer_prop es (ok (w, rest)) = (record es { writer_prop = w }, ok tt)

unfoldable pub read_writer_prop : Range → EventStream → Outcome (Unit {0})
read_writer_prop r es = store_writer_prop es (writer_prop_entry.deserialize r)

abbrev pub store_clock_sync : EventStream → Result (ClockSync × Range) → Outcome (Unit {0})
store_clock_sync es (throw e) = (es, throw e)
store_clock_sync es (ok (c, rest)) = (record es { clock_sync = c }, ok tt)

unfoldable pub read_clock_sync : Range → EventStream → Outcome (Unit {0})
read_clock_sync r es = store_clock_sync es (clock_sync_entry.deserialize r)

-- `_event.source` is assigned before the clock value is read, which may throw.
abbrev pub store_event : EventStream → EventSource → Result (ℕ × Range) → Outcome (Unit {0})
store_event es source (throw e) =
    (record es { event = record es.event { source = some source } }, throw e)
store_event es source (ok (clock, rest)) = (
  record es { event = record { source = some source; clock_value = clock; arguments = rest } },
  ok tt,
)

abbrev pub read_event_of : ℕ → Range → EventStream → Option EventSource → Outcome (Unit {0})
read_event_of id r es none = (es, throw (Error.invalid_source id))
read_event_of id r es (some source) = store_event es source (read 8 r)

unfoldable pub read_event : ℕ → Range → EventStream → Outcome (Unit {0})
read_event id r es = read_event_of id r es (find id es.event_sources)

-- `(tag & (std::uint64_t(1) << 63)) != 0`
abbrev pub special : ℕ → Bool
special tag = tag / 2 ^ 63 % 2 == 1

unfoldable pub read_special : ℕ → Range → EventStream → Outcome (Unit {0})
read_special tag r es =
    if tag == event_source_entry.tag
    then read_event_source r es
    else (if tag == writer_prop_entry.tag
        then read_writer_prop r es
        else (if tag == clock_sync_entry.tag then read_clock_sync r es else (es, ok tt)))

abbrev pub skip : Outcome (Unit {0}) → Outcome (Option Event)
skip (es, throw e) = (es, throw e)
skip (es, ok u) = (es, ok none)

abbrev pub deliver : Outcome (Unit {0}) → Outcome (Option Event)
deliver (es, throw e) = (es, throw e)
deliver (es, ok u) = (es, ok (some es.event))

abbrev pub dispatch : EventStream → Result (ℕ × Range) → Outcome (Option Event)
dispatch es (throw e) = (es, throw e)
dispatch es (ok (tag, rest)) =
    if special tag then skip (read_special tag rest es) else deliver (read_event tag rest es)

-- The body of the loop of `nextEvent` for a payload that is not empty: `none` goes on with the loop.
unfoldable pub handle_entry : Range → EventStream → Outcome (Option Event)
handle_entry payload es = dispatch es (read 8 payload)

-- The virtual `EntryStream`.
pub record EntryStream (S : Type 0) : Type 0 where
  pub next_entry_payload : S → S × Result Range

-- One round of the loop, with `k` for the rounds after it.
abbrev pub after :
    {S : Type 0}
    → (S → EventStream → Option (S × Outcome (Option Event)))
    → S
    → Outcome (Option Event)
    → Option (S × Outcome (Option Event))
after k s (es, throw e) = some (s, (es, throw e))
after k s (es, ok (some event)) = some (s, (es, ok (some event)))
after k s (es, ok none) = k s es

abbrev pub on_payload :
    {S : Type 0}
    → (S → EventStream → Option (S × Outcome (Option Event)))
    → EventStream
    → S × Result Range
    → Option (S × Outcome (Option Event))
on_payload k es (s, throw e) = some (s, (es, throw e))
on_payload k es (s, ok payload) =
    if empty payload then some (s, (es, ok none)) else after k s (handle_entry payload es)

-- `nextEvent` with fuel for its loop; `none` means that the fuel ran out.
unfoldable pub next_event :
    {S : Type 0} → EntryStream S → ℕ → S → EventStream → Option (S × Outcome (Option Event))
next_event input zero s es = none
next_event input (suc fuel) s es =
    on_payload (λ s' es'. next_event input fuel s' es') es (input.next_entry_payload s)
