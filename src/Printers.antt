-- ===== src/Printers.antt =====
-- bin/printers.cpp, `printEvents` and `printSortedEvents`, and include/binlog/TextOutputStream.cpp: printing the
-- events of a stream of entries.
pub mod Items
pub mod Istreams
pub mod Sorted
pub mod Total
mod Tests
use btui.Prelude.{
  ℕ, zero, suc, ◌+◌, Bool, Option, none, some, List, [], ◌∷◌, ◌++◌, length, ltb, if◌then◌else◌,
}
use btui.Result.{Result, ok, throw}
use btui.Range.{Range}
use btui.Entries.{EventSource, WriterProp, ClockSync}
use btui.Model.{stable_sort}
use btui.EventStream.{Event, EventStream, EntryStream, Outcome, next_event, fresh}
use btui.EntryStream.{Istream}
use btui.EventStream.Decode.{range_stream}
use btui.EventStream.Progress.{istream_stream}
use btui.PrettyPrinter.{Platform, PrettyPrinter, Printed, print_event, make}

-- What a loop leaves: the members, the printer, and what the bodies made; or nothing, if the fuel runs out.
abbrev pub Done : Type 0 → Type 0
Done A = A × Result (Unit {0})

abbrev pub Loop : Type 0 → Type 0
Loop A = Option (EventStream × PrettyPrinter × Done A)

-- What a loop does with an event.
abbrev pub Body : Type 0 → Type 0
Body A = PrettyPrinter → EventSource → Event → WriterProp → ClockSync → A → Done A × PrettyPrinter

module _ {A : Type 0} (body : Body A) {S : Type 0} (input : EntryStream S) where
  abbrev pub after_event :
      (PrettyPrinter → A → Loop A) → EventStream → Done A × PrettyPrinter → Loop A
  after_event k es ((out, throw e), p) = some (es, p, (out, throw e))
  after_event k es ((out, ok u), p) = k p out

  -- `nextEvent` returns no event without a source.
  abbrev pub print_one :
      (PrettyPrinter → A → Loop A)
      → EventStream
      → PrettyPrinter
      → A
      → Event
      → Option EventSource
      → Loop A
  print_one k es p out event none = none
  print_one k es p out event (some source) =
      after_event k es (body p source event es.writer_prop es.clock_sync out)

  abbrev pub on_next :
      (S → EventStream → PrettyPrinter → A → Loop A)
      → PrettyPrinter
      → A
      → Option (S × Outcome (Option Event))
      → Loop A
  on_next k p out none = none
  on_next k p out (some (s, (es, throw e))) = some (es, p, (out, throw e))
  on_next k p out (some (s, (es, ok none))) = some (es, p, (out, ok tt))
  on_next k p out (some (s, (es, ok (some event)))) =
      print_one (λ p' o. k s es p' o) es p out event event.source

  -- `while (const Event* event = eventStream.nextEvent(entryStream))`; the fuel bounds the rounds of both loops.
  unfoldable pub print_from : ℕ → S → EventStream → PrettyPrinter → A → Loop A
  print_from zero s es p out = none
  print_from (suc f) s es p out =
      on_next (λ s' es' p' o. print_from f s' es' p' o) p out (next_event input (suc f) s es)

-- `TextOutputStream::write`: the members are kept from one call to the next.
unfoldable pub write : Platform → Range → EventStream → PrettyPrinter → List ℕ → Loop (List ℕ)
unfolding print_from
write platform data_ es p out =
    print_from (print_event platform) range_stream (suc (length data_)) data_ es p out

-- `printEvents`, on an `IstreamEntryStream`.
unfoldable pub print_events : Platform → ℕ → Istream → List ℕ → List ℕ → List ℕ → Loop (List ℕ)
unfolding print_from make
print_events platform fuel s format date_format out =
    print_from (print_event platform) istream_stream fuel s fresh (make format date_format) out

-- A clock value and a pretty printed event.
abbrev pub Pair : Type 0
Pair = ℕ × List ℕ

abbrev pub buffer_text : ℕ → List Pair → Printed × PrettyPrinter → Done (List Pair) × PrettyPrinter
buffer_text clock buffer ((text, throw e), p) = ((buffer, throw e), p)
buffer_text clock buffer ((text, ok u), p) = ((buffer ++ ((clock, text) ∷ []), ok tt), p)

-- The body of the loop of `printSortedEvents`: an event is printed to a stream that is reset, and buffered.
abbrev pub buffer_event : Platform → Body (List Pair)
buffer_event platform p source event writer_prop sync buffer =
    buffer_text event.clock_value buffer (print_event platform p source event writer_prop sync [])

-- `cmpClock`
abbrev pub cmp_clock : Pair → Pair → Bool
cmp_clock p1 p2 = ltb p1.0 p2.0

-- `output << p.second` for each.
unfoldable pub texts : List Pair → List ℕ
texts [] = []
texts ((clock, text) ∷ buffer) = text ++ texts buffer

-- The buffer is sorted and printed, unless an exception was thrown.
unfoldable pub print_buffer : List ℕ → Done (List Pair) → Printed
unfolding texts stable_sort
print_buffer out (buffer, throw e) = (out, throw e)
print_buffer out (buffer, ok u) = (out ++ texts (stable_sort cmp_clock buffer), ok tt)

abbrev pub then_print_buffer : List ℕ → Loop (List Pair) → Loop (List ℕ)
then_print_buffer out none = none
then_print_buffer out (some (es, p, done)) = some (es, p, print_buffer out done)

-- `printSortedEvents`, on an `IstreamEntryStream`.
unfoldable pub print_sorted_events :
    Platform → ℕ → Istream → List ℕ → List ℕ → List ℕ → Loop (List ℕ)
unfolding print_from make print_buffer
print_sorted_events platform fuel s format date_format out =
    then_print_buffer out
      (print_from (buffer_event platform) istream_stream fuel s fresh (make format date_format) [])
