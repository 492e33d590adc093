-- ===== src/EventStream/Tests.antt =====
-- A source and an event that refers to it, and an event that refers to no source.
use btui.Prelude.{◌≡◌, refl, Option, some, List, [], ◌∷◌, ◌++◌, All, arith}
use btui.Result.{throw, Error}
use btui.Range.{Range, le_bytes, read, view, le_value}
use btui.SegmentedMap.{find}
use btui.SegmentedMap.Map.{new-IsValid, find-new}
use btui.Entries.{EventSource}
use btui.EventStream.{Event, Outcome, fresh, next_event, handle_entry, read_event}
use btui.EventStream.Errors.{Unchanged, throw-Unchanged}
use btui.EventStream.Decode.{
  Item, FitsItem, Agrees, Follows, initial, next_item, encode_all, range_stream, next_event-Follows,
}
use btui.EventStream.Progress.{range_shrinks, next_event_total}

abbrev a_source : EventSource
a_source = record {
  id = 1;
  severity = 128;
  category = 109 ∷ [];
  function = 102 ∷ [];
  file = 97 ∷ [];
  line = 30;
  format_string = 123 ∷ 125 ∷ [];
  argument_tags = 105 ∷ [];
}

abbrev items : List Item
items = Item.source a_source ∷ Item.event 1 1000 (4 ∷ 0 ∷ 0 ∷ 0 ∷ []) ∷ []

items-Fits : All FitsItem items
items-Fits = omega arith

fresh-Agrees : Agrees initial fresh
unfolding fresh
fresh-Agrees = record {
  valid = new-IsValid;
  same_sources = λ j h. find-new j;
  same_writer = refl;
  same_clock = refl;
}

next_event-Follows_example : Follows initial (next_item initial items) 3 (encode_all items) fresh
next_event-Follows_example = next_event-Follows items 3 items-Fits (omega arith) fresh-Agrees

next_event_total_example :
    (r : Range × Outcome (Option Event)) × (next_event range_stream 10 (1 ∷ 0 ∷ 0 ∷ []) fresh
      ≡ some r)
next_event_total_example = next_event_total range_shrinks 10 (1 ∷ 0 ∷ 0 ∷ []) fresh tt (omega arith)

unknown_source :
    handle_entry (le_bytes 8 5 ++ le_bytes 8 6) fresh ≡ (fresh, throw (Error.invalid_source 5))
unfolding handle_entry read_event fresh find le_bytes le_value read view btui.SegmentedMap.new
unknown_source = refl

throw-Unchanged_example : Unchanged fresh fresh
throw-Unchanged_example = throw-Unchanged (le_bytes 8 5 ++ le_bytes 8 6) fresh unknown_source
