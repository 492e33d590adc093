-- ===== src/Entries/Tests.antt =====
-- An entry of each kind.
use btui.Prelude.{[], ◌∷◌, arith}
use btui.Entries.{
  EventSource, WriterProp, ClockSync, event_source_entry, writer_prop_entry, clock_sync_entry,
}
use btui.Entries.Codec.{FitsSource, FitsWriterProp, FitsClockSync}

abbrev a_source : EventSource
a_source = record {
  id = 1;
  severity = 128;
  category = 109 ∷ [];
  function = 102 ∷ [];
  file = 97 ∷ [];
  line = 30;
  format_string = 123 ∷ 125 ∷ [];
  argument_tags = 105 ∷ [];
}

a_source-Fits : FitsSource a_source
a_source-Fits = omega arith

abbrev a_writer : WriterProp
a_writer = record { id = 7; name = 119 ∷ []; batch_size = 2 }

a_writer-Fits : FitsWriterProp a_writer
a_writer-Fits = omega arith

abbrev a_clock : ClockSync
a_clock = record {
  clock_value = 0;
  clock_frequency = 1000;
  ns_since_epoch = 5;
  tz_offset = 3600;
  tz_name = 85 ∷ [];
}

a_clock-Fits : FitsClockSync a_clock
a_clock-Fits = omega arith
