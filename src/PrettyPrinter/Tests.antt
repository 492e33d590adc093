-- ===== src/PrettyPrinter/Tests.antt =====
-- An event with the message "x={}!" of an `int`, in the format "%%[%S]".
use btui.Prelude.{◌+◌, ◌≡◌, refl, true, none, some, List, [], ◌∷◌, ◌++◌, All, arith}
use btui.Prelude.Int.{pos, pos_part}
use btui.Result.{ok}
use btui.Severity.{severity_to_string}
use btui.Entries.{EventSource, default_writer_prop, default_clock_sync}
use btui.EventStream.{Event}
use btui.Visit.{arithmetic_size}
use btui.Visit.Values.{number}
use btui.Visit.Whole.{Fits}
use btui.Visit.Steps.{height}
use btui.PrettyPrinter.{
  Platform, PrettyPrinter, print_event, print_event_field, event_field, print_event_message,
}
use btui.PrettyPrinter.Message.{
  Arguments, format_of, tags_of, bytes_of_all, HasNoHole, IsArgument, filled,
  print_event_message-filled,
}
use btui.PrettyPrinter.Format.{Field, pattern_of, shown, Shows, print_event-pattern_of}

-- Every number is printed as one character.
abbrev platform : Platform
platform = record {
  print_signed = λ z. (48 + pos_part z) ∷ [];
  print_unsigned = λ n. (48 + n) ∷ [];
  print_floating = λ c bits. (48 + bits) ∷ [];
  print_nine = λ z. (48 + pos_part z) ∷ [];
  gmtime = λ t. record {
    tm_year = pos 70;
    tm_mon = pos 0;
    tm_mday = pos 1;
    tm_hour = pos 0;
    tm_min = pos 0;
    tm_sec = t;
  };
}

abbrev a_source : EventSource
a_source = record {
  id = 1;
  severity = 128;
  category = [];
  function = [];
  file = [];
  line = 0;
  format_string = [];
  argument_tags = [];
}

abbrev values : Arguments
values = (number 105 5, 33 ∷ []) ∷ []

abbrev fields : List Field
fields = (83, (severity_to_string 128, 93 ∷ [])) ∷ []

abbrev printer : PrettyPrinter
printer = record {
  event_format = pattern_of (37 ∷ 91 ∷ []) fields;
  time_format = [];
  use_localtime = true;
  clock_sync = none;
}

values-Fit : All (IsArgument platform printer) values
unfolding Fits height HasNoHole arithmetic_size
values-Fit = (((4, refl, omega arith), omega arith, tt), tt)

text-HasNoHole : HasNoHole (120 ∷ 61 ∷ [])
unfolding HasNoHole
text-HasNoHole = (refl, tt)

print_event_message-filled_example :
    print_event_message platform printer
      (record a_source {
        format_string = format_of (120 ∷ 61 ∷ []) values;
        argument_tags = tags_of values;
      })
      (bytes_of_all values ++ (7 ∷ []))
      (62 ∷ [])
    ≡ ((62 ∷ []) ++ filled platform printer (120 ∷ 61 ∷ []) values, ok tt)
print_event_message-filled_example =
    print_event_message-filled platform printer a_source (120 ∷ 61 ∷ []) values (62 ∷ []) (7 ∷ [])
      text-HasNoHole values-Fit

abbrev an_event : Event
an_event = record { source = some a_source; clock_value = 5; arguments = [] }

fields-Show :
    All
      (Shows (λ spec o.
        print_event_field platform
          (record printer { clock_sync = some default_clock_sync })
          spec
          a_source
          an_event
          default_writer_prop
          default_clock_sync
          o))
      fields
unfolding print_event_field event_field
fields-Show = ((λ o. refl), tt)

print_event-pattern_of_example :
    print_event platform printer a_source an_event default_writer_prop default_clock_sync [] ≡ (
      ([] ++ shown (37 ∷ 91 ∷ []) fields, ok tt),
      record printer { clock_sync = some default_clock_sync },
    )
print_event-pattern_of_example =
    print_event-pattern_of platform printer a_source an_event default_writer_prop default_clock_sync
      (37 ∷ 91 ∷ []) fields [] refl fields-Show
