-- ===== src/PrettyPrinter.antt =====
-- include/binlog/PrettyPrinter.cpp: printing an event by a format. The output is the list of the characters that
-- are in the `OstreamBuffer` or behind it. What `snprintf` and `gmtime_r` do is an argument.
pub mod Names
pub mod Message
pub mod Format
pub mod TimeZone
mod Tests
use btui.Prelude.{
  ℕ, zero, suc, ◌+◌, ◌-◌, ◌*◌, ◌/◌, ◌%◌, ◌^◌, Bool, true, false, ◌&&◌, ◌||◌, Option, none, some,
  List, [], ◌∷◌, ◌++◌, length, ltb, leb, ◌==◌, if◌then◌else◌, take, drop, to_i64,
}
use btui.Prelude.Int.{ℤ, pos, negsuc, ◌+ℤ◌, ◌-ℤ◌, ◌*ℤ◌, pos_part, neg_part, leb_ℤ}
use btui.Result.{Result, ok, throw, ◌>>=◌}
use btui.Range.{Range, read, view}
use btui.Severity.{severity_to_string}
use btui.Entries.{EventSource, WriterProp, ClockSync}
use btui.EventStream.{Event}
use btui.Text.{base_name}
use btui.Tags.{tag_pop, find_pos, starts_with}
use btui.Time.{
  Tm, BrokenDownTime, quot, rem, nano, minus, clock_to_ns_since_epoch, broken_down_time,
}
use btui.Visitor.{ToStringVisitor, new, put}
use btui.Visit.{NumberPrinter, StructPrinter, Visited, then_visit, visit_value}
use btui.Visit.Hex.{hex_value}
use btui.PrettyPrinter.Names.*

-- `useLocaltime`: the loop, with `placeholder`.
unfoldable pub use_localtime_from : Bool → List ℕ → Bool
use_localtime_from placeholder [] = true
use_localtime_from true (c ∷ format) =
    let rest = use_localtime_from false format in
    if c == b'd' then true else (if c == b'u' then false else rest)
use_localtime_from false (c ∷ format) = use_localtime_from (c == b'%') format

unfoldable pub use_localtime : List ℕ → Bool
unfolding use_localtime_from
use_localtime format = use_localtime_from false format

-- `std::string` and `char` operations: equality, the low byte of an `int`, and a C string in an array.
unfoldable pub equal : List ℕ → List ℕ → Bool
equal [] [] = true
equal (x ∷ a) (y ∷ b) = (x == y) && equal a b
equal _ _ = false

unfoldable pub ends_with : List ℕ → List ℕ → Bool
unfolding equal
ends_with s x = leb (length x) (length s) && equal (drop (length s - length x) s) x

abbrev pub to_char : ℤ → ℕ
to_char (pos n) = n % 256
to_char (negsuc n) = 255 - n % 256

unfoldable pub c_string : List ℕ → List ℕ
c_string s = take (find_pos s 0) s

-- A signed number of `n` bits.
abbrev pub to_signed : ℕ → ℕ → ℤ
to_signed n bits = if ltb bits (2 ^ (n - 1)) then pos bits else negsuc (2 ^ n - bits - 1)

-- `printTwoDigits`, with its assertion off.
unfoldable pub two_digits : ℤ → List ℕ
unfolding quot rem
two_digits i =
    let b = rem i 10 in
    let a = quot (i -ℤ b) 10 in to_char (pos 48 +ℤ a) ∷ to_char (pos 48 +ℤ b) ∷ []

unfoldable pub time_zone_offset : ℤ → List ℕ
unfolding two_digits
time_zone_offset seconds =
    let psecs = pos_part seconds + neg_part seconds in
    let hours = psecs / 3600 in
    let mins = psecs / 60 - 60 * hours in
    (if leb_ℤ (pos 0) seconds then 43 else 45)
    ∷ (two_digits (pos (if ltb hours 100 then hours else 0))
        ++ two_digits (pos (if ltb mins 100 then mins else 0)))

-- What the platform prints: integers, the other numbers by their tag and bits, `%.9d`; and `gmtime_r`.
pub record Platform : Type 0 where
  pub print_signed : ℤ → List ℕ
  pub print_unsigned : ℕ → List ℕ
  pub print_floating : ℕ → ℕ → List ℕ
  pub print_nine : ℤ → List ℕ
  pub gmtime : ℤ → Tm

pub record PrettyPrinter : Type 0 where
  pub event_format : List ℕ
  pub time_format : List ℕ
  pub use_localtime : Bool
  pub clock_sync : Option ClockSync

unfoldable pub make : List ℕ → List ℕ → PrettyPrinter
unfolding use_localtime
make event_format time_format = record {
  event_format = event_format;
  time_format = time_format;
  use_localtime = use_localtime event_format;
  clock_sync = none;
}

-- What a printer leaves: the output, and whether it throws.
abbrev pub Printed : Type 0
Printed = List ℕ × Result (Unit {0})

abbrev pub then_print : (List ℕ → Printed) → Printed → Printed
then_print k (out, throw e) = (out, throw e)
then_print k (out, ok u) = k out

-- `std::int64_t(_clockSync->clockFrequency) > 0`
abbrev pub has_clock : ClockSync → Bool
has_clock sync = ltb 0 sync.clock_frequency && ltb sync.clock_frequency (2 ^ 63)

-- The cases of `printStruct`: `none` is the result false.
abbrev pub print_address : Range → Result (Option (List ℕ) × Range)
print_address input = do
  (value, rest) ← read 8 input
  ok (some (48 ∷ 120 ∷ hex_value b'L' value), rest)

-- The suffix of a duration, by the end of its name.
unfoldable pub duration_suffix : List ℕ → Option (List ℕ)
unfolding ends_with
duration_suffix name =
    if ends_with name nano_suffix
    then some (b'n' ∷ b's' ∷ [])
    else (if ends_with name micro_suffix
        then some (b'u' ∷ b's' ∷ [])
        else (if ends_with name milli_suffix
            then some (b'm' ∷ b's' ∷ [])
            else (if ends_with name second_suffix
                then some (b's' ∷ [])
                else (if ends_with name minute_suffix
                    then some (b'm' ∷ [])
                    else (if ends_with name hour_suffix then some (b'h' ∷ []) else none)))))

abbrev pub print_string : Range → Result (Option (List ℕ) × Range)
print_string input = do
  (size, rest) ← read 4 input
  (chars, rest') ← view size rest
  ok (some chars, rest')

-- The three types that hold a string.
unfoldable pub print_string_of : StructPrinter
unfolding equal
print_string_of name tag input =
    if (equal name path_name && equal tag path_tag)
      || ((equal name entry_name && equal tag entry_tag)
          || (equal name error_name && equal tag error_tag))
    then print_string input
    else ok (none, input)

abbrev pub printed_message : Visited → Printed
printed_message (visitor, throw e) = (visitor.out, throw e)
printed_message (visitor, ok args) = (visitor.out, ok tt)

-- The loop over the event format.
unfoldable pub print_format : (ℕ → List ℕ → Printed) → List ℕ → List ℕ → Printed
print_format field [] out = (out, ok tt)
print_format field (c ∷ []) out = (out ++ (c ∷ []), ok tt)
print_format field (c ∷ spec ∷ format) out =
    if c == b'%'
    then then_print (print_format field format) (field spec out)
    else print_format field (spec ∷ format) (out ++ (c ∷ []))

module _ (platform : Platform) where
  -- `out << v` for an arithmetic `v`, by its tag.
  unfoldable pub print_arithmetic : NumberPrinter
  print_arithmetic c bits =
      if c == b'y'
      then (if bits == 0 then false_chars else true_chars)
      else (if c == b'c'
          then bits ∷ []
          else (if c == b'b'
              then platform.print_signed (to_signed 8 bits)
              else (if c == b's'
                  then platform.print_signed (to_signed 16 bits)
                  else (if c == b'i'
                      then platform.print_signed (to_signed 32 bits)
                      else (if c == b'l'
                          then platform.print_signed (to_signed 64 bits)
                          else (if (c == b'f') || ((c == b'd') || (c == b'D'))
                              then platform.print_floating c bits
                              else platform.print_unsigned bits))))))

  unfoldable pub time_field : ℕ → BrokenDownTime → ℤ → List ℕ → List ℕ
  unfolding rem
  time_field spec bdt tz_offset tz_name =
      if spec == b'Y'
      then platform.print_signed (bdt.tm.tm_year +ℤ pos 1900)
      else (if spec == b'y'
          then two_digits (rem bdt.tm.tm_year 100)
          else (if spec == b'm'
              then two_digits (bdt.tm.tm_mon +ℤ pos 1)
              else (if spec == b'd'
                  then two_digits bdt.tm.tm_mday
                  else (if spec == b'H'
                      then two_digits bdt.tm.tm_hour
                      else (if spec == b'M'
                          then two_digits bdt.tm.tm_min
                          else (if spec == b'S'
                              then two_digits bdt.tm.tm_sec
                              else (if spec == b'z'
                                  then time_zone_offset tz_offset
                                  else (if spec == b'Z'
                                      then tz_name
                                      else (if spec == b'N'
                                          then take 9 (platform.print_nine bdt.tm_nsec)
                                          else b'%' ∷ spec ∷ [])))))))))

  -- The loop over the time format: a % at the end is printed.
  unfoldable pub print_time : List ℕ → BrokenDownTime → ℤ → List ℕ → List ℕ
  unfolding time_field
  print_time [] bdt tz_offset tz_name = []
  print_time (c ∷ []) bdt tz_offset tz_name = c ∷ []
  print_time (c ∷ spec ∷ format) bdt tz_offset tz_name =
      let behind = print_time format bdt tz_offset tz_name in
      let next = print_time (spec ∷ format) bdt tz_offset tz_name in
      if c == b'%' then time_field spec bdt tz_offset tz_name ++ behind else c ∷ next

  -- A time point in the time zone of the clock sync, or in UTC.
  unfoldable pub print_local : PrettyPrinter → ClockSync → ℤ → List ℕ
  unfolding print_time
  print_local p sync since_epoch =
      let tz_offset = to_signed 32 sync.tz_offset in
      print_time p.time_format
        (broken_down_time platform.gmtime (since_epoch +ℤ (tz_offset *ℤ pos nano))) tz_offset
        (c_string sync.tz_name)

  unfoldable pub print_utc : PrettyPrinter → ℤ → List ℕ
  unfolding print_time
  print_utc p since_epoch =
      print_time p.time_format (broken_down_time platform.gmtime since_epoch) (pos 0) utc

  unfoldable pub print_producer_local_time : PrettyPrinter → ClockSync → ℕ → List ℕ
  unfolding print_local
  print_producer_local_time p sync clock_value =
      if has_clock sync
      then print_local p sync (clock_to_ns_since_epoch sync clock_value)
      else no_clock_sync

  unfoldable pub print_utc_time : PrettyPrinter → ClockSync → ℕ → List ℕ
  unfolding print_utc
  print_utc_time p sync clock_value =
      if has_clock sync
      then print_utc p (clock_to_ns_since_epoch sync clock_value)
      else no_clock_sync

  abbrev pub print_time_point :
      PrettyPrinter → Option ClockSync → Range → Result (Option (List ℕ) × Range)
  print_time_point p none input = ok (none, input)
  print_time_point p (some sync) input = do
    (ns, rest) ← read 8 input
    ok (
      some (if p.use_localtime then print_local p sync (to_i64 ns) else print_utc p (to_i64 ns)),
      rest,
    )

  abbrev pub print_count : ℕ → List ℕ → Range → Result (Option (List ℕ) × Range)
  print_count size suffix input = do
    (count, rest) ← read size input
    ok (some (platform.print_signed (to_signed (8 * size) count) ++ suffix), rest)

  unfoldable pub print_duration : Option (List ℕ) → StructPrinter
  unfolding print_string_of equal
  print_duration none name tag input = print_string_of name tag input
  print_duration (some suffix) name tag input =
      if equal tag count_l
      then print_count 8 suffix input
      else (if equal tag count_i
          then print_count 4 suffix input
          else print_string_of name tag input)

  unfoldable pub print_struct : PrettyPrinter → StructPrinter
  unfolding print_duration duration_suffix equal
  print_struct p name tag input =
      if equal name address_name && equal tag address_tag
      then print_address input
      else (if equal name time_point_name && equal tag time_point_tag
          then print_time_point p p.clock_sync input
          else (if starts_with name duration_prefix
              then print_duration (duration_suffix name) name tag input
              else print_string_of name tag input))

  -- The loop of `printEventMessage`; {} stands for the next argument. `fmt[fmt.size()]` is 0.
  unfoldable pub print_message : PrettyPrinter → List ℕ → List ℕ → ToStringVisitor → Range → Visited
  unfolding print_arithmetic print_struct
  print_message p [] tags visitor args = (visitor, ok args)
  print_message p (c ∷ []) tags visitor args = (put (c ∷ []) visitor, ok args)
  print_message p (c ∷ d ∷ fmt) tags visitor args =
      let (tag, later) = tag_pop tags in
      if (c == 123) && (d == 125)
      then then_visit (print_message p fmt later)
          (visit_value print_arithmetic (print_struct p) tag visitor args)
      else print_message p (d ∷ fmt) tags (put (c ∷ []) visitor) args

  unfoldable pub print_event_message : PrettyPrinter → EventSource → Range → List ℕ → Printed
  unfolding print_message
  print_event_message p source args out =
      printed_message (print_message p source.format_string source.argument_tags (new out) args)

  -- The fields that do not throw.
  unfoldable pub event_field : PrettyPrinter → ℕ → EventSource → ℕ → WriterProp → ClockSync → List ℕ
  unfolding print_producer_local_time print_utc_time
  event_field p spec source clock_value writer_prop sync =
      if spec == b'I'
      then platform.print_unsigned source.id
      else (if spec == b'S'
          then severity_to_string source.severity
          else (if spec == b'C'
              then source.category
              else (if spec == b'M'
                  then source.function
                  else (if spec == b'F'
                      then source.file
                      else (if spec == b'G'
                          then base_name source.file
                          else (if spec == b'L'
                              then platform.print_unsigned source.line
                              else (if spec == b'P'
                                  then source.format_string
                                  else (if spec == b'T'
                                      then source.argument_tags
                                      else (if spec == b'n'
                                          then writer_prop.name
                                          else (if spec == b't'
                                              then platform.print_unsigned writer_prop.id
                                              else (if spec == b'd'
                                                  then print_producer_local_time p sync clock_value
                                                  else (if spec == b'u'
                                                      then print_utc_time p sync clock_value
                                                      else (if spec == b'r'
                                                          then platform.print_unsigned clock_value
                                                          else (if spec == b'%'
                                                            then b'%' ∷ []
                                                            else b'%' ∷ spec ∷ []))))))))))))))

  -- `printEventField`; the event's source is given.
  unfoldable pub print_event_field :
      PrettyPrinter → ℕ → EventSource → Event → WriterProp → ClockSync → List ℕ → Printed
  unfolding event_field print_event_message
  print_event_field p spec source event writer_prop sync out =
      if spec == b'm'
      then print_event_message p source event.arguments out
      else (out ++ event_field p spec source event.clock_value writer_prop sync, ok tt)

  -- The printer is left with the clock sync.
  unfoldable pub print_event :
      PrettyPrinter
      → EventSource
      → Event
      → WriterProp
      → ClockSync
      → List ℕ
      → Printed × PrettyPrinter
  unfolding print_event_field print_format
  print_event p source event writer_prop sync out =
      let p' = record p { clock_sync = some sync } in
      (
        print_format (λ spec o. print_event_field p' spec source event writer_prop sync o)
            p'.event_format out,
        p',
      )
