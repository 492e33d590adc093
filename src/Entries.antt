-- ===== src/Entries.antt =====
-- include/binlog/Entries.hpp: the entries of a binlog stream, and how mserialize writes and reads them
-- (include/mserialize/detail/Serializer.hpp and Deserializer.hpp, for numbers, strings and structs).
-- A string is the list of its bytes. A signed number is kept as the bits that are stored.
pub mod Codec
pub mod Frames
mod Tests
use btui.Prelude.{ℕ, ◌+◌, ◌-◌, ◌%◌, ◌^◌, List, [], ◌++◌, length}
use btui.Result.{Result, ok, throw, Error, ◌>>=◌}
use btui.Range.{Range, view, read, le_bytes}
use btui.Severity.{Severity, info}

pub record EventSource : Type 0 where
  pub id : ℕ
  pub severity : Severity
  pub category : List ℕ
  pub function : List ℕ
  pub file : List ℕ
  pub line : ℕ
  pub format_string : List ℕ
  pub argument_tags : List ℕ

pub record WriterProp : Type 0 where
  pub id : ℕ
  pub name : List ℕ
  pub batch_size : ℕ

pub record ClockSync : Type 0 where
  pub clock_value : ℕ
  pub clock_frequency : ℕ
  pub ns_since_epoch : ℕ
  pub tz_offset : ℕ
  pub tz_name : List ℕ

-- `WriterProp{}` and `ClockSync{}`.
abbrev pub default_writer_prop : WriterProp
default_writer_prop = record { id = 0; name = []; batch_size = 0 }

abbrev pub default_clock_sync : ClockSync
default_clock_sync = record {
  clock_value = 0;
  clock_frequency = 0;
  ns_since_epoch = 0;
  tz_offset = 0;
  tz_name = [];
}

-- A sequence of bytes: its size on 32 bits, then the bytes.
unfoldable pub serialize_string : List ℕ → List ℕ
serialize_string s = le_bytes 4 (length s % 2 ^ 32) ++ s

unfoldable pub deserialize_string : Range → Result (List ℕ × Range)
deserialize_string r = do (size, rest) ← read 4 r; view size rest

-- What `serializeSizePrefixedTagged` wants of an entry type: its tag, its size, and its bytes.
pub record Entry (A : Type 0) : Type 0 where
  pub tag : ℕ
  pub serialized_size : A → ℕ
  pub serialize : A → List ℕ
  pub deserialize : Range → Result (A × Range)

-- `std::uint64_t(-1)`, `(-2)`, `(-3)`.
instance abbrev pub event_source_entry : Entry EventSource
event_source_entry = record {
  tag = 2 ^ 64 - 1;
  serialized_size = λ e.
      8
      + 2
      + (4 + length e.category)
      + (4 + length e.function)
      + (4 + length e.file)
      + 8
      + (4 + length e.format_string)
      + (4 + length e.argument_tags);
  serialize = λ e.
      le_bytes 8 e.id
      ++ (le_bytes 2 e.severity
          ++ (serialize_string e.category
              ++ (serialize_string e.function
                  ++ (serialize_string e.file
                      ++ (le_bytes 8 e.line
                          ++ (serialize_string e.format_string
                              ++ serialize_string e.argument_tags))))));
  deserialize = λ r. do
    (id, r) ← read 8 r
    (severity, r) ← read 2 r
    (category, r) ← deserialize_string r
    (function, r) ← deserialize_string r
    (file, r) ← deserialize_string r
    (line, r) ← read 8 r
    (format_string, r) ← deserialize_string r
    (argument_tags, r) ← deserialize_string r
    ok (
      record {
        id = id;
        severity = severity;
        category = category;
        function = function;
        file = file;
        line = line;
        format_string = format_string;
        argument_tags = argument_tags;
      },
      r,
    );
}

instance abbrev pub writer_prop_entry : Entry WriterProp
writer_prop_entry = record {
  tag = 2 ^ 64 - 2;
  serialized_size = λ e. 8 + (4 + length e.name) + 8;
  serialize = λ e. le_bytes 8 e.id ++ (serialize_string e.name ++ le_bytes 8 e.batch_size);
  deserialize = λ r. do
    (id, r) ← read 8 r
    (name, r) ← deserialize_string r
    (batch_size, r) ← read 8 r
    ok (record { id = id; name = name; batch_size = batch_size }, r);
}

instance abbrev pub clock_sync_entry : Entry ClockSync
clock_sync_entry = record {
  tag = 2 ^ 64 - 3;
  serialized_size = λ e. 8 + 8 + 8 + 4 + (4 + length e.tz_name);
  serialize = λ e.
      le_bytes 8 e.clock_value
      ++ (le_bytes 8 e.clock_frequency
          ++ (le_bytes 8 e.ns_since_epoch
              ++ (le_bytes 4 e.tz_offset ++ serialize_string e.tz_name)));
  deserialize = λ r. do
    (clock_value, r) ← read 8 r
    (clock_frequency, r) ← read 8 r
    (ns_since_epoch, r) ← read 8 r
    (tz_offset, r) ← read 4 r
    (tz_name, r) ← deserialize_string r
    ok (
      record {
        clock_value = clock_value;
        clock_frequency = clock_frequency;
        ns_since_epoch = ns_since_epoch;
        tz_offset = tz_offset;
        tz_name = tz_name;
      },
      r,
    );
}

-- `serializeSizePrefixedTagged`: the bytes written, and the number returned.
unfoldable pub serialize_size_prefixed_tagged : {A : Type 0} ⦃e : Entry A⦄ → A → List ℕ × ℕ
serialize_size_prefixed_tagged ⦃e⦄ entry =
    let size = (e.serialized_size entry + 8) % 2 ^ 32 in
    (le_bytes 4 size ++ (le_bytes 8 e.tag ++ e.serialize entry), size + 4)
