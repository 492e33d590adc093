-- ===== src/Entries/Codec.antt =====
-- Entries are read back from their bytes.
use btui.Prelude.{
  ℕ, ◌+◌, ◌%◌, ◌^◌, ◌≤◌, ◌<◌, ◌≡◌, List, ◌++◌, append_assoc, length, length-append, arith,
}
use native.Mathlib.Nat.{mod-eq_of_lt}
use btui.Result.{ok}
use btui.Range.{le_bytes}
use btui.Range.Words.{read-le_bytes, view-append, length-le_bytes}
use btui.Entries.{
  EventSource, WriterProp, ClockSync, Entry, event_source_entry, writer_prop_entry,
  clock_sync_entry, serialize_string, deserialize_string,
}

-- A string whose size fits on 32 bits, as the serializer asserts.
abbrev pub ShortString : List ℕ → Type 0
ShortString s = length s < 2 ^ 32

pub deserialize_string-serialize_string :
    (s rest : List ℕ)
    → ShortString s
    → deserialize_string (serialize_string s ++ rest) ≡ ok (s, rest)
unfolding deserialize_string serialize_string
deserialize_string-serialize_string s rest h =
    rw (append_assoc, read-le_bytes 4 (length s % 2 ^ 32) (s ++ rest) (omega arith), mod-eq_of_lt h)
      (view-append s rest)

pub length-serialize_string : (s : List ℕ) → length (serialize_string s) ≡ 4 + length s
unfolding serialize_string
length-serialize_string s =
    omega (
      arith,
      length-append (le_bytes 4 (length s % 2 ^ 32)) s,
      length-le_bytes 4 (length s % 2 ^ 32),
    )

-- An entry that fits its fields.
pub record FitsSource (e : EventSource) : Type 0 where
  pub id_fits : e.id < 256 ^ 8
  pub severity_fits : e.severity < 256 ^ 2
  pub category_fits : ShortString e.category
  pub function_fits : ShortString e.function
  pub file_fits : ShortString e.file
  pub line_fits : e.line < 256 ^ 8
  pub format_fits : ShortString e.format_string
  pub tags_fits : ShortString e.argument_tags

-- An event source that fits its fields is read back, field by field, from the bytes that are written
-- for it, and the bytes behind it are left.
pub deserialize-serialize_source :
    (e : EventSource) (rest : List ℕ)
    → FitsSource e
    → event_source_entry.deserialize (event_source_entry.serialize e ++ rest) ≡ ok (e, rest)
deserialize-serialize_source e rest f = simp (
  append_assoc,
  λ (r : List ℕ). read-le_bytes 8 e.id r f.id_fits,
  λ (r : List ℕ). read-le_bytes 2 e.severity r f.severity_fits,
  λ (r : List ℕ). deserialize_string-serialize_string e.category r f.category_fits,
  λ (r : List ℕ). deserialize_string-serialize_string e.function r f.function_fits,
  λ (r : List ℕ). deserialize_string-serialize_string e.file r f.file_fits,
  λ (r : List ℕ). read-le_bytes 8 e.line r f.line_fits,
  λ (r : List ℕ). deserialize_string-serialize_string e.format_string r f.format_fits,
  λ (r : List ℕ). deserialize_string-serialize_string e.argument_tags r f.tags_fits,
)

pub record FitsWriterProp (w : WriterProp) : Type 0 where
  pub id_fits : w.id < 256 ^ 8
  pub name_fits : ShortString w.name
  pub batch_fits : w.batch_size < 256 ^ 8

-- Writer properties that fit their fields are read back from the bytes that are written for them,
-- and the bytes behind them are left.
pub deserialize-serialize_writer_prop :
    (w : WriterProp) (rest : List ℕ)
    → FitsWriterProp w
    → writer_prop_entry.deserialize (writer_prop_entry.serialize w ++ rest) ≡ ok (w, rest)
deserialize-serialize_writer_prop w rest f = simp (
  append_assoc,
  λ (r : List ℕ). read-le_bytes 8 w.id r f.id_fits,
  λ (r : List ℕ). deserialize_string-serialize_string w.name r f.name_fits,
  λ (r : List ℕ). read-le_bytes 8 w.batch_size r f.batch_fits,
)

pub record FitsClockSync (c : ClockSync) : Type 0 where
  pub clock_fits : c.clock_value < 256 ^ 8
  pub frequency_fits : c.clock_frequency < 256 ^ 8
  pub epoch_fits : c.ns_since_epoch < 256 ^ 8
  pub offset_fits : c.tz_offset < 256 ^ 4
  pub name_fits : ShortString c.tz_name

-- A clock sync that fits its fields is read back from the bytes that are written for it, and the
-- bytes behind it are left.
pub deserialize-serialize_clock_sync :
    (c : ClockSync) (rest : List ℕ)
    → FitsClockSync c
    → clock_sync_entry.deserialize (clock_sync_entry.serialize c ++ rest) ≡ ok (c, rest)
deserialize-serialize_clock_sync c rest f = simp (
  append_assoc,
  λ (r : List ℕ). read-le_bytes 8 c.clock_value r f.clock_fits,
  λ (r : List ℕ). read-le_bytes 8 c.clock_frequency r f.frequency_fits,
  λ (r : List ℕ). read-le_bytes 8 c.ns_since_epoch r f.epoch_fits,
  λ (r : List ℕ). read-le_bytes 4 c.tz_offset r f.offset_fits,
  λ (r : List ℕ). deserialize_string-serialize_string c.tz_name r f.name_fits,
)

-- What a reader of a framed entry relies on.
pub record Lawful {A : Type 0} (e : Entry A) : Type 1 where
  pub Fits : A → Type 0
  pub special : 2 ^ 63 ≤ e.tag
  pub tag_fits : e.tag < 256 ^ 8
  pub length_serialize : (a : A) → length (e.serialize a) ≡ e.serialized_size a
  pub round_trip :
      (a : A) (rest : List ℕ) → Fits a → e.deserialize (e.serialize a ++ rest) ≡ ok (a, rest)

pub source_size :
    (e : EventSource)
    → length (event_source_entry.serialize e) ≡ event_source_entry.serialized_size e
source_size e = simp (length-append, length-le_bytes, length-serialize_string) (omega arith)

pub writer_prop_size :
    (e : WriterProp) → length (writer_prop_entry.serialize e) ≡ writer_prop_entry.serialized_size e
writer_prop_size e = simp (length-append, length-le_bytes, length-serialize_string) (omega arith)

pub clock_sync_size :
    (e : ClockSync) → length (clock_sync_entry.serialize e) ≡ clock_sync_entry.serialized_size e
clock_sync_size e = simp (length-append, length-le_bytes, length-serialize_string) (omega arith)

abbrev pub source_lawful : Lawful event_source_entry
source_lawful = record {
  Fits = FitsSource;
  special = omega arith;
  tag_fits = omega arith;
  length_serialize = source_size;
  round_trip = deserialize-serialize_source;
}

abbrev pub writer_prop_lawful : Lawful writer_prop_entry
writer_prop_lawful = record {
  Fits = FitsWriterProp;
  special = omega arith;
  tag_fits = omega arith;
  length_serialize = writer_prop_size;
  round_trip = deserialize-serialize_writer_prop;
}

abbrev pub clock_sync_lawful : Lawful clock_sync_entry
clock_sync_lawful = record {
  Fits = FitsClockSync;
  special = omega arith;
  tag_fits = omega arith;
  length_serialize = clock_sync_size;
  round_trip = deserialize-serialize_clock_sync;
}
