-- ===== src/EntryStream.antt =====
-- include/binlog/EntryStream.hpp and EntryStream.cpp: streams of size prefixed entries, read from a
-- `std::istream` or from a range. Of `std::istream` the model has what the code uses: the bytes of the
-- device, the position, `good()` and `gcount()`.
pub mod Positions
mod Tests
use btui.Prelude.{
  ℕ, ◌+◌, ◌-◌, ◌≤◌, ◌==◌, Bool, true, false, not, List, [], ◌++◌, length, take, drop, slice, ltb,
  leb, if◌then◌else◌,
}
use btui.Result.{Result, ok, throw, Error, ◌>>=◌}
use btui.Range.{Range, view, read, le_value, empty}

pub record Istream : Type 0 where
  pub content : List ℕ
  pub pos : ℕ
  pub good : Bool
  pub gcount : ℕ

-- An `std::ifstream` at its begin.
abbrev pub opened : List ℕ → Istream
opened content = record { content = content; pos = 0; good = true; gcount = 0 }

-- `istream::read` of `n` bytes: the bytes that were got, and the stream. Too few bytes set `eofbit`
-- and `failbit`; a stream that is not good reads nothing.
unfoldable pub read_some : ℕ → Istream → List ℕ × Istream
read_some n s =
    if s.good
    then (let got = slice s.pos n s.content in
        (
          got,
          record s { pos = s.pos + length got; good = leb n (length got); gcount = length got },
        ))
    else ([], record s { gcount = 0 })

-- `_input.clear(); _input.seekg(-size, cur)`
unfoldable pub rewind : ℕ → Istream → Istream
rewind n s = record s { pos = s.pos - n; good = true }

-- `IstreamEntryStream::nextEntryPayload`
unfoldable pub next_entry_payload : Istream → Istream × Result Range
unfolding read_some rewind
next_entry_payload s =
    let (size_bytes, s1) = read_some 4 s in
    let size = le_value size_bytes in
    let (payload, s2) = read_some size s1 in
    if s1.gcount == 0
    then (s1, ok [])
    else (if not s1.good
        then (rewind s1.gcount s1, throw Error.entry_size)
        else (if not s2.good
            then (rewind (4 + s2.gcount) s2, throw Error.entry_payload)
            else (s2, ok payload)))

-- `RangeEntryStream::nextEntryPayload`: the range that is left, and the payload. A failing `view`
-- leaves the range behind the size.
unfoldable pub next_range_payload : Range → Range × Result Range
next_range_payload input = if empty input then (input, ok []) else (elim (read 4 input) [
  | throw e ↦ (input, throw e)
  | ok (size, rest) ↦ elim (view size rest) [
    | throw e ↦ (rest, throw e)
    | ok (payload, rest') ↦ (rest', ok payload)
  ]
])
