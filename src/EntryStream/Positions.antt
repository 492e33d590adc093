-- ===== src/EntryStream/Positions.antt =====
-- Where `nextEntryPayload` leaves an `std::istream`.
use btui.Prelude.{
  ℕ, ◌+◌, ◌≤◌, ◌≡◌, ◌≢◌, true, List, [], length, drop, slice, length-take, length-drop, arith,
}
use btui.Result.{Result, ok, throw, Error}
use btui.Range.{Range, le_value}
use btui.EntryStream.{Istream, next_entry_payload}

slice_bounds :
    (i n : ℕ) (xs : List ℕ)
    → i ≤ length xs
    → (length (slice i n xs) ≤ n) × (i + length (slice i n xs) ≤ length xs)
slice_bounds i n xs h = omega (arith, length-take n (drop i xs), length-drop i xs)

-- From a position within the content: on an exception the stream is good again, and stands where
-- it stood.
pub throw-keeps_position :
    (s : Istream) {s' : Istream} {e : Error}
    → s.pos ≤ length s.content
    → next_entry_payload s ≡ (s', throw e)
    → (s'.pos ≡ s.pos) × (s'.good ≡ true) × (s'.content ≡ s.content)
unfolding next_entry_payload
throw-keeps_position s {s'} {e} h k = ground (
  arith,
  slice_bounds s.pos 4 s.content,
  slice_bounds (s.pos + length got) (le_value got) s.content,
)
  where
    got : List ℕ
    got = slice s.pos 4 s.content

-- From a position within the content: a stream that returns a payload that is not empty stood
-- before its size, little endian, and the payload; it is good, and stands behind them now,
-- within the content.
pub payload-advances :
    (s : Istream) {s' : Istream} {payload : Range}
    → s.pos ≤ length s.content
    → next_entry_payload s ≡ (s', ok payload)
    → (payload ≢ [])
    → (s'.good ≡ true)
      × (s'.content ≡ s.content)
      × (s'.pos ≡ s.pos + 4 + length payload)
      × (length payload ≡ le_value (slice s.pos 4 s.content))
      × (payload ≡ slice (s.pos + 4) (length payload) s.content)
      × (s'.pos ≤ length s.content)
unfolding next_entry_payload
payload-advances s {s'} {payload} h k ne = ground (
  arith,
  slice_bounds s.pos 4 s.content,
  slice_bounds (s.pos + length got) (le_value got) s.content,
)
  where
    got : List ℕ
    got = slice s.pos 4 s.content

-- The content stays, and the position does not go back.
pub payload-forward :
    (s : Istream) {s' : Istream} {r : Result Range}
    → s.pos ≤ length s.content
    → next_entry_payload s ≡ (s', r)
    → (s'.content ≡ s.content) × (s.pos ≤ s'.pos) × (s'.pos ≤ length s.content)
unfolding next_entry_payload
payload-forward s {s'} {r} h k = ground (
  arith,
  slice_bounds s.pos 4 s.content,
  slice_bounds (s.pos + length got) (le_value got) s.content,
)
  where
    got : List ℕ
    got = slice s.pos 4 s.content
