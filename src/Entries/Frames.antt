-- ===== src/Entries/Frames.antt =====
-- Framed entries: what `serializeSizePrefixedTagged` writes is one entry for a reader of the stream.
use btui.Prelude.{
  ℕ, ◌+◌, ◌%◌, ◌^◌, ◌<◌, ◌≡◌, refl, false, List, ◌++◌, append_assoc, length, length-append, arith,
}
use native.Mathlib.Nat.{mod-eq_of_lt}
use btui.Result.{ok}
use btui.Range.{le_bytes, empty}
use btui.Range.Words.{read-le_bytes, view-append_of_length, length-le_bytes}
use btui.Entries.{Entry, serialize_size_prefixed_tagged}
use btui.Entries.Codec.{Lawful}
use btui.EntryStream.{next_range_payload}

pub empty_frame : (v : ℕ) (rest : List ℕ) → empty (le_bytes 4 v ++ rest) ≡ false
unfolding empty le_bytes
empty_frame v rest = refl

module _ {A : Type 0} ⦃e : Entry A⦄ (l : Lawful e) (a : A)
    (fits : e.serialized_size a + 8 < 2 ^ 32) where
  -- For an entry of a lawful kind whose size fits 32 bits: the number that
  -- `serializeSizePrefixedTagged` returns is the number of bytes that it writes.
  pub size_written :
      length (serialize_size_prefixed_tagged a).0 ≡ (serialize_size_prefixed_tagged a).1
  unfolding serialize_size_prefixed_tagged
  size_written =
      let s : ℕ = (e.serialized_size a + 8) % 2 ^ 32 in
      omega (
        arith,
        length-append (le_bytes 4 s) (le_bytes 8 e.tag ++ e.serialize a),
        length-append (le_bytes 8 e.tag) (e.serialize a),
        length-le_bytes 4 s,
        length-le_bytes 8 e.tag,
        l.length_serialize a,
      )

  -- For an entry of a lawful kind whose size fits 32 bits: the payload that a stream returns for the
  -- written entry is its tag and its fields, and the rest of the stream is left.
  pub payload-serialize :
      (rest : List ℕ)
      → next_range_payload ((serialize_size_prefixed_tagged a).0 ++ rest)
        ≡ (rest, ok (le_bytes 8 e.tag ++ e.serialize a))
  unfolding serialize_size_prefixed_tagged next_range_payload
  payload-serialize rest = rw (
    append_assoc,
    empty_frame,
    read-le_bytes 4 size (body ++ rest) (omega arith),
    view-append_of_length size body rest (
        omega (
          arith,
          mod-eq_of_lt fits,
          length-append (le_bytes 8 e.tag) (e.serialize a),
          length-le_bytes 8 e.tag,
          l.length_serialize a,
        )),
  )
    where
      size : ℕ
      size = (e.serialized_size a + 8) % 2 ^ 32

      body : List ℕ
      body = le_bytes 8 e.tag ++ e.serialize a
