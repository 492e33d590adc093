-- ===== src/RecoverableStream.antt =====
-- include/binlog/detail/VectorOutputStream.hpp: `RecoverableVectorOutputStream`, the bytes of a stream behind a header
-- by which they are found in a memory dump. When a `std::vector` grows, and to what capacity, is an argument.
pub mod Layout
use btui.Prelude.{
  ℕ, ◌+◌, ◌-◌, ◌%◌, ◌^◌, List, [], ◌∷◌, ◌++◌, length, take, ltb, ◌==◌, if◌then◌else◌, blit,
}
use btui.Range.{le_bytes, le_value}

pub record RecoverableVectorOutputStream : Type 0 where
  pub vector : List ℕ
  pub capacity : ℕ

abbrev pub header_size : ℕ
header_size = 24

abbrev pub size_offset : ℕ
size_offset = 16

-- `_vector.resize(HeaderSize)`
abbrev pub zeros : List ℕ
zeros = le_bytes 24 0

-- The constructor, on a vector that has this capacity after `resize`.
unfoldable pub make : ℕ → ℕ → ℕ → RecoverableVectorOutputStream
make capacity magic id = record {
  vector = blit 16 (le_bytes 8 0) (blit 8 (le_bytes 8 id) (blit 0 (le_bytes 8 magic) zeros));
  capacity = capacity;
}

unfoldable pub size : RecoverableVectorOutputStream → ℕ
size s = length s.vector - header_size

unfoldable pub set_magic : ℕ → List ℕ → List ℕ
set_magic magic vector = blit 0 (le_bytes 8 magic) vector

-- `updateSize`
unfoldable pub update_size : RecoverableVectorOutputStream → RecoverableVectorOutputStream
unfolding size
update_size s = record s { vector = blit size_offset (le_bytes 8 (size s % 2 ^ 64)) s.vector }

-- `write`, with the capacity of a vector that grows to a size: the magic of the old buffer is cleared.
unfoldable pub write :
    (ℕ → ℕ) → List ℕ → RecoverableVectorOutputStream → RecoverableVectorOutputStream
unfolding set_magic update_size
write grown chars s =
    let new_size = length s.vector + length chars in
    if ltb s.capacity new_size
    then (let magic = le_value (take 8 s.vector) in
        let vector = set_magic 0 s.vector ++ chars in
        update_size (record {
          vector = if magic == 0 then vector else set_magic magic vector;
          capacity = grown new_size;
        }))
    else update_size (record s { vector = s.vector ++ chars })

-- The destructor clears the magic.
unfoldable pub destroyed : RecoverableVectorOutputStream → List ℕ
unfolding set_magic
destroyed s = set_magic 0 s.vector

pub write_all :
    (ℕ → ℕ) → List (List ℕ) → RecoverableVectorOutputStream → RecoverableVectorOutputStream
unfolding write
write_all grown [] s = s
write_all grown (chars ∷ more) s = write_all grown more (write grown chars s)
