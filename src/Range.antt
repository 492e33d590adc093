-- ===== src/Range.antt =====
-- include/binlog/Range.hpp: a view of bytes, as the list of the bytes that it shows. Numbers are read
-- by `memcpy` on a little endian machine.
pub mod Words
use btui.Prelude.{
  ℕ, zero, suc, ◌+◌, ◌*◌, ◌/◌, ◌%◌, ◌≤◌, ◌≡◌, Bool, List, [], ◌∷◌, length, take, drop, ltb,
  if◌then◌else◌,
}
use btui.Result.{Result, ok, throw, Error, ◌>>=◌}

abbrev pub Range : Type 0
Range = List ℕ

unfoldable pub empty : Range → Bool
empty [] = Bool.true
empty (b ∷ r) = Bool.false

-- `view(size)`: the dropped bytes, and the range that is left.
unfoldable pub view : ℕ → Range → Result (List ℕ × Range)
view n r = if ltb (length r) n then throw Error.range_overflow else ok (take n r, drop n r)

-- The number that `n` little endian bytes stand for, and the bytes of a number.
unfoldable pub le_value : List ℕ → ℕ
le_value [] = 0
le_value (b ∷ bs) = b + 256 * le_value bs

unfoldable pub le_bytes : ℕ → ℕ → List ℕ
le_bytes zero v = []
le_bytes (suc n) v = v % 256 ∷ le_bytes n (v / 256)

-- `read<T>()` for an unsigned `T` of `n` bytes.
unfoldable pub read : ℕ → Range → Result (ℕ × Range)
unfolding view le_value
read n r = do (bs, rest) ← view n r; ok (le_value bs, rest)
