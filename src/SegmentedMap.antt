-- ===== src/SegmentedMap.antt =====
-- include/binlog/detail/SegmentedMap.hpp: a map with 64 bit keys, for keys that are mostly
-- contiguous. A read of a vector out of range is `0` or the empty segment here; `Lookup.IsValid`
-- rules it out.
pub mod Lookup
pub mod Map
mod Tests
use btui.Prelude.{
  ℕ, zero, suc, ◌+◌, ◌-◌, Bool, Option, none, some, List, [], ◌∷◌, ◌++◌, length, get_or, get_elem?,
  set, take, drop, ltb, leb, ◌==◌, if◌then◌else◌, sub64,
}

pub record SegmentedMap {ℓ} (V : Type ℓ) : Type ℓ where
  pub offsets : List ℕ
  pub segments : List (List V)

-- `vector::insert` and `vector::emplace` before position `i`.
abbrev pub insert_at {ℓ} : {A : Type ℓ} → ℕ → A → List A → List A
insert_at i x xs = take i xs ++ (x ∷ drop i xs)

-- The loop of `segmentIndex` at index `si`: the list is what it has not reached.
pub advance : ℕ → List ℕ → ℕ → ℕ
advance key [] si = si
advance key (o ∷ os) si = let further = advance key os (si + 1) in if leb o key then further else si

unfoldable pub segment_index : ℕ → List ℕ → ℕ
unfolding advance
segment_index key offsets = advance key (drop 1 offsets) 1 - 1

module _ {ℓ} {V : Type ℓ} where
  unfoldable pub new : SegmentedMap V
  new = record { offsets = 0 ∷ []; segments = [] ∷ [] }

  unfoldable pub emplace : ℕ → V → SegmentedMap V → SegmentedMap V
  unfolding segment_index
  emplace key v m =
      let si = segment_index key m.offsets in
      let offset = get_or m.offsets si 0 in
      let vi = sub64 key offset in
      let segment = get_or m.segments si [] in
      if length segment == vi
      then record m { segments = set m.segments si (segment ++ (v ∷ [])) }
      else (if ltb vi (length segment)
          then record m { segments = set m.segments si (set segment vi v) }
          else record {
            offsets = insert_at (si + 1) key m.offsets;
            segments = insert_at (si + 1) (v ∷ []) m.segments;
          })

  pub total_length : List (List V) → ℕ
  total_length [] = 0
  total_length (s ∷ ss) = length s + total_length ss

  unfoldable pub size : SegmentedMap V → ℕ
  unfolding total_length
  size m = total_length m.segments

  unfoldable pub empty : SegmentedMap V → Bool
  unfolding size
  empty m = size m == 0

  -- `none` is `end()`.
  unfoldable pub find : ℕ → SegmentedMap V → Option V
  unfolding segment_index
  find key m =
      let si = segment_index key m.offsets in
      let offset = get_or m.offsets si 0 in
      let vi = sub64 key offset in
      let segment = get_or m.segments si [] in
      if ltb vi (length segment) then get_elem? segment vi else none
