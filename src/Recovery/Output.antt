-- ===== src/Recovery/Output.antt =====
-- bin/brecovery.cpp, the end of `main`: the recovered buffers are sorted and written. `std::sort` is a parameter:
-- it permutes and sorts, and leaves the order of equal elements open. A write that fails is not modelled.
use mathlib.Core.List.{Perm}
use btui.Prelude.{
  ℕ, ◌≤◌, ◌<◌, ◌≡◌, ap, Bool, false, ◌⊎◌, Option, none, some, List, [], ◌∷◌, ◌++◌, All, length, ltb,
  ◌==◌, if◌then◌else◌, arith,
}
use btui.Range.{Range}
use btui.Model.Sorting.{Sorted}
use btui.Recovery.Ends.{search-IsSome}
use btui.Recovery.{BufferType, metadata, plain_data, RecoveredBuffer, search}

-- `enum class BufferType`
abbrev pub kind_value : BufferType → ℕ
kind_value metadata = 0
kind_value plain_data = 1

-- `cmp`
unfoldable pub cmp : RecoveredBuffer → RecoveredBuffer → Bool
cmp a b =
    if a.session == b.session
    then ltb (kind_value a.kind) (kind_value b.kind)
    else ltb a.session b.session

abbrev pub Sort : Type 0
Sort = (RecoveredBuffer → RecoveredBuffer → Bool) → List RecoveredBuffer → List RecoveredBuffer

-- What `std::sort` does.
pub record Sorts (sort : Sort) (less : RecoveredBuffer → RecoveredBuffer → Bool) : Type 0 where
  pub permutes : (buffers : List RecoveredBuffer) → Perm (sort less buffers) buffers
  pub sorts : (buffers : List RecoveredBuffer) → Sorted less (sort less buffers)

-- `for (const RecoveredBuffer& buffer : buffers) output.write(...)`
unfoldable pub write_buffers : List RecoveredBuffer → List ℕ
write_buffers [] = []
write_buffers (b ∷ bs) = b.buffer ++ write_buffers bs

abbrev pub output_of : Sort → Option (List RecoveredBuffer) → Option (List ℕ)
output_of sort none = none
output_of sort (some buffers) = some (write_buffers (sort cmp buffers))

-- The output for a dump, with fuel for the search.
unfoldable pub write_recovered : Sort → ℕ → Range → Option (List ℕ)
unfolding search write_buffers cmp
write_recovered sort fuel input = output_of sort (search fuel input)

-- A buffer that may stand before another: of an earlier session, or of the same one and not data before metadata.
abbrev pub Before : RecoveredBuffer → RecoveredBuffer → Type 0
Before a b =
    (a.session < b.session) ⊎ ((a.session ≡ b.session) × (kind_value a.kind ≤ kind_value b.kind))

-- Each buffer may stand before all that follow.
abbrev pub Grouped : List RecoveredBuffer → Type 0
Grouped [] = Unit {0}
Grouped (b ∷ bs) = All (Before b) bs × Grouped bs

not_less : (a b : RecoveredBuffer) → cmp b a ≡ false → Before a b
unfolding cmp
not_less a b h = ground arith

Before-trans : (a b c : RecoveredBuffer) → Before a b → Before b c → Before a c
Before-trans a b c h g = omega arith

All-Before :
    (a b : RecoveredBuffer) (bs : List RecoveredBuffer)
    → Before a b
    → All (Before b) bs
    → All (Before a) bs
All-Before a b [] h g = tt
All-Before a b (c ∷ bs) h (g, gs) = (Before-trans a b c h g, All-Before a b bs h gs)

Sorted-Grouped : (bs : List RecoveredBuffer) → Sorted cmp bs → Grouped bs
Sorted-Grouped [] h = tt
Sorted-Grouped (a ∷ []) h = (tt, tt)
Sorted-Grouped (a ∷ b ∷ bs) (h, hs) =
    let ab = not_less a b h in
    let g = Sorted-Grouped (b ∷ bs) hs in ((ab, All-Before a b bs ab g.0), g)

-- The recovery of a dump ends, with more rounds than the dump has bytes, and writes each of the buffers that the
-- search finds once, in an order in which the buffers of a session are next to each other, the sessions rise, and
-- the metadata of a session stands before its data, with any sort that permutes and sorts.
pub write_recovered-Grouped :
    (sort : Sort) (fuel : ℕ) (input : Range)
    → Sorts sort cmp
    → length input < fuel
    → (buffers : List RecoveredBuffer) × (written : List RecoveredBuffer) × (search fuel input
        ≡ some buffers)
      × (write_recovered sort fuel input ≡ some (write_buffers written))
      × Perm written buffers
      × Grouped written
unfolding write_recovered
write_recovered-Grouped sort fuel input h k =
    let (buffers, e) = search-IsSome fuel input k in
    (
      buffers,
      sort cmp buffers,
      e,
      ap (λ o. output_of sort o) e,
      h.permutes buffers,
      Sorted-Grouped (sort cmp buffers) (h.sorts buffers),
    )
