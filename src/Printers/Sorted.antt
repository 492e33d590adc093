-- ===== src/Printers/Sorted.antt =====
-- Printing events by their clock values.
use btui.Prelude.{ℕ, ◌≡◌, refl, List, ◌++◌}
use btui.Result.{ok, throw}
use btui.SegmentedMap.Map.{new-IsValid, find-new}
use btui.EventStream.{EventStream, fresh}
use btui.EventStream.Decode.{Agrees, initial}
use btui.PrettyPrinter.{PrettyPrinter, Printed}
use btui.Model.Sorting.{Sorted, with_key}
use btui.Printers.{Done, Pair, cmp_clock, texts}

pub fresh-Agrees : Agrees initial fresh
unfolding fresh
fresh-Agrees = record {
  valid = new-IsValid;
  same_sources = λ j h. find-new j;
  same_writer = refl;
  same_clock = refl;
}

abbrev pub clock : Pair → ℕ
clock p = p.0

-- The texts that are written for buffered events: those of a list in which clock values never fall, and in which
-- the events of each clock value are those of the buffer, in order.
abbrev pub PrintsSorted : List ℕ → Done (List Pair) → Printed → Type 0
PrintsSorted out (buffer, throw e) printed = printed ≡ (out, throw e)
PrintsSorted out (buffer, ok u) printed =
    (sorted : List Pair) × (printed ≡ (out ++ texts sorted, ok tt))
    × Sorted cmp_clock sorted
    × ((k : ℕ) → with_key clock k sorted ≡ with_key clock k buffer)
