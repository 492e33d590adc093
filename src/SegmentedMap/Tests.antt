-- ===== src/SegmentedMap/Tests.antt =====
-- The map with keys from one to four, and with a value that is set again.
use btui.Prelude.{ℕ, ◌≡◌, some, ◌==◌, if◌then◌else◌, arith}
use btui.SegmentedMap.{SegmentedMap, new, emplace, find}
use btui.SegmentedMap.Map.{IsValid, new-IsValid, emplace-IsValid, find-emplace}

abbrev two_values : SegmentedMap ℕ
two_values = emplace 2 20 (emplace 1 10 new)

one-IsValid : IsValid (emplace {V = ℕ} 1 10 new)
one-IsValid = emplace-IsValid 1 10 new-IsValid (omega arith)

two_values-IsValid : IsValid two_values
two_values-IsValid = emplace-IsValid 2 20 one-IsValid (omega arith)

emplace-IsValid_example : IsValid (emplace 4 40 two_values)
emplace-IsValid_example = emplace-IsValid 4 40 two_values-IsValid (omega arith)

find-emplace_example :
    find 2 (emplace 4 40 two_values) ≡ (if 4 == 2 then some 40 else find 2 two_values)
find-emplace_example = find-emplace 4 2 40 two_values-IsValid (omega arith) (omega arith)
