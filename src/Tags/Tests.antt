-- ===== src/Tags/Tests.antt =====
-- The tags of a tuple of an `int` and a string, followed by an `int`: "(i[c)i".
use btui.Prelude.{ℕ, ◌+◌, ◌≡◌, List, [], ◌∷◌, ◌++◌, length, arith}
use btui.Tags.{size_between_balanced}
use btui.Tags.Pop.{Balanced, size_between_balanced_lem}

abbrev inner : List ℕ
inner = 105 ∷ 91 ∷ 99 ∷ []

inner-Balanced : Balanced 40 41 inner
inner-Balanced = Balanced.other 105 (omega arith) (omega arith) (
    Balanced.other 91 (omega arith) (omega arith)
      (Balanced.other 99 (omega arith) (omega arith) Balanced.done))

size_between_balanced_lem_example :
    size_between_balanced (40 ∷ inner ++ (41 ∷ 105 ∷ [])) 40 41 ≡ 1 + length inner + 1
size_between_balanced_lem_example =
    size_between_balanced_lem 40 41 (omega arith) inner-Balanced (105 ∷ [])
