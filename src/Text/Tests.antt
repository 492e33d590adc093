-- ===== src/Text/Tests.antt =====
-- Paths and needles.
use btui.Prelude.{ℕ, ◌≡◌, ◌↔◌, true, List, [], ◌∷◌}
use btui.Text.{contains_substring_case_insensitive}
use btui.Text.Contains.{OccursAt, contains_iff}

-- "a/b"
abbrev path : List ℕ
path = 97 ∷ 47 ∷ 98 ∷ []

-- "/B" in "a/b"
contains_iff_example :
    (contains_substring_case_insensitive path (47 ∷ 66 ∷ []) ≡ true)
    ↔ ((k : ℕ) × OccursAt path (47 ∷ 66 ∷ []) k)
contains_iff_example = contains_iff path (47 ∷ 66 ∷ [])
