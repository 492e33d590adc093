-- ===== src/Text.antt =====
-- The two string helpers of bin/btui_model.cpp: `baseName` (also `printFilename` of
-- include/binlog/PrettyPrinter.cpp) and `containsSubstringCaseInsensitive`. A string is a list of bytes.
pub mod BaseName
pub mod Contains
mod Tests
use btui.Prelude.{
  ℕ, zero, suc, ◌+◌, ◌-◌, Bool, true, false, ◌&&◌, ◌||◌, List, [], ◌∷◌, length, get_or, drop, ltb,
  leb, ◌==◌, if◌then◌else◌,
}

abbrev pub is_separator : ℕ → Bool
is_separator c = c == b'/' || c == b'\\'

-- The loop of `baseName` from `i` down.
pub base_index : List ℕ → ℕ → ℕ
base_index path zero = zero
base_index path (suc i) =
    let below = base_index path i in if is_separator (get_or path i 0) then suc i else below

unfoldable pub base_name : List ℕ → List ℕ
unfolding base_index
base_name path = drop (base_index path (length path)) path

abbrev pub to_lower : ℕ → ℕ
to_lower c = if leb b'A' c && leb c b'Z' then c + 32 else c

-- The inner loop, at `j`; the second list is what it has not reached of the needle.
pub match_at : List ℕ → ℕ → List ℕ → ℕ → Bool
match_at haystack i [] j = true
match_at haystack i (n ∷ ns) j =
    let rest = match_at haystack i ns (j + 1) in
    if to_lower (get_or haystack (i + j) 0) == to_lower n then rest else false

-- The outer loop, at `i` with the given number of rounds left.
pub search_from : List ℕ → List ℕ → ℕ → ℕ → Bool
search_from haystack needle zero i = false
search_from haystack needle (suc rounds) i =
    let later = search_from haystack needle rounds (i + 1) in
    if match_at haystack i needle 0 then true else later

unfoldable pub is_empty : List ℕ → Bool
is_empty [] = true
is_empty (c ∷ s) = false

unfoldable pub contains_substring_case_insensitive : List ℕ → List ℕ → Bool
unfolding is_empty match_at search_from
contains_substring_case_insensitive haystack needle =
    if is_empty needle
    then true
    else (if ltb (length haystack) (length needle)
        then false
        else search_from haystack needle (length haystack - length needle + 1) 0)
