-- ===== src/Tags.antt =====
-- include/mserialize/detail/tag_util.hpp: taking type tags apart. A string view is the list of its
-- characters' codes, and `remove_prefix` drops from it.
pub mod Pop
pub mod Labels
mod Tests
use mathlib.Core.Option
use btui.Prelude.{
  ℕ, zero, suc, ◌+◌, ◌-◌, Bool, true, false, ◌&&◌, Option, none, some, List, [], ◌∷◌, length,
  if◌then◌else◌, ◌==◌, take, drop,
}

-- The count of open separators after a character.
abbrev pub open_count : ℕ → ℕ → ℕ → ℕ → ℕ
open_count opening closing n x = if x == opening then suc n else (if x == closing then n - 1 else n)

-- The loop ends behind the separator that closes the last open one.
abbrev pub count_char : ℕ → ℕ → ℕ
count_char zero rest = 1
count_char (suc n) rest = suc rest

-- The characters that the loop passes, from the given one on, with `n` separators open.
pub balanced_from : ℕ → ℕ → ℕ → List ℕ → ℕ
balanced_from opening closing n [] = 0
balanced_from opening closing n (x ∷ s) =
    let m = open_count opening closing n x in count_char m (balanced_from opening closing m s)

unfoldable pub size_between_balanced : List ℕ → ℕ → ℕ → ℕ
unfolding balanced_from
size_between_balanced s opening closing = 1 + balanced_from opening closing 1 (drop 1 s)

pub find_pos : List ℕ → ℕ → ℕ
find_pos [] c = 0
find_pos (x ∷ s) c = if x == c then 0 else suc (find_pos s c)

-- The prefix, and what is left of `s`.
unfoldable pub remove_prefix_before : List ℕ → ℕ → List ℕ × List ℕ
unfolding find_pos
remove_prefix_before s c = let cpos = find_pos s c in (take cpos s, drop cpos s)

-- The `switch` on the first character behind the `[`s: ( is 40, < is 60, { is 123 and / is 47.
unfoldable pub tag_body_size : List ℕ → ℕ
tag_body_size [] = 0
tag_body_size (x ∷ s) =
    if x == 40
    then size_between_balanced (x ∷ s) 40 41
    else (if x == 60
        then size_between_balanced (x ∷ s) 60 62
        else (if x == 123
            then size_between_balanced (x ∷ s) 123 125
            else (if x == 47 then size_between_balanced (x ∷ s) 47 92 else 1)))

-- Each [ (91) counts one.
unfoldable pub tag_first_size : List ℕ → ℕ
unfolding tag_body_size
tag_first_size [] = 0
tag_first_size (x ∷ s) = if x == 91 then suc (tag_first_size s) else tag_body_size (x ∷ s)

unfoldable pub tag_pop : List ℕ → List ℕ × List ℕ
unfolding tag_first_size
tag_pop tags = let first_size = tag_first_size tags in (take first_size tags, drop first_size tags)

-- The label up to ' (39); the position of a missing ' is the end.
unfoldable pub tag_pop_label : List ℕ → List ℕ × List ℕ
unfolding find_pos
tag_pop_label tags =
    let tags = drop 1 tags in
    let label = take (find_pos tags 39) tags in (label, drop (length label + 1) tags)

unfoldable pub tag_pop_arithmetic : List ℕ → List ℕ × List ℕ
tag_pop_arithmetic [] = ([], [])
tag_pop_arithmetic (x ∷ s) = (x ∷ [], s)

-- `string_view::remove_suffix(1)`
unfoldable pub drop_last : List ℕ → List ℕ
drop_last [] = []
drop_last (x ∷ []) = []
drop_last (x ∷ y ∷ s) = x ∷ drop_last (y ∷ s)

unfoldable pub starts_with : List ℕ → List ℕ → Bool
starts_with s [] = true
starts_with [] (y ∷ x) = false
starts_with (c ∷ s) (y ∷ x) = (c == y) && starts_with s x

-- `find(x)`, from the first position on; `none` is `npos`.
unfoldable pub find : List ℕ → List ℕ → Option ℕ
unfolding starts_with
find [] x = if starts_with [] x then some 0 else none
find (c ∷ s) x =
    let later = find s x in if starts_with (c ∷ s) x then some 0 else Option.map suc later

-- `remove_prefix(find(intro))`: all of it goes where `intro` is not found.
abbrev pub drop_to : Option ℕ → List ℕ → List ℕ
drop_to none s = []
drop_to (some i) s = drop i s

-- What the loop of `resolve_recursive_tag` does behind an occurrence of `intro`: 96 is `, 125 is }.
abbrev pub resolve_step : List ℕ → List ℕ → List ℕ
resolve_step rest later = elim rest [
  | [] ↦ []
  | x ∷ s ↦
      if x == 125
      then []
      else (if x == 96 then take (size_between_balanced (x ∷ s) 123 125 - 1) (x ∷ s) else later)
]

-- The loop, with a round for each character at most.
pub resolve_from : ℕ → List ℕ → List ℕ → List ℕ
unfolding find size_between_balanced
resolve_from zero full_tag intro = []
resolve_from (suc f) full_tag intro =
    let rest = drop (length intro) (drop_to (find full_tag intro) full_tag) in
    resolve_step rest (resolve_from f rest intro)

unfoldable pub resolve_recursive_tag : List ℕ → List ℕ → List ℕ
unfolding resolve_from
resolve_recursive_tag full_tag [] = []
resolve_recursive_tag full_tag (x ∷ intro) = resolve_from (length full_tag) full_tag (x ∷ intro)
