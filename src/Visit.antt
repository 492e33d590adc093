-- ===== src/Visit.antt =====
-- include/mserialize/detail/Visit.hpp and Singular.hpp: the traversal of a serialized value by its type
-- tag, with `ToStringVisitor` as the visitor and a range as the stream. What the visitor's calls print
-- for numbers, and `PrettyPrinter::printStruct`, are arguments.
pub mod Hex
pub mod Enums
pub mod Values
pub mod Tags
pub mod Whole
pub mod Steps
pub mod Singular
pub mod Render
mod Tests
use btui.Prelude.{
  ℕ, zero, suc, ◌+◌, ◌-◌, ◌^◌, Bool, true, false, ◌&&◌, Option, none, some, List, [], ◌∷◌, ◌++◌,
  length, ltb, ◌==◌, if◌then◌else◌, drop,
}
use btui.Result.{Result, ok, throw, Error, ◌>>=◌}
use btui.Range.{Range, read, view}
use btui.Text.{is_empty}
use btui.Tags.{tag_pop, tag_pop_label, remove_prefix_before, drop_last, find, resolve_recursive_tag}
use btui.Visitor.{ToStringVisitor, Call, comma, visit}
use btui.Visit.Hex.{hex_value}

-- The tags in front of each other, as the loops over `tag_pop` meet them; one round for each character is
-- enough.
unfoldable pub pop_all : ℕ → List ℕ → List (List ℕ)
pop_all zero tags = []
pop_all (suc f) tags =
    let (first, rest) = tag_pop tags in
    let later = pop_all f rest in if is_empty first then [] else first ∷ later

-- The pairs of a label and a tag, as the loops over the fields of a struct meet them.
unfoldable pub pop_fields : ℕ → List ℕ → List (List ℕ × List ℕ)
pop_fields zero tag = []
pop_fields (suc f) tag =
    let (name, rest) = tag_pop_label tag in
    let (field_tag, rest') = tag_pop rest in
    let later = pop_fields f rest' in if is_empty tag then [] else (name, field_tag) ∷ later

-- The loops of `singular_tuple` and `singular_struct`.
pub all_singular : (List ℕ → Result Bool) → List (List ℕ) → Result Bool
all_singular k [] = ok true
all_singular k (t ∷ ts) = do first ← k t; if first then all_singular k ts else ok false

pub second_tags : List (List ℕ × List ℕ) → List (List ℕ)
second_tags [] = []
second_tags ((name, t) ∷ fs) = t ∷ second_tags fs

-- `singular_struct`, on the tag without its last character.
abbrev pub singular_struct : List ℕ → (List ℕ → Result Bool) → List ℕ × List ℕ → Result Bool
singular_struct full_tag k (intro, []) =
    ok (is_empty (tag_pop_label (resolve_recursive_tag full_tag intro)).1)
singular_struct full_tag k (intro, x ∷ tag) =
    all_singular k (second_tags (pop_fields (suc (length tag)) (x ∷ tag)))

-- The `switch` of `singular_impl`: ( is 40 and { is 123.
abbrev pub singular_tag : List ℕ → (List ℕ → Result Bool) → List ℕ → Result Bool
singular_tag full_tag k [] = ok true
singular_tag full_tag k (x ∷ tag) =
    if x == 40
    then all_singular k (pop_all (length (x ∷ tag)) (drop_last tag))
    else (if x == 123
        then singular_struct full_tag k (remove_prefix_before (drop_last (x ∷ tag)) 96)
        else ok false)

pub singular_impl : List ℕ → ℕ → List ℕ → Result Bool
unfolding all_singular second_tags pop_all pop_fields
singular_impl full_tag zero tag = throw Error.recursion_limit
singular_impl full_tag (suc n) tag = singular_tag full_tag (λ t. singular_impl full_tag n t) tag

-- What a visit leaves: the visitor, and the range behind the value or the exception.
abbrev pub Visited : Type 0
Visited = ToStringVisitor × Result Range

abbrev pub then_visit : (ToStringVisitor → Range → Visited) → Visited → Visited
then_visit k (v, throw e) = (v, throw e)
then_visit k (v, ok r) = k v r

-- A call of the visitor.
abbrev pub say : Call → ToStringVisitor → ToStringVisitor
say c v = (visit c v).0

-- The characters that `<<` writes for the bits of a number with this arithmetic tag.
abbrev pub NumberPrinter : Type 0
NumberPrinter = ℕ → ℕ → List ℕ

-- `PrettyPrinter::printStruct` on a name and a tag: what it writes, or `none` where it returns false; and the
-- range that it leaves.
abbrev pub StructPrinter : Type 0
StructPrinter = List ℕ → List ℕ → Range → Result (Option (List ℕ) × Range)

-- The number of bytes of an arithmetic type: y c b B are 1, s S 2, i I f 4, l L d 8 and D 16.
unfoldable pub arithmetic_size : ℕ → Option ℕ
arithmetic_size c =
    if c == b'y'
    then some 1
    else (if c == b'c'
        then some 1
        else (if c == b'b'
            then some 1
            else (if c == b's'
                then some 2
                else (if c == b'i'
                    then some 4
                    else (if c == b'l'
                        then some 8
                        else (if c == b'B'
                            then some 1
                            else (if c == b'S'
                                then some 2
                                else (if c == b'I'
                                    then some 4
                                    else (if c == b'L'
                                        then some 8
                                        else (if c == b'f'
                                            then some 4
                                            else (if c == b'd'
                                                then some 8
                                                else (if c == b'D'
                                                    then some 16
                                                    else none))))))))))))

unfoldable pub read_arithmetic : ℕ → Range → Result (ℕ × Range)
unfolding arithmetic_size
read_arithmetic c r = elim (arithmetic_size c) [
  | none ↦ throw (Error.arithmetic_tag c)
  | some n ↦ read n r
]

-- `while (size--)`, and the fields and elements of a struct or a tuple.
pub visit_times : ℕ → (ToStringVisitor → Range → Visited) → ToStringVisitor → Range → Visited
visit_times zero k v r = (v, ok r)
visit_times (suc n) k v r = then_visit (visit_times n k) (k v r)

pub visit_elems :
    (List ℕ → ToStringVisitor → Range → Visited) → List (List ℕ) → ToStringVisitor → Range → Visited
visit_elems k [] v r = (v, ok r)
visit_elems k (t ∷ ts) v r = then_visit (visit_elems k ts) (k t v r)

pub visit_fields :
    (List ℕ → ToStringVisitor → Range → Visited)
    → List (List ℕ × List ℕ)
    → ToStringVisitor
    → Range
    → Visited
visit_fields k [] v r = (v, ok r)
visit_fields k ((name, t) ∷ fs) v r =
    then_visit (λ v' r'. visit_fields k fs (say Call.field_end v') r')
      (k t (say (Call.field_begin name) v) r)

-- The calls that end a value.
abbrev pub end_with : Call → Visited → Visited
end_with c w = then_visit (λ v r. (say c v, ok r)) w

-- `SequenceBegin` with the tag `c`: the characters of a string are taken from the stream at once.
abbrev pub visit_string : ToStringVisitor → Result (List ℕ × Range) → Visited
visit_string v (throw e) = (comma v, throw e)
visit_string v (ok (chars, r)) = (say (Call.sequence_begin (some chars)) v, ok r)

abbrev pub is_char : List ℕ → Bool
is_char (x ∷ []) = x == b'c'
is_char _ = false

-- `while (preceding_tag_count--) { tag_pop(tag); }`
pub skip_tags : ℕ → List ℕ → List ℕ
skip_tags zero tags = tags
skip_tags (suc n) tags = skip_tags n (tag_pop tags).1

abbrev pub is_null : List ℕ → Bool
is_null (x ∷ []) = x == b'0'
is_null _ = false

abbrev pub visit_variant :
    (List ℕ → ToStringVisitor → Range → Visited)
    → List ℕ
    → ToStringVisitor
    → Result (ℕ × Range)
    → Visited
visit_variant k tags v (throw e) = (v, throw e)
visit_variant k tags v (ok (discriminator, r)) =
    let option_tag = (tag_pop (skip_tags discriminator tags)).0 in
    let v' = say Call.variant_begin v in
    end_with Call.variant_end
      (if is_null option_tag then (say Call.null v', ok r) else k option_tag v' r)

-- `StructBegin`: either the pretty printer takes the whole struct from the stream, or the fields follow.
abbrev pub begin_fields :
    (List ℕ → ToStringVisitor → Range → Visited)
    → List ℕ
    → List ℕ
    → ToStringVisitor
    → Result (Option (List ℕ) × Range)
    → Visited
begin_fields k name tag v (throw e) = (comma v, throw e)
begin_fields k name tag v (ok (some chars, r)) =
    (say (Call.struct_begin name tag (some chars)) v, ok r)
begin_fields k name tag v (ok (none, r)) =
    end_with Call.struct_end
      (visit_fields k (pop_fields (length tag) tag) (say (Call.struct_begin name tag none) v) r)

-- `visit_struct` behind `remove_prefix_before`: a struct without fields may refer to an outer one.
abbrev pub resolved : List ℕ → List ℕ × List ℕ → List ℕ
resolved full_tag (intro, []) = resolve_recursive_tag full_tag intro
resolved full_tag (intro, x ∷ tag) = x ∷ tag

-- The enumerator whose value stands between the delimiters ' (39) and ` (96), or nothing.
abbrev pub enumerator_at : List ℕ → List ℕ → Option ℕ → List ℕ
enumerator_at tag dvalue none = []
enumerator_at tag dvalue (some pos) = (tag_pop_label (drop (pos + length dvalue - 1) tag)).0

unfoldable pub enumerator_of : List ℕ → List ℕ → List ℕ
enumerator_of tag hex =
    let dvalue = 39 ∷ (hex ++ (96 ∷ [])) in enumerator_at tag dvalue (find tag dvalue)

abbrev pub visit_enumerator : ℕ → List ℕ → ToStringVisitor → Result (ℕ × Range) → Visited
visit_enumerator c tag v (throw e) = (v, throw e)
visit_enumerator c tag v (ok (bits, r)) =
    let hex = hex_value c bits in
    (say (Call.enum (enumerator_of (remove_prefix_before (drop 2 tag) 39).1 hex) hex) v, ok r)

-- `visit_enum`, on the tag without its separators.
abbrev pub visit_enum : List ℕ → ToStringVisitor → Range → Visited
visit_enum [] v r = (v, throw Error.enum_tag)
visit_enum (c ∷ tag) v r = visit_enumerator c (c ∷ tag) v (read_arithmetic c r)

module _ (print_number : NumberPrinter) (print_struct : StructPrinter) where
  abbrev pub visit_number : ℕ → ToStringVisitor → Result (ℕ × Range) → Visited
  visit_number c v (throw e) = (v, throw e)
  visit_number c v (ok (bits, r)) = (say (Call.number (print_number c bits)) v, ok r)

  -- The elements of a sequence, once it is known whether they are all the same; the size is a `std::uint32_t`.
  abbrev pub visit_items :
      (List ℕ → ToStringVisitor → Range → Visited)
      → ℕ
      → List ℕ
      → ToStringVisitor
      → Range
      → Result Bool
      → Visited
  visit_items k size elem v r (throw e) = (v, throw e)
  visit_items k size elem v r (ok true) = end_with Call.sequence_end (
      end_with (Call.repeat_end size (print_number b'I' size)) (k elem (say Call.repeat_begin v) r))
  visit_items k size elem v r (ok false) =
      end_with Call.sequence_end (visit_times size (k elem) v r)

  abbrev pub visit_sequence :
      (List ℕ → ToStringVisitor → Range → Visited)
      → (List ℕ → Result Bool)
      → List ℕ
      → ToStringVisitor
      → Result (ℕ × Range)
      → Visited
  visit_sequence k is_singular elem v (throw e) = (v, throw e)
  visit_sequence k is_singular elem v (ok (size, r)) =
      if is_char elem
      then visit_string v (view size r)
      else visit_items k size elem (say (Call.sequence_begin none) v) r
          (if ltb 32 size then is_singular elem else ok false)

  abbrev pub visit_struct :
      List ℕ
      → (List ℕ → ToStringVisitor → Range → Visited)
      → List ℕ × List ℕ
      → ToStringVisitor
      → Range
      → Visited
  visit_struct full_tag k split v r =
      let name = drop 1 split.0 in
      let tag = resolved full_tag split in begin_fields k name tag v (print_struct name tag r)

  -- The `switch` of `visit_impl`; `k` visits one level further down.
  unfoldable pub visit_tag :
      List ℕ
      → (List ℕ → ToStringVisitor → Range → Visited)
      → (List ℕ → Result Bool)
      → List ℕ
      → ToStringVisitor
      → Range
      → Visited
  unfolding visit_times visit_elems visit_fields skip_tags read_arithmetic enumerator_of pop_all
      pop_fields drop_last
  visit_tag full_tag k is_singular [] v r = (v, ok r)
  visit_tag full_tag k is_singular (x ∷ tag) v r =
      if x == b'['
      then visit_sequence k is_singular (tag_pop tag).0 v (read 4 r)
      else (if x == b'('
          then end_with Call.tuple_end
              (visit_elems k (pop_all (length tag) (drop_last tag)) (say Call.tuple_begin v) r)
          else (if x == b'<'
              then visit_variant k (drop_last tag) v (read 1 r)
              else (if x == b'{'
                  then visit_struct full_tag k (remove_prefix_before (drop_last (x ∷ tag)) 96) v r
                  else (if x == b'/'
                      then visit_enum (drop_last tag) v r
                      else visit_number x v (read_arithmetic x r)))))

  pub visit_impl : List ℕ → ℕ → List ℕ → ToStringVisitor → Range → Visited
  unfolding visit_tag
  visit_impl full_tag zero tag v r = (v, throw Error.recursion_limit)
  visit_impl full_tag (suc n) tag v r =
      visit_tag full_tag (visit_impl full_tag n) (singular_impl full_tag n) tag v r

  -- `mserialize::visit`
  unfoldable pub visit_value : List ℕ → ToStringVisitor → Range → Visited
  unfolding visit_impl
  visit_value tag v r = visit_impl tag 2048 tag v r
