-- ===== src/Serialize/Visited.antt =====
-- The tag of a type and the bytes of an object are those of the value that the object is shown as.
use btui.Prelude.{
  ℕ, suc, ◌≤◌, ◌≡◌, refl, sym, ap, ap₂, subst, ◌∙◌, none, some, List, [], ◌∷◌, ◌++◌, append-nil,
  append_assoc, length, All, arith,
}
use btui.Result.{ok}
use btui.Range.{le_bytes}
use btui.Visitor.{new}
use btui.Visit.{NumberPrinter, StructPrinter, arithmetic_size, visit_value}
use btui.Visit.Hex.{hex_value}
use btui.Visit.Enums.{enumerators}
use btui.Visit.Values.{
  Value, Values, Fields, number, enumerator, text, variant, absent, empty, nil, cons, last, field,
  concat, label, tag_of, tags_of, field_tags, count, size_of, bytes_of, bytes_of_all,
  bytes_of_fields, render,
}
use btui.Visit.Values
use btui.Visit.Whole.{Fits}
use btui.Visit.Steps.{height}
use btui.Visit.Render.{visit_value-render}
use btui.Serialize.{
  Arithmetic, boolean, character, signed, unsigned, float, double, long_double, byte, two_bytes,
  four_bytes, eight_bytes, Container, CppType, CppTypes, Members, Enumerator, Object, Objects,
  MemberObjects, arithmetic, enumeration, adapted, sequence, tuple, optional, structure, no_more,
  elem, no_member, member, size_of_arithmetic, width_size, serialize_each, memory_of,
  serialize_elems, serialize, serialize_tuple, serialize_members,
}
use btui.Serialize.Elements.{one_by_one, small_mod}
use btui.Serialize.Shown.{values_of, numbers_of, elements_of, pairs, value_of, tuple_of, fields_of}
use btui.Serialize.Tag.{
  arithmetic_tag, signed_tag, unsigned_tag, cx_strcat, enumerator_strings, tag, element_tags,
  member_tags,
}
use btui.Serialize.Size.{SizesFit, TupleSizesFit, MemberSizesFit, length-serialize_each}

numbers_of-tag :
    (a : Arithmetic) (s : List ℕ) → tag_of (numbers_of a s) ≡ b'[' ∷ arithmetic_tag a ∷ []
unfolding numbers_of tag_of arithmetic_tag
numbers_of-tag character s = refl
numbers_of-tag boolean s = refl
numbers_of-tag (signed w) s = refl
numbers_of-tag (unsigned w) s = refl
numbers_of-tag float s = refl
numbers_of-tag double s = refl
numbers_of-tag long_double s = refl

elements_of-tag :
    (c : Container) (t : CppType) (k : Object t → Value) (s : List (Object t))
    → tag_of (elements_of t k s) ≡ tag (sequence c t)
unfolding elements_of tag_of tag
elements_of-tag c (arithmetic a) k s = numbers_of-tag a s
elements_of-tag c (enumeration a) k s = numbers_of-tag a s
elements_of-tag c (adapted a name es) k s = refl
elements_of-tag c (sequence c' t) k s = refl
elements_of-tag c (tuple ts) k s = refl
elements_of-tag c (optional t) k s = refl
elements_of-tag c (structure name ms) k s = refl

enumerators-pairs :
    (c : ℕ) (es : List Enumerator) → enumerators (pairs c es) ≡ cx_strcat (enumerator_strings c es)
unfolding enumerators pairs cx_strcat enumerator_strings
enumerators-pairs c [] = refl
enumerators-pairs c (e ∷ es) =
    ap (λ l. hex_value c e.value ++ (96 ∷ l))
      (ap (λ l. e.name ++ (39 ∷ l)) (enumerators-pairs c es)
        ∙ sym (append_assoc e.name (39 ∷ []) (cx_strcat (enumerator_strings c es))))

mutual
  unfolding value_of tag tag_of concat

  pub tag_of-value_of : (t : CppType) (x : Object t) → tag_of (value_of t x) ≡ tag t
  tag_of-value_of (arithmetic a) x = refl
  tag_of-value_of (enumeration a) x = refl
  tag_of-value_of (adapted a name es) x =
      ap (λ l. b'/' ∷ arithmetic_tag a ∷ 96 ∷ l)
        (ap (λ l. (name ++ (39 ∷ l)) ++ (92 ∷ [])) (enumerators-pairs (arithmetic_tag a) es)
          ∙ append_assoc name (39 ∷ cx_strcat (enumerator_strings (arithmetic_tag a) es)) (92 ∷ [])
          ∙ sym (
              append_assoc name (39 ∷ [])
                (cx_strcat (enumerator_strings (arithmetic_tag a) es) ++ (92 ∷ []))))
  tag_of-value_of (sequence c t) s = elements_of-tag c t (value_of t) s
  tag_of-value_of (tuple ts) x = ap (λ l. b'(' ∷ (l ++ (b')' ∷ []))) (tags_of-tuple_of ts x)
  tag_of-value_of (optional t) none =
      ap (λ l. b'<' ∷ b'0' ∷ (l ++ (b'>' ∷ []))) (append-nil (tag t))
  tag_of-value_of (optional t) (some x) =
      ap (λ l. b'<' ∷ b'0' ∷ (l ++ (b'>' ∷ [])))
        (append-nil (tag_of (value_of t x)) ∙ tag_of-value_of t x)
  tag_of-value_of (structure name no_member) x = refl
  tag_of-value_of (structure name (member m t ms)) (x, xs) =
      ap (λ l. b'{' ∷ ((name ++ l) ++ (b'}' ∷ [])))
        (field_tags-fields_of m t (value_of t x) ms xs (tag_of-value_of t x))
      ∙ ap (λ l. b'{' ∷ l) (append_assoc name (member_tags (member m t ms)) (b'}' ∷ []))

  tags_of-tuple_of : (ts : CppTypes) (x : Objects ts) → tags_of (tuple_of ts x) ≡ element_tags ts
  tags_of-tuple_of no_more x = refl
  tags_of-tuple_of (elem t ts) (x, xs) =
      ap₂ (λ a b. a ++ b) (tag_of-value_of t x) (tags_of-tuple_of ts xs)

  field_tags-fields_of :
      (name : List ℕ) (t : CppType) (v : Value) (ms : Members) (xs : MemberObjects ms)
      → tag_of v ≡ tag t
      → field_tags (fields_of name v ms xs) ≡ member_tags (member name t ms)
  field_tags-fields_of name t v no_member xs e =
      ap (λ l. label name l) (e ∙ sym (append-nil (tag t)))
      ∙ ap (λ l. 96 ∷ l) (sym (append_assoc name (39 ∷ []) (tag t ++ [])))
  field_tags-fields_of name t v (member m u ms) (y, ys) e =
      ap (λ l. label name l)
        (ap₂ (λ a b. a ++ b) e
          (field_tags-fields_of m u (value_of u y) ms ys (tag_of-value_of u y)))
      ∙ ap (λ l. 96 ∷ l) (sym (append_assoc name (39 ∷ []) (tag t ++ member_tags (member m u ms))))

pub arithmetic_size_lem :
    (a : Arithmetic) → arithmetic_size (arithmetic_tag a) ≡ some (size_of_arithmetic a)
unfolding arithmetic_size arithmetic_tag signed_tag unsigned_tag size_of_arithmetic width_size
arithmetic_size_lem boolean = refl
arithmetic_size_lem character = refl
arithmetic_size_lem (signed byte) = refl
arithmetic_size_lem (signed two_bytes) = refl
arithmetic_size_lem (signed four_bytes) = refl
arithmetic_size_lem (signed eight_bytes) = refl
arithmetic_size_lem (unsigned byte) = refl
arithmetic_size_lem (unsigned two_bytes) = refl
arithmetic_size_lem (unsigned four_bytes) = refl
arithmetic_size_lem (unsigned eight_bytes) = refl
arithmetic_size_lem float = refl
arithmetic_size_lem double = refl
arithmetic_size_lem long_double = refl

number_bytes :
    (a : Arithmetic) (x : ℕ)
    → le_bytes (size_of (arithmetic_size (arithmetic_tag a))) x ≡ memory_of a x
unfolding memory_of
number_bytes a x = ap (λ o. le_bytes (size_of o) x) (arithmetic_size_lem a)

module _ {A : Type 0} (k : A → Value) (f : A → List ℕ) where
  count-values_of : (s : List A) → count (values_of k s) ≡ length s
  unfolding values_of count
  count-values_of [] = refl
  count-values_of (x ∷ s) = ap suc (count-values_of s)

  bytes-values_of :
      (P : A → Type 0)
      → ((x : A) → P x → bytes_of (k x) ≡ f x)
      → (s : List A) → All P s
      → bytes_of_all (values_of k s) ≡ serialize_each f s
  unfolding values_of bytes_of serialize_each
  bytes-values_of P e [] h = refl
  bytes-values_of P e (x ∷ s) (h, hs) = ap₂ (λ a b. a ++ b) (e x h) (bytes-values_of P e s hs)

  sequence_bytes :
      (tag_ : List ℕ) (P : A → Type 0)
      → ((x : A) → P x → bytes_of (k x) ≡ f x)
      → (s : List A) → All P s
      → bytes_of (Values.sequence tag_ (values_of k s))
        ≡ le_bytes 4 (length s) ++ serialize_each f s
  unfolding bytes_of
  sequence_bytes tag_ P e s h =
      ap₂ (λ n b. le_bytes 4 n ++ b) (count-values_of s) (bytes-values_of P e s h)

All-unit : (s : List ℕ) → All (λ x. Unit {0}) s
All-unit [] = tt
All-unit (x ∷ s) = (tt, All-unit s)

numbers_as :
    (a : Arithmetic) (s : List ℕ)
    → bytes_of
        (Values.sequence (arithmetic_tag a ∷ []) (values_of (λ x. number (arithmetic_tag a) x) s))
      ≡ le_bytes 4 (length s) ++ serialize_each (memory_of a) s
unfolding bytes_of
numbers_as a s =
    sequence_bytes (λ x. number (arithmetic_tag a) x) (memory_of a) (arithmetic_tag a ∷ [])
      (λ x. Unit {0}) (λ x u. number_bytes a x) s (All-unit s)

length-characters : (s : List ℕ) → length (serialize_each (memory_of character) s) ≡ length s
unfolding size_of_arithmetic
length-characters s = omega (arith, length-serialize_each character s)

numbers_bytes :
    (a : Arithmetic) (s : List ℕ)
    → bytes_of (numbers_of a s) ≡ le_bytes 4 (length s) ++ serialize_each (memory_of a) s
unfolding numbers_of bytes_of arithmetic_tag
numbers_bytes character s =
    ap (λ n. le_bytes 4 n ++ serialize_each (memory_of character) s) (length-characters s)
numbers_bytes boolean s = numbers_as boolean s
numbers_bytes (signed w) s = numbers_as (signed w) s
numbers_bytes (unsigned w) s = numbers_as (unsigned w) s
numbers_bytes float s = numbers_as float s
numbers_bytes double s = numbers_as double s
numbers_bytes long_double s = numbers_as long_double s

elements_bytes :
    (t : CppType)
    → ((x : Object t) → SizesFit t x → bytes_of (value_of t x) ≡ serialize t x)
    → (s : List (Object t)) → All (SizesFit t) s
    → bytes_of (elements_of t (value_of t) s)
      ≡ le_bytes 4 (length s) ++ serialize_each (serialize t) s
unfolding elements_of serialize
elements_bytes (arithmetic a) e s h = numbers_bytes a s
elements_bytes (enumeration a) e s h = numbers_bytes a s
elements_bytes (adapted a name es) e s h =
    sequence_bytes (value_of (adapted a name es)) (serialize (adapted a name es))
      (tag (adapted a name es)) (SizesFit (adapted a name es)) e s h
elements_bytes (sequence c t) e s h =
    sequence_bytes (value_of (sequence c t)) (serialize (sequence c t)) (tag (sequence c t))
      (SizesFit (sequence c t)) e s h
elements_bytes (tuple ts) e s h =
    sequence_bytes (value_of (tuple ts)) (serialize (tuple ts)) (tag (tuple ts))
      (SizesFit (tuple ts)) e s h
elements_bytes (optional t) e s h =
    sequence_bytes (value_of (optional t)) (serialize (optional t)) (tag (optional t))
      (SizesFit (optional t)) e s h
elements_bytes (structure name ms) e s h =
    sequence_bytes (value_of (structure name ms)) (serialize (structure name ms))
      (tag (structure name ms)) (SizesFit (structure name ms)) e s h

mutual
  unfolding value_of bytes_of serialize SizesFit

  pub bytes_of-value_of :
      (t : CppType) (x : Object t) → SizesFit t x → bytes_of (value_of t x) ≡ serialize t x
  bytes_of-value_of (arithmetic a) x h = number_bytes a x
  bytes_of-value_of (enumeration a) x h = number_bytes a x
  bytes_of-value_of (adapted a name es) x h = number_bytes a x
  bytes_of-value_of (sequence c t) s (h, hs) =
      elements_bytes t (bytes_of-value_of t) s hs
      ∙ ap (λ b. le_bytes 4 (length s) ++ b) (sym (one_by_one c t s))
      ∙ ap (λ n. le_bytes 4 n ++ serialize_elems c t (serialize t) s n)
          (sym (small_mod (length s) h))
  bytes_of-value_of (tuple ts) x h = bytes-tuple_of ts x h
  bytes_of-value_of (optional t) none h = refl
  bytes_of-value_of (optional t) (some x) h = ap (λ b. le_bytes 1 1 ++ b) (bytes_of-value_of t x h)
  bytes_of-value_of (structure name no_member) x h = refl
  bytes_of-value_of (structure name (member m t ms)) (x, xs) (h, hs) =
      bytes-fields_of m (serialize t x) (value_of t x) ms xs (bytes_of-value_of t x h) hs

  bytes-tuple_of :
      (ts : CppTypes) (x : Objects ts)
      → TupleSizesFit ts x
      → bytes_of_all (tuple_of ts x) ≡ serialize_tuple ts x
  bytes-tuple_of no_more x h = refl
  bytes-tuple_of (elem t ts) (x, xs) (h, hs) =
      ap₂ (λ a b. a ++ b) (bytes_of-value_of t x h) (bytes-tuple_of ts xs hs)

  bytes-fields_of :
      (name bytes : List ℕ) (v : Value) (ms : Members) (xs : MemberObjects ms)
      → bytes_of v ≡ bytes
      → MemberSizesFit ms xs
      → bytes_of_fields (fields_of name v ms xs) ≡ bytes ++ serialize_members ms xs
  bytes-fields_of name bytes v no_member xs e h = e ∙ sym (append-nil bytes)
  bytes-fields_of name bytes v (member m u ms) (y, ys) e (h, hs) =
      ap₂ (λ a b. a ++ b) e
        (bytes-fields_of m (serialize u y) (value_of u y) ms ys (bytes_of-value_of u y h) hs)

-- Visiting the bytes that are written for an object by the tag of its type, with a new visitor, appends the text
-- of the object's value to the output and leaves the range behind the bytes, for every object whose sequences
-- have sizes that fit on 32 bits, if its value fits the tag and the struct printer and is at most 2048 deep. The value
-- fits if the names of its type hold no separators, no struct without fields refers to one around it, its numbers fit their types, the printer takes no struct of it,
-- and no sequence of more than 32 elements has only elements without bytes, made of empty tuples and structs alone.
pub visit-serialize :
    (print_number : NumberPrinter) (print_struct : StructPrinter)
    → (t : CppType) (x : Object t) (out rest : List ℕ) → SizesFit t x
    → Fits (tag t) print_struct (value_of t x)
    → height (value_of t x) ≤ 2048
    → visit_value print_number print_struct (tag t) (new out) (serialize t x ++ rest)
      ≡ (new (out ++ render print_number (value_of t x)), ok rest)
visit-serialize print_number print_struct t x out rest s h k =
    let e = sym (tag_of-value_of t x) in
    ap₂ (λ g b. visit_value print_number print_struct g (new out) (b ++ rest)) e
      (sym (bytes_of-value_of t x s))
    ∙ visit_value-render print_number print_struct (value_of t x) out rest
        (subst (λ g. Fits g print_struct (value_of t x)) e h) k
