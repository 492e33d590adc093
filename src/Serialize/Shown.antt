-- ===== src/Serialize/Shown.antt =====
-- An object that is serialized is what is visited by the tag of its type: it is shown as its value.
use btui.Prelude.{ℕ, none, some, List, [], ◌∷◌}
use btui.Visit.Hex.{hex_value}
use btui.Visit.Values.{
  Value, Values, Fields, number, enumerator, text, variant, absent, empty, nil, cons, last, field,
  concat, label, tag_of, tags_of, field_tags, count, size_of, bytes_of, bytes_of_all,
  bytes_of_fields, render,
}
use btui.Visit.Values
use btui.Serialize.{
  Arithmetic, boolean, character, signed, unsigned, float, double, long_double, CppType, CppTypes,
  Members, Enumerator, Object, Objects, MemberObjects, arithmetic, enumeration, adapted, sequence,
  tuple, optional, structure, no_more, elem, no_member, member, serialize_each, memory_of,
}
use btui.Serialize.Tag.{arithmetic_tag, signed_tag, unsigned_tag, tag}

unfoldable pub values_of : {A : Type 0} → (A → Value) → List A → Values
values_of k [] = nil
values_of k (x ∷ s) = cons (k x) (values_of k s)

-- A sequence of characters is a text.
unfoldable pub numbers_of : Arithmetic → List ℕ → Value
unfolding values_of arithmetic_tag serialize_each memory_of
numbers_of character s = text (serialize_each (memory_of character) s)
numbers_of boolean s = Values.sequence (b'y' ∷ []) (values_of (λ x. number b'y' x) s)
numbers_of (signed w) s =
    Values.sequence (signed_tag w ∷ []) (values_of (λ x. number (signed_tag w) x) s)
numbers_of (unsigned w) s =
    Values.sequence (unsigned_tag w ∷ []) (values_of (λ x. number (unsigned_tag w) x) s)
numbers_of float s = Values.sequence (b'f' ∷ []) (values_of (λ x. number b'f' x) s)
numbers_of double s = Values.sequence (b'd' ∷ []) (values_of (λ x. number b'd' x) s)
numbers_of long_double s = Values.sequence (b'D' ∷ []) (values_of (λ x. number b'D' x) s)

unfoldable pub elements_of : (t : CppType) → (Object t → Value) → List (Object t) → Value
unfolding values_of numbers_of tag
elements_of (arithmetic a) k s = numbers_of a s
elements_of (enumeration a) k s = numbers_of a s
elements_of (adapted a name es) k s = Values.sequence (tag (adapted a name es)) (values_of k s)
elements_of (sequence c t) k s = Values.sequence (tag (sequence c t)) (values_of k s)
elements_of (tuple ts) k s = Values.sequence (tag (tuple ts)) (values_of k s)
elements_of (optional t) k s = Values.sequence (tag (optional t)) (values_of k s)
elements_of (structure name ms) k s = Values.sequence (tag (structure name ms)) (values_of k s)

-- The digits and the name of each enumerator.
unfoldable pub pairs : ℕ → List Enumerator → List (List ℕ × List ℕ)
pairs c [] = []
pairs c (e ∷ es) = (hex_value c e.value, e.name) ∷ pairs c es

-- The value that an object is shown as.
unfoldable mutual
  unfolding elements_of pairs tag

  pub value_of : (t : CppType) → Object t → Value
  value_of (arithmetic a) x = number (arithmetic_tag a) x
  value_of (enumeration a) x = number (arithmetic_tag a) x
  value_of (adapted a name es) x =
      enumerator (arithmetic_tag a) x name (pairs (arithmetic_tag a) es)
  value_of (sequence c t) s = elements_of t (value_of t) s
  value_of (tuple ts) x = Values.tuple (tuple_of ts x)
  value_of (optional t) none = absent [] (tag t ∷ [])
  value_of (optional t) (some x) = variant ((48 ∷ []) ∷ []) (value_of t x) []
  value_of (structure name no_member) x = empty name
  value_of (structure name (member m t ms)) (x, xs) =
      Values.structure name (fields_of m (value_of t x) ms xs)

  pub tuple_of : (ts : CppTypes) → Objects ts → Values
  tuple_of no_more x = nil
  tuple_of (elem t ts) (x, xs) = cons (value_of t x) (tuple_of ts xs)

  pub fields_of : (name : List ℕ) → Value → (ms : Members) → MemberObjects ms → Fields
  fields_of name v no_member x = last name v
  fields_of name v (member m t ms) (x, xs) = field name v (fields_of m (value_of t x) ms xs)
