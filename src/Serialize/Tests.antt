-- ===== src/Serialize/Tests.antt =====
-- Runs of the serializer on an optional enum, on strings, arrays and sets, and what the theorems say of them.
use btui.Prelude.{
  ℕ, ◌+◌, ◌≤◌, ◌<◌, ◌%◌, ◌^◌, ◌≡◌, ◌≢◌, refl, none, some, List, [], ◌∷◌, ◌++◌, length, All, arith,
}
use btui.Result.{Error, ok, throw}
use btui.Range.{le_bytes}
use btui.Tags.{tag_pop}
use btui.Visitor.{new}
use btui.Visit.{arithmetic_size, NumberPrinter, StructPrinter, visit_value, pop_all}
use btui.Visit.Hex.{hex_value}
use btui.Visit.Enums.{name_of, enumerators, hex_value-Hex, hex_value-Unquoted}
use btui.Visit.Values.{IsName, render}
use btui.Visit.Tags.{plain-Balanced, number-IsWhole, zero-IsWhole}
use btui.Visit.Whole.{Fits, IsBalanced-append, label-IsBalanced}
use btui.Visit.Steps.{height}
use btui.Serialize.{
  CppType, CppTypes, Enumerator, arithmetic, adapted, sequence, optional, structure, no_more, elem,
  no_member, member, character, signed, unsigned, byte, two_bytes, four_bytes, vector, list, array,
  associative, Object, serialize, serialized_size,
}
use btui.Serialize.Tag.{arithmetic_tag, tag, element_tags}
use btui.Serialize.Deserialize.{Insert, deserialize, blank}
use btui.Serialize.Size.{SizesFit, serialized_size-serialize}
use btui.Serialize.Objects.{IsObject, IsFresh, Lists, insert_all, blank-IsFresh}
use btui.Serialize.RoundTrip.{deserialize-serialize}
use btui.Serialize.Containers.{deserialize-other_container, deserialize-throws_on_size}
use btui.Serialize.Shown.{pairs, value_of}
use btui.Serialize.Visited.{visit-serialize}
use btui.Serialize.WholeTags.{
  IsNamed, AreNamed, tags, pop_all-element_tags, Hexadecimal-IsBalanced, nil-IsBalanced,
}

-- A set that keeps what is inserted, in order.
abbrev insert : Insert
insert t s x = s ++ (x ∷ [])

abbrev int_type : CppType
int_type = arithmetic (signed four_bytes)

abbrev string_type : CppType
string_type = sequence vector (arithmetic character)

-- enum E : int { A, B }
abbrev names : List Enumerator
names = record { value = 0; name = 65 ∷ [] } ∷ record { value = 1; name = 66 ∷ [] } ∷ []

abbrev enum_type : CppType
enum_type = adapted (signed four_bytes) (69 ∷ []) names

-- struct P { std::string s; std::array<short, 2> a; std::set<unsigned char> b; std::unique_ptr<E> e; }
abbrev struct_type : CppType
struct_type = structure (80 ∷ []) (
    member (115 ∷ []) string_type (
      member (97 ∷ []) (sequence (array 2) (arithmetic (signed two_bytes))) (
        member (98 ∷ []) (sequence associative (arithmetic (unsigned byte)))
          (member (101 ∷ []) (optional enum_type) no_member))))

abbrev point : Object struct_type
point = (104 ∷ 105 ∷ [], (258 ∷ 7 ∷ [], (1 ∷ 2 ∷ [], (some 1, tt))))

bytes_of_point :
    serialize struct_type point
    ≡ 2 ∷ 0 ∷ 0 ∷ 0 ∷ 104 ∷ 105 ∷ 2 ∷ 0 ∷ 0 ∷ 0 ∷ 2 ∷ 1 ∷ 7 ∷ 0 ∷ 2 ∷ 0 ∷ 0 ∷ 0 ∷ 1 ∷ 2 ∷ 1 ∷ 1 ∷ 0
      ∷ 0 ∷ 0 ∷ []
unfolding serialize le_bytes
bytes_of_point = refl

point-IsObject : IsObject insert struct_type point
unfolding IsObject insert_all
point-IsObject = (
  (omega arith, tt, (omega arith, (omega arith, tt))),
  (
    (omega arith, refl, (omega arith, (omega arith, tt))),
    ((omega arith, refl, (omega arith, (omega arith, tt))), (omega arith, tt)),
  ),
)

deserialize-serialize_example :
    deserialize insert struct_type (blank struct_type) (serialize struct_type point ++ (9 ∷ []))
    ≡ ok (point, 9 ∷ [])
deserialize-serialize_example =
    deserialize-serialize insert struct_type point (blank struct_type) (9 ∷ []) point-IsObject
      (blank-IsFresh struct_type)

point-SizesFit : SizesFit struct_type point
unfolding SizesFit
point-SizesFit = (
  (omega arith, (tt, (tt, tt))),
  ((omega arith, (tt, (tt, tt))), ((omega arith, (tt, (tt, tt))), (tt, tt))),
)

serialized_size-serialize_example :
    serialized_size struct_type point ≡ length (serialize struct_type point) % 2 ^ 64
serialized_size-serialize_example = serialized_size-serialize struct_type point point-SizesFit

abbrev ints : List ℕ
ints = 1 ∷ 300 ∷ []

abbrev three : List ℕ
three = 0 ∷ 0 ∷ 0 ∷ []

ints-AreObjects : All (IsObject insert int_type) ints
unfolding IsObject
ints-AreObjects = (omega arith, (omega arith, tt))

ints-Lists : Lists list (insert int_type) ints
unfolding Lists
ints-Lists = tt

three-IsFresh : IsFresh (sequence list int_type) three
unfolding IsFresh
three-IsFresh = (tt, (tt, (tt, (tt, tt))))

deserialize-other_container_example :
    (serialize (sequence vector int_type) ints ≡ serialize (sequence list int_type) ints)
    × (deserialize insert
          (sequence list int_type)
          three
          (serialize (sequence vector int_type) ints ++ (9 ∷ []))
        ≡ ok (ints, 9 ∷ []))
deserialize-other_container_example =
    deserialize-other_container insert vector list int_type ints three (9 ∷ []) (omega arith)
      ints-AreObjects ints-Lists three-IsFresh

deserialize-throws_on_size_example :
    (tag (sequence vector int_type) ≡ tag (sequence (array 3) int_type))
    × (deserialize insert
          (sequence (array 3) int_type)
          three
          (serialize (sequence vector int_type) ints ++ [])
        ≡ throw (Error.sequence_size 2 3))
deserialize-throws_on_size_example =
    deserialize-throws_on_size insert vector 3 int_type ints three [] (omega arith) (omega arith)

letter : (x : ℕ) → 64 ≤ x → x < 96 → x ≢ 92 → IsName (x ∷ [])
letter x a b c = record {
  brackets = record {
    balanced = λ k.
        plain-Balanced
          (record {
            no_tuple = (omega arith, omega arith);
            no_variant = (omega arith, omega arith);
            no_structure = (omega arith, omega arith);
            no_enumeration = (omega arith, c);
          })
          k (nil-IsBalanced.balanced k);
  };
  no_label = (omega arith, tt);
  no_quote = (omega arith, tt);
}

a-IsName : IsName (65 ∷ [])
a-IsName = letter 65 (omega arith) (omega arith) (omega arith)

b-IsName : IsName (66 ∷ [])
b-IsName = letter 66 (omega arith) (omega arith) (omega arith)

e-IsName : IsName (69 ∷ [])
e-IsName = letter 69 (omega arith) (omega arith) (omega arith)

abbrev arguments : CppTypes
arguments = elem int_type (elem (optional enum_type) (elem string_type no_more))

enum-IsNamed : IsNamed (optional enum_type)
unfolding IsNamed
enum-IsNamed = (e-IsName, (a-IsName, (b-IsName, tt)))

arguments-AreNamed : AreNamed arguments
unfolding IsNamed
arguments-AreNamed = (tt, ((e-IsName, (a-IsName, (b-IsName, tt))), (tt, tt)))

pop_all-element_tags_example :
    (pop_all (length (element_tags arguments)) (element_tags arguments) ≡ tags arguments)
    × (tag_pop (tag (optional enum_type) ++ (40 ∷ [])) ≡ (tag (optional enum_type), 40 ∷ []))
pop_all-element_tags_example =
    pop_all-element_tags arguments (optional enum_type) (40 ∷ []) arguments-AreNamed enum-IsNamed

abbrev digit : NumberPrinter
digit c bits = (48 + bits) ∷ []

abbrev no_struct : StructPrinter
no_struct name fields r = ok (none, r)

abbrev some_enum : Object (optional enum_type)
some_enum = some 1

some_enum-SizesFit : SizesFit (optional enum_type) some_enum
unfolding SizesFit
some_enum-SizesFit = tt

some_enum-Fits : Fits (tag (optional enum_type)) no_struct (value_of (optional enum_type) some_enum)
unfolding value_of Fits arithmetic_size enumerators pairs arithmetic_tag
some_enum-Fits = (
  omega arith,
  (zero-IsWhole, tt),
  (
    (4, refl, omega arith),
    IsBalanced-append (number-IsWhole 105 4 refl).brackets (
        label-IsBalanced e-IsName (
          IsBalanced-append (Hexadecimal-IsBalanced (hex_value 105 0) (hex_value-Hex 105 0)) (
            label-IsBalanced a-IsName (
              IsBalanced-append (Hexadecimal-IsBalanced (hex_value 105 1) (hex_value-Hex 105 1))
                (label-IsBalanced b-IsName nil-IsBalanced))))),
    (omega arith, tt),
    (
      (hex_value-Unquoted 105 0, (omega arith, tt)),
      ((hex_value-Unquoted 105 1, (omega arith, tt)), tt),
    ),
  ),
  tt,
)

some_enum-height : height (value_of (optional enum_type) some_enum) ≤ 2048
unfolding height value_of
some_enum-height = omega arith

visit-serialize_example :
    visit_value digit no_struct
      (tag (optional enum_type))
      (new [])
      (serialize (optional enum_type) some_enum ++ (9 ∷ []))
    ≡ (new ([] ++ render digit (value_of (optional enum_type) some_enum)), ok (9 ∷ []))
visit-serialize_example =
    visit-serialize digit no_struct (optional enum_type) some_enum [] (9 ∷ []) some_enum-SizesFit
      some_enum-Fits some_enum-height

shown : render digit (value_of (optional enum_type) some_enum) ≡ 66 ∷ []
unfolding render value_of name_of hex_value
shown = refl
