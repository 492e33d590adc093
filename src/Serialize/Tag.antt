-- ===== src/Serialize/Tag.antt =====
-- include/mserialize/tag.hpp, detail/Tag.hpp, cx_string.hpp and the macros that make the tags of structs
-- and enums: the tag of a type.
use btui.Prelude.{ℕ, List, [], ◌∷◌, ◌++◌}
use btui.Visit.Hex.{hex_value}
use btui.Serialize.{
  Width, byte, two_bytes, four_bytes, eight_bytes, Arithmetic, boolean, character, signed, unsigned,
  float, double, long_double, CppType, CppTypes, Members, Enumerator, arithmetic, enumeration,
  adapted, sequence, tuple, optional, structure, no_more, elem, no_member, member,
}

unfoldable pub signed_tag : Width → ℕ
signed_tag byte = b'b'
signed_tag two_bytes = b's'
signed_tag four_bytes = b'i'
signed_tag eight_bytes = b'l'

unfoldable pub unsigned_tag : Width → ℕ
unsigned_tag byte = b'B'
unsigned_tag two_bytes = b'S'
unsigned_tag four_bytes = b'I'
unsigned_tag eight_bytes = b'L'

unfoldable pub arithmetic_tag : Arithmetic → ℕ
unfolding signed_tag unsigned_tag
arithmetic_tag boolean = b'y'
arithmetic_tag character = b'c'
arithmetic_tag (signed w) = signed_tag w
arithmetic_tag (unsigned w) = unsigned_tag w
arithmetic_tag float = b'f'
arithmetic_tag double = b'd'
arithmetic_tag long_double = b'D'

-- `cx_strcat`
unfoldable pub cx_strcat : List (List ℕ) → List ℕ
cx_strcat [] = []
cx_strcat (s ∷ ss) = s ++ cx_strcat ss

-- MSERIALIZE_ENUMERATOR for each enumerator, whose underlying type has the tag `c`.
unfoldable pub enumerator_strings : ℕ → List Enumerator → List (List ℕ)
enumerator_strings c [] = []
enumerator_strings c (e ∷ es) =
    hex_value c e.value ∷ (96 ∷ (e.name ++ (39 ∷ []))) ∷ enumerator_strings c es

-- MSERIALIZE_MAKE_ENUM_TAG
unfoldable pub enum_tag : Arithmetic → (name : List ℕ) → List Enumerator → List ℕ
unfolding arithmetic_tag cx_strcat enumerator_strings
enum_tag a name es =
    (b'/' ∷ [])
    ++ ((arithmetic_tag a ∷ [])
        ++ ((96 ∷ (name ++ (39 ∷ [])))
            ++ (cx_strcat (enumerator_strings (arithmetic_tag a) es) ++ (92 ∷ []))))

-- MSERIALIZE_MAKE_STRUCT_TAG, with the tags of the members.
unfoldable pub struct_tag : (name members : List ℕ) → List ℕ
struct_tag name members = (b'{' ∷ name) ++ (members ++ (b'}' ∷ []))

unfoldable mutual
  unfolding arithmetic_tag enum_tag struct_tag

  pub tag : CppType → List ℕ
  tag (arithmetic a) = arithmetic_tag a ∷ []
  tag (enumeration a) = arithmetic_tag a ∷ []
  tag (adapted a name es) = enum_tag a name es
  tag (sequence c t) = (b'[' ∷ []) ++ tag t
  tag (tuple ts) = (b'(' ∷ []) ++ (element_tags ts ++ (b')' ∷ []))
  tag (optional t) = (b'<' ∷ b'0' ∷ []) ++ (tag t ++ (b'>' ∷ []))
  tag (structure name ms) = struct_tag name (member_tags ms)

  pub element_tags : CppTypes → List ℕ
  element_tags no_more = []
  element_tags (elem t ts) = tag t ++ element_tags ts

  -- MSERIALIZE_BASE_TAG_EXPR and MSERIALIZE_STRUCT_MEMBER_TAG
  pub member_tags : Members → List ℕ
  member_tags no_member = []
  member_tags (member name t ms) = (96 ∷ (name ++ (39 ∷ []))) ++ (tag t ++ member_tags ms)
