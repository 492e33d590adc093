-- ===== src/Serialize/WholeTags.antt =====
-- The tag of a type is whole: its brackets match, and it can be popped in front of other tags.
use btui.Prelude.{ℕ, ◌≡◌, refl, ap, subst, List, [], ◌∷◌, ◌++◌, append_assoc, length, All, arith}
use btui.Tags.Pop.{Balanced, Brackets, tag_pop_lem}
use btui.Tags.{tag_pop}
use btui.Visit.{pop_all}
use btui.Visit.Hex.{hex_value}
use btui.Visit.Enums.{Hexadecimal, hex_value-Hex}
use btui.Visit.Values.{IsBalanced, IsName, concat}
use btui.Visit.Tags.{
  IsPlain, IsWhole, plain-Balanced, number-IsWhole, sequence-IsWhole, bracketed-IsWhole,
  pop_all-concat, zero-IsWhole,
}
use btui.Visit.Whole.{IsBalanced-append, label-IsBalanced}
use btui.Serialize.{
  Arithmetic, CppType, CppTypes, Members, Enumerator, arithmetic, enumeration, adapted, sequence,
  tuple, optional, structure, no_more, elem, no_member, member, size_of_arithmetic,
}
use btui.Serialize.Tag.{
  arithmetic_tag, cx_strcat, enumerator_strings, tag, element_tags, member_tags,
}
use btui.Serialize.Visited.{arithmetic_size_lem}

-- The names of structs, members, enums and enumerators can stand in a tag.
unfoldable mutual
  pub IsNamed : CppType → Type 0
  IsNamed (arithmetic a) = Unit {0}
  IsNamed (enumeration a) = Unit {0}
  IsNamed (adapted a name es) = IsName name × All (λ e. IsName (e.name)) es
  IsNamed (sequence c t) = IsNamed t
  IsNamed (tuple ts) = AreNamed ts
  IsNamed (optional t) = IsNamed t
  IsNamed (structure name ms) = IsName name × AreNamedMembers ms

  pub AreNamed : CppTypes → Type 0
  AreNamed no_more = Unit {0}
  AreNamed (elem t ts) = IsNamed t × AreNamed ts

  pub AreNamedMembers : Members → Type 0
  AreNamedMembers no_member = Unit {0}
  AreNamedMembers (member name t ms) = IsName name × IsNamed t × AreNamedMembers ms

plain-IsBalanced : {x : ℕ} {s : List ℕ} → IsPlain x → IsBalanced s → IsBalanced (x ∷ s)
plain-IsBalanced p b = record { balanced = λ k. plain-Balanced p k (b.balanced k) }

pub nil-IsBalanced : IsBalanced []
nil-IsBalanced = record { balanced = λ k. Balanced.done }

pub Hexadecimal-IsBalanced : (s : List ℕ) → Hexadecimal s → IsBalanced s
Hexadecimal-IsBalanced [] h = nil-IsBalanced
Hexadecimal-IsBalanced (x ∷ s) (h, hs) =
    plain-IsBalanced
      (record {
        no_tuple = (omega arith, omega arith);
        no_variant = (omega arith, omega arith);
        no_structure = (omega arith, omega arith);
        no_enumeration = (omega arith, omega arith);
      })
      (Hexadecimal-IsBalanced s hs)

quoted-IsBalanced : (name : List ℕ) → IsName name → IsBalanced (96 ∷ (name ++ (39 ∷ [])))
quoted-IsBalanced name n = label-IsBalanced n nil-IsBalanced

enumerators-IsBalanced :
    (c : ℕ) (es : List Enumerator)
    → All (λ e. IsName (e.name)) es
    → IsBalanced (cx_strcat (enumerator_strings c es))
unfolding cx_strcat enumerator_strings
enumerators-IsBalanced c [] h = nil-IsBalanced
enumerators-IsBalanced c (e ∷ es) (h, hs) =
    IsBalanced-append (Hexadecimal-IsBalanced (hex_value c e.value) (hex_value-Hex c e.value))
      (IsBalanced-append (quoted-IsBalanced e.name h) (enumerators-IsBalanced c es hs))

-- The last bracket behind two parts.
bracketed_parts :
    {o c : ℕ} (s t : List ℕ)
    → Brackets o c
    → IsBalanced s
    → IsBalanced t
    → IsWhole (o ∷ (s ++ (t ++ (c ∷ []))))
bracketed_parts {o} {c} s t k a b =
    subst (λ l. IsWhole (o ∷ l)) (append_assoc s t (c ∷ []))
      (bracketed-IsWhole k (IsBalanced-append a b))

arithmetic-IsWhole : (a : Arithmetic) → IsWhole (arithmetic_tag a ∷ [])
arithmetic-IsWhole a =
    number-IsWhole (arithmetic_tag a) (size_of_arithmetic a) (arithmetic_size_lem a)

mutual
  unfolding tag IsNamed

  pub tag-IsWhole : (t : CppType) → IsNamed t → IsWhole (tag t)
  tag-IsWhole (arithmetic a) h = arithmetic-IsWhole a
  tag-IsWhole (enumeration a) h = arithmetic-IsWhole a
  tag-IsWhole (adapted a name es) (n, ns) =
      bracketed_parts (arithmetic_tag a ∷ 96 ∷ (name ++ (39 ∷ [])))
        (cx_strcat (enumerator_strings (arithmetic_tag a) es)) Brackets.enumeration
        (IsBalanced-append (arithmetic-IsWhole a).brackets (quoted-IsBalanced name n))
        (enumerators-IsBalanced (arithmetic_tag a) es ns)
  tag-IsWhole (sequence c t) h = sequence-IsWhole (tag-IsWhole t h)
  tag-IsWhole (tuple ts) h = bracketed-IsWhole Brackets.tuple (element_tags-IsBalanced ts h)
  tag-IsWhole (optional t) h =
      bracketed_parts (48 ∷ []) (tag t) Brackets.variant zero-IsWhole.brackets
        (tag-IsWhole t h).brackets
  tag-IsWhole (structure name ms) (n, hs) =
      bracketed_parts name (member_tags ms) Brackets.structure n.brackets
        (member_tags-IsBalanced ms hs)

  element_tags-IsBalanced : (ts : CppTypes) → AreNamed ts → IsBalanced (element_tags ts)
  element_tags-IsBalanced no_more h = nil-IsBalanced
  element_tags-IsBalanced (elem t ts) (h, hs) =
      IsBalanced-append (tag-IsWhole t h).brackets (element_tags-IsBalanced ts hs)

  member_tags-IsBalanced : (ms : Members) → AreNamedMembers ms → IsBalanced (member_tags ms)
  member_tags-IsBalanced no_member h = nil-IsBalanced
  member_tags-IsBalanced (member name t ms) (n, h, hs) =
      IsBalanced-append (quoted-IsBalanced name n)
        (IsBalanced-append (tag-IsWhole t h).brackets (member_tags-IsBalanced ms hs))

-- The tags of the types.
unfoldable pub tags : CppTypes → List (List ℕ)
unfolding tag
tags no_more = []
tags (elem t ts) = tag t ∷ tags ts

tags-All : (ts : CppTypes) → AreNamed ts → All IsWhole (tags ts)
unfolding tags IsNamed
tags-All no_more h = tt
tags-All (elem t ts) (h, hs) = (tag-IsWhole t h, tags-All ts hs)

concat-tags : (ts : CppTypes) → concat (tags ts) ≡ element_tags ts
unfolding concat tags tag
concat-tags no_more = refl
concat-tags (elem t ts) = ap (λ l. tag t ++ l) (concat-tags ts)

-- The concatenated tags of types whose names can stand in a tag are popped one by one, each of them as it is,
-- and the tag of one such type is popped in front of any characters.
pub pop_all-element_tags :
    (ts : CppTypes) (t : CppType) (rest : List ℕ)
    → AreNamed ts
    → IsNamed t
    → (pop_all (length (element_tags ts)) (element_tags ts) ≡ tags ts)
      × (tag_pop (tag t ++ rest) ≡ (tag t, rest))
pop_all-element_tags ts t rest hs h = (
  subst (λ l. pop_all (length l) l ≡ tags ts) (concat-tags ts)
      (pop_all-concat (tags ts) (length (concat (tags ts))) (tags-All ts hs) (omega arith)),
  tag_pop_lem (tag-IsWhole t h).tag rest,
)
