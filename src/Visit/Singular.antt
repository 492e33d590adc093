-- ===== src/Visit/Singular.antt =====
-- Which sequences are of elements that are all the same: those of elements without bytes.
use btui.Prelude.{
  ℕ, zero, suc, ◌≤◌, ◌≡◌, ◌≢◌, refl, sym, ap, subst, ◌∙◌, Bool, true, false, not, ◌||◌, List, [],
  ◌∷◌, ◌++◌, length, length-append, All, arith, ltb, inl, inr, ◌⊎◌, if◌then◌else◌, le→ltb_false,
  Bool-cases,
}
use btui.Result.{Result, ok}
use btui.Tags.{tag_pop_label, drop_last, remove_prefix_before, resolve_recursive_tag}
use btui.Text.{is_empty}
use btui.Tags.Pop.{tag_pop_lem}
use btui.Tags.Labels.{eqb_of_ne, tag_pop_label_lem}
use btui.Visit.{
  StructPrinter, all_singular, second_tags, pop_fields, singular_struct, singular_impl,
}
use btui.Visit.Values.{
  Value, Values, Fields, number, enumerator, text, sequence, tuple, variant, absent, empty,
  structure, printed, nil, cons, last, field, concat, label, tag_of, tags_of, field_tags, count,
  IsName, occupies, any_occupies, any_field_occupies,
}
use btui.Visit.Tags.{IsWhole, number-IsPlain, drop_last-append, pop_all-concat}
use btui.Visit.Whole.{
  Fits, FitsAll, FitsElems, FitsFields, IsLeaf, list_of, concat-list_of, list_of-All, pairs_of,
  pop_fields-field_tags, split-structure, split-empty,
}
use btui.Visit.Steps.{height, height_all, height_fields, field_tags-label, if_same}

-- The loop of `singular_tuple` and `singular_struct` behind its first tag.
if_not : (b : Bool) → (if not b then ok true else ok false) ≡ ok (not b)
if_not true = refl
if_not false = refl

all_singular-cons :
    (k : List ℕ → Result Bool) (b c : Bool) (t : List ℕ) (ts : List (List ℕ))
    → k t ≡ ok (not b)
    → all_singular k ts ≡ ok (not c)
    → all_singular k (t ∷ ts) ≡ ok (not (b || c))
unfolding all_singular
all_singular-cons k true c t ts e h = rw e refl
all_singular-cons k false c t ts e h = rw e h

leaf-singular :
    (full : List ℕ) (n : ℕ) (t : List ℕ) → IsLeaf t → singular_impl full (suc n) t ≡ ok false
unfolding singular_impl
leaf-singular full n [] h = absurd h
leaf-singular full n (x ∷ t) (a, b) = rw (eqb_of_ne x 40 a, eqb_of_ne x 123 b) refl

module _ (print_struct : StructPrinter) (full_tag : List ℕ) where
  -- A struct with fields.
  structure_lem :
      (n : ℕ) (name fields tail : List ℕ)
      → fields ≡ 96 ∷ tail
      → singular_struct full_tag (λ t. singular_impl full_tag n t) (b'{' ∷ name, fields)
        ≡ all_singular
            (λ t. singular_impl full_tag n t)
            (second_tags (pop_fields (length fields) fields))
  structure_lem n name fields tail e =
      subst
        (λ l.
          singular_struct full_tag (λ t. singular_impl full_tag n t) (b'{' ∷ name, l)
          ≡ all_singular (λ t. singular_impl full_tag n t) (second_tags (pop_fields (length l) l)))
        (sym e) refl

  -- The first field of a printed struct.
  first_lem :
      (n : ℕ) (first t rest : List ℕ) (f : ℕ)
      → All (λ x. x ≢ 39) first
      → IsWhole t
      → IsLeaf t
      → all_singular
          (λ t. singular_impl full_tag (suc n) t)
          (second_tags (pop_fields (suc f) (label first (t ++ rest))))
        ≡ ok false
  unfolding pop_fields second_tags all_singular is_empty
  first_lem n first t rest f q w l =
      rw
        (
          tag_pop_label_lem first (t ++ rest) q,
          tag_pop_lem w.tag rest,
          leaf-singular full_tag n t l,
        )
        refl

  -- What the switch makes of the tags of tuples and structs.
  tuple_lem :
      (n : ℕ) (vs : Values)
      → FitsAll full_tag print_struct vs
      → singular_impl full_tag (suc n) (b'(' ∷ (tags_of vs ++ (b')' ∷ [])))
        ≡ all_singular (λ t. singular_impl full_tag n t) (list_of vs)
  unfolding singular_impl
  tuple_lem n vs h =
      rw
        (
          drop_last-append (tags_of vs) 41,
          sym (concat-list_of vs),
          pop_all-concat (list_of vs) (suc (length (concat (list_of vs) ++ (41 ∷ []))))
              (list_of-All full_tag print_struct vs h)
              (omega (arith, length-append (concat (list_of vs)) (41 ∷ []))),
        )
        refl

  brace_lem :
      (n : ℕ) (name fields : List ℕ)
      → singular_impl full_tag (suc n) (b'{' ∷ ((name ++ fields) ++ (b'}' ∷ [])))
        ≡ singular_struct full_tag
            (λ t. singular_impl full_tag n t)
            (remove_prefix_before (drop_last (b'{' ∷ ((name ++ fields) ++ (b'}' ∷ [])))) 96)
  unfolding singular_impl
  brace_lem n name fields = refl

  empty_lem :
      (n : ℕ) (name : List ℕ)
      → IsName name
      → resolve_recursive_tag full_tag (b'{' ∷ name) ≡ []
      → singular_impl full_tag (suc n) (b'{' ∷ (name ++ (b'}' ∷ []))) ≡ ok true
  unfolding singular_impl tag_pop_label is_empty
  empty_lem n name w e = rw (split-empty name w, e) refl

  mutual
    unfolding Fits tag_of height occupies list_of pairs_of second_tags all_singular

    -- A tag is singular exactly if the value takes up no bytes.
    pub singular_impl-tag_of :
        (v : Value) (n : ℕ)
        → Fits full_tag print_struct v
        → height v ≤ n
        → singular_impl full_tag n (tag_of v) ≡ ok (not (occupies v))
    singular_impl-tag_of (number tag bits) zero h k = absurd (omega arith)
    singular_impl-tag_of (enumerator tag bits name es) zero h k = absurd (omega arith)
    singular_impl-tag_of (text chars) zero h k = absurd (omega arith)
    singular_impl-tag_of (sequence elem vs) zero h k = absurd (omega arith)
    singular_impl-tag_of (tuple vs) zero h k = absurd (omega arith)
    singular_impl-tag_of (variant before v behind) zero h k = absurd (omega arith)
    singular_impl-tag_of (absent before behind) zero h k = absurd (omega arith)
    singular_impl-tag_of (empty name) zero h k = absurd (omega arith)
    singular_impl-tag_of (structure name fs) zero h k = absurd (omega arith)
    singular_impl-tag_of (printed name fields bytes chars) zero h k = absurd (omega arith)
    singular_impl-tag_of (number tag bits) (suc n) (m, e, h) k =
        let (p, q) = number-IsPlain tag m e in
        leaf-singular full_tag n (tag ∷ []) (p.no_tuple.0, p.no_structure.0)
    singular_impl-tag_of (enumerator tag bits name es) (suc n) h k =
        leaf-singular full_tag n (tag_of (enumerator tag bits name es)) (omega arith, omega arith)
    singular_impl-tag_of (text chars) (suc n) h k =
        leaf-singular full_tag n (tag_of (text chars)) (omega arith, omega arith)
    singular_impl-tag_of (sequence elem vs) (suc n) h k =
        leaf-singular full_tag n (b'[' ∷ elem) (omega arith, omega arith)
    singular_impl-tag_of (variant before v behind) (suc n) h k =
        leaf-singular full_tag n (tag_of (variant before v behind)) (omega arith, omega arith)
    singular_impl-tag_of (absent before behind) (suc n) h k =
        leaf-singular full_tag n (tag_of (absent before behind)) (omega arith, omega arith)
    singular_impl-tag_of (tuple vs) (suc n) h k =
        tuple_lem n vs h ∙ singular-list_of vs n h (omega arith)
    singular_impl-tag_of (empty name) (suc n) (w, e, p) k = empty_lem n name w e
    singular_impl-tag_of (structure name fs) (suc n) (w, hs, p) k =
        let (tail, e) = field_tags-label fs in
        brace_lem n name (field_tags fs)
        ∙ ap (singular_struct full_tag (λ t. singular_impl full_tag n t))
            (split-structure name (field_tags fs) tail w e)
        ∙ structure_lem n name (field_tags fs) tail e
        ∙ ap (λ l. all_singular (λ t. singular_impl full_tag n t) (second_tags l))
            (pop_fields-field_tags full_tag print_struct fs (length (field_tags fs)) hs
              (omega arith))
        ∙ singular-pairs_of fs n hs (omega arith)
    singular_impl-tag_of (printed name fields bytes chars) (suc zero) h k = absurd (omega arith)
    singular_impl-tag_of (printed name fields bytes chars) (suc (suc n))
          (w, b, (first, t, rest, e, f, u, l), p) k =
        brace_lem (suc n) name fields
        ∙ ap (singular_struct full_tag (λ t. singular_impl full_tag (suc n) t))
            (split-structure name fields (first ++ (39 ∷ (t ++ rest))) w e)
        ∙ structure_lem (suc n) name fields (first ++ (39 ∷ (t ++ rest))) e
        ∙ ap
            (λ l.
              all_singular (λ t. singular_impl full_tag (suc n) t)
                (second_tags (pop_fields (length l) l)))
            e
        ∙ first_lem n first t rest (length (first ++ (39 ∷ (t ++ rest)))) f.no_quote u l

    singular-list_of :
        (vs : Values) (n : ℕ)
        → FitsAll full_tag print_struct vs
        → height_all vs ≤ n
        → all_singular (λ t. singular_impl full_tag n t) (list_of vs) ≡ ok (not (any_occupies vs))
    singular-list_of nil n h k = refl
    singular-list_of (cons v vs) n (h, hs) k =
        all_singular-cons (λ t. singular_impl full_tag n t) (occupies v) (any_occupies vs)
          (tag_of v) (list_of vs) (singular_impl-tag_of v n h (omega arith))
          (singular-list_of vs n hs (omega arith))

    singular-pairs_of :
        (fs : Fields) (n : ℕ)
        → FitsFields full_tag print_struct fs
        → height_fields fs ≤ n
        → all_singular (λ t. singular_impl full_tag n t) (second_tags (pairs_of fs))
          ≡ ok (not (any_field_occupies fs))
    singular-pairs_of (last name v) n (_, h) k =
        rw (singular_impl-tag_of v n h k) (if_not (occupies v))
    singular-pairs_of (field name v fs) n (_, h, hs) k =
        all_singular-cons (λ t. singular_impl full_tag n t) (occupies v) (any_field_occupies fs)
          (tag_of v) (second_tags (pairs_of fs)) (singular_impl-tag_of v n h (omega arith))
          (singular-pairs_of fs n hs (omega arith))

  -- Some element takes up bytes, and its tag is that of all.
  elem-singular :
      (n : ℕ) (elem : List ℕ) (vs : Values)
      → FitsElems full_tag print_struct elem vs
      → height_all vs ≤ n
      → any_occupies vs ≡ true
      → singular_impl full_tag n elem ≡ ok false
  unfolding Fits height occupies
  elem-singular n elem nil h k q = absurd cc
  elem-singular n elem (cons v vs) (e, h, hs) k q = elim (Bool-cases (occupies v)) [
    | inl o ↦
        subst (λ t. singular_impl full_tag n t ≡ ok false) e
          (singular_impl-tag_of v n h (omega arith) ∙ ap (λ b. ok (not b)) o)
    | inr o ↦ elem-singular n elem vs hs (omega arith) (rw o at q)
  ]

  pub repeat_lem :
      (n : ℕ) (elem : List ℕ) (vs : Values)
      → FitsElems full_tag print_struct elem vs
      → height_all vs ≤ n
      → (count vs ≤ 32) ⊎ (any_occupies vs ≡ true)
      → (if ltb 32 (count vs) then singular_impl full_tag n elem else ok false) ≡ ok false
  repeat_lem n elem vs h k (inl c) = rw (le→ltb_false 32 (count vs) c) refl
  repeat_lem n elem vs h k (inr q) =
      rw (elem-singular n elem vs h k q) (if_same (ltb 32 (count vs)) (ok false))
