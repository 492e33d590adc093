-- ===== src/Visit/Whole.antt =====
-- Values that fit: every tag is whole, and the parts of a tag are found again.
use btui.Prelude.{
  ℕ, zero, suc, ◌≤◌, ◌<◌, ◌^◌, ◌≡◌, ◌≢◌, refl, ap, true, false, none, some, List, [], ◌∷◌, ◌++◌,
  length, length-append, All, arith, take, drop, take-length-append, drop-length-append, ◌⊎◌,
}
use btui.Result.{ok}
use btui.Range.{Range}
use btui.Text.{is_empty}
use btui.Tags.{drop_last, remove_prefix_before, resolve_recursive_tag}
use btui.Tags.Pop.{Balanced, Brackets, tag_pop_lem}
use btui.Tags.Labels.{find_pos-absent, find_pos_lem, tag_pop_label_lem}
use btui.Visit.{StructPrinter, arithmetic_size, pop_fields, is_char}
use btui.Visit.Enums.{enumerators, NoQuote, IsEnumerator}
use btui.Visit.Values.{
  Value, Values, Fields, number, enumerator, text, sequence, tuple, variant, absent, empty,
  structure, printed, nil, cons, last, field, concat, label, tag_of, tags_of, field_tags, count,
  any_occupies, IsName, IsBalanced,
}
use btui.Visit.Tags.{
  pop-IsWhole, IsWhole, Balanced-append, plain-Balanced, number-IsWhole, sequence-IsWhole,
  bracketed-IsWhole, char-IsWhole, zero-IsWhole, backtick-IsPlain, quote-IsPlain, drop_last-append,
}

-- A tag that is neither that of a tuple nor that of a struct.
abbrev pub IsLeaf : List ℕ → Type 0
IsLeaf [] = ⊥
IsLeaf (x ∷ t) = (x ≢ b'(') × (x ≢ b'{')

shorter : (name t rest : List ℕ) (f : ℕ) → length (label name (t ++ rest)) ≤ suc f → length rest ≤ f
shorter name t rest f h = omega (arith, length-append name (39 ∷ (t ++ rest)), length-append t rest)

-- A struct's tag is split behind its name.
pub split-structure :
    (name fields rest : List ℕ)
    → IsName name
    → fields ≡ 96 ∷ rest
    → remove_prefix_before (drop_last (b'{' ∷ ((name ++ fields) ++ (b'}' ∷ [])))) 96
      ≡ (b'{' ∷ name, fields)
unfolding remove_prefix_before
split-structure name fields rest n e =
    rw
      (
        drop_last-append (b'{' ∷ (name ++ fields)) 125,
        e,
        find_pos_lem 96 name rest n.no_label,
        take-length-append name (96 ∷ rest),
        drop-length-append name (96 ∷ rest),
      )
      refl

take-length : (s : List ℕ) → take (length s) s ≡ s
take-length [] = refl
take-length (x ∷ s) = ap (λ l. x ∷ l) (take-length s)

drop-length : (s : List ℕ) → drop (length s) s ≡ []
drop-length [] = refl
drop-length (x ∷ s) = drop-length s

pub split-empty :
    (name : List ℕ)
    → IsName name
    → remove_prefix_before (drop_last (b'{' ∷ (name ++ (b'}' ∷ [])))) 96 ≡ (b'{' ∷ name, [])
unfolding remove_prefix_before
split-empty name n =
    rw
      (
        drop_last-append (b'{' ∷ name) 125,
        find_pos-absent 96 name n.no_label,
        take-length name,
        drop-length name,
      )
      refl

-- The tags of a tuple, and the labels and tags of a struct.
unfoldable pub list_of : Values → List (List ℕ)
list_of nil = []
list_of (cons v vs) = tag_of v ∷ list_of vs

pub concat-list_of : (vs : Values) → concat (list_of vs) ≡ tags_of vs
unfolding concat list_of tag_of
concat-list_of nil = refl
concat-list_of (cons v vs) = ap (λ l. tag_of v ++ l) (concat-list_of vs)

unfoldable pub pairs_of : Fields → List (List ℕ × List ℕ)
pairs_of (last name v) = (name, tag_of v) ∷ []
pairs_of (field name v fs) = (name, tag_of v) ∷ pairs_of fs

pop_fields-nil : (f : ℕ) → pop_fields f [] ≡ []
unfolding pop_fields is_empty
pop_fields-nil zero = refl
pop_fields-nil (suc f) = refl

pub IsBalanced-append : {s t : List ℕ} → IsBalanced s → IsBalanced t → IsBalanced (s ++ t)
IsBalanced-append a b = record { balanced = λ k. Balanced-append (a.balanced k) (b.balanced k) }

concat-IsBalanced : (ts : List (List ℕ)) → All IsWhole ts → IsBalanced (concat ts)
unfolding concat
concat-IsBalanced [] w = record { balanced = λ k. Balanced.done }
concat-IsBalanced (t ∷ ts) (w, ws) = IsBalanced-append w.brackets (concat-IsBalanced ts ws)

pub label-IsBalanced : {name t : List ℕ} → IsName name → IsBalanced t → IsBalanced (label name t)
label-IsBalanced n b = record {
  balanced = λ k.
      plain-Balanced backtick-IsPlain k
        (Balanced-append (n.brackets.balanced k) (plain-Balanced quote-IsPlain k (b.balanced k)));
}

-- What a value has to satisfy, in a full tag and with a printer of structs: its sizes fit, its names are names, the
-- elements of a sequence have the tag of the sequence, and a sequence of more than 32 elements is not one of empty tuples
-- and structs alone, which take up no bytes. The first field of a struct that the printer takes is neither a tuple nor
-- a struct.
module _ (full_tag : List ℕ) (print_struct : StructPrinter) where
  unfoldable mutual
    unfolding field_tags tag_of

    pub Fits : Value → Type 0
    Fits (number tag bits) = (n : ℕ) × (arithmetic_size tag ≡ some n) × (bits < 256 ^ n)
    Fits (enumerator tag bits name es) =
        ((n : ℕ) × (arithmetic_size tag ≡ some n) × (bits < 256 ^ n))
        × IsBalanced (tag ∷ label name (enumerators es))
        × NoQuote name
        × All IsEnumerator es
    Fits (text chars) = length chars < 2 ^ 32
    Fits (sequence elem vs) =
        (is_char elem ≡ false)
        × IsWhole elem
        × FitsElems elem vs
        × (count vs < 2 ^ 32)
        × ((count vs ≤ 32) ⊎ (any_occupies vs ≡ true))
    Fits (tuple vs) = FitsAll vs
    Fits (variant before v behind) =
        (length before < 256) × All IsWhole before × Fits v × All IsWhole behind
    Fits (absent before behind) = (length before < 256) × All IsWhole before × All IsWhole behind
    Fits (empty name) =
        IsName name
        × (resolve_recursive_tag full_tag (b'{' ∷ name) ≡ [])
        × ((r : Range) → print_struct name [] r ≡ ok (none, r))
    Fits (structure name fs) =
        IsName name
        × FitsFields fs
        × ((r : Range) → print_struct name (field_tags fs) r ≡ ok (none, r))
    Fits (printed name fields bytes chars) =
        IsName name
        × IsBalanced fields
        × ((first : List ℕ) × (t : List ℕ) × (rest : List ℕ) × (fields ≡ label first (t ++ rest))
            × IsName first
            × IsWhole t
            × IsLeaf t)
        × ((r : Range) → print_struct name fields (bytes ++ r) ≡ ok (some chars, r))

    pub FitsAll : Values → Type 0
    FitsAll nil = Unit {0}
    FitsAll (cons v vs) = Fits v × FitsAll vs

    pub FitsElems : List ℕ → Values → Type 0
    FitsElems elem nil = Unit {0}
    FitsElems elem (cons v vs) = (tag_of v ≡ elem) × Fits v × FitsElems elem vs

    pub FitsFields : Fields → Type 0
    FitsFields (last name v) = IsName name × Fits v
    FitsFields (field name v fs) = IsName name × Fits v × FitsFields fs

  mutual
    unfolding Fits tag_of field_tags

    pub tag_of-IsWhole : (v : Value) → Fits v → IsWhole (tag_of v)
    tag_of-IsWhole (number tag bits) (n, e, h) = number-IsWhole tag n e
    tag_of-IsWhole (enumerator tag bits name es) h = bracketed-IsWhole Brackets.enumeration h.1
    tag_of-IsWhole (text chars) h = sequence-IsWhole char-IsWhole
    tag_of-IsWhole (sequence elem vs) h = sequence-IsWhole h.1
    tag_of-IsWhole (tuple vs) h = bracketed-IsWhole Brackets.tuple (tags_of-IsBalanced vs h)
    tag_of-IsWhole (variant before v behind) (n, ws, h, us) = bracketed-IsWhole Brackets.variant (
        IsBalanced-append (concat-IsBalanced before ws)
          (IsBalanced-append (tag_of-IsWhole v h).brackets (concat-IsBalanced behind us)))
    tag_of-IsWhole (absent before behind) (n, ws, us) = bracketed-IsWhole Brackets.variant (
        IsBalanced-append (concat-IsBalanced before ws)
          (IsBalanced-append zero-IsWhole.brackets (concat-IsBalanced behind us)))
    tag_of-IsWhole (empty name) h = bracketed-IsWhole Brackets.structure h.0.brackets
    tag_of-IsWhole (structure name fs) (n, h, p) =
        bracketed-IsWhole Brackets.structure
          (IsBalanced-append n.brackets (field_tags-IsBalanced fs h))
    tag_of-IsWhole (printed name fields bytes chars) (n, b, h, p) =
        bracketed-IsWhole Brackets.structure (IsBalanced-append n.brackets b)

    tags_of-IsBalanced : (vs : Values) → FitsAll vs → IsBalanced (tags_of vs)
    tags_of-IsBalanced nil h = record { balanced = λ k. Balanced.done }
    tags_of-IsBalanced (cons v vs) (h, hs) =
        IsBalanced-append (tag_of-IsWhole v h).brackets (tags_of-IsBalanced vs hs)

    field_tags-IsBalanced : (fs : Fields) → FitsFields fs → IsBalanced (field_tags fs)
    field_tags-IsBalanced (last name v) (n, h) = label-IsBalanced n (tag_of-IsWhole v h).brackets
    field_tags-IsBalanced (field name v fs) (n, h, hs) =
        label-IsBalanced n
          (IsBalanced-append (tag_of-IsWhole v h).brackets (field_tags-IsBalanced fs hs))

  pub list_of-All : (vs : Values) → FitsAll vs → All IsWhole (list_of vs)
  unfolding list_of Fits
  list_of-All nil h = tt
  list_of-All (cons v vs) (h, hs) = (tag_of-IsWhole v h, list_of-All vs hs)

  pub pop_fields-field_tags :
      (fs : Fields) (f : ℕ)
      → FitsFields fs
      → length (field_tags fs) ≤ f
      → pop_fields f (field_tags fs) ≡ pairs_of fs
  unfolding pop_fields pairs_of Fits tag_of field_tags is_empty
  pop_fields-field_tags (last name v) zero h k = absurd (omega arith)
  pop_fields-field_tags (field name v fs) zero h k = absurd (omega arith)
  pop_fields-field_tags (last name v) (suc f) (n, h) k =
      rw
        (
          tag_pop_label_lem name (tag_of v) n.no_quote,
          pop-IsWhole (tag_of-IsWhole v h),
          pop_fields-nil f,
        )
        refl
  pop_fields-field_tags (field name v fs) (suc f) (n, h, hs) k =
      rw
        (
          tag_pop_label_lem name (tag_of v ++ field_tags fs) n.no_quote,
          tag_pop_lem (tag_of-IsWhole v h).tag (field_tags fs),
          pop_fields-field_tags fs f hs (shorter name (tag_of v) (field_tags fs) f k),
        )
        refl
