-- ===== src/Visit/Steps.antt =====
-- The steps of a visit: what each kind of value makes of the visitor.
use btui.Prelude.{
  ℕ, suc, ◌≤◌, ◌<◌, ◌^◌, ◌≡◌, ◌≢◌, refl, sym, ap, ap₂, ◌∙◌, subst, Bool, true, false, none, some,
  List, [], ◌∷◌, ◌++◌, append_assoc, drop-length-append, length, max, All, arith, if◌then◌else◌,
}
use btui.Prelude.Int.{pos}
use btui.Result.{Result, ok}
use btui.Range.{Range, le_bytes}
use btui.Range.Words.{read-le_bytes}
use btui.Tags.{tag_pop, remove_prefix_before}
use btui.Visitor.{
  put, struct_name, ToStringVisitor, State, Call, comma_chars, comma_state, state_at, visit, comma,
  enter_seq, leave_seq, normal, seq_begin, seq,
}
use btui.Visit.{
  skip_tags, is_null, visit_struct, begin_fields, NumberPrinter, StructPrinter, Visited, then_visit,
  say, visit_tag, visit_elems, visit_times, arithmetic_size, read_arithmetic,
}
use btui.Visit.Hex.{hex_value}
use btui.Visit.Enums.{
  enumerators, name_of, NoQuote, IsEnumerator, enumerator_of-enumerators, hex_value-Unquoted,
}
use btui.Visit.Values.{
  label, size_of, Value, Values, Fields, number, enumerator, text, sequence, tuple, variant, absent,
  empty, structure, printed, nil, cons, last, field, concat, tag_of, tags_of, field_tags, count,
}
use btui.Visit.Tags.{drop_last-append, number-IsPlain, differs, IsWhole}
use btui.Visit.Whole.{Fits, FitsAll, FitsElems, list_of}
use btui.Tags.Pop.{tag_pop_lem}
use btui.Tags.Labels.{eqb_of_ne, find_pos_lem}

-- How deep a value is.
unfoldable mutual
  pub height : Value → ℕ
  height (number tag bits) = 1
  height (enumerator tag bits name es) = 1
  height (text chars) = 1
  height (sequence elem vs) = suc (height_all vs)
  height (tuple vs) = suc (height_all vs)
  height (variant before v behind) = suc (height v)
  height (absent before behind) = 1
  height (empty name) = 1
  height (structure name fs) = suc (height_fields fs)
  height (printed name fields bytes chars) = 2

  pub height_all : Values → ℕ
  height_all nil = 0
  height_all (cons v vs) = max (height v) (height_all vs)

  pub height_fields : Fields → ℕ
  height_fields (last name v) = height v
  height_fields (field name v fs) = max (height v) (height_fields fs)

-- The visitor in a state, inside of `d` sequences, tuples and structs.
abbrev pub at : State → ℕ → List ℕ → ToStringVisitor
at s d out = record { state = s; seq_depth = pos d; empty_struct = false; out = out }

-- The state behind a value.
unfoldable pub after : Value → State → ℕ → State
after (number tag bits) s d = comma_state s
after (enumerator tag bits name es) s d = comma_state s
after (text chars) s d = comma_state s
after (sequence elem vs) s d = state_at (pos d)
after (tuple vs) s d = state_at (pos d)
after (variant before v behind) s d = after v s d
after (absent before behind) s d = comma_state s
after (empty name) s d = comma_state s
after (structure name fs) s d = state_at (pos d)
after (printed name fields bytes chars) s d = comma_state s

unfoldable pub begun : Values → State
begun nil = seq_begin
begun (cons v vs) = seq

pub after-begin : (v : Value) (d : ℕ) → after v seq_begin (suc d) ≡ seq
unfolding after
after-begin (number tag bits) d = refl
after-begin (enumerator tag bits name es) d = refl
after-begin (text chars) d = refl
after-begin (sequence elem vs) d = refl
after-begin (tuple vs) d = refl
after-begin (variant before v behind) d = after-begin v d
after-begin (absent before behind) d = refl
after-begin (empty name) d = refl
after-begin (structure name fs) d = refl
after-begin (printed name fields bytes chars) d = refl

pub after-seq : (v : Value) (d : ℕ) → after v seq (suc d) ≡ seq
unfolding after
after-seq (number tag bits) d = refl
after-seq (enumerator tag bits name es) d = refl
after-seq (text chars) d = refl
after-seq (sequence elem vs) d = refl
after-seq (tuple vs) d = refl
after-seq (variant before v behind) d = after-seq v d
after-seq (absent before behind) d = refl
after-seq (empty name) d = refl
after-seq (structure name fs) d = refl
after-seq (printed name fields bytes chars) d = refl

pub after-normal : (v : Value) → after v normal 0 ≡ normal
unfolding after
after-normal (number tag bits) = refl
after-normal (enumerator tag bits name es) = refl
after-normal (text chars) = refl
after-normal (sequence elem vs) = refl
after-normal (tuple vs) = refl
after-normal (variant before v behind) = after-normal v
after-normal (absent before behind) = refl
after-normal (empty name) = refl
after-normal (structure name fs) = refl
after-normal (printed name fields bytes chars) = refl

pub enter_at :
    (s : State) (d : ℕ) (out : List ℕ) → enter_seq (at s d out) ≡ at seq_begin (suc d) out
unfolding enter_seq
enter_at s d out = ground arith

pub leave_at :
    (s : State) (d : ℕ) (out : List ℕ) → leave_seq (at s (suc d) out) ≡ at (state_at (pos d)) d out
unfolding leave_seq
leave_at s d out = ground arith

pub leaf_out :
    (s : State) (d : ℕ) (out chars rest : List ℕ)
    → ◌≡◌ {A = Visited}
        (at (comma_state s) d ((out ++ comma_chars s) ++ chars), ok rest)
        (at (comma_state s) d (out ++ (comma_chars s ++ chars)), ok rest)
leaf_out s d out chars rest =
    ap (λ o. (at (comma_state s) d o, ok rest)) (append_assoc out (comma_chars s) chars)

pub bracket_out :
    (out a p r e : List ℕ) → (((out ++ a) ++ p) ++ r) ++ e ≡ out ++ (a ++ (p ++ (r ++ e)))
bracket_out out a p r e =
    append_assoc ((out ++ a) ++ p) r e
    ∙ append_assoc (out ++ a) p (r ++ e)
    ∙ append_assoc out a (p ++ (r ++ e))

pub struct_out :
    (out a m p r e : List ℕ)
    → ((((out ++ a) ++ m) ++ p) ++ r) ++ e ≡ out ++ (a ++ (m ++ (p ++ (r ++ e))))
struct_out out a m p r e =
    bracket_out (out ++ a) m p r e ∙ append_assoc out a (m ++ (p ++ (r ++ e)))

pub three_out : (out a p r : List ℕ) → ((out ++ a) ++ p) ++ r ≡ out ++ (a ++ (p ++ r))
three_out out a p r = append_assoc (out ++ a) p r ∙ append_assoc out a (p ++ r)

pub height_pos : (v : Value) → 1 ≤ height v
unfolding height
height_pos (number tag bits) = omega arith
height_pos (enumerator tag bits name es) = omega arith
height_pos (text chars) = omega arith
height_pos (sequence elem vs) = omega arith
height_pos (tuple vs) = omega arith
height_pos (variant before v behind) = omega arith
height_pos (absent before behind) = omega arith
height_pos (empty name) = omega arith
height_pos (structure name fs) = omega arith
height_pos (printed name fields bytes chars) = omega arith

pub if_same : {A : Type 0} (b : Bool) (x : A) → (if b then x else x) ≡ x
if_same true x = refl
if_same false x = refl

pub read_arithmetic_lem :
    (tag n bits : ℕ) (rest : List ℕ)
    → arithmetic_size tag ≡ some n
    → bits < 256 ^ n
    → read_arithmetic tag (le_bytes (size_of (arithmetic_size tag)) bits ++ rest) ≡ ok (bits, rest)
unfolding read_arithmetic
read_arithmetic_lem tag n bits rest e h =
    ap (λ o. read_arithmetic tag (le_bytes (size_of o) bits ++ rest)) e
    ∙ rw (read_arithmetic, e) (read-le_bytes n bits rest h)

pub skip-concat :
    (ts : List (List ℕ)) (rest : List ℕ)
    → All IsWhole ts
    → skip_tags (length ts) (concat ts ++ rest) ≡ rest
unfolding skip_tags concat
skip-concat [] rest w = refl
skip-concat (t ∷ ts) rest (w, ws) =
    ap (λ l. skip_tags (length ts) (tag_pop l).1) (append_assoc t (concat ts) rest)
    ∙ ap (λ p. skip_tags (length ts) p.1) (tag_pop_lem w.tag (concat ts ++ rest))
    ∙ skip-concat ts rest ws

pub is_null-cons : (c : ℕ) (s : List ℕ) → c ≢ 48 → is_null (c ∷ s) ≡ false
is_null-cons c [] h = eqb_of_ne c 48 h
is_null-cons c (x ∷ s) h = refl

-- The tags of the fields start with a label.
pub field_tags-label : (fs : Fields) → (tail : List ℕ) × (field_tags fs ≡ 96 ∷ tail)
unfolding field_tags
field_tags-label (last name v) = (_, refl)
field_tags-label (field name v fs) = (_, refl)

module _ (print_number : NumberPrinter) (print_struct : StructPrinter) (full_tag : List ℕ) where
  pub times-elems :
      (k : List ℕ → ToStringVisitor → Range → Visited) (elem : List ℕ) (vs : Values)
      → FitsElems full_tag print_struct elem vs
      → visit_times (count vs) (k elem) ≡ visit_elems k (list_of vs)
  unfolding Fits count list_of visit_times visit_elems
  times-elems k elem nil h = refl
  times-elems k elem (cons v vs) (e, h, hs) =
      ap₂ (λ f t w r. then_visit f (k t w r)) (times-elems k elem vs hs) (sym e)

  pub elems_all :
      (elem : List ℕ) (vs : Values)
      → FitsElems full_tag print_struct elem vs
      → FitsAll full_tag print_struct vs
  unfolding Fits
  elems_all elem nil h = tt
  elems_all elem (cons v vs) (e, h, hs) = (h, elems_all elem vs hs)

  pub times-elems_at :
      (k : List ℕ → ToStringVisitor → Range → Visited) (elem : List ℕ) (vs : Values)
      → FitsElems full_tag print_struct elem vs
      → (w : ToStringVisitor) (r : Range)
      → visit_times (count vs) (k elem) w r ≡ visit_elems k (list_of vs) w r
  times-elems_at k elem vs h w r = ap (λ f. f w r) (times-elems k elem vs h)

  pub number_lem :
      (k : List ℕ → ToStringVisitor → Range → Visited) (b : List ℕ → Result Bool) (tag n bits : ℕ)
      (v : ToStringVisitor) (rest : List ℕ)
      → arithmetic_size tag ≡ some n
      → bits < 256 ^ n
      → visit_tag print_number print_struct full_tag k b
          (tag ∷ [])
          v
          (le_bytes (size_of (arithmetic_size tag)) bits ++ rest)
        ≡ (say (Call.number (print_number tag bits)) v, ok rest)
  unfolding visit_tag
  number_lem k b tag n bits v rest e h =
      let (p, q) = number-IsPlain tag n e in
      rw
        (
          eqb_of_ne tag 91 q,
          eqb_of_ne tag 40 p.no_tuple.0,
          eqb_of_ne tag 60 p.no_variant.0,
          eqb_of_ne tag 123 p.no_structure.0,
          eqb_of_ne tag 47 p.no_enumeration.0,
          read_arithmetic_lem tag n bits rest e h,
        )
        refl

  pub enum_lem :
      (k : List ℕ → ToStringVisitor → Range → Visited) (b : List ℕ → Result Bool) (tag n bits : ℕ)
      (name : List ℕ) (es : List (List ℕ × List ℕ)) (v : ToStringVisitor) (rest : List ℕ)
      → arithmetic_size tag ≡ some n
      → bits < 256 ^ n
      → NoQuote name
      → All IsEnumerator es
      → visit_tag print_number print_struct full_tag k b
          (tag_of (enumerator tag bits name es))
          v
          (le_bytes (size_of (arithmetic_size tag)) bits ++ rest)
        ≡ (say (Call.enum (name_of (hex_value tag bits) es) (hex_value tag bits)) v, ok rest)
  unfolding visit_tag tag_of remove_prefix_before
  enum_lem k b tag n bits name es v rest e h q g =
      rw
        (
          drop_last-append (tag ∷ label name (enumerators es)) 92,
          read_arithmetic_lem tag n bits rest e h,
          find_pos_lem 39 name (enumerators es) q,
          drop-length-append name (39 ∷ enumerators es),
          enumerator_of-enumerators (hex_value tag bits) es (hex_value-Unquoted tag bits) g,
        )
        refl

  pub fields_lem :
      (k : List ℕ → ToStringVisitor → Range → Visited) (name fields tail : List ℕ)
      (v : ToStringVisitor) (r : Range)
      → fields ≡ 96 ∷ tail
      → visit_struct print_number print_struct full_tag k (123 ∷ name, fields) v r
        ≡ begin_fields k name fields v (print_struct name fields r)
  fields_lem k name fields tail v r e =
      subst
        (λ l.
          visit_struct print_number print_struct full_tag k (123 ∷ name, l) v r
          ≡ begin_fields k name l v (print_struct name l r))
        (sym e) refl

  pub begin_lem :
      (name fields tail : List ℕ) (v : ToStringVisitor)
      → fields ≡ 96 ∷ tail
      → say (Call.struct_begin name fields none) v
        ≡ enter_seq (put (123 ∷ 32 ∷ []) (put (struct_name name) (comma v)))
  unfolding visit
  begin_lem name fields tail v e = rw e refl

  pub tag_of-not_null : (v : Value) → Fits full_tag print_struct v → is_null (tag_of v) ≡ false
  unfolding Fits tag_of arithmetic_size
  tag_of-not_null (number tag bits) (n, e, h) = eqb_of_ne tag 48 (differs 48 refl e)
  tag_of-not_null (enumerator tag bits name es) h =
      is_null-cons 47 ((tag ∷ label name (enumerators es)) ++ (92 ∷ [])) (omega arith)
  tag_of-not_null (text chars) h = refl
  tag_of-not_null (sequence elem vs) h = is_null-cons 91 elem (omega arith)
  tag_of-not_null (tuple vs) h = is_null-cons 40 (tags_of vs ++ (41 ∷ [])) (omega arith)
  tag_of-not_null (variant before v behind) h = is_null-cons 60 _ (omega arith)
  tag_of-not_null (absent before behind) h = is_null-cons 60 _ (omega arith)
  tag_of-not_null (empty name) h = is_null-cons 123 _ (omega arith)
  tag_of-not_null (structure name fs) h = is_null-cons 123 _ (omega arith)
  tag_of-not_null (printed name fields bytes chars) h = is_null-cons 123 _ (omega arith)
