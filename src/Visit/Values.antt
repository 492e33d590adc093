-- ===== src/Visit/Values.antt =====
-- Serialized values: their tags, their bytes, and what is printed for them.
use btui.Prelude.{
  ℕ, suc, ◌≢◌, Bool, true, false, ◌||◌, Option, none, some, List, [], ◌∷◌, ◌++◌, length, All,
}
use btui.Range.{le_bytes}
use btui.Tags.Pop.{Balanced, Brackets}
use btui.Visit.Hex.{hex_value}
use btui.Visit.Enums.{enumerators, name_of}
use btui.Visitor.{enum_chars, null_chars, field_chars, struct_name}
use btui.Visit.{NumberPrinter, arithmetic_size}

-- A number is its arithmetic tag and its bits; an enumerator has the digits and names of its enum too; `empty` is a struct without fields; `printed` is a struct that the
-- pretty printer prints, with the tags of its fields, its bytes and the characters. A variant has the tags
-- before and behind that of its value; `absent` is a variant that holds nothing.
mutual
  pub data Value : Type 0 where
    number : (tag bits : ℕ) → Value
    enumerator : (tag bits : ℕ) (name : List ℕ) (es : List (List ℕ × List ℕ)) → Value
    text : List ℕ → Value
    sequence : (elem : List ℕ) → Values → Value
    tuple : Values → Value
    variant : (before : List (List ℕ)) → Value → (behind : List (List ℕ)) → Value
    absent : (before behind : List (List ℕ)) → Value
    empty : (name : List ℕ) → Value
    structure : (name : List ℕ) → Fields → Value
    printed : (name fields bytes chars : List ℕ) → Value

  pub data Values : Type 0 where
    nil : Values
    cons : Value → Values → Values

  -- At least one field.
  pub data Fields : Type 0 where
    last : (name : List ℕ) → Value → Fields
    field : (name : List ℕ) → Value → Fields → Fields

unfoldable pub concat : List (List ℕ) → List ℕ
concat [] = []
concat (t ∷ ts) = t ++ concat ts

abbrev pub label : List ℕ → List ℕ → List ℕ
label name tag = 96 ∷ (name ++ (39 ∷ tag))

unfoldable mutual
  pub tag_of : Value → List ℕ
  tag_of (number tag bits) = tag ∷ []
  tag_of (enumerator tag bits name es) = b'/' ∷ ((tag ∷ label name (enumerators es)) ++ (92 ∷ []))
  tag_of (text chars) = b'[' ∷ b'c' ∷ []
  tag_of (sequence elem vs) = b'[' ∷ elem
  tag_of (tuple vs) = b'(' ∷ (tags_of vs ++ (b')' ∷ []))
  tag_of (variant before v behind) =
      b'<' ∷ ((concat before ++ (tag_of v ++ concat behind)) ++ (b'>' ∷ []))
  tag_of (absent before behind) = b'<' ∷ ((concat before ++ (b'0' ∷ concat behind)) ++ (b'>' ∷ []))
  tag_of (empty name) = b'{' ∷ (name ++ (b'}' ∷ []))
  tag_of (structure name fs) = b'{' ∷ ((name ++ field_tags fs) ++ (b'}' ∷ []))
  tag_of (printed name fields bytes chars) = b'{' ∷ ((name ++ fields) ++ (b'}' ∷ []))

  pub tags_of : Values → List ℕ
  tags_of nil = []
  tags_of (cons v vs) = tag_of v ++ tags_of vs

  pub field_tags : Fields → List ℕ
  field_tags (last name v) = label name (tag_of v)
  field_tags (field name v fs) = label name (tag_of v ++ field_tags fs)

unfoldable pub count : Values → ℕ
count nil = 0
count (cons v vs) = suc (count vs)

-- Whether a value has a part that is no tuple and no struct, such as a number or a text: one without, made of empty
-- tuples and structs alone, takes up no bytes.
unfoldable mutual
  pub occupies : Value → Bool
  occupies (number tag bits) = true
  occupies (enumerator tag bits name es) = true
  occupies (text chars) = true
  occupies (sequence elem vs) = true
  occupies (tuple vs) = any_occupies vs
  occupies (variant before v behind) = true
  occupies (absent before behind) = true
  occupies (empty name) = false
  occupies (structure name fs) = any_field_occupies fs
  occupies (printed name fields bytes chars) = true

  pub any_occupies : Values → Bool
  any_occupies nil = false
  any_occupies (cons v vs) = occupies v || any_occupies vs

  pub any_field_occupies : Fields → Bool
  any_field_occupies (last name v) = occupies v
  any_field_occupies (field name v fs) = occupies v || any_field_occupies fs

abbrev pub size_of : Option ℕ → ℕ
size_of none = 0
size_of (some n) = n

unfoldable mutual
  unfolding arithmetic_size

  pub bytes_of : Value → List ℕ
  bytes_of (number tag bits) = le_bytes (size_of (arithmetic_size tag)) bits
  bytes_of (enumerator tag bits name es) = le_bytes (size_of (arithmetic_size tag)) bits
  bytes_of (text chars) = le_bytes 4 (length chars) ++ chars
  bytes_of (sequence elem vs) = le_bytes 4 (count vs) ++ bytes_of_all vs
  bytes_of (tuple vs) = bytes_of_all vs
  bytes_of (variant before v behind) = le_bytes 1 (length before) ++ bytes_of v
  bytes_of (absent before behind) = le_bytes 1 (length before)
  bytes_of (empty name) = []
  bytes_of (structure name fs) = bytes_of_fields fs
  bytes_of (printed name fields bytes chars) = bytes

  pub bytes_of_all : Values → List ℕ
  bytes_of_all nil = []
  bytes_of_all (cons v vs) = bytes_of v ++ bytes_of_all vs

  pub bytes_of_fields : Fields → List ℕ
  bytes_of_fields (last name v) = bytes_of v
  bytes_of_fields (field name v fs) = bytes_of v ++ bytes_of_fields fs

module _ (print_number : NumberPrinter) where
  -- "[a, b]", "(a, b)", "Name{ x: a, y: b }", "Name", "{null}"; ", " stands before all but the first.
  unfoldable mutual
    pub render : Value → List ℕ
    render (number tag bits) = print_number tag bits
    render (enumerator tag bits name es) =
        enum_chars (name_of (hex_value tag bits) es) (hex_value tag bits)
    render (text chars) = chars
    render (sequence elem vs) = b'[' ∷ (render_all vs ++ (b']' ∷ []))
    render (tuple vs) = b'(' ∷ (render_all vs ++ (b')' ∷ []))
    render (variant before v behind) = render v
    render (absent before behind) = null_chars
    render (empty name) = struct_name name
    render (structure name fs) =
        struct_name name ++ (123 ∷ 32 ∷ (render_fields fs ++ (32 ∷ 125 ∷ [])))
    render (printed name fields bytes chars) = chars

    pub render_all : Values → List ℕ
    render_all nil = []
    render_all (cons v vs) = render v ++ render_more vs

    pub render_more : Values → List ℕ
    render_more nil = []
    render_more (cons v vs) = 44 ∷ 32 ∷ (render v ++ render_more vs)

    pub render_fields : Fields → List ℕ
    render_fields (last name v) = field_chars name ++ render v
    render_fields (field name v fs) = field_chars name ++ (render v ++ (44 ∷ 32 ∷ render_fields fs))

-- The brackets of each kind match.
pub record IsBalanced (s : List ℕ) : Type 0 where
  pub balanced : {o c : ℕ} → Brackets o c → Balanced o c s

-- A name in a tag: the brackets in it match, and it holds no ` and no '.
pub record IsName (name : List ℕ) : Type 0 where
  pub brackets : IsBalanced name
  pub no_label : All (λ x. x ≢ 96) name
  pub no_quote : All (λ x. x ≢ 39) name
