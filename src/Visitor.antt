-- ===== src/Visitor.antt =====
-- include/binlog/ToStringVisitor.cpp: printing a serialized value while it is visited. The characters
-- that `<<` prints for a number, and those that `PrettyPrinter::printStruct` prints for a structure,
-- stand in the call.
use btui.Prelude.{
  ℕ, zero, suc, Bool, true, false, Option, none, some, List, [], ◌∷◌, ◌++◌, ltb, if◌then◌else◌,
}
use btui.Prelude.Int.{ℤ, pos, negsuc, ◌+ℤ◌, ◌-ℤ◌}
use btui.Tags.{remove_prefix_before}

pub data State : Type 0 where
  normal : State
  seq_begin : State
  seq : State

pub record ToStringVisitor : Type 0 where
  pub state : State
  pub seq_depth : ℤ
  pub empty_struct : Bool
  pub out : List ℕ

unfoldable pub new : List ℕ → ToStringVisitor
new out = record { state = normal; seq_depth = pos 0; empty_struct = false; out = out }

abbrev pub put : List ℕ → ToStringVisitor → ToStringVisitor
put chars v = record v { out = v.out ++ chars }

-- `comma`: ", " before all elements but the first.
abbrev pub comma_chars : State → List ℕ
comma_chars normal = []
comma_chars seq_begin = []
comma_chars seq = 44 ∷ 32 ∷ []

abbrev pub comma_state : State → State
comma_state normal = normal
comma_state seq_begin = seq
comma_state seq = seq

unfoldable pub comma : ToStringVisitor → ToStringVisitor
comma v = record (put (comma_chars v.state) v) { state = comma_state v.state }

unfoldable pub enter_seq : ToStringVisitor → ToStringVisitor
enter_seq v = record v { state = seq_begin; seq_depth = v.seq_depth +ℤ pos 1 }

abbrev pub state_at : ℤ → State
state_at (pos zero) = normal
state_at (pos (suc n)) = seq
state_at (negsuc n) = seq

unfoldable pub leave_seq : ToStringVisitor → ToStringVisitor
leave_seq v =
    let depth = v.seq_depth -ℤ pos 1 in record v { seq_depth = depth; state = state_at depth }

-- The calls of `mserialize::visit`. A sequence's characters are given if its elements' tag is `c`.
pub data Call : Type 0 where
  number : List ℕ → Call
  sequence_begin : Option (List ℕ) → Call
  sequence_end : Call
  tuple_begin : Call
  tuple_end : Call
  variant_begin : Call
  variant_end : Call
  null : Call
  enum : (enumerator value : List ℕ) → Call
  struct_begin : (name tag : List ℕ) (printed : Option (List ℕ)) → Call
  struct_end : Call
  field_begin : (name : List ℕ) → Call
  field_end : Call
  repeat_begin : Call
  repeat_end : (size : ℕ) (digits : List ℕ) → Call

-- "{null}"
abbrev pub null_chars : List ℕ
null_chars = 123 ∷ 110 ∷ 117 ∷ 108 ∷ 108 ∷ 125 ∷ []

abbrev pub enum_chars : List ℕ → List ℕ → List ℕ
enum_chars [] value = 48 ∷ 120 ∷ value
enum_chars (x ∷ enumerator) value = x ∷ enumerator

-- "name: ", or nothing without a name.
abbrev pub field_chars : List ℕ → List ℕ
field_chars [] = []
field_chars (x ∷ name) = (x ∷ name) ++ (58 ∷ 32 ∷ [])

-- " ... <repeats n times>", for more than one.
abbrev pub repeat_chars : ℕ → List ℕ → List ℕ
repeat_chars size digits =
    if ltb 1 size
    then (32 ∷ 46 ∷ 46 ∷ 46 ∷ 32 ∷ 60 ∷ 114 ∷ 101 ∷ 112 ∷ 101 ∷ 97 ∷ 116 ∷ 115 ∷ 32 ∷ [])
      ++ (digits ++ (32 ∷ 116 ∷ 105 ∷ 109 ∷ 101 ∷ 115 ∷ 62 ∷ []))
    else []

-- The name up to the first <.
abbrev pub struct_name : List ℕ → List ℕ
struct_name name = (remove_prefix_before name 60).0

-- `visit(SequenceBegin)`: the characters of a string at once, or the start of a sequence.
abbrev pub begin_sequence : Option (List ℕ) → ToStringVisitor → ToStringVisitor × Bool
begin_sequence (some chars) v = (put chars (comma v), true)
begin_sequence none v = (enter_seq (put (91 ∷ []) (comma v)), false)

-- `visit(StructBegin)`: what the pretty printer prints, or the name, and "{ " if there are fields.
abbrev pub begin_struct :
    List ℕ → List ℕ → Option (List ℕ) → ToStringVisitor → ToStringVisitor × Bool
begin_struct name tag (some printed) v = (put printed (comma v), true)
begin_struct name [] none v =
    (record (put (struct_name name) (comma v)) { empty_struct = true }, false)
begin_struct name (t ∷ tag) none v =
    (enter_seq (put (123 ∷ 32 ∷ []) (put (struct_name name) (comma v))), false)

abbrev pub end_struct : Bool → ToStringVisitor → ToStringVisitor
end_struct true v = record v { empty_struct = false }
end_struct false v = leave_seq (put (32 ∷ 125 ∷ []) v)

-- The overloads of `visit`; true tells the caller to skip what begins.
unfoldable pub visit : Call → ToStringVisitor → ToStringVisitor × Bool
visit (number chars) v = (put chars (comma v), false)
visit (sequence_begin chars) v = begin_sequence chars v
visit sequence_end v = (leave_seq (put (93 ∷ []) v), false)
visit tuple_begin v = (enter_seq (put (40 ∷ []) (comma v)), false)
visit tuple_end v = (leave_seq (put (41 ∷ []) v), false)
visit variant_begin v = (v, false)
visit variant_end v = (v, false)
visit null v = (put null_chars (comma v), false)
visit (enum enumerator value) v = (put (enum_chars enumerator value) (comma v), false)
visit (struct_begin name tag printed) v = begin_struct name tag printed v
visit struct_end v = (end_struct v.empty_struct v, false)
visit (field_begin name) v = (record (put (field_chars name) (comma v)) { state = normal }, false)
visit field_end v = (record v { state = seq }, false)
visit repeat_begin v = (v, false)
visit (repeat_end size digits) v = (put (repeat_chars size digits) v, false)

pub visit_all : List Call → ToStringVisitor → ToStringVisitor
visit_all [] v = v
visit_all (c ∷ cs) v = visit_all cs (visit c v).0
