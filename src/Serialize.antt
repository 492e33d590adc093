-- ===== src/Serialize.antt =====
-- include/mserialize/serialize.hpp, detail/Serializer.hpp, detail/sequence_traits.hpp and
-- StructSerializer.hpp: the C++ types that can be serialized, their objects, and the bytes written for
-- an object, as a list. Assertions are off, as in a release build.
pub mod Deserialize
pub mod Tag
pub mod Size
pub mod Objects
pub mod Elements
pub mod RoundTrip
pub mod Containers
pub mod Shown
pub mod Visited
pub mod WholeTags
mod Tests
use btui.Prelude.{
  ℕ, zero, suc, ◌+◌, ◌*◌, ◌%◌, ◌^◌, Bool, true, false, Option, none, some, List, [], ◌∷◌, ◌++◌,
  length, take, if◌then◌else◌,
}
use btui.Range.{le_bytes}

-- The sizes of integers.
pub data Width : Type 0 where
  byte two_bytes four_bytes eight_bytes : Width

pub data Arithmetic : Type 0 where
  boolean character : Arithmetic
  signed unsigned : Width → Arithmetic
  float double long_double : Arithmetic

-- vector or string; deque or list; C array or std::array; set or map.
pub data Container : Type 0 where
  vector list : Container
  array : (size : ℕ) → Container
  associative : Container

-- An enumerator: the bits of its value, and its name.
pub record Enumerator : Type 0 where
  pub value : ℕ
  pub name : List ℕ

-- `adapted` is an enum with a tag made by MSERIALIZE_MAKE_ENUM_TAG. The bases of a derived struct are members with
-- an empty name, before all others.
mutual
  pub data CppType : Type 0 where
    arithmetic enumeration : Arithmetic → CppType
    adapted : (underlying : Arithmetic) (name : List ℕ) → List Enumerator → CppType
    sequence : Container → CppType → CppType
    tuple : CppTypes → CppType
    optional : CppType → CppType
    structure : (name : List ℕ) → Members → CppType

  pub data CppTypes : Type 0 where
    no_more : CppTypes
    elem : CppType → CppTypes → CppTypes

  pub data Members : Type 0 where
    no_member : Members
    member : (name : List ℕ) → CppType → Members → Members

-- The objects of a type: the bits of a number, the elements of a sequence, the parts of a tuple or a struct.
abbrev mutual
  pub Object : CppType → Type 0
  Object (arithmetic a) = ℕ
  Object (enumeration a) = ℕ
  Object (adapted a name es) = ℕ
  Object (sequence c t) = List (Object t)
  Object (tuple ts) = Objects ts
  Object (optional t) = Option (Object t)
  Object (structure name ms) = MemberObjects ms

  pub Objects : CppTypes → Type 0
  Objects no_more = Unit {0}
  Objects (elem t ts) = Object t × Objects ts

  pub MemberObjects : Members → Type 0
  MemberObjects no_member = Unit {0}
  MemberObjects (member name t ms) = Object t × MemberObjects ms

unfoldable pub width_size : Width → ℕ
width_size byte = 1
width_size two_bytes = 2
width_size four_bytes = 4
width_size eight_bytes = 8

-- `sizeof(Arithmetic)`
unfoldable pub size_of_arithmetic : Arithmetic → ℕ
unfolding width_size
size_of_arithmetic boolean = 1
size_of_arithmetic character = 1
size_of_arithmetic (signed w) = width_size w
size_of_arithmetic (unsigned w) = width_size w
size_of_arithmetic float = 4
size_of_arithmetic double = 8
size_of_arithmetic long_double = 16

-- `sequence_has_contiguous_data`, `has_resize`, `has_insert`
unfoldable pub has_contiguous_data : Container → Bool
has_contiguous_data vector = true
has_contiguous_data list = false
has_contiguous_data (array n) = true
has_contiguous_data associative = false

unfoldable pub has_resize : Container → Bool
has_resize vector = true
has_resize list = true
has_resize (array n) = false
has_resize associative = false

unfoldable pub has_insert : Container → Bool
has_insert vector = false
has_insert list = false
has_insert (array n) = false
has_insert associative = true

-- `for (auto&& elem : s) serialize(elem)`
unfoldable pub serialize_each : {A : Type 0} → (A → List ℕ) → List A → List ℕ
serialize_each k [] = []
serialize_each k (x ∷ s) = k x ++ serialize_each k s

-- The memory of an object of an arithmetic type.
unfoldable pub memory_of : Arithmetic → ℕ → List ℕ
unfolding size_of_arithmetic
memory_of a bits = le_bytes (size_of_arithmetic a) bits

-- The elements in one batch.
unfoldable pub serialize_batch : Arithmetic → List ℕ → ℕ → List ℕ
unfolding serialize_each memory_of
serialize_batch a s zero = []
serialize_batch a s (suc size) =
    take (size_of_arithmetic a * suc size) (serialize_each (memory_of a) s)

-- `serialize_elems`: one batch for arithmetic elements in contiguous memory, else one by one.
unfoldable pub serialize_elems :
    Container → (t : CppType) → (Object t → List ℕ) → List (Object t) → ℕ → List ℕ
unfolding serialize_each serialize_batch has_contiguous_data
serialize_elems c (arithmetic a) k s size =
    if has_contiguous_data c then serialize_batch a s size else serialize_each k s
serialize_elems c (enumeration a) k s size = serialize_each k s
serialize_elems c (adapted a name es) k s size = serialize_each k s
serialize_elems c (sequence c' t) k s size = serialize_each k s
serialize_elems c (tuple ts) k s size = serialize_each k s
serialize_elems c (optional t) k s size = serialize_each k s
serialize_elems c (structure name ms) k s size = serialize_each k s

unfoldable mutual
  unfolding memory_of serialize_elems

  pub serialize : (t : CppType) → Object t → List ℕ
  serialize (arithmetic a) bits = memory_of a bits
  serialize (enumeration a) bits = memory_of a bits
  serialize (adapted a name es) bits = memory_of a bits
  serialize (sequence c t) s =
      let size32 = length s % 2 ^ 32 in
      le_bytes 4 size32 ++ serialize_elems c t (serialize t) s size32
  serialize (tuple ts) x = serialize_tuple ts x
  serialize (optional t) none = le_bytes 1 0
  serialize (optional t) (some x) = le_bytes 1 1 ++ serialize t x
  serialize (structure name ms) x = serialize_members ms x

  pub serialize_tuple : (ts : CppTypes) → Objects ts → List ℕ
  serialize_tuple no_more x = []
  serialize_tuple (elem t ts) (x, xs) = serialize t x ++ serialize_tuple ts xs

  pub serialize_members : (ms : Members) → MemberObjects ms → List ℕ
  serialize_members no_member x = []
  serialize_members (member name t ms) (x, xs) = serialize t x ++ serialize_members ms xs

-- `result += size` on std::size_t
unfoldable pub add_size : ℕ → ℕ → ℕ
add_size result size = (result + size) % 2 ^ 64

-- `for (auto&& elem : s) result += serialized_size(elem)`
unfoldable pub size_of_each : {A : Type 0} → (A → ℕ) → List A → ℕ → ℕ
unfolding add_size
size_of_each k [] result = result
size_of_each k (x ∷ s) result = size_of_each k s (add_size result (k x))

-- `sizeof_elems`: a product for arithmetic elements in contiguous memory, else a sum.
unfoldable pub sizeof_elems : Container → (t : CppType) → (Object t → ℕ) → List (Object t) → ℕ
unfolding size_of_each size_of_arithmetic has_contiguous_data
sizeof_elems c (arithmetic a) k s =
    if has_contiguous_data c then (length s * size_of_arithmetic a) % 2 ^ 64 else size_of_each k s 0
sizeof_elems c (enumeration a) k s = size_of_each k s 0
sizeof_elems c (adapted a name es) k s = size_of_each k s 0
sizeof_elems c (sequence c' t) k s = size_of_each k s 0
sizeof_elems c (tuple ts) k s = size_of_each k s 0
sizeof_elems c (optional t) k s = size_of_each k s 0
sizeof_elems c (structure name ms) k s = size_of_each k s 0

unfoldable mutual
  unfolding sizeof_elems size_of_arithmetic add_size

  pub serialized_size : (t : CppType) → Object t → ℕ
  serialized_size (arithmetic a) bits = size_of_arithmetic a
  serialized_size (enumeration a) bits = size_of_arithmetic a
  serialized_size (adapted a name es) bits = size_of_arithmetic a
  serialized_size (sequence c t) s = add_size 4 (sizeof_elems c t (serialized_size t) s)
  serialized_size (tuple ts) x = size_of_tuple ts x 0
  serialized_size (optional t) none = 1
  serialized_size (optional t) (some x) = add_size 1 (serialized_size t x)
  serialized_size (structure name ms) x = size_of_members ms x 0

  -- `for (auto s : elem_sizes) { result += s; }`
  pub size_of_tuple : (ts : CppTypes) → Objects ts → ℕ → ℕ
  size_of_tuple no_more x result = result
  size_of_tuple (elem t ts) (x, xs) result =
      size_of_tuple ts xs (add_size result (serialized_size t x))

  pub size_of_members : (ms : Members) → MemberObjects ms → ℕ → ℕ
  size_of_members no_member x result = result
  size_of_members (member name t ms) (x, xs) result =
      size_of_members ms xs (add_size result (serialized_size t x))
