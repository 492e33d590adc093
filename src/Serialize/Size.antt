-- ===== src/Serialize/Size.antt =====
-- The serialized size of an object is the number of the bytes written for it.
use btui.Prelude.{
  ℕ, zero, suc, ◌+◌, ◌*◌, ◌%◌, ◌^◌, ◌≤◌, ◌<◌, ◌≡◌, ap, ◌∙◌, none, some, List, [], ◌∷◌, length,
  length-append, length-take, All, arith, Bool-cases, inl, inr,
}
use btui.Range.{le_bytes}
use btui.Range.Words.{length-le_bytes}
use btui.Serialize.{
  Arithmetic, boolean, character, signed, unsigned, float, double, long_double, byte, two_bytes,
  four_bytes, eight_bytes, Container, CppType, CppTypes, Members, Object, Objects, MemberObjects,
  arithmetic, enumeration, adapted, sequence, tuple, optional, structure, no_more, elem, no_member,
  member, size_of_arithmetic, width_size, has_contiguous_data, serialize_each, memory_of,
  serialize_batch, serialize_elems, serialize, serialize_tuple, serialize_members, add_size,
  size_of_each, sizeof_elems, serialized_size, size_of_tuple, size_of_members,
}

-- Every sequence in an object has a size that fits on 32 bits.
unfoldable mutual
  pub SizesFit : (t : CppType) → Object t → Type 0
  SizesFit (arithmetic a) x = Unit {0}
  SizesFit (enumeration a) x = Unit {0}
  SizesFit (adapted a name es) x = Unit {0}
  SizesFit (sequence c t) s = (length s < 2 ^ 32) × All (SizesFit t) s
  SizesFit (tuple ts) x = TupleSizesFit ts x
  SizesFit (optional t) none = Unit {0}
  SizesFit (optional t) (some x) = SizesFit t x
  SizesFit (structure name ms) x = MemberSizesFit ms x

  pub TupleSizesFit : (ts : CppTypes) → Objects ts → Type 0
  TupleSizesFit no_more x = Unit {0}
  TupleSizesFit (elem t ts) (x, xs) = SizesFit t x × TupleSizesFit ts xs

  pub MemberSizesFit : (ms : Members) → MemberObjects ms → Type 0
  MemberSizesFit no_member x = Unit {0}
  MemberSizesFit (member name t ms) (x, xs) = SizesFit t x × MemberSizesFit ms xs

size-bound : (a : Arithmetic) → size_of_arithmetic a ≤ 16
unfolding size_of_arithmetic width_size
size-bound boolean = omega arith
size-bound character = omega arith
size-bound (signed byte) = omega arith
size-bound (signed two_bytes) = omega arith
size-bound (signed four_bytes) = omega arith
size-bound (signed eight_bytes) = omega arith
size-bound (unsigned byte) = omega arith
size-bound (unsigned two_bytes) = omega arith
size-bound (unsigned four_bytes) = omega arith
size-bound (unsigned eight_bytes) = omega arith
size-bound float = omega arith
size-bound double = omega arith
size-bound long_double = omega arith

pub length-memory_of :
    (a : Arithmetic) (bits : ℕ) → length (memory_of a bits) ≡ size_of_arithmetic a
unfolding memory_of
length-memory_of a bits = length-le_bytes (size_of_arithmetic a) bits

memory_size :
    (a : Arithmetic) (bits : ℕ) → size_of_arithmetic a ≡ length (memory_of a bits) % 2 ^ 64
memory_size a bits = omega (arith, length-memory_of a bits, size-bound a)

add_size-mod : (a b : ℕ) → add_size (a % 2 ^ 64) (b % 2 ^ 64) ≡ (a + b) % 2 ^ 64
unfolding add_size
add_size-mod a b = omega arith

zero_mod : 0 ≡ 0 % 2 ^ 64
zero_mod = omega arith

zero_add : (n : ℕ) → 0 + n ≡ n
zero_add n = omega arith

pub length-serialize_each :
    (a : Arithmetic) (s : List ℕ)
    → length (serialize_each (memory_of a) s) ≡ size_of_arithmetic a * length s
unfolding serialize_each
length-serialize_each a [] = omega arith
length-serialize_each a (x ∷ s) = omega (
  arith,
  length-append (memory_of a x) (serialize_each (memory_of a) s),
  length-memory_of a x,
  length-serialize_each a s,
)

module _ {A : Type 0} (size : A → ℕ) (bytes : A → List ℕ) (P : A → Type 0)
    (size_lem : (x : A) → P x → size x ≡ length (bytes x) % 2 ^ 64) where
  each_size :
      (s : List A) (n : ℕ)
      → All P s
      → size_of_each size s (n % 2 ^ 64) ≡ (n + length (serialize_each bytes s)) % 2 ^ 64
  unfolding size_of_each serialize_each
  each_size [] n h = ap (λ k. k % 2 ^ 64) (omega arith)
  each_size (x ∷ s) n (h, hs) =
      rw (size_lem x h, add_size-mod n (length (bytes x)), each_size s (n + length (bytes x)) hs)
        (ap (λ k. k % 2 ^ 64) (omega (arith, length-append (bytes x) (serialize_each bytes s))))

  from_zero :
      (s : List A) → All P s → size_of_each size s 0 ≡ length (serialize_each bytes s) % 2 ^ 64
  from_zero s h =
      ap (λ n. size_of_each size s n) zero_mod
      ∙ each_size s 0 h
      ∙ ap (λ k. k % 2 ^ 64) (zero_add (length (serialize_each bytes s)))

length-serialize_batch :
    (a : Arithmetic) (s : List ℕ) (n : ℕ)
    → length s ≡ n
    → length (serialize_batch a s n) ≡ n * size_of_arithmetic a
unfolding serialize_batch
length-serialize_batch a s zero h = omega arith
length-serialize_batch a s (suc n) h = omega (
  arith,
  length-take (size_of_arithmetic a * suc n) (serialize_each (memory_of a) s),
  length-serialize_each a s,
  h,
  ap (λ k. size_of_arithmetic a * k) h,
)

elems_size :
    (c : Container) (t : CppType) (s : List (Object t))
    → ((x : Object t) → SizesFit t x → serialized_size t x ≡ length (serialize t x) % 2 ^ 64)
    → length s < 2 ^ 32
    → All (SizesFit t) s
    → sizeof_elems c t (serialized_size t) s
      ≡ length (serialize_elems c t (serialize t) s (length s % 2 ^ 32)) % 2 ^ 64
unfolding sizeof_elems serialize_elems
elems_size c (arithmetic a) s k h hs = elim (Bool-cases (has_contiguous_data c)) [
  | inl e ↦
      rw (e, length-serialize_batch a s (length s % 2 ^ 32) (omega arith))
        (ap (λ k. (k * size_of_arithmetic a) % 2 ^ 64) (omega arith))
  | inr e ↦ rw (e) (
      from_zero (serialized_size (arithmetic a)) (serialize (arithmetic a))
        (SizesFit (arithmetic a)) k s hs)
]
elems_size c (enumeration a) s k h hs =
    from_zero (serialized_size (enumeration a)) (serialize (enumeration a))
      (SizesFit (enumeration a)) k s hs
elems_size c (adapted a n es) s k h hs =
    from_zero (serialized_size (adapted a n es)) (serialize (adapted a n es))
      (SizesFit (adapted a n es)) k s hs
elems_size c (sequence c' t) s k h hs =
    from_zero (serialized_size (sequence c' t)) (serialize (sequence c' t))
      (SizesFit (sequence c' t)) k s hs
elems_size c (tuple ts) s k h hs =
    from_zero (serialized_size (tuple ts)) (serialize (tuple ts)) (SizesFit (tuple ts)) k s hs
elems_size c (optional t) s k h hs =
    from_zero (serialized_size (optional t)) (serialize (optional t)) (SizesFit (optional t)) k s hs
elems_size c (structure n ms) s k h hs =
    from_zero (serialized_size (structure n ms)) (serialize (structure n ms))
      (SizesFit (structure n ms)) k s hs

mutual
  unfolding SizesFit serialized_size serialize

  object_size :
      (t : CppType) (x : Object t)
      → SizesFit t x
      → serialized_size t x ≡ length (serialize t x) % 2 ^ 64
  object_size (arithmetic a) x h = memory_size a x
  object_size (enumeration a) x h = memory_size a x
  object_size (adapted a name es) x h = memory_size a x
  object_size (sequence c t) s (h, hs) =
      ap (λ k. add_size 4 k) (elems_size c t s (object_size t) h hs)
      ∙ add_size-mod 4 (length (serialize_elems c t (serialize t) s (length s % 2 ^ 32)))
      ∙ ap (λ k. k % 2 ^ 64)
          (omega (
            arith,
            length-append (le_bytes 4 (length s % 2 ^ 32))
                (serialize_elems c t (serialize t) s (length s % 2 ^ 32)),
            length-le_bytes 4 (length s % 2 ^ 32),
          ))
  object_size (tuple ts) x h =
      ap (λ n. size_of_tuple ts x n) zero_mod
      ∙ tuple_size ts x 0 h
      ∙ ap (λ k. k % 2 ^ 64) (zero_add (length (serialize_tuple ts x)))
  object_size (optional t) none h = omega (arith, length-le_bytes 1 0)
  object_size (optional t) (some x) h =
      ap (λ k. add_size 1 k) (object_size t x h)
      ∙ add_size-mod 1 (length (serialize t x))
      ∙ ap (λ k. k % 2 ^ 64)
          (omega (arith, length-append (le_bytes 1 1) (serialize t x), length-le_bytes 1 1))
  object_size (structure name ms) x h =
      ap (λ n. size_of_members ms x n) zero_mod
      ∙ members_size ms x 0 h
      ∙ ap (λ k. k % 2 ^ 64) (zero_add (length (serialize_members ms x)))

  tuple_size :
      (ts : CppTypes) (x : Objects ts) (n : ℕ)
      → TupleSizesFit ts x
      → size_of_tuple ts x (n % 2 ^ 64) ≡ (n + length (serialize_tuple ts x)) % 2 ^ 64
  tuple_size no_more x n h = ap (λ k. k % 2 ^ 64) (omega arith)
  tuple_size (elem t ts) (x, xs) n (h, hs) =
      rw
        (
          object_size t x h,
          add_size-mod n (length (serialize t x)),
          tuple_size ts xs (n + length (serialize t x)) hs,
        )
        (ap (λ k. k % 2 ^ 64)
          (omega (arith, length-append (serialize t x) (serialize_tuple ts xs))))

  members_size :
      (ms : Members) (x : MemberObjects ms) (n : ℕ)
      → MemberSizesFit ms x
      → size_of_members ms x (n % 2 ^ 64) ≡ (n + length (serialize_members ms x)) % 2 ^ 64
  members_size no_member x n h = ap (λ k. k % 2 ^ 64) (omega arith)
  members_size (member name t ms) (x, xs) n (h, hs) =
      rw
        (
          object_size t x h,
          add_size-mod n (length (serialize t x)),
          members_size ms xs (n + length (serialize t x)) hs,
        )
        (ap (λ k. k % 2 ^ 64)
          (omega (arith, length-append (serialize t x) (serialize_members ms xs))))

-- The serialized size of an object is the number of the bytes written for it, modulo 2 ^ 64, for every object
-- whose sequences all have a size that fits on 32 bits.
pub serialized_size-serialize :
    (t : CppType) (x : Object t)
    → SizesFit t x
    → serialized_size t x ≡ length (serialize t x) % 2 ^ 64
serialized_size-serialize t x h = object_size t x h
