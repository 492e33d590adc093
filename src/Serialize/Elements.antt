-- ===== src/Serialize/Elements.antt =====
-- The elements of a sequence are read back: one by one, in one batch, or inserted.
use btui.Prelude.{
  ℕ, ◌*◌, ◌%◌, ◌^◌, ◌<◌, ◌≡◌, refl, sym, ap, ◌∙◌, false, inl, inr, some, List, [], ◌∷◌, ◌++◌,
  append_assoc, length, All, arith, take, drop, take-length-append, drop-length-append, take_all,
  Bool-cases, ==_refl,
}
use btui.Result.{Result, ok}
use btui.Range.{Range, le_value, read}
use btui.Range.Words.{le_value-le_bytes, read-le_bytes, view-append_of_length}
use btui.Serialize.{
  Arithmetic, Container, CppType, Object, arithmetic, enumeration, adapted, sequence, tuple,
  optional, structure, vector, list, array, associative, size_of_arithmetic, has_contiguous_data,
  has_resize, has_insert, serialize_each, memory_of, serialize_batch, serialize_elems, serialize,
}
use btui.Serialize.Deserialize.{
  resized, resize, numbers_at, read_batch, read_each, read_inserting, read_engaged,
}
use btui.Serialize.Size.{length-memory_of, length-serialize_each}
use btui.Serialize.Objects.{insert_all, Lists, IsTarget, All-resized, length-resized}

pub take_front : (n : ℕ) (xs ys : List ℕ) → length xs ≡ n → take n (xs ++ ys) ≡ xs
take_front n xs ys e = ap (λ k. take k (xs ++ ys)) (sym e) ∙ take-length-append xs ys

pub drop_front : (n : ℕ) (xs ys : List ℕ) → length xs ≡ n → drop n (xs ++ ys) ≡ ys
drop_front n xs ys e = ap (λ k. drop k (xs ++ ys)) (sym e) ∙ drop-length-append xs ys

le_value-memory_of :
    (a : Arithmetic) (x : ℕ) → x < 256 ^ size_of_arithmetic a → le_value (memory_of a x) ≡ x
unfolding memory_of
le_value-memory_of a x h = le_value-le_bytes (size_of_arithmetic a) x h

-- A batch is read back.
numbers_at-serialize_each :
    (a : Arithmetic) (s : List ℕ)
    → All (λ x. x < 256 ^ size_of_arithmetic a) s
    → numbers_at (size_of_arithmetic a) (length s) (serialize_each (memory_of a) s) ≡ s
unfolding numbers_at serialize_each
numbers_at-serialize_each a [] h = refl
numbers_at-serialize_each a (x ∷ s) (h, hs) =
    let front = memory_of a x in
    let e = length-memory_of a x in
    rw
      (
        take_front (size_of_arithmetic a) front (serialize_each (memory_of a) s) e,
        drop_front (size_of_arithmetic a) front (serialize_each (memory_of a) s) e,
        numbers_at-serialize_each a s hs,
      )
      (ap (λ n. n ∷ s) (le_value-memory_of a x h))

pub serialize_batch_lem :
    (a : Arithmetic) (s : List ℕ) → serialize_batch a s (length s) ≡ serialize_each (memory_of a) s
unfolding serialize_batch serialize_each
serialize_batch_lem a [] = refl
serialize_batch_lem a (x ∷ s) =
    take_all (size_of_arithmetic a * length (x ∷ s)) (serialize_each (memory_of a) (x ∷ s))
      (omega (arith, length-serialize_each a (x ∷ s)))

pub read_batch-serialize_batch :
    (a : Arithmetic) (s : List ℕ) (rest : List ℕ)
    → All (λ x. x < 256 ^ size_of_arithmetic a) s
    → read_batch a (length s) (serialize_batch a s (length s) ++ rest) ≡ ok (s, rest)
unfolding read_batch
read_batch-serialize_batch a s rest h =
    rw
      (
        serialize_batch_lem a s,
        view-append_of_length (size_of_arithmetic a * length s) (serialize_each (memory_of a) s)
            rest (length-serialize_each a s),
        numbers_at-serialize_each a s h,
      )
      refl

-- Elements that are read one by one, each of which is read back.
module _ {A : Type 0} (k : A → Range → Result (A × Range)) (f : A → List ℕ) (P F : A → Type 0)
    (k-f : (x target : A) (rest : List ℕ)
      → P x
      → F target
      → k target (f x ++ rest) ≡ ok (x, rest)) where
  pub read_each-serialize_each :
      (targets s : List A) (rest : List ℕ)
      → length targets ≡ length s
      → All P s
      → All F targets
      → read_each k targets (serialize_each f s ++ rest) ≡ ok (s, rest)
  unfolding read_each serialize_each
  read_each-serialize_each [] [] rest e h hs = refl
  read_each-serialize_each [] (x ∷ s) rest e h hs = absurd (omega arith)
  read_each-serialize_each (t ∷ ts) [] rest e h hs = absurd (omega arith)
  read_each-serialize_each (t ∷ ts) (x ∷ s) rest e (h, hs) (g, gs) =
      rw
        (
          append_assoc (f x) (serialize_each f s) rest,
          k-f x t (serialize_each f s ++ rest) h g,
          read_each-serialize_each ts s rest (omega arith) hs gs,
        )
        refl

  pub read_inserting-serialize_each :
      (insert : List A → A → List A) (new_elem : A) (s acc : List A) (rest : List ℕ)
      → F new_elem
      → All P s
      → read_inserting k insert new_elem (length s) acc (serialize_each f s ++ rest)
        ≡ ok (insert_all insert acc s, rest)
  unfolding read_inserting serialize_each insert_all
  read_inserting-serialize_each insert new_elem [] acc rest g h = refl
  read_inserting-serialize_each insert new_elem (x ∷ s) acc rest g (h, hs) =
      rw
        (
          append_assoc (f x) (serialize_each f s) rest,
          k-f x new_elem (serialize_each f s ++ rest) h g,
        )
        (read_inserting-serialize_each insert new_elem s (insert acc x) rest g hs)

pub small_mod : (n : ℕ) → n < 2 ^ 32 → n % 2 ^ 32 ≡ n
small_mod n h = omega arith

pub read-memory_of :
    (a : Arithmetic) (x : ℕ) (rest : List ℕ)
    → x < 256 ^ size_of_arithmetic a
    → read (size_of_arithmetic a) (memory_of a x ++ rest) ≡ ok (x, rest)
unfolding memory_of
read-memory_of a x rest h = read-le_bytes (size_of_arithmetic a) x rest h

pub engaged_lem :
    {A : Type 0} (k : Range → Result (A × Range)) (r : Range) {x : A} {rest : Range}
    → k r ≡ ok (x, rest)
    → read_engaged 1 k r ≡ ok (some x, rest)
unfolding read_engaged
engaged_lem k r e = rw (e) refl

-- One batch writes the same bytes as the elements one by one.
pub one_by_one :
    (c : Container) (t : CppType) (s : List (Object t))
    → serialize_elems c t (serialize t) s (length s) ≡ serialize_each (serialize t) s
unfolding serialize_elems serialize
one_by_one c (arithmetic a) s = elim (Bool-cases (has_contiguous_data c)) [
  | inl e ↦ rw (e) (serialize_batch_lem a s)
  | inr e ↦ rw (e) refl
]
one_by_one c (enumeration a) s = refl
one_by_one c (adapted a name es) s = refl
one_by_one c (sequence c' t) s = refl
one_by_one c (tuple ts) s = refl
one_by_one c (optional t) s = refl
one_by_one c (structure name ms) s = refl

module _ (t : CppType) (k : Object t → Range → Result (Object t × Range)) (P F : Object t → Type 0)
    (k-f : (x target : Object t) (rest : List ℕ)
      → P x
      → F target
      → k target (serialize t x ++ rest) ≡ ok (x, rest)) where
  pub inserted_elems :
      (insert : List (Object t) → Object t → List (Object t)) (x : Object t) (s : List (Object t))
      (rest : List ℕ)
      → F x
      → All P s
      → read_inserting k insert x
          (length s)
          []
          (serialize_elems associative t (serialize t) s (length s) ++ rest)
        ≡ ok (insert_all insert [] s, rest)
  unfolding has_contiguous_data
  inserted_elems insert x s rest g h =
      ap (λ b. read_inserting k insert x (length s) [] (b ++ rest)) (one_by_one associative t s)
      ∙ read_inserting-serialize_each k (serialize t) P F k-f insert x s [] rest g h

module _ {A : Type 0} (F : A → Type 0) (insert : List A → A → List A) where
  pub resize_lem :
      (c : Container) (x : A) (s target : List A)
      → has_insert c ≡ false
      → Lists c insert s
      → F x
      → IsTarget c target
      → All F target
      → (t : List A) × (resize c x (length s) target ≡ ok t) × (length t ≡ length s) × All F t
  unfolding Lists IsTarget resize has_resize has_insert
  resize_lem vector x s target e l h g gs = (
    resized x (length s) target,
    refl,
    length-resized x (length s) target,
    All-resized F x (length s) target h gs,
  )
  resize_lem list x s target e l h g gs = (
    resized x (length s) target,
    refl,
    length-resized x (length s) target,
    All-resized F x (length s) target h gs,
  )
  resize_lem (array n) x s target e l h g gs =
      (target, rw (g ∙ sym l, ==_refl (length s)) refl, g ∙ sym l, gs)
  resize_lem associative x s target e l h g gs = cc
