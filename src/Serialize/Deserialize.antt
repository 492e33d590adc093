-- ===== src/Serialize/Deserialize.antt =====
-- include/mserialize/deserialize.hpp, detail/Deserializer.hpp and StructDeserializer.hpp: an object is
-- read from a range into a target. A range is read by views, whose error is `Range overflow`.
use btui.Prelude.{
  ℕ, zero, suc, ◌*◌, ◌-◌, Option, none, some, List, [], ◌∷◌, ◌++◌, length, take, drop,
  if◌then◌else◌, ◌==◌,
}
use btui.Result.{Result, Error, ok, throw, ◌>>=◌}
use btui.Range.{Range, view, read, le_value}
use btui.Serialize.{
  Arithmetic, Container, CppType, CppTypes, Members, Object, Objects, MemberObjects, arithmetic,
  enumeration, adapted, sequence, tuple, optional, structure, no_more, elem, no_member, member,
  vector, list, array, associative, size_of_arithmetic, has_contiguous_data, has_resize, has_insert,
}

unfoldable pub replicate : {A : Type 0} → ℕ → A → List A
replicate zero x = []
replicate (suc n) x = x ∷ replicate n x

-- `T{}` for a container: an array has its elements, the others have none.
unfoldable pub blank_elems : {A : Type 0} → Container → A → List A
unfolding replicate
blank_elems vector x = []
blank_elems list x = []
blank_elems (array n) x = replicate n x
blank_elems associative x = []

-- `T{}`
unfoldable mutual
  unfolding blank_elems

  pub blank : (t : CppType) → Object t
  blank (arithmetic a) = 0
  blank (enumeration a) = 0
  blank (adapted a name es) = 0
  blank (sequence c t) = blank_elems c (blank t)
  blank (tuple ts) = blank_tuple ts
  blank (optional t) = none
  blank (structure name ms) = blank_members ms

  pub blank_tuple : (ts : CppTypes) → Objects ts
  blank_tuple no_more = tt
  blank_tuple (elem t ts) = (blank t, blank_tuple ts)

  pub blank_members : (ms : Members) → MemberObjects ms
  blank_members no_member = tt
  blank_members (member name t ms) = (blank t, blank_members ms)

-- `s.resize(n)`: elements that are new are `T{}`.
unfoldable pub resized : {A : Type 0} → A → ℕ → List A → List A
unfolding replicate
resized x n s = take n s ++ replicate (n - length s) x

-- `resize`: a sequence of a fixed size throws if the size is not its own.
unfoldable pub resize : {A : Type 0} → Container → A → ℕ → List A → Result (List A)
unfolding resized has_resize
resize c x new_size s =
    if has_resize c
    then ok (resized x new_size s)
    else (if length s == new_size then ok s else throw (Error.sequence_size new_size (length s)))

-- The numbers of `size` bytes in memory.
unfoldable pub numbers_at : ℕ → ℕ → List ℕ → List ℕ
numbers_at size zero data_ = []
numbers_at size (suc n) data_ = le_value (take size data_) ∷ numbers_at size n (drop size data_)

-- `istream.read(data, sizeof(T) * size)`
unfoldable pub read_batch : Arithmetic → ℕ → Range → Result (List ℕ × Range)
unfolding numbers_at size_of_arithmetic
read_batch a n r = do
  (bytes, rest) ← view (size_of_arithmetic a * n) r
  ok (numbers_at (size_of_arithmetic a) n bytes, rest)

-- `for (auto&& elem : s) deserialize(elem)`
unfoldable pub read_each :
    {A : Type 0} → (A → Range → Result (A × Range)) → List A → Range → Result (List A × Range)
read_each k [] r = ok ([], r)
read_each k (x ∷ s) r = do (y, rest) ← k x r; (ys, last) ← read_each k s rest; ok (y ∷ ys, last)

-- `while (size--) { T elem; deserialize(elem); s.insert(elem); }`
unfoldable pub read_inserting :
    {A : Type 0}
    → (A → Range → Result (A × Range))
    → (List A → A → List A)
    → A
    → ℕ
    → List A
    → Range
    → Result (List A × Range)
read_inserting k insert x zero s r = ok (s, r)
read_inserting k insert x (suc size) s r = do
  (y, rest) ← k x r
  read_inserting k insert x size (insert s y) rest

-- `deserialize_elems_noinsert`, after the target is resized.
unfoldable pub read_noinsert :
    Container
    → (t : CppType) → (Object t → Range → Result (Object t × Range))
    → ℕ
    → List (Object t)
    → Range
    → Result (List (Object t) × Range)
unfolding read_each read_batch has_contiguous_data
read_noinsert c (arithmetic a) k size s r =
    if has_contiguous_data c then read_batch a size r else read_each k s r
read_noinsert c (enumeration a) k size s r = read_each k s r
read_noinsert c (adapted a name es) k size s r = read_each k s r
read_noinsert c (sequence c' t) k size s r = read_each k s r
read_noinsert c (tuple ts) k size s r = read_each k s r
read_noinsert c (optional t) k size s r = read_each k s r
read_noinsert c (structure name ms) k size s r = read_each k s r

-- What the `insert` of sets and maps does.
abbrev pub Insert : Type 0
Insert = (t : CppType) → List (Object t) → Object t → List (Object t)

-- The object of an optional, unless its discriminator is zero.
unfoldable pub read_engaged :
    {A : Type 0} → ℕ → (Range → Result (A × Range)) → Range → Result (Option A × Range)
read_engaged discriminator k r =
    if discriminator == 0 then ok (none, r) else (do (x, last) ← k r; ok (some x, last))

module _ (insert : Insert) where
  -- `deserialize_elems`
  unfoldable pub deserialize_elems :
      Container
      → (t : CppType) → (Object t → Range → Result (Object t × Range))
      → List (Object t)
      → ℕ
      → Range
      → Result (List (Object t) × Range)
  unfolding read_inserting read_noinsert resize blank has_insert
  deserialize_elems c t k s size r =
      if has_insert c
      then read_inserting k (insert t) (blank t) size s r
      else (do s' ← resize c (blank t) size s; read_noinsert c t k size s' r)

  unfoldable mutual
    unfolding blank deserialize_elems size_of_arithmetic read_engaged

    -- The object in the target, and the range behind it.
    pub deserialize : (t : CppType) → Object t → Range → Result (Object t × Range)
    deserialize (arithmetic a) target r = read (size_of_arithmetic a) r
    deserialize (enumeration a) target r = read (size_of_arithmetic a) r
    deserialize (adapted a name es) target r = read (size_of_arithmetic a) r
    deserialize (sequence c t) target r = do
      (size, rest) ← read 4 r
      deserialize_elems c t (deserialize t) target size rest
    deserialize (tuple ts) target r = deserialize_tuple ts target r
    deserialize (optional t) target r = do
      (discriminator, rest) ← read 1 r
      read_engaged discriminator (deserialize t (blank t)) rest
    deserialize (structure name ms) target r = deserialize_members ms target r

    pub deserialize_tuple : (ts : CppTypes) → Objects ts → Range → Result (Objects ts × Range)
    deserialize_tuple no_more target r = ok (tt, r)
    deserialize_tuple (elem t ts) (target, targets) r = do
      (x, rest) ← deserialize t target r
      (xs, last) ← deserialize_tuple ts targets rest
      ok ((x, xs), last)

    pub deserialize_members :
        (ms : Members) → MemberObjects ms → Range → Result (MemberObjects ms × Range)
    deserialize_members no_member target r = ok (tt, r)
    deserialize_members (member name t ms) (target, targets) r = do
      (x, rest) ← deserialize t target r
      (xs, last) ← deserialize_members ms targets rest
      ok ((x, xs), last)
