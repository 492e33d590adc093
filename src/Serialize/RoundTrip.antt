-- ===== src/Serialize/RoundTrip.antt =====
-- What is written for an object is read back, in front of any bytes, into any target that is as good as new.
use btui.Prelude.{
  ℕ, ◌≡◌, refl, ap, ◌∙◌, false, inl, inr, none, some, List, ◌++◌, append_assoc, length, All, arith,
  Bool-cases,
}
use btui.Result.{ok}
use btui.Range.{le_bytes}
use btui.Range.Words.{read-le_bytes}
use btui.Serialize.{
  Container, CppType, CppTypes, Members, Object, Objects, MemberObjects, arithmetic, enumeration,
  adapted, sequence, tuple, optional, structure, no_more, elem, no_member, member, vector, list,
  array, associative, has_contiguous_data, has_insert, serialize_elems, serialize, serialize_tuple,
  serialize_members,
}
use btui.Serialize.Deserialize.{
  blank, read_noinsert, Insert, deserialize_elems, deserialize, deserialize_tuple,
  deserialize_members,
}
use btui.Serialize.Objects.{
  Lists, IsTarget, IsObject, IsTuple, AreMembers, IsFresh, IsFreshTuple, AreFreshMembers,
  blank-IsFresh,
}
use btui.Serialize.Elements.{
  read_batch-serialize_batch, read_each-serialize_each, small_mod, read-memory_of, engaged_lem,
  inserted_elems, resize_lem,
}

module _ (insert : Insert) where
  noinsert_elems :
      (c : Container) (t : CppType)
      → ((x target : Object t) (rest : List ℕ)
          → IsObject insert t x
          → IsFresh t target
          → deserialize insert t target (serialize t x ++ rest) ≡ ok (x, rest))
      → (s targets : List (Object t)) (rest : List ℕ) → length targets ≡ length s
      → All (IsObject insert t) s
      → All (IsFresh t) targets
      → read_noinsert c t
          (deserialize insert t)
          (length s)
          targets
          (serialize_elems c t (serialize t) s (length s) ++ rest)
        ≡ ok (s, rest)
  unfolding read_noinsert serialize_elems IsObject IsFresh
  noinsert_elems c (arithmetic a) k s targets rest e h g =
      elim (Bool-cases (has_contiguous_data c)) [
        | inl b ↦ rw (b) (read_batch-serialize_batch a s rest h)
        | inr b ↦ rw (b) (
            read_each-serialize_each (deserialize insert (arithmetic a)) (serialize (arithmetic a))
              (IsObject insert (arithmetic a)) (IsFresh (arithmetic a)) k targets s rest e h g)
      ]
  noinsert_elems c (enumeration a) k s targets rest e h g =
      read_each-serialize_each (deserialize insert (enumeration a)) (serialize (enumeration a))
        (IsObject insert (enumeration a)) (IsFresh (enumeration a)) k targets s rest e h g
  noinsert_elems c (adapted a name es) k s targets rest e h g =
      read_each-serialize_each (deserialize insert (adapted a name es))
        (serialize (adapted a name es)) (IsObject insert (adapted a name es))
        (IsFresh (adapted a name es)) k targets s rest e h g
  noinsert_elems c (sequence c' t) k s targets rest e h g =
      read_each-serialize_each (deserialize insert (sequence c' t)) (serialize (sequence c' t))
        (IsObject insert (sequence c' t)) (IsFresh (sequence c' t)) k targets s rest e h g
  noinsert_elems c (tuple ts) k s targets rest e h g =
      read_each-serialize_each (deserialize insert (tuple ts)) (serialize (tuple ts))
        (IsObject insert (tuple ts)) (IsFresh (tuple ts)) k targets s rest e h g
  noinsert_elems c (optional t) k s targets rest e h g =
      read_each-serialize_each (deserialize insert (optional t)) (serialize (optional t))
        (IsObject insert (optional t)) (IsFresh (optional t)) k targets s rest e h g
  noinsert_elems c (structure name ms) k s targets rest e h g =
      read_each-serialize_each (deserialize insert (structure name ms))
        (serialize (structure name ms)) (IsObject insert (structure name ms))
        (IsFresh (structure name ms)) k targets s rest e h g

  resized_elems :
      (c : Container) (t : CppType)
      → ((x target : Object t) (rest : List ℕ)
          → IsObject insert t x
          → IsFresh t target
          → deserialize insert t target (serialize t x ++ rest) ≡ ok (x, rest))
      → (s target : List (Object t)) (rest : List ℕ) → has_insert c ≡ false
      → Lists c (insert t) s
      → All (IsObject insert t) s
      → IsTarget c target
      → All (IsFresh t) target
      → deserialize_elems insert c t
          (deserialize insert t)
          target
          (length s)
          (serialize_elems c t (serialize t) s (length s) ++ rest)
        ≡ ok (s, rest)
  unfolding deserialize_elems has_insert
  resized_elems c t k s target rest e l h g gs =
      let (targets, r, len, fresh) =
        resize_lem (IsFresh t) (insert t) c (blank t) s target e l (blank-IsFresh t) g gs in
      rw (e, r) (noinsert_elems c t k s targets rest len h fresh)

  elems_lem :
      (c : Container) (t : CppType)
      → ((x target : Object t) (rest : List ℕ)
          → IsObject insert t x
          → IsFresh t target
          → deserialize insert t target (serialize t x ++ rest) ≡ ok (x, rest))
      → (s target : List (Object t)) (rest : List ℕ) → Lists c (insert t) s
      → All (IsObject insert t) s
      → IsTarget c target
      → All (IsFresh t) target
      → deserialize_elems insert c t
          (deserialize insert t)
          target
          (length s)
          (serialize_elems c t (serialize t) s (length s) ++ rest)
        ≡ ok (s, rest)
  unfolding deserialize_elems has_insert Lists IsTarget
  elems_lem vector t k s target rest l h g gs = resized_elems vector t k s target rest refl l h g gs
  elems_lem list t k s target rest l h g gs = resized_elems list t k s target rest refl l h g gs
  elems_lem (array n) t k s target rest l h g gs =
      resized_elems (array n) t k s target rest refl l h g gs
  elems_lem associative t k s target rest l h g gs = rw (g) (
      inserted_elems t (deserialize insert t) (IsObject insert t) (IsFresh t) k (insert t) (blank t)
        s rest (blank-IsFresh t) h
      ∙ ap (λ x. ok (x, rest)) l)

  mutual
    unfolding IsObject IsFresh serialize deserialize

    object_lem :
        (t : CppType) (x target : Object t) (rest : List ℕ)
        → IsObject insert t x
        → IsFresh t target
        → deserialize insert t target (serialize t x ++ rest) ≡ ok (x, rest)
    object_lem (arithmetic a) x target rest h g = read-memory_of a x rest h
    object_lem (enumeration a) x target rest h g = read-memory_of a x rest h
    object_lem (adapted a name es) x target rest h g = read-memory_of a x rest h
    object_lem (sequence c t) s target rest (h, l, hs) (g, gs) =
        rw
          (
            small_mod (length s) h,
            append_assoc (le_bytes 4 (length s)) (serialize_elems c t (serialize t) s (length s))
                rest,
            read-le_bytes 4 (length s) (serialize_elems c t (serialize t) s (length s) ++ rest)
                (omega arith),
          )
          (elems_lem c t (object_lem t) s target rest l hs g gs)
    object_lem (tuple ts) x target rest h g = tuple_lem ts x target rest h g
    object_lem (optional t) none target rest h g = rw (read-le_bytes 1 0 rest (omega arith)) refl
    object_lem (optional t) (some x) target rest h g =
        rw
          (
            append_assoc (le_bytes 1 1) (serialize t x) rest,
            read-le_bytes 1 1 (serialize t x ++ rest) (omega arith),
          )
          (engaged_lem (deserialize insert t (blank t)) (serialize t x ++ rest)
            (object_lem t x (blank t) rest h (blank-IsFresh t)))
    object_lem (structure name ms) x target rest h g = members_lem ms x target rest h g

    tuple_lem :
        (ts : CppTypes) (x target : Objects ts) (rest : List ℕ)
        → IsTuple insert ts x
        → IsFreshTuple ts target
        → deserialize_tuple insert ts target (serialize_tuple ts x ++ rest) ≡ ok (x, rest)
    tuple_lem no_more x target rest h g = refl
    tuple_lem (elem t ts) (x, xs) (target, targets) rest (h, hs) (g, gs) =
        rw
          (
            append_assoc (serialize t x) (serialize_tuple ts xs) rest,
            object_lem t x target (serialize_tuple ts xs ++ rest) h g,
            tuple_lem ts xs targets rest hs gs,
          )
          refl

    members_lem :
        (ms : Members) (x target : MemberObjects ms) (rest : List ℕ)
        → AreMembers insert ms x
        → AreFreshMembers ms target
        → deserialize_members insert ms target (serialize_members ms x ++ rest) ≡ ok (x, rest)
    members_lem no_member x target rest h g = refl
    members_lem (member name t ms) (x, xs) (target, targets) rest (h, hs) (g, gs) =
        rw
          (
            append_assoc (serialize t x) (serialize_members ms xs) rest,
            object_lem t x target (serialize_members ms xs ++ rest) h g,
            members_lem ms xs targets rest hs gs,
          )
          refl

  -- What is written for an object of a type that can be serialized is read back as this object, with the bytes
  -- behind it left, into any fresh target: one whose arrays have their sizes and whose sets and maps are
  -- empty, in all places that are not made anew. The object's numbers are in the range of their types, its
  -- sequences have sizes that fit on 32 bits, its arrays have their sizes, and its sets and maps list their
  -- elements in an order in which inserting them makes the same set or map.
  pub deserialize-serialize :
      (t : CppType) (x target : Object t) (rest : List ℕ)
      → IsObject insert t x
      → IsFresh t target
      → deserialize insert t target (serialize t x ++ rest) ≡ ok (x, rest)
  deserialize-serialize t x target rest h g = object_lem t x target rest h g
