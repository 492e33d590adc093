-- ===== src/Serialize/Containers.antt =====
-- Sequences of one element type in different containers.
use btui.Prelude.{
  ℕ, ◌^◌, ◌<◌, ◌≡◌, ◌≢◌, refl, sym, ap, ◌∙◌, List, ◌++◌, append_assoc, length, All, arith,
  ne→==_false,
}
use btui.Result.{Error, ok, throw}
use btui.Range.{le_bytes}
use btui.Range.Words.{read-le_bytes}
use btui.Serialize.{
  Container, CppType, Object, array, sequence, serialize, serialize_each, serialize_elems,
  has_resize, has_insert,
}
use btui.Serialize.Tag.{tag}
use btui.Serialize.Deserialize.{Insert, resize, deserialize, deserialize_elems}
use btui.Serialize.Objects.{IsObject, IsFresh, Lists}
use btui.Serialize.Elements.{one_by_one, small_mod}
use btui.Serialize.RoundTrip.{deserialize-serialize}

-- The bytes of a sequence: its size and its elements.
pub serialize-sequence :
    (c : Container) (t : CppType) (s : List (Object t))
    → length s < 2 ^ 32
    → serialize (sequence c t) s ≡ le_bytes 4 (length s) ++ serialize_each (serialize t) s
unfolding serialize
serialize-sequence c t s h =
    ap (λ n. le_bytes 4 n ++ serialize_elems c t (serialize t) s n) (small_mod (length s) h)
    ∙ ap (λ b. le_bytes 4 (length s) ++ b) (one_by_one c t s)

-- A sequence of less than 2 ^ 32 elements in one container is serialized like the same elements in any other,
-- in one batch or one by one; it is read back from there, with what follows left, into a target in
-- another container that is fresh for the elements, which that container can list.
pub deserialize-other_container :
    (insert : Insert) (c c' : Container) (t : CppType) (s target : List (Object t)) (rest : List ℕ)
    → length s < 2 ^ 32
    → All (IsObject insert t) s
    → Lists c' (insert t) s
    → IsFresh (sequence c' t) target
    → (serialize (sequence c t) s ≡ serialize (sequence c' t) s)
      × (deserialize insert (sequence c' t) target (serialize (sequence c t) s ++ rest)
          ≡ ok (s, rest))
unfolding IsObject
deserialize-other_container insert c c' t s target rest h hs l g =
    let e = serialize-sequence c t s h ∙ sym (serialize-sequence c' t s h) in
    (
      e,
      ap (λ b. deserialize insert (sequence c' t) target (b ++ rest)) e
          ∙ deserialize-serialize insert (sequence c' t) s target rest (h, l, hs) g,
    )

-- An array throws when it reads a sequence of less than 2 ^ 32 elements, of the same tag as its own and in
-- any container, whose size is not that of the array, whatever the elements are.
pub deserialize-throws_on_size :
    (insert : Insert) (c : Container) (n : ℕ) (t : CppType) (s target : List (Object t))
    (rest : List ℕ)
    → length s < 2 ^ 32
    → length target ≢ length s
    → (tag (sequence c t) ≡ tag (sequence (array n) t))
      × (deserialize insert (sequence (array n) t) target (serialize (sequence c t) s ++ rest)
          ≡ throw (Error.sequence_size (length s) (length target)))
unfolding deserialize deserialize_elems resize has_resize has_insert tag
deserialize-throws_on_size insert c n t s target rest h d = (
  refl,
  rw
      (
        serialize-sequence c t s h,
        append_assoc (le_bytes 4 (length s)) (serialize_each (serialize t) s) rest,
        read-le_bytes 4 (length s) (serialize_each (serialize t) s ++ rest) (omega arith),
        ne→==_false (length target) (length s) d,
      )
      refl,
)
