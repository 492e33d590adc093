-- ===== src/Serialize/Objects.antt =====
-- The objects of a type, and the targets that they are read into.
use btui.Prelude.{
  ℕ, zero, suc, ◌-◌, ◌^◌, ◌<◌, ◌≡◌, refl, ap, subst, none, some, List, [], ◌∷◌, ◌++◌, length,
  length-append, length-take, All, arith, take,
}
use btui.Serialize.{
  Container, CppType, CppTypes, Members, Object, Objects, MemberObjects, arithmetic, enumeration,
  adapted, sequence, tuple, optional, structure, no_more, elem, no_member, member, vector, list,
  array, associative, size_of_arithmetic,
}
use btui.Serialize.Deserialize.{
  replicate, blank_elems, blank, blank_tuple, blank_members, resized, Insert,
}

-- The elements inserted one after the other.
unfoldable pub insert_all : {A : Type 0} → (List A → A → List A) → List A → List A → List A
insert_all insert s [] = s
insert_all insert s (x ∷ xs) = insert_all insert (insert s x) xs

-- The elements that a container lists: an array has as many as its type says; a set or map lists the elements in
-- an order in which they make it up again.
unfoldable pub Lists : {A : Type 0} → Container → (List A → A → List A) → List A → Type 0
unfolding insert_all
Lists vector insert s = Unit {0}
Lists list insert s = Unit {0}
Lists (array n) insert s = length s ≡ n
Lists associative insert s = insert_all insert [] s ≡ s

-- A container that elements are read into: an array has its size, a set or map is empty.
unfoldable pub IsTarget : {A : Type 0} → Container → List A → Type 0
IsTarget vector s = Unit {0}
IsTarget list s = Unit {0}
IsTarget (array n) s = length s ≡ n
IsTarget associative s = s ≡ []

-- The objects of a type: numbers are in the range of their type, and the sizes of sequences fit on 32 bits.
module _ (insert : Insert) where
  unfoldable mutual
    unfolding Lists size_of_arithmetic

    pub IsObject : (t : CppType) → Object t → Type 0
    IsObject (arithmetic a) x = x < 256 ^ size_of_arithmetic a
    IsObject (enumeration a) x = x < 256 ^ size_of_arithmetic a
    IsObject (adapted a name es) x = x < 256 ^ size_of_arithmetic a
    IsObject (sequence c t) s = (length s < 2 ^ 32) × Lists c (insert t) s × All (IsObject t) s
    IsObject (tuple ts) x = IsTuple ts x
    IsObject (optional t) none = Unit {0}
    IsObject (optional t) (some x) = IsObject t x
    IsObject (structure name ms) x = AreMembers ms x

    pub IsTuple : (ts : CppTypes) → Objects ts → Type 0
    IsTuple no_more x = Unit {0}
    IsTuple (elem t ts) (x, xs) = IsObject t x × IsTuple ts xs

    pub AreMembers : (ms : Members) → MemberObjects ms → Type 0
    AreMembers no_member x = Unit {0}
    AreMembers (member name t ms) (x, xs) = IsObject t x × AreMembers ms xs

-- The targets: in every place that is not made anew, arrays have their size and sets and maps are empty.
unfoldable mutual
  unfolding IsTarget

  pub IsFresh : (t : CppType) → Object t → Type 0
  IsFresh (arithmetic a) x = Unit {0}
  IsFresh (enumeration a) x = Unit {0}
  IsFresh (adapted a name es) x = Unit {0}
  IsFresh (sequence c t) s = IsTarget c s × All (IsFresh t) s
  IsFresh (tuple ts) x = IsFreshTuple ts x
  IsFresh (optional t) x = Unit {0}
  IsFresh (structure name ms) x = AreFreshMembers ms x

  pub IsFreshTuple : (ts : CppTypes) → Objects ts → Type 0
  IsFreshTuple no_more x = Unit {0}
  IsFreshTuple (elem t ts) (x, xs) = IsFresh t x × IsFreshTuple ts xs

  pub AreFreshMembers : (ms : Members) → MemberObjects ms → Type 0
  AreFreshMembers no_member x = Unit {0}
  AreFreshMembers (member name t ms) (x, xs) = IsFresh t x × AreFreshMembers ms xs

minus-suc : (n m : ℕ) → n - m ≡ suc n - suc m
minus-suc n m = omega arith

pub length-replicate : {A : Type 0} (n : ℕ) (x : A) → length (replicate n x) ≡ n
unfolding replicate
length-replicate zero x = refl
length-replicate (suc n) x = ap suc (length-replicate n x)

module _ {A : Type 0} (P : A → Type 0) where
  pub All-replicate : (n : ℕ) (x : A) → P x → All P (replicate n x)
  unfolding replicate
  All-replicate zero x h = tt
  All-replicate (suc n) x h = (h, All-replicate n x h)

  pub All-resized : (x : A) (n : ℕ) (s : List A) → P x → All P s → All P (resized x n s)
  unfolding resized
  All-resized x zero s h hs = All-replicate (0 - length s) x h
  All-resized x (suc n) [] h hs = All-replicate (suc n - 0) x h
  All-resized x (suc n) (y ∷ s) h (k, hs) = (
    k,
    subst (λ m. All P (take n s ++ replicate m x)) (minus-suc n (length s))
        (All-resized x n s h hs),
  )

pub length-resized : {A : Type 0} (x : A) (n : ℕ) (s : List A) → length (resized x n s) ≡ n
unfolding resized
length-resized x n s = omega (
  arith,
  length-append (take n s) (replicate (n - length s) x),
  length-replicate (n - length s) x,
  length-take n s,
)

pub blank_elems-IsTarget : {A : Type 0} (c : Container) (x : A) → IsTarget c (blank_elems c x)
unfolding blank_elems IsTarget
blank_elems-IsTarget vector x = tt
blank_elems-IsTarget list x = tt
blank_elems-IsTarget (array n) x = length-replicate n x
blank_elems-IsTarget associative x = refl

pub All-blank_elems :
    {A : Type 0} (P : A → Type 0) (c : Container) (x : A) → P x → All P (blank_elems c x)
unfolding blank_elems
All-blank_elems P vector x h = tt
All-blank_elems P list x h = tt
All-blank_elems P (array n) x h = All-replicate P n x h
All-blank_elems P associative x h = tt

mutual
  unfolding blank IsFresh

  pub blank-IsFresh : (t : CppType) → IsFresh t (blank t)
  blank-IsFresh (arithmetic a) = tt
  blank-IsFresh (enumeration a) = tt
  blank-IsFresh (adapted a name es) = tt
  blank-IsFresh (sequence c t) =
      (blank_elems-IsTarget c (blank t), All-blank_elems (IsFresh t) c (blank t) (blank-IsFresh t))
  blank-IsFresh (tuple ts) = blank_tuple-IsFresh ts
  blank-IsFresh (optional t) = tt
  blank-IsFresh (structure name ms) = blank_members-AreFresh ms

  blank_tuple-IsFresh : (ts : CppTypes) → IsFreshTuple ts (blank_tuple ts)
  blank_tuple-IsFresh no_more = tt
  blank_tuple-IsFresh (elem t ts) = (blank-IsFresh t, blank_tuple-IsFresh ts)

  blank_members-AreFresh : (ms : Members) → AreFreshMembers ms (blank_members ms)
  blank_members-AreFresh no_member = tt
  blank_members-AreFresh (member name t ms) = (blank-IsFresh t, blank_members-AreFresh ms)
