-- ===== src/Model/Sorting.antt =====
-- `stable_sort` sorts, and keeps the order of elements with equal keys; so it only reorders.
use mathlib.Core.List.{Perm}
use mathlib.Core.List.Perm
use btui.Prelude.{
  length, ℕ, suc, ◌≡◌, refl, ap, ◌∙◌, Bool, true, false, List, [], ◌∷◌, ltb, ◌==◌, if◌then◌else◌,
  arith, Bool-cases, inl, inr,
}
use btui.Model.{insert_sorted, stable_sort}

-- A comparison of keys, in either direction: `ltb (key a) (key b)` or `ltb (key b) (key a)`.
abbrev pub by_key : {A : Type 0} → Bool → (A → ℕ) → A → A → Bool
by_key true key a b = ltb (key a) (key b)
by_key false key a b = ltb (key b) (key a)

-- No element is less than the one before it.
abbrev pub Sorted : {A : Type 0} → (A → A → Bool) → List A → Type 0
Sorted less [] = Unit
Sorted less (x ∷ []) = Unit
Sorted less (x ∷ y ∷ ys) = (less y x ≡ false) × Sorted less (y ∷ ys)

-- The elements with key `k`, in order.
unfoldable pub with_key : {A : Type 0} → (A → ℕ) → ℕ → List A → List A
with_key key k [] = []
with_key key k (x ∷ xs) = if key x == k then x ∷ with_key key k xs else with_key key k xs

asym :
    {A : Type 0} (up : Bool) (key : A → ℕ) (a b : A)
    → by_key up key a b ≡ true
    → by_key up key b a ≡ false
asym true key a b h = ground arith
asym false key a b h = ground arith

less_keys :
    {A : Type 0} (up : Bool) (key : A → ℕ) (a b : A) (k : ℕ)
    → by_key up key a b ≡ true
    → (key b == k) ≡ true
    → (key a == k) ≡ false
less_keys true key a b k h e = ground arith
less_keys false key a b k h e = ground arith

Sorted-tail :
    {A : Type 0} (less : A → A → Bool) (y : A) (ys : List A) → Sorted less (y ∷ ys) → Sorted less ys
Sorted-tail less y [] s = tt
Sorted-tail less y (z ∷ zs) s = s.1

module _ {A : Type 0} (up : Bool) (key : A → ℕ) where
  insert_sorted_behind :
      (x y : A) (ys : List A)
      → by_key up key y x ≡ true
      → Sorted (by_key up key) (y ∷ ys)
      → Sorted (by_key up key) (insert_sorted (by_key up key) x ys)
      → Sorted (by_key up key) (y ∷ insert_sorted (by_key up key) x ys)
  unfolding insert_sorted
  insert_sorted_behind x y [] h s r = (asym up key y x h, tt)
  insert_sorted_behind x y (z ∷ zs) h s r = elim (Bool-cases (by_key up key z x)) [
    | inl e ↦ rw e (s.0, rw e at r)
    | inr e ↦ rw e (asym up key y x h, rw e at r)
  ]

  insert_sorted-Sorted :
      (x : A) (ys : List A)
      → Sorted (by_key up key) ys
      → Sorted (by_key up key) (insert_sorted (by_key up key) x ys)
  unfolding insert_sorted
  insert_sorted-Sorted x [] s = tt
  insert_sorted-Sorted x (y ∷ ys) s = elim (Bool-cases (by_key up key y x)) [
    | inl e ↦
        rw e (insert_sorted_behind x y ys e s (insert_sorted-Sorted x ys (Sorted-tail _ y ys s)))
    | inr e ↦ rw e (e, s)
  ]

  pub stable_sort-Sorted : (xs : List A) → Sorted (by_key up key) (stable_sort (by_key up key) xs)
  unfolding stable_sort
  stable_sort-Sorted [] = tt
  stable_sort-Sorted (x ∷ xs) = insert_sorted-Sorted x _ (stable_sort-Sorted xs)

  with_key-insert_sorted :
      (k : ℕ) (x : A) (ys : List A)
      → with_key key k (insert_sorted (by_key up key) x ys) ≡ with_key key k (x ∷ ys)
  unfolding insert_sorted with_key
  with_key-insert_sorted k x [] = refl
  with_key-insert_sorted k x (y ∷ ys) = elim (Bool-cases (by_key up key y x)) [
    | inl e ↦ rw e (ground (arith, with_key-insert_sorted k x ys, less_keys up key y x k e))
    | inr e ↦ rw e
  ]

  pub with_key-stable_sort :
      (k : ℕ) (xs : List A) → with_key key k (stable_sort (by_key up key) xs) ≡ with_key key k xs
  unfolding stable_sort with_key
  with_key-stable_sort k [] = refl
  with_key-stable_sort k (x ∷ xs) =
      with_key-insert_sorted k x (stable_sort (by_key up key) xs)
      ∙ ap (λ l. if key x == k then x ∷ l else l) (with_key-stable_sort k xs)

length-insert_sorted :
    {A : Type 0} (less : A → A → Bool) (x : A) (ys : List A)
    → length (insert_sorted less x ys) ≡ suc (length ys)
unfolding insert_sorted
length-insert_sorted less x [] = refl
length-insert_sorted less x (y ∷ ys) = ground (arith, length-insert_sorted less x ys)

pub length-stable_sort :
    {A : Type 0} (less : A → A → Bool) (xs : List A) → length (stable_sort less xs) ≡ length xs
unfolding stable_sort
length-stable_sort less [] = refl
length-stable_sort less (x ∷ xs) =
    length-insert_sorted less x (stable_sort less xs) ∙ ap suc (length-stable_sort less xs)

insert_sorted-Perm :
    {A : Type 0} (less : A → A → Bool) (x : A) (ys : List A)
    → Perm (insert_sorted less x ys) (x ∷ ys)
unfolding insert_sorted
insert_sorted-Perm less x [] = Perm.refl (x ∷ [])
insert_sorted-Perm less x (y ∷ ys) = elim (Bool-cases (less y x)) [
  | inl e ↦ rw e (Perm.trans (Perm.cons y (insert_sorted-Perm less x ys)) (Perm.swap x y ys))
  | inr e ↦ rw e (Perm.refl (x ∷ y ∷ ys))
]

-- A sorted list has the same elements.
pub stable_sort-Perm :
    {A : Type 0} (less : A → A → Bool) (xs : List A) → Perm (stable_sort less xs) xs
unfolding stable_sort
stable_sort-Perm less [] = Perm.refl []
stable_sort-Perm less (x ∷ xs) =
    Perm.trans (insert_sorted-Perm less x (stable_sort less xs))
      (Perm.cons x (stable_sort-Perm less xs))
