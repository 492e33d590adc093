-- ===== src/Prelude/Lists.antt =====
-- Lists measured and indexed by native numbers, under the library's names, and copies into them.
use Prim.Native.Nat.{ℕ, zero, suc, ◌+◌, ◌-◌, ◌≤◌, min}
use mathlib.Core.Path.{◌≡◌, refl, sym, ap, ◌∙◌}
use mathlib.Core.List.{List, [], ◌∷◌, ◌++◌}
use mathlib.Core.Option.{Option, none, some}
use native.Mathlib.Omega.{arith}
use native.Mathlib.Nat.{zero-add, suc-add}

module _ {ℓ} {A : Type ℓ} where
  abbrev pub length : List A → ℕ
  length [] = 0
  length (x ∷ xs) = suc (length xs)

  abbrev pub get_elem? : List A → ℕ → Option A
  get_elem? [] i = none
  get_elem? (x ∷ xs) zero = some x
  get_elem? (x ∷ xs) (suc i) = get_elem? xs i

  abbrev pub get_or : List A → ℕ → A → A
  get_or [] i d = d
  get_or (x ∷ xs) zero d = x
  get_or (x ∷ xs) (suc i) d = get_or xs i d

  -- A write out of bounds changes nothing.
  abbrev pub set : List A → ℕ → A → List A
  set [] i v = []
  set (x ∷ xs) zero v = v ∷ xs
  set (x ∷ xs) (suc i) v = x ∷ set xs i v

  abbrev pub take : ℕ → List A → List A
  take zero xs = []
  take (suc n) [] = []
  take (suc n) (x ∷ xs) = x ∷ take n xs

  abbrev pub drop : ℕ → List A → List A
  drop zero xs = xs
  drop (suc n) [] = []
  drop (suc n) (x ∷ xs) = drop n xs

  -- The `n` elements from index `i` on.
  abbrev pub slice : ℕ → ℕ → List A → List A
  slice i n xs = take n (drop i xs)

  abbrev pub All {κ} : (A → Type κ) → List A → Type κ
  All P [] = Unit
  All P (x ∷ xs) = P x × All P xs

  -- `memcpy` to index `p`: what lies past the end is dropped.
  pub overwrite : List A → List A → List A
  overwrite [] ys = ys
  overwrite (x ∷ xs) [] = []
  overwrite (x ∷ xs) (y ∷ ys) = x ∷ overwrite xs ys

  unfoldable pub blit : ℕ → List A → List A → List A
  unfolding overwrite
  blit zero src ys = overwrite src ys
  blit (suc p) src [] = []
  blit (suc p) src (y ∷ ys) = y ∷ blit p src ys

module _ {ℓ} {A : Type ℓ} where
  pub length-append : (xs ys : List A) → length (xs ++ ys) ≡ length xs + length ys
  length-append [] ys = omega arith
  length-append (x ∷ xs) ys = omega (arith, length-append xs ys)

  pub length-take : (n : ℕ) (xs : List A) → length (take n xs) ≡ min n (length xs)
  length-take zero xs = omega arith
  length-take (suc n) [] = omega arith
  length-take (suc n) (x ∷ xs) = omega (arith, length-take n xs)

  pub length-drop : (n : ℕ) (xs : List A) → length (drop n xs) ≡ length xs - n
  length-drop zero xs = omega arith
  length-drop (suc n) [] = omega arith
  length-drop (suc n) (x ∷ xs) = omega (arith, length-drop n xs)

  pub take-append-drop : (n : ℕ) (xs : List A) → take n xs ++ drop n xs ≡ xs
  take-append-drop zero xs = refl
  take-append-drop (suc n) [] = refl
  take-append-drop (suc n) (x ∷ xs) = rw (take-append-drop n xs)

  pub take-nil : (n : ℕ) → take {A = A} n [] ≡ []
  take-nil zero = refl
  take-nil (suc n) = refl

  pub drop-nil : (n : ℕ) → drop {A = A} n [] ≡ []
  drop-nil zero = refl
  drop-nil (suc n) = refl

  pub take-length-append : (xs ys : List A) → take (length xs) (xs ++ ys) ≡ xs
  take-length-append [] ys = refl
  take-length-append (x ∷ xs) ys = ap (λ l. x ∷ l) (take-length-append xs ys)

  pub drop-length-append : (xs ys : List A) → drop (length xs) (xs ++ ys) ≡ ys
  drop-length-append [] ys = refl
  drop-length-append (x ∷ xs) ys = drop-length-append xs ys

  pub take_all : (n : ℕ) (xs : List A) → length xs ≤ n → take n xs ≡ xs
  take_all zero [] h = refl
  take_all zero (x ∷ xs) h = absurd (omega arith)
  take_all (suc n) [] h = refl
  take_all (suc n) (x ∷ xs) h = ap (λ l. x ∷ l) (take_all n xs (omega arith))

  pub take_add : (n m : ℕ) (xs : List A) → take (n + m) xs ≡ take n xs ++ take m (drop n xs)
  take_add zero m xs = rw zero-add
  take_add (suc n) m [] = rw suc-add (sym (take-nil m))
  take_add (suc n) m (x ∷ xs) = rw suc-add (ap (λ l. x ∷ l) (take_add n m xs))

  pub drop_add : (n m : ℕ) (xs : List A) → drop (n + m) xs ≡ drop m (drop n xs)
  drop_add zero m xs = rw zero-add
  drop_add (suc n) m [] = rw suc-add (sym (drop-nil m))
  drop_add (suc n) m (x ∷ xs) = rw suc-add (drop_add n m xs)

  pub slice_add :
      (i n m : ℕ) (xs : List A) → slice i (n + m) xs ≡ slice i n xs ++ slice (i + n) m xs
  slice_add i n m xs =
      take_add n m (drop i xs) ∙ ap (λ l. slice i n xs ++ take m l) (sym (drop_add i n xs))

  pub length-slice : (i n : ℕ) (xs : List A) → i + n ≤ length xs → length (slice i n xs) ≡ n
  length-slice i n xs h = omega (arith, length-take n (drop i xs), length-drop i xs)

module _ {ℓ} {A : Type ℓ} where
  length-overwrite : (src ys : List A) → length (overwrite src ys) ≡ length ys
  unfolding overwrite
  length-overwrite [] ys = refl
  length-overwrite (x ∷ xs) [] = refl
  length-overwrite (x ∷ xs) (y ∷ ys) = ap suc (length-overwrite xs ys)

  pub length-blit : (p : ℕ) (src ys : List A) → length (blit p src ys) ≡ length ys
  unfolding blit
  length-blit zero src ys = length-overwrite src ys
  length-blit (suc p) src [] = refl
  length-blit (suc p) src (y ∷ ys) = ap suc (length-blit p src ys)

  drop-overwrite :
      (i : ℕ) (src ys : List A) → length src ≤ i → drop i (overwrite src ys) ≡ drop i ys
  unfolding overwrite
  drop-overwrite i [] ys h = refl
  drop-overwrite zero (x ∷ xs) ys h = absurd (omega arith)
  drop-overwrite (suc i) (x ∷ xs) [] h = refl
  drop-overwrite (suc i) (x ∷ xs) (y ∷ ys) h = drop-overwrite i xs ys (omega arith)

  -- A copy leaves what lies behind it alone,
  pub drop-blit :
      (i p : ℕ) (src ys : List A) → p + length src ≤ i → drop i (blit p src ys) ≡ drop i ys
  unfolding blit
  drop-blit i zero src ys h = drop-overwrite i src ys (omega arith)
  drop-blit zero (suc p) src ys h = absurd (omega arith)
  drop-blit (suc i) (suc p) src [] h = refl
  drop-blit (suc i) (suc p) src (y ∷ ys) h = drop-blit i p src ys (omega arith)

  take-blit : (n p : ℕ) (src ys : List A) → n ≤ p → take n (blit p src ys) ≡ take n ys
  unfolding blit
  take-blit zero p src ys h = refl
  take-blit (suc n) zero src ys h = absurd (omega arith)
  take-blit (suc n) (suc p) src [] h = refl
  take-blit (suc n) (suc p) src (y ∷ ys) h = ap (λ l. y ∷ l) (take-blit n p src ys (omega arith))

  -- what lies before it,
  pub slice-blit_before :
      (i n p : ℕ) (src ys : List A) → i + n ≤ p → slice i n (blit p src ys) ≡ slice i n ys
  unfolding blit
  slice-blit_before zero n p src ys h = take-blit n p src ys (omega arith)
  slice-blit_before (suc i) n zero src ys h = absurd (omega arith)
  slice-blit_before (suc i) n (suc p) src [] h = refl
  slice-blit_before (suc i) n (suc p) src (y ∷ ys) h = slice-blit_before i n p src ys (omega arith)

  pub slice-blit_after :
      (i n p : ℕ) (src ys : List A) → p + length src ≤ i → slice i n (blit p src ys) ≡ slice i n ys
  slice-blit_after i n p src ys h = ap (take n) (drop-blit i p src ys h)

  -- and puts the source where it says.
  pub slice-blit_self :
      (p : ℕ) (src ys : List A)
      → p + length src ≤ length ys
      → slice p (length src) (blit p src ys) ≡ src
  unfolding blit overwrite
  slice-blit_self zero [] ys h = refl
  slice-blit_self zero (x ∷ xs) [] h = absurd (omega arith)
  slice-blit_self zero (x ∷ xs) (y ∷ ys) h =
      ap (λ l. x ∷ l) (slice-blit_self zero xs ys (omega arith))
  slice-blit_self (suc p) src [] h = absurd (omega arith)
  slice-blit_self (suc p) src (y ∷ ys) h = slice-blit_self p src ys (omega arith)
