-- ===== src/Text/BaseName.antt =====
-- What `baseName` cuts off.
use btui.Prelude.{
  dec_lt, subst, ℕ, zero, suc, ◌-◌, ◌≤◌, ◌<◌, ◌≡◌, ◌⊎◌, refl, sym, true, false, List, [], ◌∷◌, ◌++◌,
  length, get_or, take, drop, All, arith, Bool-cases, inl, inr, take-append-drop,
}
use btui.Text.{is_separator, base_index, base_name}

base_index-le : (path : List ℕ) (i : ℕ) → base_index path i ≤ i
unfolding base_index
base_index-le path zero = omega arith
base_index-le path (suc i) = ground (arith, base_index-le path i)

-- From the cut on there is no separator; before it there is one, unless the cut is at the start.
base_index_right :
    (path : List ℕ) (i k : ℕ)
    → base_index path i ≤ k
    → k < i
    → is_separator (get_or path k 0) ≡ false
unfolding base_index
base_index_right path zero k h g = absurd (omega arith)
base_index_right path (suc i) k h g = elim (Bool-cases (is_separator (get_or path i 0))) [
  | inl e ↦ absurd (omega (arith, rw e at h))
  | inr e ↦ elim (dec_lt k i) [
    | yes l ↦ base_index_right path i k (rw e at h) l
    | no l ↦ subst (λ n. is_separator (get_or path n 0) ≡ false) {x = i} {y = k} (omega arith) e
  ]
]

base_index_stop :
    (path : List ℕ) (i : ℕ)
    → (base_index path i ≡ 0) ⊎ (is_separator (get_or path (base_index path i - 1) 0) ≡ true)
unfolding base_index
base_index_stop path zero = inl refl
base_index_stop path (suc i) = elim (Bool-cases (is_separator (get_or path i 0))) [
  | inl e ↦ inr (
      rw e (
        subst (λ n. is_separator (get_or path n 0) ≡ true) {x = i} {y = suc i - 1} (omega arith) e))
  | inr e ↦ rw e (base_index_stop path i)
]

All-drop :
    (P : ℕ → Type 0) (i : ℕ) (xs : List ℕ)
    → ((k : ℕ) → i ≤ k → k < length xs → P (get_or xs k 0))
    → All P (drop i xs)
All-drop P zero [] h = tt
All-drop P zero (x ∷ xs) h = (
  h 0 (omega arith) (omega arith),
  All-drop P 0 xs (λ k a b. h (suc k) (omega arith) (omega arith)),
)
All-drop P (suc i) [] h = tt
All-drop P (suc i) (x ∷ xs) h = All-drop P i xs (λ k a b. h (suc k) (omega arith) (omega arith))

-- `baseName` returns the end of the path: it holds no separator, and the part before it is empty or ends
-- with a separator.
pub base_name_lem :
    (path : List ℕ)
    → (cut : ℕ) × (path ≡ take cut path ++ base_name path)
      × All (λ c. is_separator c ≡ false) (base_name path)
      × ((cut ≡ 0) ⊎ (is_separator (get_or path (cut - 1) 0) ≡ true))
unfolding base_name
base_name_lem path =
    let cut = base_index path (length path) in
    (
      cut,
      sym (take-append-drop cut path),
      All-drop (λ c. is_separator c ≡ false) cut path (base_index_right path (length path)),
      base_index_stop path (length path),
    )
