-- ===== src/Tags/Labels.antt =====
-- Labels, and the part of a name before a character.
use btui.Prelude.{
  ℕ, suc, ◌+◌, ◌≡◌, ◌≢◌, ◌⊎◌, inl, inr, refl, ap, ◌∙◌, true, false, List, [], ◌∷◌, ◌++◌, length,
  arith, ◌==◌, Bool-cases, All, take, drop, take-append-drop, take-length-append,
}
use native.Mathlib.Nat.{suc-add}
use btui.Tags.{find_pos, remove_prefix_before, tag_pop_label}

eq_of_eqb : (a b : ℕ) → (a == b) ≡ true → a ≡ b
eq_of_eqb a b e = ground arith

ne_of_eqb : (a b : ℕ) → (a == b) ≡ false → a ≢ b
ne_of_eqb a b e = ground arith

pub eqb_of_ne : (a b : ℕ) → a ≢ b → (a == b) ≡ false
eqb_of_ne a b d = ground arith

eqb_self : (a : ℕ) → (a == a) ≡ true
eqb_self a = ground arith

pub find_pos_lem :
    (c : ℕ) (p rest : List ℕ) → All (λ x. x ≢ c) p → find_pos (p ++ (c ∷ rest)) c ≡ length p
unfolding find_pos
find_pos_lem c [] rest a = rw (eqb_self c) refl
find_pos_lem c (x ∷ p) rest (d, a) = rw (eqb_of_ne x c d) (ap suc (find_pos_lem c p rest a))

pub find_pos-absent : (c : ℕ) (s : List ℕ) → All (λ x. x ≢ c) s → find_pos s c ≡ length s
unfolding find_pos
find_pos-absent c [] a = refl
find_pos-absent c (x ∷ s) (d, a) = rw (eqb_of_ne x c d) (ap suc (find_pos-absent c s a))

drop-behind :
    (label : List ℕ) (c : ℕ) (rest : List ℕ) → drop (length label + 1) (label ++ (c ∷ rest)) ≡ rest
drop-behind [] c rest = refl
drop-behind (x ∷ label) c rest = rw suc-add (drop-behind label c rest)

-- `tag_pop_label` splits the tags behind a label in its quotes, which holds no closing quote,
-- and removes the quotes.
pub tag_pop_label_lem :
    (label rest : List ℕ)
    → All (λ x. x ≢ 39) label
    → tag_pop_label (96 ∷ label ++ (39 ∷ rest)) ≡ (label, rest)
unfolding tag_pop_label
tag_pop_label_lem label rest a =
    ap
      (λ n. (
        take n (label ++ (39 ∷ rest)),
        drop (length (take n (label ++ (39 ∷ rest))) + 1) (label ++ (39 ∷ rest)),
      ))
      (find_pos_lem 39 label rest a)
    ∙ ap (λ l. (l, drop (length l + 1) (label ++ (39 ∷ rest))))
        (take-length-append label (39 ∷ rest))
    ∙ ap (λ r. (label, r)) (drop-behind label 39 rest)

take_absent : (c : ℕ) (s : List ℕ) → All (λ x. x ≢ c) (take (find_pos s c) s)
unfolding find_pos
take_absent c [] = tt
take_absent c (x ∷ s) = elim (Bool-cases (x == c)) [
  | inl e ↦ rw e tt
  | inr e ↦ rw e (ne_of_eqb x c e, take_absent c s)
]

drop_found :
    (c : ℕ) (s : List ℕ)
    → (drop (find_pos s c) s ≡ []) ⊎ ((r : List ℕ) × (drop (find_pos s c) s ≡ c ∷ r))
unfolding find_pos
drop_found c [] = inl refl
drop_found c (x ∷ s) = elim (Bool-cases (x == c)) [
  | inl e ↦ inr (s, rw e (ap (λ y. y ∷ s) (eq_of_eqb x c e)))
  | inr e ↦ rw e (drop_found c s)
]

-- `remove_prefix_before` splits a string in two: the first part has no `c`, and the second is empty
-- or starts with it.
pub remove_prefix_before_lem :
    (s : List ℕ) (c : ℕ)
    → let (before, after) = remove_prefix_before s c in
      (before ++ after ≡ s)
      × All (λ x. x ≢ c) before
      × ((after ≡ []) ⊎ ((r : List ℕ) × (after ≡ c ∷ r)))
unfolding remove_prefix_before
remove_prefix_before_lem s c = (take-append-drop (find_pos s c) s, take_absent c s, drop_found c s)
