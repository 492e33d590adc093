-- ===== src/Text/Contains.antt =====
-- The filter's substring test finds exactly the substrings, up to the case of ASCII letters.
use btui.Prelude.{
  ℕ, zero, suc, ◌+◌, ◌≤◌, ◌<◌, ◌≡◌, ◌↔◌, refl, sym, ap, ap₂, lt→ltb, le→ltb_false, subst, dec_lt,
  ◌∙◌, Bool, true, false, List, [], ◌∷◌, length, get_or, take, drop, slice, map, arith, Bool-cases,
  inl, inr, if◌then◌else◌, ◌==◌, ==→eq, ==_refl,
}
use btui.Text.{to_lower, match_at, search_from, is_empty, contains_substring_case_insensitive}

-- `needle` stands at index `i`.
abbrev pub OccursAt : List ℕ → List ℕ → ℕ → Type 0
OccursAt haystack needle i =
    (i + length needle ≤ length haystack)
    × (map to_lower (slice i (length needle) haystack) ≡ map to_lower needle)

drop_get : (xs : List ℕ) (i : ℕ) → i < length xs → drop i xs ≡ get_or xs i 0 ∷ drop (suc i) xs
drop_get [] i h = absurd (omega arith)
drop_get (x ∷ xs) zero h = refl
drop_get (x ∷ xs) (suc i) h = drop_get xs i (omega arith)

both_true : (b r : Bool) → (if b then r else false) ≡ true → (b ≡ true) × (r ≡ true)
both_true true r h = (refl, h)
both_true false r h = absurd (cc)

slice_step :
    (xs : List ℕ) (i j n : ℕ)
    → i + j < length xs
    → map to_lower (slice (i + j) (suc n) xs)
      ≡ to_lower (get_or xs (i + j) 0) ∷ map to_lower (slice (i + (j + 1)) n xs)
slice_step xs i j n h =
    ap (λ l. map to_lower (take (suc n) l)) (drop_get xs (i + j) h)
    ∙ ap (λ k. to_lower (get_or xs (i + j) 0) ∷ map to_lower (slice k n xs)) {x = suc (i + j)}
        {y = i + (j + 1)} (omega arith)

match_at_sound :
    (haystack : List ℕ) (i : ℕ) (ns : List ℕ) (j : ℕ)
    → i + j + length ns ≤ length haystack
    → match_at haystack i ns j ≡ true
    → map to_lower (slice (i + j) (length ns) haystack) ≡ map to_lower ns
unfolding match_at
match_at_sound haystack i [] j h e = refl
match_at_sound haystack i (n ∷ ns) j h e =
    let (t, r) =
      both_true (to_lower (get_or haystack (i + j) 0) == to_lower n)
        (match_at haystack i ns (j + 1)) e in
    slice_step haystack i j (length ns) (omega arith)
    ∙ ap₂ (◌∷◌) (==→eq _ _ t) (match_at_sound haystack i ns (j + 1) (omega arith) r)

match_at_complete :
    (haystack : List ℕ) (i : ℕ) (ns : List ℕ) (j : ℕ)
    → i + j + length ns ≤ length haystack
    → map to_lower (slice (i + j) (length ns) haystack) ≡ map to_lower ns
    → match_at haystack i ns j ≡ true
unfolding match_at
match_at_complete haystack i [] j h e = refl
match_at_complete haystack i (n ∷ ns) j h e =
    let q : to_lower (get_or haystack (i + j) 0)
          ∷ map to_lower (slice (i + (j + 1)) (length ns) haystack)
        ≡ to_lower n ∷ map to_lower ns =
      sym (slice_step haystack i j (length ns) (omega arith)) ∙ e in
    let hd : to_lower (get_or haystack (i + j) 0) ≡ to_lower n = cc q in
    let tl : map to_lower (slice (i + (j + 1)) (length ns) haystack) ≡ map to_lower ns = cc q in
    rw (hd, ==_refl (to_lower n)) (match_at_complete haystack i ns (j + 1) (omega arith) tl)

search_sound :
    (haystack needle : List ℕ) (rounds i : ℕ)
    → i + rounds + length needle ≤ length haystack + 1
    → search_from haystack needle rounds i ≡ true
    → (k : ℕ) × OccursAt haystack needle k
unfolding search_from
search_sound haystack needle zero i h e = absurd (cc)
search_sound haystack needle (suc rounds) i h e = elim (Bool-cases (match_at haystack i needle 0)) [
  | inl t ↦ (
    i,
    (
      omega arith,
      subst (λ k. map to_lower (slice k (length needle) haystack) ≡ map to_lower needle) {x = i + 0}
          {y = i} (omega arith) (match_at_sound haystack i needle 0 (omega arith) t),
    ),
  )
  | inr t ↦ search_sound haystack needle rounds (i + 1) (omega arith) (rw t at e)
]

search_complete :
    (haystack needle : List ℕ) (rounds i k : ℕ)
    → i + rounds + length needle ≤ length haystack + 1
    → i ≤ k
    → k < i + rounds
    → OccursAt haystack needle k
    → search_from haystack needle rounds i ≡ true
unfolding search_from
search_complete haystack needle zero i k h g l o = absurd (omega arith)
search_complete haystack needle (suc rounds) i k h g l o =
    elim (Bool-cases (match_at haystack i needle 0)) [
      | inl t ↦ rw t
      | inr t ↦ elim (dec_lt i k) [
        | yes p ↦ rw t (
            search_complete haystack needle rounds (i + 1) k (omega arith) (omega arith)
              (omega arith) o)
        | no p ↦
            let found : match_at haystack i needle 0 ≡ true =
              match_at_complete haystack i needle 0 (omega arith) (
                subst (λ n. map to_lower (slice n (length needle) haystack) ≡ map to_lower needle)
                  {x = k} {y = i + 0} (omega arith) o.1) in
            absurd (cc (t, found))
      ]
    ]

-- The test says true exactly when the needle, up to the case of ASCII letters, occurs in the haystack.
pub contains_iff :
    (haystack needle : List ℕ)
    → (contains_substring_case_insensitive haystack needle ≡ true)
      ↔ ((k : ℕ) × OccursAt haystack needle k)
unfolding contains_substring_case_insensitive is_empty
contains_iff haystack [] = ((λ h. (0, (omega arith, refl))), λ h. refl)
contains_iff haystack (n ∷ ns) = elim (dec_lt (length haystack) (length (n ∷ ns))) [
  | yes p ↦ rw (lt→ltb _ _ p) ((λ h. absurd (cc h)), λ h. absurd (omega (arith, h.1.0)))
  | no p ↦ rw (le→ltb_false (length haystack) (suc (length ns)) (omega arith)) (
    search_sound haystack (n ∷ ns) _ 0 (omega arith),
    λ h. search_complete haystack (n ∷ ns) _ 0 h.0 (omega arith) (omega arith) (omega arith) h.1,
  )
]
