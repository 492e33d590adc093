-- ===== src/Tags/Pop.antt =====
-- Popping the tags and labels of a well-formed sequence.
use btui.Prelude.{
  ℕ, suc, ◌+◌, ◌≡◌, ◌≢◌, ap, ap₂, ◌∙◌, List, [], ◌∷◌, ◌++◌, append_assoc, length, length-append,
  arith, take, drop, take-length-append, drop-length-append,
}
use btui.Tags.{
  open_count, count_char, balanced_from, size_between_balanced, tag_body_size, tag_first_size,
  tag_pop,
}

-- Strings in which the separators match.
pub data Balanced (opening closing : ℕ) : List ℕ → Type 0 where
  done : Balanced opening closing []
  other :
      (x : ℕ) {s : List ℕ}
      → x ≢ opening
      → x ≢ closing
      → Balanced opening closing s
      → Balanced opening closing (x ∷ s)
  nested :
      {inner s : List ℕ}
      → Balanced opening closing inner
      → Balanced opening closing s
      → Balanced opening closing (opening ∷ inner ++ (closing ∷ s))

bf_other :
    {o c x : ℕ} (n : ℕ) (s : List ℕ)
    → x ≢ o
    → x ≢ c
    → balanced_from o c (suc n) (x ∷ s) ≡ suc (balanced_from o c (suc n) s)
unfolding balanced_from
bf_other {o} {c} {x} n s p q =
    let e : open_count o c (suc n) x ≡ suc n = ground arith in
    ap (λ m. count_char m (balanced_from o c m s)) e

bf_open :
    (o c n : ℕ) (s : List ℕ)
    → balanced_from o c (suc n) (o ∷ s) ≡ suc (balanced_from o c (suc (suc n)) s)
unfolding balanced_from
bf_open o c n s =
    let e : open_count o c (suc n) o ≡ suc (suc n) = ground arith in
    ap (λ m. count_char m (balanced_from o c m s)) e

bf_close :
    (o c n : ℕ) (s : List ℕ)
    → o ≢ c
    → balanced_from o c (suc (suc n)) (c ∷ s) ≡ suc (balanced_from o c (suc n) s)
unfolding balanced_from
bf_close o c n s d =
    let e : open_count o c (suc (suc n)) c ≡ suc n = ground arith in
    ap (λ m. count_char m (balanced_from o c m s)) e

bf_end : (o c : ℕ) (s : List ℕ) → o ≢ c → balanced_from o c 1 (c ∷ s) ≡ 1
unfolding balanced_from
bf_end o c s d =
    let e : open_count o c 1 c ≡ 0 = ground arith in
    ap (λ m. count_char m (balanced_from o c m s)) e

-- A balanced string is passed, with the count unchanged.
balanced_lem :
    (o c : ℕ)
    → o ≢ c
    → {s : List ℕ} → Balanced o c s
    → (n : ℕ) (rest : List ℕ)
    → balanced_from o c (suc n) (s ++ rest) ≡ length s + balanced_from o c (suc n) rest
balanced_lem o c d done n rest = omega arith
balanced_lem o c d (other x {s} p q b) n rest =
    bf_other n (s ++ rest) p q ∙ omega (arith, balanced_lem o c d b n rest)
balanced_lem o c d (nested {inner} {s} a b) n rest =
    bf_open o c n ((inner ++ (c ∷ s)) ++ rest)
    ∙ ap (λ l. suc (balanced_from o c (suc (suc n)) l)) (append_assoc inner (c ∷ s) rest)
    ∙ omega (
      arith,
      balanced_lem o c d a (suc n) (c ∷ (s ++ rest)),
      bf_close o c n (s ++ rest) d,
      balanced_lem o c d b n rest,
      length-append inner (c ∷ s),
    )

-- The size reaches exactly to the separator that matches the first one.
pub size_between_balanced_lem :
    (o c : ℕ)
    → o ≢ c
    → {inner : List ℕ} → Balanced o c inner
    → (rest : List ℕ) → size_between_balanced (o ∷ inner ++ (c ∷ rest)) o c ≡ 1 + length inner + 1
unfolding size_between_balanced
size_between_balanced_lem o c d b rest =
    omega (arith, balanced_lem o c d b 0 (c ∷ rest), bf_end o c rest d)

-- The separators of the four kinds of bracketed tags.
pub data Brackets : ℕ → ℕ → Type 0 where
  tuple : Brackets 40 41
  variant : Brackets 60 62
  structure : Brackets 123 125
  enumeration : Brackets 47 92

-- One tag: a character, a sequence of a tag, or what stands between matching brackets.
pub data IsTag : List ℕ → Type 0 where
  arithmetic : (x : ℕ) → x ≢ 91 → x ≢ 40 → x ≢ 60 → x ≢ 123 → x ≢ 47 → IsTag (x ∷ [])
  sequence : {s : List ℕ} → IsTag s → IsTag (91 ∷ s)
  bracketed :
      {o c : ℕ} {inner : List ℕ} → Brackets o c → Balanced o c inner → IsTag (o ∷ inner ++ (c ∷ []))

bracketed_size :
    {o c : ℕ}
    → Brackets o c
    → {inner : List ℕ} → Balanced o c inner
    → (rest : List ℕ) → tag_first_size (o ∷ inner ++ (c ∷ rest)) ≡ 1 + length inner + 1
unfolding tag_first_size tag_body_size
bracketed_size tuple b rest = size_between_balanced_lem 40 41 (omega arith) b rest
bracketed_size variant b rest = size_between_balanced_lem 60 62 (omega arith) b rest
bracketed_size structure b rest = size_between_balanced_lem 123 125 (omega arith) b rest
bracketed_size enumeration b rest = size_between_balanced_lem 47 92 (omega arith) b rest

tag_first_size_lem :
    {t : List ℕ} → IsTag t → (rest : List ℕ) → tag_first_size (t ++ rest) ≡ length t
unfolding tag_first_size tag_body_size
tag_first_size_lem (arithmetic x a b c d e) rest = ground arith
tag_first_size_lem (sequence s) rest = ap suc (tag_first_size_lem s rest)
tag_first_size_lem (bracketed {o} {c} {inner} k b) rest =
    ap (λ l. tag_first_size (o ∷ l)) (append_assoc inner (c ∷ []) rest)
    ∙ bracketed_size k b rest
    ∙ omega (arith, length-append inner (c ∷ []))

-- `tag_pop` splits a sequence of tags after its first tag, which is a character, a sequence, or
-- in matching brackets.
pub tag_pop_lem : {t : List ℕ} → IsTag t → (rest : List ℕ) → tag_pop (t ++ rest) ≡ (t, rest)
unfolding tag_pop
tag_pop_lem {t} k rest =
    ap (λ n. (take n (t ++ rest), drop n (t ++ rest))) (tag_first_size_lem k rest)
    ∙ ap₂ (λ a b. (a, b)) (take-length-append t rest) (drop-length-append t rest)
