-- ===== src/Visit/Enums.antt =====
-- The tag of an enum: the name of an enumerator is found behind the hexadecimal digits of its value.
use mathlib.Core.Option
use btui.Prelude.{
  ℕ, zero, suc, ◌+◌, ◌-◌, ◌%◌, ◌^◌, ◌/◌, ◌≤◌, ◌<◌, ◌≡◌, ◌≢◌, refl, sym, ap, ◌∙◌, Bool, true, false,
  ◌&&◌, ◌||◌, drop-length-append, inl, inr, ◌⊎◌, Option, none, some, List, [], ◌∷◌, ◌++◌, length,
  length-append, All, arith, drop, ltb, if◌then◌else◌, ◌==◌, Bool-cases, ==→eq, ap₂,
}
use btui.Tags.{starts_with, find, tag_pop_label}
use btui.Tags.Labels.{eqb_of_ne, tag_pop_label_lem}
use btui.Visit.{enumerator_of, enumerator_at}
use btui.Visit.Hex.{hex_digit, hex_value, write_digits, write_magnitude, write_signed}

-- 0x41'name' and so on: the digits of the value, and the name between ` (96) and ' (39).
unfoldable pub enumerators : List (List ℕ × List ℕ) → List ℕ
enumerators [] = []
enumerators ((hex, name) ∷ es) = hex ++ (96 ∷ (name ++ (39 ∷ enumerators es)))

unfoldable pub same : List ℕ → List ℕ → Bool
same [] [] = true
same [] (y ∷ t) = false
same (x ∷ s) [] = false
same (x ∷ s) (y ∷ t) = (y == x) && same s t

-- The name of the first enumerator with the given digits, or nothing.
unfoldable pub name_of : List ℕ → List (List ℕ × List ℕ) → List ℕ
unfolding same
name_of digits [] = []
name_of digits ((hex, name) ∷ es) = if same digits hex then name else name_of digits es

-- No quote and no backtick.
abbrev pub Unquoted : List ℕ → Type 0
Unquoted s = All (λ x. (x ≢ 39) × (x ≢ 96)) s

abbrev pub NoQuote : List ℕ → Type 0
NoQuote s = All (λ x. x ≢ 39) s

abbrev pub IsEnumerator : List ℕ × List ℕ → Type 0
IsEnumerator (hex, name) = Unquoted hex × NoQuote name

-- Characters that are no quote come before every occurrence of what starts with a quote.
drop-later :
    (c : ℕ) (s hex : List ℕ) (o : Option ℕ)
    → enumerator_at (c ∷ s) (39 ∷ (hex ++ (96 ∷ []))) (Option.map suc o)
      ≡ enumerator_at s (39 ∷ (hex ++ (96 ∷ []))) o
drop-later c s hex none = refl
drop-later c s hex (some pos) =
    let dvalue : List ℕ = 39 ∷ (hex ++ (96 ∷ [])) in
    let e : suc pos + length dvalue - 1 ≡ suc (pos + length dvalue - 1) = omega arith in
    ap (λ n. (tag_pop_label (drop n (c ∷ s))).0) e

later_enumerator :
    (c : ℕ) (s hex : List ℕ) → c ≢ 39 → enumerator_of (c ∷ s) hex ≡ enumerator_of s hex
unfolding enumerator_of find starts_with
later_enumerator c s hex h =
    rw (eqb_of_ne c 39 h) (drop-later c s hex (find s (39 ∷ (hex ++ (96 ∷ [])))))

behind_unquoted : (p s hex : List ℕ) → NoQuote p → enumerator_of (p ++ s) hex ≡ enumerator_of s hex
behind_unquoted [] s hex h = refl
behind_unquoted (c ∷ p) s hex (h, hs) =
    later_enumerator c (p ++ s) hex h ∙ behind_unquoted p s hex hs

-- Digits in front of a backtick are the same digits.
starts_with-same :
    (digits hex rest : List ℕ)
    → Unquoted digits
    → Unquoted hex
    → starts_with (hex ++ (96 ∷ rest)) (digits ++ (96 ∷ [])) ≡ same digits hex
unfolding starts_with same
starts_with-same [] [] rest h g = refl
starts_with-same [] (y ∷ hex) rest h (g, gs) = rw (eqb_of_ne y 96 g.1) refl
starts_with-same (x ∷ digits) [] rest (h, hs) g = rw (eqb_of_ne 96 x (λ e. h.1 (sym e))) refl
starts_with-same (x ∷ digits) (y ∷ hex) rest (h, hs) (g, gs) =
    ap (λ b. (y == x) && b) (starts_with-same digits hex rest hs gs)

false_not_true : false ≢ true
false_not_true e = cc

same→eq : (s t : List ℕ) → same s t ≡ true → s ≡ t
unfolding same
same→eq [] [] e = refl
same→eq [] (y ∷ t) e = cc
same→eq (x ∷ s) [] e = cc
same→eq (x ∷ s) (y ∷ t) e = elim (Bool-cases (y == x)) [
  | inl b ↦
      ap₂ (λ z zs. z ∷ zs) (sym (==→eq y x b)) (same→eq s t (sym (ap (λ z. z && same s t) b) ∙ e))
  | inr b ↦ absurd (false_not_true (sym (ap (λ z. z && same s t) b) ∙ e))
]

no_quotes : (s : List ℕ) → Unquoted s → NoQuote s
no_quotes [] h = tt
no_quotes (x ∷ s) (h, hs) = (h.0, no_quotes s hs)

no_enumerator : (digits : List ℕ) → enumerator_of (39 ∷ []) digits ≡ []
unfolding enumerator_of find starts_with
no_enumerator [] = refl
no_enumerator (x ∷ digits) = refl

-- The digits of the first enumerator: its name is found.
first_enumerator :
    (digits hex name rest : List ℕ)
    → Unquoted digits
    → IsEnumerator (hex, name)
    → same digits hex ≡ true
    → enumerator_of (39 ∷ (hex ++ (96 ∷ (name ++ (39 ∷ rest))))) digits ≡ name
unfolding enumerator_of find starts_with
first_enumerator digits hex name rest h (g, gs) e =
    let eq : digits ≡ hex = same→eq digits hex e in
    let front : List ℕ = hex ++ (96 ∷ (name ++ (39 ∷ rest))) in
    let n : 0 + length (39 ∷ (digits ++ (96 ∷ []))) - 1 ≡ suc (length hex) =
      omega (arith, length-append digits (96 ∷ []), ap length eq) in
    rw (starts_with-same digits hex (name ++ (39 ∷ rest)) h g, e)
      (ap (λ k. (tag_pop_label (drop k (39 ∷ front))).0) n
        ∙ ap (λ l. (tag_pop_label l).0) (drop-length-append hex (96 ∷ (name ++ (39 ∷ rest))))
        ∙ ap (λ p. p.0) (tag_pop_label_lem name rest gs))

other_enumerator :
    (digits hex name rest : List ℕ)
    → Unquoted digits
    → IsEnumerator (hex, name)
    → same digits hex ≡ false
    → enumerator_of (39 ∷ (hex ++ (96 ∷ (name ++ (39 ∷ rest))))) digits
      ≡ enumerator_of (39 ∷ rest) digits
unfolding enumerator_of find starts_with
other_enumerator digits hex name rest h (g, gs) e =
    let front : List ℕ = hex ++ (96 ∷ (name ++ (39 ∷ rest))) in
    rw (starts_with-same digits hex (name ++ (39 ∷ rest)) h g, e)
      (drop-later 39 front digits (find front (39 ∷ (digits ++ (96 ∷ []))))
        ∙ behind_unquoted hex (96 ∷ (name ++ (39 ∷ rest))) digits (no_quotes hex g)
        ∙ later_enumerator 96 (name ++ (39 ∷ rest)) digits (omega arith)
        ∙ behind_unquoted name (39 ∷ rest) digits gs)

-- Behind a name's quote the enumerators follow: the name is that of the first one with the digits.
pub enumerator_of-enumerators :
    (digits : List ℕ) (es : List (List ℕ × List ℕ))
    → Unquoted digits
    → All IsEnumerator es
    → enumerator_of (39 ∷ enumerators es) digits ≡ name_of digits es
unfolding enumerators name_of
enumerator_of-enumerators digits [] h g = no_enumerator digits
enumerator_of-enumerators digits ((hex, name) ∷ es) h (g, gs) =
    elim (Bool-cases (same digits hex)) [
      | inl e ↦ rw (e) (first_enumerator digits hex name (enumerators es) h g e)
      | inr e ↦ rw (e) (
          other_enumerator digits hex name (enumerators es) h g e
          ∙ enumerator_of-enumerators digits es h gs)
    ]

-- A digit or a minus sign.
abbrev pub IsHex : ℕ → Type 0
IsHex x = ((45 ≤ x) × (x ≤ 70)) × (x ≢ 47) × (x ≢ 60) × (x ≢ 62)

abbrev pub Hexadecimal : List ℕ → Type 0
Hexadecimal s = All IsHex s

Hexadecimal-Unquoted : (s : List ℕ) → Hexadecimal s → Unquoted s
Hexadecimal-Unquoted [] h = tt
Hexadecimal-Unquoted (x ∷ s) (h, hs) = ((omega arith, omega arith), Hexadecimal-Unquoted s hs)

hex : (x : ℕ) → (x ≡ 45) ⊎ ((48 ≤ x) × (x ≤ 49)) → IsHex x
hex x h = ground arith

either :
    (b : Bool) (s t : List ℕ) → Hexadecimal s → Hexadecimal t → Hexadecimal (if b then s else t)
either true s t h g = h
either false s t h g = g

digit-Hex : (d : ℕ) → d < 16 → IsHex (hex_digit d)
digit-Hex d h = ground arith

write_digits-Hex :
    (f v : ℕ) (written : List ℕ) → Hexadecimal written → Hexadecimal (write_digits f v written)
unfolding write_digits
write_digits-Hex zero v written h = h
write_digits-Hex (suc f) v written h = elim (Bool-cases (v == 0)) [
  | inl e ↦ rw (e) h
  | inr e ↦ rw (e) (
      write_digits-Hex f (v / 16) (hex_digit (v % 16) ∷ written)
        (digit-Hex (v % 16) (omega arith), h))
]

write_magnitude-Hex : (v : ℕ) → Hexadecimal (write_magnitude v)
unfolding write_magnitude
write_magnitude-Hex v =
    either (v == 0) _ _ (hex 48 (inr (omega arith, omega arith)), tt) (write_digits-Hex 16 v [] tt)

write_signed-Hex : (n v : ℕ) → Hexadecimal (write_signed n v)
unfolding write_signed
write_signed-Hex n v = elim (Bool-cases (ltb v (2 ^ (n - 1)))) [
  | inl e ↦ rw (e) (write_magnitude-Hex v)
  | inr e ↦ rw (e) (hex 45 (inl refl), write_magnitude-Hex (2 ^ n - v))
]

pub hex_value-Hex : (c bits : ℕ) → Hexadecimal (hex_value c bits)
unfolding hex_value
hex_value-Hex c bits =
    either (c == b'y') _ _
      (either (bits == 0) _ _ (hex 48 (inr (omega arith, omega arith)), tt)
        (hex 49 (inr (omega arith, omega arith)), tt))
      (either ((c == b'c') || (c == b'b')) _ _ (write_signed-Hex 8 bits) (
        either (c == b's') _ _ (write_signed-Hex 16 bits) (
          either (c == b'i') _ _ (write_signed-Hex 32 bits) (
            either (c == b'l') _ _ (write_signed-Hex 64 bits) (
              either ((c == b'f') || ((c == b'd') || (c == b'D'))) _ _ tt
                (write_magnitude-Hex bits))))))

pub hex_value-Unquoted : (c bits : ℕ) → Unquoted (hex_value c bits)
hex_value-Unquoted c bits = Hexadecimal-Unquoted (hex_value c bits) (hex_value-Hex c bits)
