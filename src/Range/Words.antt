-- ===== src/Range/Words.antt =====
-- Little endian words: a number that fits is read back from its bytes.
use btui.Prelude.{
  ℕ, zero, suc, ◌/◌, ◌^◌, ◌<◌, ◌≡◌, refl, sym, ap, ◌∙◌, List, ◌++◌, length, length-append,
  take-length-append, drop-length-append, length-take, take-append-drop, le→ltb_false, arith,
}
use native.Mathlib.Nat.{pow-suc}
use btui.Result.{ok}
use btui.Range.{Range, view, le_value, le_bytes, read}

abbrev pub IsByte : ℕ → Type 0
IsByte b = b < 256

pub length-le_bytes : (n v : ℕ) → length (le_bytes n v) ≡ n
unfolding le_bytes
length-le_bytes zero v = refl
length-le_bytes (suc n) v = ap suc (length-le_bytes n (v / 256))

pub le_value-le_bytes : (n v : ℕ) → v < 256 ^ n → le_value (le_bytes n v) ≡ v
unfolding le_value le_bytes
le_value-le_bytes zero v h = omega arith
le_value-le_bytes (suc n) v h =
    omega (arith, le_value-le_bytes n (v / 256) (omega (arith, pow-suc 256 n)))

-- A view takes the front of what is there.
pub view-append : (xs rest : List ℕ) → view (length xs) (xs ++ rest) ≡ ok (xs, rest)
unfolding view
view-append xs rest = rw (
  le→ltb_false (length (xs ++ rest)) (length xs) (omega (arith, length-append xs rest)),
  take-length-append xs rest,
  drop-length-append xs rest,
)

pub view-append_of_length :
    (n : ℕ) (xs rest : List ℕ) → length xs ≡ n → view n (xs ++ rest) ≡ ok (xs, rest)
view-append_of_length n xs rest e = ap (λ k. view k (xs ++ rest)) (sym e) ∙ view-append xs rest

pub read-le_bytes :
    (n v : ℕ) (rest : List ℕ) → v < 256 ^ n → read n (le_bytes n v ++ rest) ≡ ok (v, rest)
unfolding read
read-le_bytes n v rest h =
    rw (view-append_of_length n (le_bytes n v) rest (length-le_bytes n v), le_value-le_bytes n v h)

-- A successful view splits the range; a failed one had too few bytes.
pub view_split :
    (n : ℕ) (r : Range) {xs rest : List ℕ}
    → view n r ≡ ok (xs, rest)
    → (length xs ≡ n) × (r ≡ xs ++ rest)
unfolding view
view_split n r {xs} {rest} e = ground (arith, length-take n r, take-append-drop n r)
