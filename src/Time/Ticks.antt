-- ===== src/Time/Ticks.antt =====
-- The two divisions of `ticksToNanoseconds` are one.
use btui.Prelude.{
  ℕ, zero, suc, ◌+◌, ◌*◌, ◌/◌, ◌%◌, ◌^◌, ◌≤◌, ◌<◌, ◌≡◌, refl, sym, subst, ap, ap₂, ◌∙◌, arith,
}
use btui.Prelude.Int.{ℤ, pos, negsuc, ◌+ℤ◌, ◌*ℤ◌, pos_part, neg_part, sub_ℕ}
use btui.Time.{minus, quot, rem, nano, ticks_to_nanoseconds}
use native.Mathlib.Nat.{mul-add-div, div-add-mod, mod-lt, zero-div}

expand : (t f : ℕ) → t * nano ≡ f * (t / f * nano) + t % f * nano
expand t f = omega (arith, div-add-mod t f)

div_lem : (t f : ℕ) → 1 ≤ f → t / f * nano + t % f * nano / f ≡ t * nano / f
div_lem t f h = sym (ap (λ x. x / f) (expand t f) ∙ mul-add-div h (t / f * nano) (t % f * nano))

pub minus-suc : (n : ℕ) → minus (suc n) ≡ negsuc n
minus-suc n = ground arith

pub pos_part-minus : (n : ℕ) → pos_part (minus n) ≡ 0
pos_part-minus n = ground arith

pub neg_part-minus : (n : ℕ) → neg_part (minus n) ≡ n
neg_part-minus n = ground arith

pub mul-pos : (a b : ℕ) → pos a *ℤ pos b ≡ pos (a * b)
mul-pos a b = ground arith

pub add-pos : (a b : ℕ) → pos a +ℤ pos b ≡ pos (a + b)
add-pos a b = ground arith

pub minus_mul : (n d : ℕ) → minus n *ℤ pos d ≡ minus (n * d)
minus_mul n d =
    ap₂ (λ p m. sub_ℕ (p * d + m * 0) (p * 0 + m * d)) (pos_part-minus n) (neg_part-minus n)
    ∙ ap₂ sub_ℕ (omega arith) (omega arith)

pub quot-minus : (n f : ℕ) → quot (minus n) f ≡ minus (n / f)
unfolding quot
quot-minus zero f = rw (zero-div f) refl
quot-minus (suc n) f = ap (λ z. quot z f) (minus-suc n)

pub add_minus : (a b : ℕ) → minus a +ℤ minus b ≡ minus (a + b)
add_minus a b =
    ap₂ sub_ℕ (omega (arith, pos_part-minus a, pos_part-minus b))
      (omega (arith, neg_part-minus a, neg_part-minus b))

-- An `std::int64_t`.
abbrev pub Fits64 : ℤ → Type 0
Fits64 z = (pos_part z < 2 ^ 63) × (neg_part z ≤ 2 ^ 63)

pub pos-Fits64 : (n : ℕ) → n < 2 ^ 63 → Fits64 (pos n)
pos-Fits64 n h = (h, omega arith)

minus-Fits64 : (n : ℕ) → n ≤ 2 ^ 63 → Fits64 (minus n)
minus-Fits64 n h = (omega (arith, pos_part-minus n), omega (arith, neg_part-minus n))

-- The result, and the values that the code computes on the way to it.
abbrev pub Converts : ℕ → ℤ → Type 0
Converts frequency ticks =
    (ticks_to_nanoseconds frequency ticks ≡ quot (ticks *ℤ pos nano) frequency)
    × Fits64 (quot ticks frequency *ℤ pos nano)
    × Fits64 (rem ticks frequency *ℤ pos nano)
    × Fits64 (quot (rem ticks frequency *ℤ pos nano) frequency)

pos-Converts : (f t : ℕ) → 1 ≤ f → f < 9223372037 → t * nano / f < 2 ^ 63 → Converts f (pos t)
unfolding ticks_to_nanoseconds quot rem
pos-Converts f t h k b = (
  rw
      (
        mul-pos (t / f) nano,
        mul-pos (t % f) nano,
        mul-pos t nano,
        add-pos (t / f * nano) (t % f * nano / f),
      )
      (ap pos (div_lem t f h)),
  subst Fits64 (sym (mul-pos (t / f) nano))
      (pos-Fits64 (t / f * nano) (omega (arith, div_lem t f h, b))),
  subst Fits64 (sym (mul-pos (t % f) nano)) (pos-Fits64 (t % f * nano) (omega (arith, mod-lt t h))),
  subst (λ z. Fits64 (quot z f)) (sym (mul-pos (t % f) nano))
      (pos-Fits64 (t % f * nano / f) (omega (arith, div_lem t f h, b))),
)

negsuc-Converts :
    (f t : ℕ) → 1 ≤ f → f < 9223372037 → suc t * nano / f ≤ 2 ^ 63 → Converts f (negsuc t)
unfolding ticks_to_nanoseconds quot rem
negsuc-Converts f t h k b = (
  ap₂ ◌+ℤ◌ (minus_mul (suc t / f) nano)
        (ap (λ z. quot z f) (minus_mul (suc t % f) nano) ∙ quot-minus (suc t % f * nano) f)
      ∙ add_minus (suc t / f * nano) (suc t % f * nano / f)
      ∙ ap minus (div_lem (suc t) f h)
      ∙ sym (
          ap (λ z. quot (z *ℤ pos nano) f) (sym (minus-suc t))
          ∙ ap (λ z. quot z f) (minus_mul (suc t) nano)
          ∙ quot-minus (suc t * nano) f),
  subst Fits64 (sym (minus_mul (suc t / f) nano))
      (minus-Fits64 (suc t / f * nano) (omega (arith, div_lem (suc t) f h, b))),
  subst Fits64 (sym (minus_mul (suc t % f) nano))
      (minus-Fits64 (suc t % f * nano) (omega (arith, mod-lt (suc t) h))),
  subst Fits64
      (sym (ap (λ z. quot z f) (minus_mul (suc t % f) nano) ∙ quot-minus (suc t % f * nano) f))
      (minus-Fits64 (suc t % f * nano / f) (omega (arith, div_lem (suc t) f h, b))),
)

-- With a positive frequency below 9223372037 ticks a second, where the nanoseconds of the ticks, which are the ticks
-- times 10^9 divided by the frequency and rounded to zero, fit on 64 signed bits: `ticksToNanoseconds` returns them, and
-- both products, the second quotient and so the sum that it computes fit on 64 signed bits, also where the ticks
-- times 10^9 do not.
pub ticks_to_nanoseconds_lem :
    (frequency : ℕ) (ticks : ℤ)
    → 1 ≤ frequency
    → frequency < 9223372037
    → Fits64 (quot (ticks *ℤ pos nano) frequency)
    → Converts frequency ticks
unfolding quot
ticks_to_nanoseconds_lem f (pos t) h k b =
    pos-Converts f t h k (subst (λ z. Fits64 (quot z f)) (mul-pos t nano) b).0
ticks_to_nanoseconds_lem f (negsuc t) h k b =
    let e : quot (negsuc t *ℤ pos nano) f ≡ minus (suc t * nano / f) =
      ap (λ z. quot (z *ℤ pos nano) f) (sym (minus-suc t))
      ∙ ap (λ z. quot z f) (minus_mul (suc t) nano)
      ∙ quot-minus (suc t * nano) f in
    negsuc-Converts f t h k (omega (arith, neg_part-minus (suc t * nano / f), (subst Fits64 e b).1))
