-- ===== src/Time/Seconds.antt =====
-- The seconds and the nanoseconds of a broken down time.
use btui.Prelude.{ℕ, suc, ◌+◌, ◌*◌, ◌/◌, ◌%◌, ◌≡◌, refl, ap, ap₂, ◌∙◌, arith}
use btui.Prelude.Int.{ℤ, pos, negsuc, ◌-ℤ◌, pos_part, neg_part, sub_ℕ}
use btui.Time.{minus, quot, nano, Tm, broken_down_time}
use btui.Time.Ticks.{minus_mul, mul-pos, pos_part-minus, neg_part-minus}

sub-pos : (n : ℕ) → pos n -ℤ pos (n / nano * nano) ≡ pos (n % nano)
sub-pos n = ground arith

left : (n : ℕ) → sub_ℕ (0 + suc n / nano * nano) (suc n + 0) ≡ minus (suc n % nano)
left n = ground arith

sub-minus : (n : ℕ) → negsuc n -ℤ minus (suc n / nano * nano) ≡ minus (suc n % nano)
sub-minus n =
    ap₂ (λ a b. sub_ℕ (0 + a) (suc n + b)) (neg_part-minus (suc n / nano * nano))
      (pos_part-minus (suc n / nano * nano))
    ∙ left n

-- The nanoseconds of a broken down time are what is left of the time behind its whole seconds, which
-- are rounded to zero: for a time before the epoch they count down from zero.
pub broken_down_time_lem :
    (gmtime : ℤ → Tm) (t : ℤ)
    → let d = broken_down_time gmtime t in
      (d.tm ≡ gmtime (quot t nano))
      × (pos_part d.tm_nsec ≡ pos_part t % nano)
      × (neg_part d.tm_nsec ≡ neg_part t % nano)
unfolding broken_down_time quot
broken_down_time_lem gmtime (pos n) = (
  refl,
  ap (λ z. pos_part (pos n -ℤ z)) (mul-pos (n / nano) nano) ∙ ap pos_part (sub-pos n),
  ap (λ z. neg_part (pos n -ℤ z)) (mul-pos (n / nano) nano) ∙ ap neg_part (sub-pos n),
)
broken_down_time_lem gmtime (negsuc n) = (
  refl,
  ap (λ z. pos_part (negsuc n -ℤ z)) (minus_mul (suc n / nano) nano)
      ∙ ap pos_part (sub-minus n)
      ∙ pos_part-minus (suc n % nano),
  ap (λ z. neg_part (negsuc n -ℤ z)) (minus_mul (suc n / nano) nano)
      ∙ ap neg_part (sub-minus n)
      ∙ neg_part-minus (suc n % nano),
)
