-- ===== src/PrettyPrinter/TimeZone.antt =====
-- The digits of a time zone offset.
use btui.Prelude.{
  ℕ, ◌+◌, ◌-◌, ◌*◌, ◌/◌, ◌%◌, ◌≤◌, ◌<◌, ◌≡◌, refl, ap, ap₂, ◌∙◌, [], ◌∷◌, ◌++◌, ltb, if◌then◌else◌,
  arith, lt→ltb,
}
use btui.Prelude.Int.{ℤ, pos, ◌+ℤ◌, ◌-ℤ◌, pos_part, neg_part, leb_ℤ}
use btui.Time.{quot, rem}
use btui.Time.Ticks.{add-pos}
use btui.PrettyPrinter.{two_digits, time_zone_offset, to_char}

-- The number that two decimal digits stand for.
abbrev pub number_of : ℕ → ℕ → ℕ
number_of a b = 10 * (a - 48) + (b - 48)

abbrev pub IsDigit : ℕ → Type 0
IsDigit c = (48 ≤ c) × (c ≤ 57)

sub-pos : (n m : ℕ) → m ≤ n → pos n -ℤ pos m ≡ pos (n - m)
sub-pos n m h = ground arith

tens : (n : ℕ) → quot (pos n -ℤ pos (n % 10)) 10 ≡ pos (n / 10)
unfolding quot
tens n = ap (λ z. quot z 10) (sub-pos n (n % 10) (omega arith)) ∙ ap pos (omega arith)

digit : (d : ℕ) → d < 10 → to_char (pos 48 +ℤ pos d) ≡ 48 + d
digit d h = ap to_char (add-pos 48 d) ∙ omega arith

pub two_digits_lem : (n : ℕ) → n < 100 → two_digits (pos n) ≡ (48 + n / 10) ∷ (48 + n % 10) ∷ []
unfolding two_digits rem
two_digits_lem n h =
    ap₂ (λ a b. a ∷ b ∷ [])
      (ap (λ z. to_char (pos 48 +ℤ z)) (tens n) ∙ digit (n / 10) (omega arith))
      (digit (n % 10) (omega arith))

small : (n : ℕ) → n < 100 → (if ltb n 100 then n else 0) ≡ n
small n h = rw (lt→ltb n 100 h) refl

-- A time zone offset is printed as a sign and four digits, which read the whole hours and the
-- minutes behind them, where it is less than 100 hours to either side.
pub time_zone_offset_lem :
    (seconds : ℤ)
    → pos_part seconds + neg_part seconds < 360000
    → (hour_tens : ℕ) × (hour_ones : ℕ) × (minute_tens : ℕ) × (minute_ones : ℕ) × (time_zone_offset
          seconds
        ≡ (if leb_ℤ (pos 0) seconds then 43 else 45)
          ∷ hour_tens
          ∷ hour_ones
          ∷ minute_tens
          ∷ minute_ones
          ∷ [])
      × (IsDigit hour_tens × IsDigit hour_ones × IsDigit minute_tens × IsDigit minute_ones)
      × (number_of minute_tens minute_ones < 60)
      × (60 * number_of hour_tens hour_ones + number_of minute_tens minute_ones
          ≡ (pos_part seconds + neg_part seconds) / 60)
unfolding time_zone_offset
time_zone_offset_lem seconds h =
    let n : ℕ = pos_part seconds + neg_part seconds in
    let hours : ℕ = n / 3600 in
    let sign : ℕ = if leb_ℤ (pos 0) seconds then 43 else 45 in
    let mins : ℕ = n / 60 - 60 * hours in
    (
      48 + hours / 10,
      48 + hours % 10,
      48 + mins / 10,
      48 + mins % 10,
      ap₂ (λ a b. sign ∷ (two_digits (pos a) ++ two_digits (pos b))) (small hours (omega arith))
            (small mins (omega arith))
          ∙ ap₂ (λ a b. sign ∷ (a ++ b)) (two_digits_lem hours (omega arith))
              (two_digits_lem mins (omega arith)),
      (
        (omega arith, omega arith),
        (omega arith, omega arith),
        (omega arith, omega arith),
        (omega arith, omega arith),
      ),
      omega arith,
      omega arith,
    )
