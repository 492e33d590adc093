-- ===== src/Time/Tests.antt =====
-- Nine seconds of a clock of 3 GHz, whose product with 10^9 does not fit on 64 bits, and a time half a second before the epoch.
use btui.Prelude.{◌%◌, ◌≡◌, arith}
use btui.Prelude.Int.{ℤ, pos, negsuc, ◌*ℤ◌, pos_part, neg_part}
use btui.Time.{quot, nano, Tm, broken_down_time}
use btui.Time.Ticks.{Fits64, Converts, ticks_to_nanoseconds_lem}
use btui.Time.Seconds.{broken_down_time_lem}

nine_seconds-Fits64 : Fits64 (quot (negsuc 26999999999 *ℤ pos nano) 3000000000)
unfolding quot
nine_seconds-Fits64 = (omega arith, omega arith)

ticks_to_nanoseconds_lem_example : Converts 3000000000 (negsuc 26999999999)
ticks_to_nanoseconds_lem_example =
    ticks_to_nanoseconds_lem 3000000000 (negsuc 26999999999) (omega arith) (omega arith)
      nine_seconds-Fits64

-- A calendar of one day.
abbrev one_day : ℤ → Tm
one_day t = record {
  tm_year = pos 70;
  tm_mon = pos 0;
  tm_mday = pos 1;
  tm_hour = pos 0;
  tm_min = pos 0;
  tm_sec = t;
}

broken_down_time_lem_example :
    let d = broken_down_time one_day (negsuc 499999999) in
    (d.tm ≡ one_day (quot (negsuc 499999999) nano))
    × (pos_part d.tm_nsec ≡ pos_part (negsuc 499999999) % nano)
    × (neg_part d.tm_nsec ≡ neg_part (negsuc 499999999) % nano)
broken_down_time_lem_example = broken_down_time_lem one_day (negsuc 499999999)
