-- ===== src/Time.antt =====
-- include/binlog/Time.cpp: from clock ticks to nanoseconds, and to a broken down time. A `std::int64_t`
-- is an integer; where its range matters is a theorem. `gmtime_r` is an argument.
pub mod Ticks
pub mod Seconds
mod Tests
use btui.Prelude.{ℕ, zero, suc, ◌+◌, ◌-◌, ◌*◌, ◌/◌, ◌%◌, ◌^◌, sub64, to_i64}
use btui.Prelude.Int.{ℤ, pos, negsuc, sub_ℕ, ◌+ℤ◌, ◌-ℤ◌, ◌*ℤ◌}
use btui.Entries.{ClockSync}

abbrev pub minus : ℕ → ℤ
minus n = sub_ℕ 0 n

-- `/` and `%` by a positive number, which round to zero.
unfoldable pub quot : ℤ → ℕ → ℤ
quot (pos a) f = pos (a / f)
quot (negsuc a) f = minus (suc a / f)

unfoldable pub rem : ℤ → ℕ → ℤ
rem (pos a) f = pos (a % f)
rem (negsuc a) f = minus (suc a % f)

-- `std::nano::den`
abbrev pub nano : ℕ
nano = 1000000000

-- The frequency is positive as a `std::int64_t`.
unfoldable pub ticks_to_nanoseconds : ℕ → ℤ → ℤ
unfolding quot rem
ticks_to_nanoseconds frequency ticks =
    let q = quot ticks frequency in
    let r = rem ticks frequency in (q *ℤ pos nano) +ℤ quot (r *ℤ pos nano) frequency

unfoldable pub clock_to_ns_since_epoch : ClockSync → ℕ → ℤ
unfolding ticks_to_nanoseconds
clock_to_ns_since_epoch clock_sync clock_value =
    let diff_value = to_i64 (sub64 clock_value clock_sync.clock_value) in
    to_i64 clock_sync.ns_since_epoch +ℤ ticks_to_nanoseconds clock_sync.clock_frequency diff_value

-- `struct tm`, and `tm_nsec`.
pub record Tm : Type 0 where
  pub tm_year : ℤ
  pub tm_mon : ℤ
  pub tm_mday : ℤ
  pub tm_hour : ℤ
  pub tm_min : ℤ
  pub tm_sec : ℤ

pub record BrokenDownTime : Type 0 where
  pub tm : Tm
  pub tm_nsec : ℤ

-- `nsSinceEpochToBrokenDownTimeUTC`, with a `system_clock` that counts nanoseconds.
unfoldable pub broken_down_time : (ℤ → Tm) → ℤ → BrokenDownTime
unfolding quot
broken_down_time gmtime since_epoch = record {
  tm = gmtime (quot since_epoch nano);
  tm_nsec = since_epoch -ℤ (quot since_epoch nano *ℤ pos nano);
}
