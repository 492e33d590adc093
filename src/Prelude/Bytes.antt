-- ===== src/Prelude/Bytes.antt =====
-- Machine words: wrap-around and two's complement readings.
use Prim.Native.Nat.{ℕ, ◌+◌, ◌-◌, ◌%◌, ◌^◌}
use btui.Prelude.Tests.{ltb, if◌then◌else◌}
use btui.Prelude.Int.{ℤ, pos, negsuc}

abbrev pub u64_mod : ℕ
u64_mod = 2 ^ 64

-- `std::size_t(a - b)`
abbrev pub sub64 : ℕ → ℕ → ℕ
sub64 a b = (a + u64_mod - b) % u64_mod

-- `std::int64_t(n)` of a `std::uint64_t`
abbrev pub to_i64 : ℕ → ℤ
to_i64 n = if ltb n (2 ^ 63) then pos n else negsuc (u64_mod - n - 1)
