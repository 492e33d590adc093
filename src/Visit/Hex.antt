-- ===== src/Visit/Hex.antt =====
-- include/mserialize/detail/integer_to_hex.hpp, `write_integer_as_hex`: the value of an enum in hex, with a
-- minus sign before a negative value.
use btui.Prelude.{
  ℕ, zero, suc, ◌+◌, ◌-◌, ◌/◌, ◌%◌, ◌^◌, List, [], ◌∷◌, ◌==◌, ltb, if◌then◌else◌, ◌||◌,
}

-- `digits[d]` of "0123456789ABCDEF"
abbrev pub hex_digit : ℕ → ℕ
hex_digit d = if ltb d 10 then 48 + d else 55 + d

-- The loop writes from the end: the digits of `v` go in front of those that are written; sixteen rounds are
-- enough for 64 bits.
unfoldable pub write_digits : ℕ → ℕ → List ℕ → List ℕ
write_digits zero v written = written
write_digits (suc f) v written =
    let more = write_digits f (v / 16) (hex_digit (v % 16) ∷ written) in
    if v == 0 then written else more

unfoldable pub write_magnitude : ℕ → List ℕ
unfolding write_digits
write_magnitude v = if v == 0 then 48 ∷ [] else write_digits 16 v []

-- A value of a signed type of `n` bits, by its bits.
unfoldable pub write_signed : ℕ → ℕ → List ℕ
unfolding write_magnitude
write_signed n bits =
    if ltb bits (2 ^ (n - 1)) then write_magnitude bits else 45 ∷ write_magnitude (2 ^ n - bits)

-- `IntegerToHex` visited with an arithmetic type; a floating point number leaves it empty. `char` is signed.
unfoldable pub hex_value : ℕ → ℕ → List ℕ
unfolding write_signed write_magnitude
hex_value c bits =
    if c == b'y'
    then (if bits == 0 then 48 ∷ [] else 49 ∷ [])
    else (if (c == b'c') || (c == b'b')
        then write_signed 8 bits
        else (if c == b's'
            then write_signed 16 bits
            else (if c == b'i'
                then write_signed 32 bits
                else (if c == b'l'
                    then write_signed 64 bits
                    else (if (c == b'f') || ((c == b'd') || (c == b'D'))
                        then []
                        else write_magnitude bits)))))
