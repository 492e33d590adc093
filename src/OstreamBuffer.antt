-- ===== src/OstreamBuffer.antt =====
-- include/binlog/detail/OstreamBuffer.cpp: a buffer of 1024 characters in front of a `std::ostream`, which is the
-- list of the characters written to it. The characters that `snprintf` writes for a number are an argument.
pub mod Contents
mod Tests
use btui.Prelude.{
  ℕ, zero, suc, ◌+◌, ◌-◌, Bool, true, false, List, [], ◌∷◌, ◌++◌, length, take, drop, ltb, min,
  if◌then◌else◌,
}

-- `_p` stands behind the characters of `buf`.
pub record OstreamBuffer : Type 0 where
  pub out : List ℕ
  pub buf : List ℕ

abbrev pub buf_size : ℕ
buf_size = 1024

unfoldable pub new : List ℕ → OstreamBuffer
new out = record { out = out; buf = [] }

unfoldable pub flush : OstreamBuffer → OstreamBuffer
flush b = record { out = b.out ++ b.buf; buf = [] }

unfoldable pub reserve : ℕ → OstreamBuffer → OstreamBuffer
unfolding flush
reserve n b = if ltb buf_size (length b.buf + n) then flush b else b

-- `memcpy(_p, ...)` and `_p += ...`
abbrev pub store : List ℕ → OstreamBuffer → OstreamBuffer
store chars b = record b { buf = b.buf ++ chars }

unfoldable pub put : ℕ → OstreamBuffer → OstreamBuffer
unfolding reserve
put c b = store (c ∷ []) (reserve 1 b)

-- The loop of `write`; one round for each character is enough.
pub write_from : ℕ → List ℕ → OstreamBuffer → OstreamBuffer
unfolding reserve
write_from zero chars b = b
write_from (suc f) chars b =
    let wsize = min (length chars) buf_size in
    let rest = write_from f (drop wsize chars) (store (take wsize chars) (reserve wsize b)) in
    if ltb 0 (length chars) then rest else b

unfoldable pub write : List ℕ → OstreamBuffer → OstreamBuffer
unfolding write_from
write chars b = write_from (length chars) chars b

-- `snprintf` into `n` reserved characters: 32 for an integer, 64 for a `double`, 128 for a `long double`.
unfoldable pub write_number : ℕ → List ℕ → OstreamBuffer → OstreamBuffer
unfolding reserve
write_number n chars b = store chars (reserve n b)

-- "true" and "false"
unfoldable pub write_bool : Bool → OstreamBuffer → OstreamBuffer
unfolding write
write_bool true b = write (116 ∷ 114 ∷ 117 ∷ 101 ∷ []) b
write_bool false b = write (102 ∷ 97 ∷ 108 ∷ 115 ∷ 101 ∷ []) b

-- `~OstreamBuffer`: what the stream holds in the end.
unfoldable pub close : OstreamBuffer → List ℕ
unfolding flush
close b = (flush b).out

-- The calls of a printer.
pub data Write : Type 0 where
  char : ℕ → Write
  chars : List ℕ → Write
  bool : Bool → Write
  number : (room : ℕ) → List ℕ → Write
  flushed : Write

unfoldable pub apply : Write → OstreamBuffer → OstreamBuffer
unfolding put write write_bool write_number flush
apply (char c) b = put c b
apply (chars s) b = write s b
apply (bool v) b = write_bool v b
apply (number n s) b = write_number n s b
apply flushed b = flush b

unfoldable pub apply_all : List Write → OstreamBuffer → OstreamBuffer
unfolding apply
apply_all [] b = b
apply_all (w ∷ ws) b = apply_all ws (apply w b)
