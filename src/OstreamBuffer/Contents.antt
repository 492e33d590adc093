-- ===== src/OstreamBuffer/Contents.antt =====
-- Nothing is lost, and the buffer is not overrun.
use btui.Prelude.{
  length-take, length-drop, take-append-drop, lt→ltb, ltb_false→le, ℕ, zero, suc, ◌+◌, ◌≤◌, ◌≡◌,
  refl, sym, ap, ◌∙◌, true, false, List, [], ◌∷◌, ◌++◌, append_assoc, append-nil, length,
  length-append, take, drop, ltb, min, arith, Bool-cases, All, inl, inr,
}
use btui.OstreamBuffer.{
  OstreamBuffer, buf_size, new, flush, reserve, store, put, write_from, write, write_number,
  write_bool, close, Write, char, chars, bool, number, flushed, apply, apply_all,
}

-- The buffer holds at most 1024 characters.
abbrev pub IsValid : OstreamBuffer → Type 0
IsValid b = length b.buf ≤ buf_size

abbrev pub contents : OstreamBuffer → List ℕ
contents b = b.out ++ b.buf

-- What a call writes.
unfoldable pub written : Write → List ℕ
written (char c) = c ∷ []
written (chars s) = s
written (bool true) = 116 ∷ 114 ∷ 117 ∷ 101 ∷ []
written (bool false) = 102 ∷ 97 ∷ 108 ∷ 115 ∷ 101 ∷ []
written (number n s) = s
written flushed = []

unfoldable pub written_all : List Write → List ℕ
unfolding written
written_all [] = []
written_all (w ∷ ws) = written w ++ written_all ws

-- A number fits in the characters reserved for it, which are not more than the buffer's.
abbrev pub Fits : Write → Type 0
Fits (number n s) = (length s ≤ n) × (n ≤ buf_size)
Fits _ = Unit {0}

-- A step that appends.
abbrev Appends : List ℕ → OstreamBuffer → OstreamBuffer → Type 0
Appends s b b' = (contents b' ≡ contents b ++ s) × IsValid b'

store-reserve :
    (n : ℕ) (s : List ℕ) (b : OstreamBuffer)
    → IsValid b
    → length s ≤ n
    → n ≤ buf_size
    → Appends s b (store s (reserve n b))
unfolding reserve flush
store-reserve n s b v h k = elim (Bool-cases (ltb buf_size (length b.buf + n))) [
  | inl e ↦ rw e (refl, omega arith)
  | inr e ↦ rw e (
    sym (append_assoc b.out b.buf s),
    omega (arith, length-append b.buf s, ltb_false→le buf_size (length b.buf + n) e),
  )
]

split :
    (f : ℕ) (s : List ℕ)
    → 1 ≤ length s
    → length s ≤ suc f
    → let w = min (length s) buf_size in
      (length (take w s) ≤ w) × (w ≤ buf_size) × (length (drop w s) ≤ f)
split f s k h =
    let w : ℕ = min (length s) buf_size in
    (omega (arith, length-take w s), omega arith, omega (arith, length-drop w s))

flush_lem : (b : OstreamBuffer) → Appends [] b (flush b)
unfolding flush
flush_lem b = (refl, omega arith)

write_from_lem :
    (f : ℕ) (s : List ℕ) (b : OstreamBuffer)
    → IsValid b
    → length s ≤ f
    → Appends s b (write_from f s b)
unfolding write_from
write_from_lem zero [] b v h = (sym (append-nil (contents b)), v)
write_from_lem zero (x ∷ s) b v h = absurd (omega arith)
write_from_lem (suc f) [] b v h = (sym (append-nil (contents b)), v)
write_from_lem (suc f) (x ∷ s) b v h =
    let w : ℕ = min (length (x ∷ s)) buf_size in
    let (p, q, r) = split f (x ∷ s) (omega arith) h in
    let (e, v') = store-reserve w (take w (x ∷ s)) b v p q in
    let (e', v'') = write_from_lem f (drop w (x ∷ s)) (store (take w (x ∷ s)) (reserve w b)) v' r in
    rw (lt→ltb 0 (length (x ∷ s)) (omega arith)) (
      e'
          ∙ ap (λ l. l ++ drop w (x ∷ s)) e
          ∙ append_assoc (contents b) (take w (x ∷ s)) (drop w (x ∷ s))
          ∙ ap (λ l. contents b ++ l) (take-append-drop w (x ∷ s)),
      v'',
    )

apply_lem : (w : Write) (b : OstreamBuffer) → IsValid b → Fits w → Appends (written w) b (apply w b)
unfolding apply put write write_bool write_number written
apply_lem (char c) b v h = store-reserve 1 (c ∷ []) b v (omega arith) (omega arith)
apply_lem (chars s) b v h = write_from_lem (length s) s b v (omega arith)
apply_lem (bool true) b v h = write_from_lem 4 (116 ∷ 114 ∷ 117 ∷ 101 ∷ []) b v (omega arith)
apply_lem (bool false) b v h = write_from_lem 5 (102 ∷ 97 ∷ 108 ∷ 115 ∷ 101 ∷ []) b v (omega arith)
apply_lem (number n s) b v h = store-reserve n s b v h.0 h.1
apply_lem flushed b v h = flush_lem b

apply_all_lem :
    (ws : List Write) (b : OstreamBuffer)
    → IsValid b
    → All Fits ws
    → Appends (written_all ws) b (apply_all ws b)
unfolding apply_all written_all
apply_all_lem [] b v h = (sym (append-nil (contents b)), v)
apply_all_lem (w ∷ ws) b v (h, hs) =
    let (e, v') = apply_lem w b v h in
    let (e', v'') = apply_all_lem ws (apply w b) v' hs in
    (
      e' ∙ ap (λ l. l ++ written_all ws) e ∙ append_assoc (contents b) (written w) (written_all ws),
      v'',
    )

-- Once the buffer is closed, the stream holds what it held before and the characters of every call, in order, where
-- the numbers fit in what is reserved for them; and the buffer never holds more than its 1024 characters.
pub close-apply_all :
    (out : List ℕ) (ws : List Write)
    → All Fits ws
    → (close (apply_all ws (new out)) ≡ out ++ written_all ws) × IsValid (apply_all ws (new out))
unfolding close flush new
close-apply_all out ws h =
    let (e, v) = apply_all_lem ws (new out) (omega arith) h in
    (e ∙ ap (λ l. l ++ written_all ws) (append-nil out), v)
