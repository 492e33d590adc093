-- ===== src/Recovery/Ends.antt =====
-- The search ends, and reads inside of what it has read from the dump.
use btui.Prelude.{
  length-drop, ℕ, zero, suc, ◌+◌, ◌^◌, ◌≤◌, ◌<◌, ◌≡◌, refl, ap, Bool, true, false, Option, none,
  some, List, [], ◌∷◌, ◌++◌, length, ◌==◌, if◌then◌else◌, arith, Bool-cases, inl, inr,
}
use btui.Range.{Range, read, view}
use btui.Queue.{Queue, begin_read, view_with}
use btui.Recovery.{
  search_magic, search_behind, RecoveredBuffer, metadata_magic, data_magic, check_entry_buffer,
  take_bytes, read_word, recover, ◌>>=◌, read_metadata, check_queue_invariants, read_queue,
  read_data, behind_byte, found, check_magic, search,
}
use btui.PrettyPrinter.{equal}

pick : {A : Type 0} (P : A → Type 0) (b : Bool) {x y : A} → P x → P y → P (if b then x else y)
pick P true h k = h
pick P false h k = k

-- What is left is not longer than `n`.
abbrev IsWithin : {A : Type 0} → ℕ → Option (A × Range) → Type 0
IsWithin n none = Unit {0}
IsWithin n (some (x, r)) = length r ≤ n

>>=-IsWithin :
    {A B : Type 0} (n : ℕ) (m : Option (A × Range)) (k : A × Range → Option (B × Range))
    → IsWithin n m
    → ((x : A) (r : Range) → length r ≤ n → IsWithin n (k (x, r)))
    → IsWithin n (m >>= k)
>>=-IsWithin n none k h g = tt
>>=-IsWithin n (some (x, r)) k h g = g x r h

view-IsWithin : (n i : ℕ) (r : Range) → length r ≤ n → IsWithin n (take_bytes i r)
unfolding take_bytes view
view-IsWithin n i r h = ground (arith, length-drop i r)

word-IsWithin : (n : ℕ) (r : Range) → length r ≤ n → IsWithin n (read_word r)
unfolding read_word read view
word-IsWithin n r h = ground (arith, length-drop 8 r)

recover-IsWithin :
    (n : ℕ) (kind : _) (session : ℕ) (buffer : List ℕ) (r : Range)
    → length r ≤ n
    → IsWithin n (recover kind session buffer r)
recover-IsWithin n kind session buffer r h = elim (Bool-cases (check_entry_buffer buffer)) [
  | inl e ↦ rw e h
  | inr e ↦ rw e tt
]

read_metadata-IsWithin : (n : ℕ) (r : Range) → length r ≤ n → IsWithin n (read_metadata r)
unfolding read_metadata
read_metadata-IsWithin n r h = >>=-IsWithin n (read_word r) _ (word-IsWithin n r h) (λ session r h.
    >>=-IsWithin n (read_word r) _ (word-IsWithin n r h) (λ size r h.
      >>=-IsWithin n (take_bytes size r) _ (view-IsWithin n size r h)
        (λ buffer r h. recover-IsWithin n _ session buffer r h)))

read_queue-IsWithin : (n : ℕ) (r : Range) → length r ≤ n → IsWithin n (read_queue r)
unfolding read_queue
read_queue-IsWithin n r h = >>=-IsWithin n (read_word r) _ (word-IsWithin n r h) (λ a r h.
    >>=-IsWithin n (read_word r) _ (word-IsWithin n r h) (λ b r h.
      >>=-IsWithin n (read_word r) _ (word-IsWithin n r h) (λ c r h.
        >>=-IsWithin n (read_word r) _ (word-IsWithin n r h)
          (λ d r h. >>=-IsWithin n (read_word r) _ (word-IsWithin n r h) (λ e r h. h)))))

read_data-IsWithin : (n : ℕ) (r : Range) → length r ≤ n → IsWithin n (read_data r)
unfolding read_data
read_data-IsWithin n r h = >>=-IsWithin n (read_word r) _ (word-IsWithin n r h) (λ session r h.
    >>=-IsWithin n (read_queue r) _ (read_queue-IsWithin n r h) (λ q r h.
      elim (Bool-cases (check_queue_invariants q)) [
        | inl e ↦ rw e (
            >>=-IsWithin n (take_bytes q.capacity r) _ (view-IsWithin n q.capacity r h)
              (λ buffer r h. recover-IsWithin n _ session _ r h))
        | inr e ↦ rw e tt
      ]))

found-shorter :
    (n : ℕ) (r : Range) (m : Option (RecoveredBuffer × Range))
    → length r ≤ n
    → IsWithin n m
    → length (found r m).1 ≤ n
found-shorter n r none h g = h
found-shorter n r (some (x, r')) h g = g

check_magic-shorter :
    (n : ℕ) (input magic behind : Range)
    → length input ≤ n
    → length behind ≤ n
    → length (check_magic input magic behind).1 ≤ n
unfolding check_magic
check_magic-shorter n input magic behind h k =
    pick {A = List RecoveredBuffer × Range} (λ p. length p.1 ≤ n) (equal magic metadata_magic)
      (found-shorter n behind (read_metadata behind) k (read_metadata-IsWithin n behind k))
      (pick {A = List RecoveredBuffer × Range} (λ p. length p.1 ≤ n) (equal magic data_magic)
        (found-shorter n behind (read_data behind) k (read_data-IsWithin n behind k)) h)

abbrev IsShort : ℕ → Option Range → Type 0
IsShort n none = Unit {0}
IsShort n (some r) = length r < n

longer : (n : ℕ) (o : Option Range) → IsShort n o → IsShort (suc n) o
longer n none h = tt
longer n (some r) h = omega arith

behind_byte-shorter : (c : ℕ) (r : Range) → IsShort (length r) (behind_byte c r)
unfolding behind_byte
behind_byte-shorter c [] = tt
behind_byte-shorter c (b ∷ r) =
    pick (IsShort (suc (length r))) (b == c) (omega arith)
      (longer (length r) (behind_byte c r) (behind_byte-shorter c r))

-- What a round of the loop leaves.
IsSome : {A : Type 0} → Option A → Type 0
IsSome {A} o = (x : A) × (o ≡ some x)

more-IsSome :
    (buffers : List RecoveredBuffer) (m : Option (List RecoveredBuffer))
    → IsSome m
    → IsSome (m >>= λ more. some (buffers ++ more))
unfolding IsSome
more-IsSome buffers m (x, e) = (buffers ++ x, ap (λ o. o >>= λ more. some (buffers ++ more)) e)

-- The rounds after a round.
abbrev Continues : ℕ → (Range → Option (List RecoveredBuffer)) → Type 0
Continues n k = (r : Range) → length r ≤ n → IsSome (k r)

magic-IsSome :
    (k : Range → Option (List RecoveredBuffer)) (n : ℕ) (input : Range)
    (o : Option (List ℕ × Range))
    → Continues n k
    → length input ≤ n
    → IsWithin n o
    → IsSome (search_magic k input o)
unfolding IsSome
magic-IsSome k n input none c h w = ([], refl)
magic-IsSome k n input (some (magic, behind)) c h w =
    let (buffers, next) = check_magic input (188 ∷ magic) behind in
    more-IsSome (check_magic input (188 ∷ magic) behind).0
      (k (check_magic input (188 ∷ magic) behind).1)
      (c (check_magic input (188 ∷ magic) behind).1
        (check_magic-shorter n input (188 ∷ magic) behind h w))

behind-IsSome :
    (k : Range → Option (List RecoveredBuffer)) (n : ℕ) (o : Option Range)
    → Continues n k
    → IsShort (suc n) o
    → IsSome (search_behind k o)
unfolding IsSome
behind-IsSome k n none c h = ([], refl)
behind-IsSome k n (some input) c h =
    magic-IsSome k n input (take_bytes 7 input) c (omega arith)
      (view-IsWithin n 7 input (omega arith))

shorter : (n m : ℕ) (o : Option Range) → n ≤ m → IsShort n o → IsShort m o
shorter n m none h k = tt
shorter n m (some r) h k = omega arith

-- The search of a dump ends: with more rounds than the dump has bytes it returns the list of the buffers
-- that it recovered.
pub search-IsSome :
    (f : ℕ) (input : Range)
    → length input < f
    → (buffers : List RecoveredBuffer) × (search f input ≡ some buffers)
unfolding search IsSome
search-IsSome zero input h = absurd (omega arith)
search-IsSome (suc zero) [] h = ([], refl)
search-IsSome (suc zero) (x ∷ input) h = absurd (omega arith)
search-IsSome (suc (suc f)) input h =
    behind-IsSome (λ r. search (suc f) r) f (behind_byte 188 input)
      (λ r k. search-IsSome (suc f) r (omega arith))
      (shorter (length input) (suc f) (behind_byte 188 input) (omega arith)
        (behind_byte-shorter 188 input))

-- A region of a buffer of `n` bytes: a pointer and a size.
abbrev pub IsInside : ℕ → Option ℕ → ℕ → Type 0
IsInside n none size = size ≡ 0
IsInside n (some i) size = i + size ≤ n

-- Whatever the dump holds: if a queue read from it passes the checks, the two regions that its reader returns are
-- inside of the buffer of the queue's capacity.
pub begin_read-IsInside :
    (q : Queue)
    → q.capacity < 2 ^ 64
    → check_queue_invariants q ≡ true
    → let rr = (begin_read q).0 in
      IsInside q.capacity rr.buffer1 rr.size1 × IsInside q.capacity rr.buffer2 rr.size2
unfolding begin_read view_with check_queue_invariants
begin_read-IsInside q h c = ground arith
