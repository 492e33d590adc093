-- ===== src/Recovery.antt =====
-- bin/brecovery.cpp: finding metadata and queues in a memory dump. The position in the file is the list of the bytes
-- behind it; a failed read of the stream makes the functions return false, which is `none`. A pointer and a
-- `std::size_t` are eight bytes, a `Queue` is five of them: the layouts of a 64 bit platform.
pub mod Scan
pub mod Ends
pub mod Streams
pub mod Output
mod Tests
use btui.Prelude.{
  ℕ, zero, suc, ◌+◌, ◌-◌, ◌^◌, Bool, true, false, ◌&&◌, Option, none, some, List, [], ◌∷◌, ◌++◌,
  length, take, drop, ltb, ◌==◌, if◌then◌else◌,
}
use btui.Result.{Result, ok, throw}
use btui.Range.{Range, read, view, le_bytes}
use btui.Queue.{Queue, begin_read, view_bytes}
use btui.PrettyPrinter.{equal}

-- A read that fails leaves out what follows.
infixl 5 ◌>>=◌
abbrev pub ◌>>=◌ : {A B : Type 0} → Option A → (A → Option B) → Option B
none >>= next = none
some x >>= next = next x

pub data BufferType : Type 0 where
  metadata : BufferType
  plain_data : BufferType

pub record RecoveredBuffer : Type 0 where
  pub kind : BufferType
  pub session : ℕ
  pub buffer : List ℕ

-- `toArray(0xFE214F726E35BDBC)` and `toArray(0xFE213F716D34BCBC)`
abbrev pub metadata_magic : List ℕ
metadata_magic = 188 ∷ 189 ∷ 53 ∷ 110 ∷ 114 ∷ 79 ∷ 33 ∷ 254 ∷ []

abbrev pub data_magic : List ℕ
data_magic = 188 ∷ 188 ∷ 52 ∷ 109 ∷ 113 ∷ 63 ∷ 33 ∷ 254 ∷ []

-- The loop of `checkEntryBuffer`; false if it throws. A round for each byte is enough.
abbrev pub check_entry : (Range → Bool) → Result (List ℕ × Range) → Bool
check_entry k (throw e) = false
check_entry k (ok (entry, rest)) = k rest

abbrev pub check_size : (Range → Bool) → Result (ℕ × Range) → Bool
check_size k (throw e) = false
check_size k (ok (size, rest)) = check_entry k (view size rest)

unfoldable pub check_from : ℕ → Range → Bool
check_from zero range = true
check_from (suc f) [] = true
check_from (suc f) (b ∷ range) = check_size (λ r. check_from f r) (read 4 (b ∷ range))

unfoldable pub check_entry_buffer : List ℕ → Bool
unfolding check_from
check_entry_buffer buffer = check_from (length buffer) buffer

-- A read of `n` bytes, if there are so many.
unfoldable pub take_bytes : ℕ → Range → Option (List ℕ × Range)
take_bytes n input = elim (view n input) [ throw e ↦ none | ok r ↦ some r ]

unfoldable pub read_word : Range → Option (ℕ × Range)
read_word input = elim (read 8 input) [ throw e ↦ none | ok r ↦ some r ]

-- The bytes of the metadata, and the recovered buffer.
abbrev pub recover : BufferType → ℕ → List ℕ → Range → Option (RecoveredBuffer × Range)
recover kind session buffer rest =
    if check_entry_buffer buffer
    then some (record { kind = kind; session = session; buffer = buffer }, rest)
    else none

unfoldable pub read_metadata : Range → Option (RecoveredBuffer × Range)
unfolding read_word take_bytes
read_metadata input = do
  (session, input) ← read_word input
  (size, input) ← read_word input
  (buffer, rest) ← take_bytes size input
  recover BufferType.metadata session buffer rest

unfoldable pub check_queue_invariants : Queue → Bool
check_queue_invariants queue =
    if ltb queue.capacity queue.write_index
    then false
    else (if ltb queue.capacity queue.data_end
        then false
        else (if ltb queue.capacity queue.read_index then false else true))

-- The members of the queue, in order; its buffer is read behind it.
unfoldable pub read_queue : Range → Option (Queue × Range)
unfolding read_word
read_queue input = do
  (write_index, input) ← read_word input
  (data_end, input) ← read_word input
  (capacity, input) ← read_word input
  (buffer, input) ← read_word input
  (read_index, input) ← read_word input
  some (
    record {
      write_index = write_index;
      data_end = data_end;
      capacity = capacity;
      buffer = [];
      read_index = read_index;
    },
    input,
  )

-- The data that a `QueueReader` would read.
abbrev pub queue_data : Queue → List ℕ
queue_data queue = view_bytes (begin_read queue).0 queue.buffer

abbrev pub read_buffer : ℕ → Queue → Range → Option (RecoveredBuffer × Range)
read_buffer session queue input = do
  (buffer, rest) ← take_bytes queue.capacity input
  recover BufferType.plain_data session (queue_data (record queue { buffer = buffer })) rest

unfoldable pub read_data : Range → Option (RecoveredBuffer × Range)
unfolding read_word take_bytes read_queue
read_data input = do
  (session, input) ← read_word input
  (queue, input) ← read_queue input
  if check_queue_invariants queue then read_buffer session queue input else none

-- `input.ignore(max, firstMagicByte)`: what stands behind the first such byte.
unfoldable pub behind_byte : ℕ → Range → Option Range
behind_byte c [] = none
behind_byte c (b ∷ input) = if b == c then some input else behind_byte c input

-- The buffer, if one is found, and the position to go on from: behind the buffer, behind the magic number, or
-- behind its first byte.
abbrev pub found : Range → Option (RecoveredBuffer × Range) → List RecoveredBuffer × Range
found after_magic none = ([], after_magic)
found after_magic (some (buffer, rest)) = (buffer ∷ [], rest)

unfoldable pub check_magic : Range → List ℕ → Range → List RecoveredBuffer × Range
unfolding read_metadata read_data equal
check_magic input magic after_magic =
    if equal magic metadata_magic
    then found after_magic (read_metadata after_magic)
    else (if equal magic data_magic then found after_magic (read_data after_magic) else ([], input))

-- A round of the loop of `main`, with `k` for the rounds after it. If there are fewer than seven bytes, the stream
-- fails and the loop ends.
abbrev pub search_magic :
    (Range → Option (List RecoveredBuffer))
    → Range
    → Option (List ℕ × Range)
    → Option (List RecoveredBuffer)
search_magic k input none = some []
search_magic k input (some (magic, after_magic)) =
    let (buffers, next) = check_magic input (188 ∷ magic) after_magic in
    do more ← k next; some (buffers ++ more)

abbrev pub search_behind :
    (Range → Option (List RecoveredBuffer)) → Option Range → Option (List RecoveredBuffer)
search_behind k none = some []
search_behind k (some input) = search_magic k input (take_bytes 7 input)

-- The loop, with fuel.
unfoldable pub search : ℕ → Range → Option (List RecoveredBuffer)
unfolding behind_byte take_bytes check_magic
search zero input = none
search (suc f) input = search_behind (λ next. search f next) (behind_byte 188 input)
