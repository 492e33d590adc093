-- ===== src/Recovery/Scan.antt =====
-- The search ends, and finds what was put into the dump.
use btui.Prelude.{
  ==_refl, ne→==_false, ℕ, suc, ◌^◌, ◌<◌, ◌≡◌, ◌≢◌, refl, sym, true, some, List, [], ◌∷◌, ◌++◌,
  append_assoc, length, arith, All, le→ltb_false,
}
use btui.Range.{le_bytes}
use btui.Range.Words.{read-le_bytes, view-append_of_length}
use btui.Queue.{Queue, begin_read}
use btui.Queue.Invariant.{InBounds}
use btui.Queue.Contents.{contents, view_bytes-eq_unread_to}
use btui.Recovery.{
  ◌>>=◌, BufferType, metadata_magic, data_magic, check_entry_buffer, take_bytes, read_word,
  read_metadata, check_queue_invariants, read_queue, read_data, behind_byte, check_magic, search,
}
use btui.PrettyPrinter.{equal}

read_word-le_bytes :
    (v : ℕ) (rest : List ℕ) → v < 2 ^ 64 → read_word (le_bytes 8 v ++ rest) ≡ some (v, rest)
unfolding read_word
read_word-le_bytes v rest h = rw (read_word, read-le_bytes 8 v rest h) refl

take_bytes-append :
    (n : ℕ) (s rest : List ℕ) → length s ≡ n → take_bytes n (s ++ rest) ≡ some (s, rest)
unfolding take_bytes
take_bytes-append n s rest e = rw (take_bytes, view-append_of_length n s rest e) refl

-- Metadata in a dump, behind the magic number: the session, the size and the bytes.
abbrev pub metadata_bytes : ℕ → List ℕ → List ℕ
metadata_bytes session buffer = le_bytes 8 session ++ (le_bytes 8 (length buffer) ++ buffer)

read_metadata_lem :
    (session : ℕ) (buffer rest : List ℕ)
    → session < 2 ^ 64
    → length buffer < 2 ^ 64
    → check_entry_buffer buffer ≡ true
    → read_metadata (metadata_bytes session buffer ++ rest)
      ≡ some (record { kind = BufferType.metadata; session = session; buffer = buffer }, rest)
unfolding read_metadata
read_metadata_lem session buffer rest h k c =
    rw
      (
        append_assoc (le_bytes 8 session) (le_bytes 8 (length buffer) ++ buffer) rest,
        read_word-le_bytes session ((le_bytes 8 (length buffer) ++ buffer) ++ rest) h,
        append_assoc (le_bytes 8 (length buffer)) buffer rest,
        read_word-le_bytes (length buffer) (buffer ++ rest) k,
        take_bytes-append (length buffer) buffer rest refl,
        c,
      )
      refl

-- A queue in a dump: its members, the pointer to its buffer among them.
abbrev pub queue_bytes : ℕ → Queue → List ℕ
queue_bytes pointer q =
    le_bytes 8 q.write_index
    ++ (le_bytes 8 q.data_end
        ++ (le_bytes 8 q.capacity ++ (le_bytes 8 pointer ++ le_bytes 8 q.read_index)))

read_queue_lem :
    (pointer : ℕ) (q : Queue) (rest : List ℕ)
    → pointer < 2 ^ 64
    → InBounds q
    → read_queue (queue_bytes pointer q ++ rest) ≡ some (record q { buffer = [] }, rest)
unfolding read_queue
read_queue_lem pointer q rest h b =
    let a5 : List ℕ = le_bytes 8 q.read_index in
    let a4 : List ℕ = le_bytes 8 pointer ++ a5 in
    let a3 : List ℕ = le_bytes 8 q.capacity ++ a4 in
    let a2 : List ℕ = le_bytes 8 q.data_end ++ a3 in
    rw
      (
        append_assoc (le_bytes 8 q.write_index) a2 rest,
        read_word-le_bytes q.write_index (a2 ++ rest) (omega arith),
        append_assoc (le_bytes 8 q.data_end) a3 rest,
        read_word-le_bytes q.data_end (a3 ++ rest) (omega arith),
        append_assoc (le_bytes 8 q.capacity) a4 rest,
        read_word-le_bytes q.capacity (a4 ++ rest) (omega arith),
        append_assoc (le_bytes 8 pointer) a5 rest,
        read_word-le_bytes pointer (a5 ++ rest) h,
        read_word-le_bytes q.read_index rest (omega arith),
      )
      refl

read_data_lem :
    (session pointer : ℕ) (q : Queue) (rest : List ℕ)
    → session < 2 ^ 64
    → pointer < 2 ^ 64
    → InBounds q
    → q.capacity ≡ length q.buffer
    → check_entry_buffer (contents q) ≡ true
    → read_data (le_bytes 8 session ++ (queue_bytes pointer q ++ (q.buffer ++ rest)))
      ≡ some (record { kind = BufferType.plain_data; session = session; buffer = contents q }, rest)
unfolding read_data check_queue_invariants begin_read
read_data_lem session pointer q rest h k b e c =
    rw
      (
        read_word-le_bytes session (queue_bytes pointer q ++ (q.buffer ++ rest)) h,
        read_queue_lem pointer q (q.buffer ++ rest) k b,
        le→ltb_false q.capacity q.write_index (omega arith),
        le→ltb_false q.capacity q.data_end (omega arith),
        le→ltb_false q.capacity q.read_index (omega arith),
        take_bytes-append q.capacity q.buffer rest (sym e),
        view_bytes-eq_unread_to q.write_index q b (omega arith),
        c,
      )
      refl

behind_byte-append :
    (c : ℕ) (junk rest : List ℕ)
    → All (λ b. b ≢ c) junk
    → behind_byte c (junk ++ (c ∷ rest)) ≡ some rest
unfolding behind_byte
behind_byte-append c [] rest h = rw (==_refl c) refl
behind_byte-append c (b ∷ junk) rest (h, hs) =
    rw (ne→==_false b c h) (behind_byte-append c junk rest hs)

-- A search that meets metadata that is whole entries, behind bytes that are not the first of a magic number, recovers
-- it with its session, and goes on behind it.
pub search-metadata_bytes :
    (f session : ℕ) (junk buffer rest : List ℕ)
    → All (λ b. b ≢ 188) junk
    → session < 2 ^ 64
    → length buffer < 2 ^ 64
    → check_entry_buffer buffer ≡ true
    → search (suc f) (junk ++ (metadata_magic ++ (metadata_bytes session buffer ++ rest))) ≡ (
        search f rest >>= λ more.
        some (record { kind = BufferType.metadata; session = session; buffer = buffer } ∷ more))
unfolding search check_magic equal
search-metadata_bytes f session junk buffer rest j h k c =
    let body : List ℕ = metadata_bytes session buffer ++ rest in
    rw
      (
        behind_byte-append 188 junk (189 ∷ 53 ∷ 110 ∷ 114 ∷ 79 ∷ 33 ∷ 254 ∷ body) j,
        take_bytes-append 7 (189 ∷ 53 ∷ 110 ∷ 114 ∷ 79 ∷ 33 ∷ 254 ∷ []) body refl,
        read_metadata_lem session buffer rest h k c,
      )
      refl

-- A search that meets a queue with its magic number, session and buffer, behind bytes that are not the first of a magic
-- number, recovers what the queue's consumer would have read and goes on behind the buffer, where the queue is valid,
-- takes its whole buffer, and its unread bytes are whole entries.
pub search-queue_bytes :
    (f session pointer : ℕ) (q : Queue) (junk rest : List ℕ)
    → All (λ b. b ≢ 188) junk
    → session < 2 ^ 64
    → pointer < 2 ^ 64
    → InBounds q
    → q.capacity ≡ length q.buffer
    → check_entry_buffer (contents q) ≡ true
    → search (suc f) (
        junk
        ++ (data_magic ++ (le_bytes 8 session ++ (queue_bytes pointer q ++ (q.buffer ++ rest)))))
      ≡ (search f rest >>= λ more.
          some (
            record { kind = BufferType.plain_data; session = session; buffer = contents q } ∷ more))
unfolding search check_magic equal
search-queue_bytes f session pointer q junk rest j h k b e c =
    let body : List ℕ = le_bytes 8 session ++ (queue_bytes pointer q ++ (q.buffer ++ rest)) in
    rw
      (
        behind_byte-append 188 junk (188 ∷ 52 ∷ 109 ∷ 113 ∷ 63 ∷ 33 ∷ 254 ∷ body) j,
        take_bytes-append 7 (188 ∷ 52 ∷ 109 ∷ 113 ∷ 63 ∷ 33 ∷ 254 ∷ []) body refl,
        read_data_lem session pointer q rest h k b e c,
      )
      refl
