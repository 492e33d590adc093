-- ===== src/Queue/Contents.antt =====
-- What the queue holds: the committed bytes that are not yet read, and the bytes that are written
-- but not yet committed. Reads and writes are described by these two lists alone.
use btui.Prelude.{
  ℕ, ◌+◌, ◌-◌, ◌≤◌, ◌≡◌, inl, inr, refl, ap, ◌∙◌, some, List, [], ◌++◌, append-nil, append_assoc,
  length, arith, leb, ltb, Bool-cases, leb→le, ltb→lt, ltb_false→le, if◌then◌else◌, slice, blit,
  slice_add, slice-blit_before, slice-blit_after, slice-blit_self,
}
use btui.Queue.{Queue, Producer}
use btui.Queue.{maximize_with, write_buffer, end_write}
use btui.Queue.{view_with, view_bytes, bytes_at, end_read}
use btui.Queue.Invariant.{IsValid, InBounds, ReadsTo, Stale}

-- The readable bytes up to index `e`: in one piece, or round the end of the data.
abbrev pub unread_to : ℕ → Queue → List ℕ
unread_to e q =
    if leb q.read_index e
    then slice q.read_index (e - q.read_index) q.buffer
    else (slice q.read_index (q.data_end - q.read_index) q.buffer ++ slice 0 e q.buffer)

abbrev pub contents : Queue → List ℕ
contents q = unread_to q.write_index q

-- The bytes written since the last commit.
abbrev pub pending : Producer → List ℕ
pending p =
    if leb p.queue.write_index p.writer.write_pos
    then slice p.queue.write_index (p.writer.write_pos - p.queue.write_index) p.queue.buffer
    else slice 0 p.writer.write_pos p.queue.buffer

slice_empty : (i : ℕ) (xs : List ℕ) → slice i 0 xs ≡ []
slice_empty i xs = refl

slice_split :
    (i j k : ℕ) (xs : List ℕ)
    → i ≤ j
    → j ≤ k
    → slice i (k - i) xs ≡ slice i (j - i) xs ++ slice j (k - j) xs
slice_split i j k xs h g =
    ap (λ n. slice i n xs) {x = k - i} {y = (j - i) + (k - j)} (omega arith)
    ∙ slice_add i (j - i) (k - j) xs
    ∙ ap (λ m. slice i (j - i) xs ++ slice m (k - j) xs) {x = i + (j - i)} {y = j} (omega arith)

-- What a reader finds behind its view is what is readable up to the `writeIndex` that it loaded.
pub view_bytes-eq_unread_to :
    (e : ℕ) (q : Queue)
    → InBounds q
    → ReadsTo e q
    → view_bytes (view_with e q) q.buffer ≡ unread_to e q
unfolding view_with view_bytes bytes_at
view_bytes-eq_unread_to e q b h = elim (Bool-cases (leb r e)) [
  | inl p ↦ rw p (append-nil _ ∙ ap (λ n. slice r n buf) (omega (arith, leb→le r e p)))
  | inr p ↦ elim (Bool-cases (ltb r q.data_end)) [
    | inl c ↦
        rw (p, c) (ap (λ n. slice r n buf ++ slice 0 e buf) (omega (arith, ltb→lt r q.data_end c)))
    | inr c ↦
        rw (p, c)
          (append-nil _
            ∙ ap (λ n. slice r n buf ++ slice 0 e buf) {x = 0} {y = q.data_end - r}
                (omega (arith, ltb_false→le r q.data_end c)))
  ]
]
  where
    r : ℕ
    r = q.read_index

    buf : List ℕ
    buf = q.buffer

-- Reading up to `e` and giving the bytes back drops just these bytes from the contents.
pub contents-end_read :
    (e : ℕ) (q : Queue)
    → InBounds q
    → ReadsTo e q
    → contents q ≡ unread_to e q ++ contents (end_read e q)
unfolding end_read
contents-end_read e q b h = ground (
  arith,
  slice_split q.read_index e q.write_index q.buffer,
  slice_split q.read_index e q.data_end q.buffer,
  slice_split 0 e q.write_index q.buffer,
  append_assoc (slice q.read_index (q.data_end - q.read_index) q.buffer) (slice 0 e q.buffer)
      (slice e (q.write_index - e) q.buffer),
  append_assoc (slice q.read_index (e - q.read_index) q.buffer) (slice e (q.data_end - e) q.buffer)
      (slice 0 q.write_index q.buffer),
)

-- Choosing a region to write to changes nothing for the reader.
pub unread_to-maximize :
    (rs e : ℕ) {p : Producer}
    → IsValid p
    → Stale rs p.queue
    → ReadsTo e p.queue
    → (unread_to e (maximize_with rs p).queue ≡ unread_to e p.queue)
      × ReadsTo e (maximize_with rs p).queue
      × (view_with e (maximize_with rs p).queue ≡ view_with e p.queue)
unfolding maximize_with view_with
unread_to-maximize rs e {p} v s h = ground arith

-- Uncommitted bytes are lost.
pub pending-maximize :
    (rs : ℕ) {p : Producer} → IsValid p → Stale rs p.queue → pending (maximize_with rs p) ≡ []
unfolding maximize_with
pending-maximize rs {p} v s = ground arith

-- A copy into the region changes no byte that a reader may look at, and is appended to `pending`.
pub unread_to-write_buffer :
    (src : List ℕ) (e : ℕ) {p p' : Producer}
    → IsValid p
    → write_buffer src p ≡ some p'
    → ReadsTo e p.queue
    → (unread_to e p'.queue ≡ unread_to e p.queue)
      × ReadsTo e p'.queue
      × (view_with e p'.queue ≡ view_with e p.queue)
unfolding write_buffer view_with
unread_to-write_buffer src e {p} {p'} v w h = ground (
  arith,
  slice-blit_before q.read_index (e - q.read_index) pos src q.buffer,
  slice-blit_after q.read_index (e - q.read_index) pos src q.buffer,
  slice-blit_before q.read_index (q.data_end - q.read_index) pos src q.buffer,
  slice-blit_after q.read_index (q.data_end - q.read_index) pos src q.buffer,
  slice-blit_before 0 e pos src q.buffer,
)
  where
    q : Queue
    q = p.queue

    pos : ℕ
    pos = p.writer.write_pos

pub pending-write_buffer :
    (src : List ℕ) {p p' : Producer}
    → IsValid p
    → write_buffer src p ≡ some p'
    → pending p' ≡ pending p ++ src
unfolding write_buffer
pending-write_buffer src {p} {p'} v w = ground (
  arith,
  slice-blit_before q.write_index (pos - q.write_index) pos src q.buffer,
  slice-blit_before 0 pos pos src q.buffer,
  slice-blit_self pos src q.buffer,
  slice_add q.write_index (pos - q.write_index) (length src) (blit pos src q.buffer),
  slice_add 0 pos (length src) (blit pos src q.buffer),
)
  where
    q : Queue
    q = p.queue

    pos : ℕ
    pos = p.writer.write_pos

-- A commit appends the pending bytes to the contents.
pub contents-end_write :
    {p : Producer} → IsValid p → contents (end_write p).queue ≡ contents p.queue ++ pending p
unfolding end_write
contents-end_write {p} v = ground (
  arith,
  slice_split q.read_index q.write_index p.writer.write_pos q.buffer,
  slice_split 0 q.write_index p.writer.write_pos q.buffer,
  append_assoc (slice q.read_index (q.data_end - q.read_index) q.buffer)
      (slice 0 q.write_index q.buffer)
      (slice q.write_index (p.writer.write_pos - q.write_index) q.buffer),
)
  where
    q : Queue
    q = p.queue

pub pending-end_write : (p : Producer) → pending (end_write p) ≡ []
unfolding end_write
pending-end_write p = ground arith

-- A commit leaves what a reader has in view.
pub unread_to-end_write :
    (e : ℕ) {p : Producer}
    → IsValid p
    → ReadsTo e p.queue
    → (unread_to e (end_write p).queue ≡ unread_to e p.queue)
      × ReadsTo e (end_write p).queue
      × (view_with e (end_write p).queue ≡ view_with e p.queue)
unfolding end_write view_with
unread_to-end_write e {p} v h = ground arith

pub ReadsTo-now : (q : Queue) → InBounds q → ReadsTo q.write_index q
ReadsTo-now q b = omega arith

pub contents-maximize :
    (rs : ℕ) {p : Producer}
    → IsValid p
    → Stale rs p.queue
    → contents (maximize_with rs p).queue ≡ contents p.queue
unfolding maximize_with
contents-maximize rs {p} v s = ground arith

pub contents-write_buffer :
    (src : List ℕ) {p p' : Producer}
    → IsValid p
    → write_buffer src p ≡ some p'
    → contents p'.queue ≡ contents p.queue
unfolding write_buffer
contents-write_buffer src {p} {p'} v w =
    ground
      (arith, unread_to-write_buffer src p.queue.write_index v w (ReadsTo-now p.queue v.bounds))
