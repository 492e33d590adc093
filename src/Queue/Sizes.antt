-- ===== src/Queue/Sizes.antt =====
-- The sizes that the queue reports, against its contents: `unreadWriteSize`, `ReadResult::size` and
-- the result of `maximizeWriteCapacity` and `beginWrite`.
use btui.Prelude.{
  ℕ, ◌+◌, ◌-◌, ◌≤◌, ◌≡◌, ◌⊎◌, ◌↔◌, true, max, length, arith, leb, ltb, if◌then◌else◌, slice,
  length-slice, length-append,
}
use btui.Queue.{Queue, Producer, write_capacity, unread_write_size}
use btui.Queue.{maximize_write_capacity, begin_write}
use btui.Queue.{begin_read, size}
use btui.Queue.Invariant.{IsValid, InBounds}
use btui.Queue.Contents.{contents}

length-contents :
    (q : Queue)
    → InBounds q
    → length (contents q) ≡ (
        if leb q.read_index q.write_index
        then q.write_index - q.read_index
        else q.data_end - q.read_index + q.write_index)
length-contents q b = ground (
  arith,
  length-slice q.read_index (q.write_index - q.read_index) q.buffer,
  length-slice q.read_index (q.data_end - q.read_index) q.buffer,
  length-slice 0 q.write_index q.buffer,
  length-append (slice q.read_index (q.data_end - q.read_index) q.buffer)
      (slice 0 q.write_index q.buffer),
)

-- On a queue whose indices are in bounds: `unreadWriteSize` is the number of committed bytes
-- that are not yet read.
pub unread_write_size-length : (q : Queue) → InBounds q → unread_write_size q ≡ length (contents q)
unfolding unread_write_size
unread_write_size-length q b = rw (length-contents q b) (ground arith)

-- A view has the size of the contents.
pub size-begin_read : (q : Queue) → InBounds q → size (begin_read q).0 ≡ length (contents q)
unfolding begin_read size
size-begin_read q b = rw (length-contents q b) (ground arith)

-- The largest arena that the writer may fill without reaching the reader.
abbrev pub arena : Queue → ℕ
arena q =
    if ltb q.write_index q.read_index
    then q.read_index - 1 - q.write_index
    else max (q.capacity - q.write_index) (q.read_index - 1)

pub maximize_write_capacity-arena :
    {p : Producer} → IsValid p → (maximize_write_capacity p).1 ≡ arena p.queue
unfolding maximize_write_capacity
maximize_write_capacity-arena {p} v = ground arith

-- On a valid queue and writer: `beginWrite(n)` succeeds exactly when `n` bytes fit what is left
-- of the chosen region, or the largest arena; it succeeds exactly when at least `n` bytes are
-- writable after it.
pub begin_write_lem :
    (n : ℕ) {p : Producer}
    → IsValid p
    → (((begin_write n p).1 ≡ true) ↔ ((n ≤ write_capacity p.writer) ⊎ (n ≤ arena p.queue)))
      × ((begin_write n p).1 ≡ leb n (write_capacity (begin_write n p).0.writer))
unfolding begin_write
begin_write_lem n {p} v = (
  (
    (λ h. ground (arith, maximize_write_capacity-arena v)),
    λ h. ground (arith, maximize_write_capacity-arena v),
  ),
  ground arith,
)

-- On a valid queue and writer: no byte can be written exactly when the writer stands just before
-- the reader, or at the end of the buffer with the reader on one of its first two positions.
pub full_iff :
    {p : Producer}
    → IsValid p
    → ((maximize_write_capacity p).1 ≡ 0) ↔ (
        (p.queue.write_index + 1 ≡ p.queue.read_index)
        ⊎ ((p.queue.write_index ≡ p.queue.capacity) × (p.queue.read_index ≤ 1)))
full_iff {p} v = (
  (λ h. ground (arith, maximize_write_capacity-arena v)),
  λ h. ground (arith, maximize_write_capacity-arena v),
)
