-- ===== src/Queue/Fifo.antt =====
-- Whole calls of `QueueWriter` and `QueueReader`: a batch that is written is appended to the queue's
-- contents, and a read empties the queue.
use btui.Prelude.{
  ℕ, ◌+◌, ◌≤◌, ◌≡◌, sym, ap, ap₂, ◌∙◌, true, some, List, [], ◌++◌, length, arith, leb, leb→le, blit,
  ◌⊎◌, inl, inr, Bool-cases,
}
use btui.Queue.{
  Queue, Producer, write_capacity, maximize_with, begin_write, write_buffer, end_write,
}
use btui.Queue.{begin_read, view_bytes, end_read}
use btui.Queue.Invariant.{IsValid, InBounds, Stale-now, begin_write-IsValid, write_buffer-IsValid}
use btui.Queue.Contents.{
  contents, pending, ReadsTo-now, view_bytes-eq_unread_to, pending-maximize, contents-maximize,
  contents-write_buffer, pending-write_buffer, contents-end_write,
}
use btui.Queue.Sizes.{begin_write_lem}

begin_write_cases :
    (n : ℕ) (p : Producer)
    → ((begin_write n p).0 ≡ p) ⊎ ((begin_write n p).0 ≡ maximize_with p.queue.read_index p)
unfolding begin_write
begin_write_cases n p = elim (Bool-cases (leb n (write_capacity p.writer))) [
  | inl e ↦ inl (rw e)
  | inr e ↦ inr (rw e)
]

pub contents-begin_write :
    (n : ℕ) {p : Producer} → IsValid p → contents (begin_write n p).0.queue ≡ contents p.queue
contents-begin_write n {p} v = elim (begin_write_cases n p) [
  | inl e ↦ ap (λ x. contents x.queue) e
  | inr e ↦
      ap (λ x. contents x.queue) e
      ∙ contents-maximize p.queue.read_index v (Stale-now p.queue v.bounds)
]

pub pending-begin_write :
    (n : ℕ) {p : Producer} → IsValid p → pending p ≡ [] → pending (begin_write n p).0 ≡ []
pending-begin_write n {p} v e = elim (begin_write_cases n p) [
  | inl k ↦ ap pending k ∙ e
  | inr k ↦ ap pending k ∙ pending-maximize p.queue.read_index v (Stale-now p.queue v.bounds)
]

-- The assertion of `writeBuffer` holds where `writeCapacity()` is at least the size.
pub write_buffer-some :
    (src : List ℕ) {p : Producer}
    → IsValid p
    → length src ≤ write_capacity p.writer
    → (p' : Producer) × (write_buffer src p ≡ some p')
unfolding write_buffer write_capacity
write_buffer-some src {p} v h = (
  record {
    queue = record p.queue { buffer = blit p.writer.write_pos src p.queue.buffer };
    writer = record p.writer { write_pos = p.writer.write_pos + length src };
  },
  ground arith,
)

-- On a valid queue and writer with nothing uncommitted: if `beginWrite` accepts the size of a
-- batch, then `writeBuffer` does not fail its assertion, and `endWrite` appends exactly the
-- batch to the contents.
pub batch_appends :
    (src : List ℕ) {p : Producer}
    → IsValid p
    → pending p ≡ []
    → (begin_write (length src) p).1 ≡ true
    → (p' : Producer) × (write_buffer src (begin_write (length src) p).0 ≡ some p')
      × (contents (end_write p').queue ≡ contents p.queue ++ src)
batch_appends src {p} v none_pending ok =
    let v1 = begin_write-IsValid (length src) v in
    let fits : length src ≤ write_capacity (begin_write (length src) p).0.writer =
      leb→le _ _ (sym (begin_write_lem (length src) v).1 ∙ ok) in
    let (p', w) = write_buffer-some src v1 fits in
    (
      p',
      w,
      contents-end_write (write_buffer-IsValid src v1 w)
          ∙ ap₂ (◌++◌) (contents-write_buffer src v1 w ∙ contents-begin_write (length src) v) (
              pending-write_buffer src v1 w
              ∙ ap (λ l. l ++ src) (pending-begin_write (length src) v none_pending)),
    )

-- On a queue whose indices are in bounds: `beginRead` shows the whole contents, in order, and
-- `endRead` leaves the queue empty.
pub read_drains :
    {q : Queue}
    → InBounds q
    → (view_bytes (begin_read q).0 q.buffer ≡ contents q)
      × (contents (end_read (begin_read q).1 q) ≡ [])
unfolding begin_read end_read
read_drains {q} b = (view_bytes-eq_unread_to q.write_index q b (ReadsTo-now q b), ground arith)
