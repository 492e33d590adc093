-- ===== src/Queue/Invariant.antt =====
-- The representation invariant of the queue and its writer: every index is in the buffer, and the
-- region that the writer may fill holds no unread byte.
use btui.Prelude.{ℕ, ◌^◌, ◌≤◌, ◌<◌, ◌≡◌, ◌⊎◌, some, List, length, arith, length-blit}
use btui.Queue.{Queue, Producer, new, new_writer}
use btui.Queue.{maximize_with, begin_write, write_buffer, end_write}
use btui.Queue.{end_read}

-- The indices of the queue itself. A wrapped queue (`W` left of `R`) ends its data right of `R`.
pub record InBounds (q : Queue) : Type 0 where
  pub fits : q.capacity ≤ length q.buffer
  pub small : q.capacity < 2 ^ 63
  pub write_in : q.write_index ≤ q.capacity
  pub read_in : q.read_index ≤ q.capacity
  pub end_in : q.data_end ≤ q.capacity
  pub wrapped : (q.read_index ≤ q.write_index) ⊎ (q.read_index ≤ q.data_end)

-- The writer goes on from `W` and stops short of the reader and of the buffer's end,
pub record Onward (p : Producer) : Type 0 where
  pub from : p.queue.write_index ≤ p.writer.write_pos
  pub upto : p.writer.write_end ≤ p.queue.capacity
  pub short : (p.queue.read_index ≤ p.queue.write_index) ⊎ (p.writer.write_end < p.queue.read_index)

-- or it fills the buffer from the left, before the reader, with `E` left at `W`.
pub record Wrapping (p : Producer) : Type 0 where
  pub left : p.writer.write_end < p.queue.read_index
  pub unread : p.queue.read_index ≤ p.queue.write_index
  pub ended : p.queue.data_end ≡ p.queue.write_index

pub record IsValid (p : Producer) : Type 0 where
  pub bounds : InBounds p.queue
  pub order : p.writer.write_pos ≤ p.writer.write_end
  pub region : Onward p ⊎ Wrapping p

-- What a writer knows of the `readIndex` that it has loaded, while the reader moves on.
abbrev pub Stale : ℕ → Queue → Type 0
Stale rs q =
    ((q.write_index < rs)
      × (rs ≤ q.capacity)
      × ((rs ≤ q.read_index) ⊎ (q.read_index ≤ q.write_index)))
    ⊎ ((rs ≤ q.read_index) × (q.read_index ≤ q.write_index))

-- What a reader knows of the `writeIndex` that it has loaded, while the writer moves on.
abbrev pub ReadsTo : ℕ → Queue → Type 0
ReadsTo e q =
    ((q.read_index ≤ e) × (e ≤ q.write_index))
    ⊎ (((q.write_index < q.read_index) × (q.read_index ≤ e) × (e ≤ q.data_end))
        ⊎ ((e ≤ q.write_index) × (q.write_index < q.read_index)))

pub new-IsValid :
    (buffer : List ℕ) (capacity : ℕ)
    → capacity ≤ length buffer
    → capacity < 2 ^ 63
    → IsValid (record { queue = new buffer capacity; writer = new_writer })
unfolding new new_writer
new-IsValid buffer capacity h s = ground arith

pub maximize_with-IsValid :
    (rs : ℕ) {p : Producer} → IsValid p → Stale rs p.queue → IsValid (maximize_with rs p)
unfolding maximize_with
maximize_with-IsValid rs {p} v s = ground arith

pub Stale-now : (q : Queue) → InBounds q → Stale q.read_index q
Stale-now q b = omega arith

pub begin_write-IsValid : (n : ℕ) {p : Producer} → IsValid p → IsValid (begin_write n p).0
unfolding begin_write
begin_write-IsValid n {p} v =
    ground (arith, maximize_with-IsValid p.queue.read_index v, Stale-now p.queue v.bounds)

pub write_buffer-IsValid :
    (src : List ℕ) {p p' : Producer} → IsValid p → write_buffer src p ≡ some p' → IsValid p'
unfolding write_buffer
write_buffer-IsValid src {p} v e = ground (arith, length-blit p.writer.write_pos src p.queue.buffer)

pub end_write-IsValid : {p : Producer} → IsValid p → IsValid (end_write p)
unfolding end_write
end_write-IsValid {p} v = ground arith

pub end_read-IsValid :
    (e : ℕ) {p : Producer}
    → IsValid p
    → ReadsTo e p.queue
    → IsValid (record p { queue = end_read e p.queue })
unfolding end_read
end_read-IsValid e {p} v h = ground arith
