-- ===== src/Queue/Tests.antt =====
-- The queue on small buffers.
use btui.Prelude.{
  ℕ, ◌+◌, ◌≤◌, ◌≡◌, ◌↔◌, ◌⊎◌, inr, refl, true, none, some, List, [], ◌∷◌, ◌++◌, length, arith,
}
use btui.Queue.{
  Queue, Producer, ReadResult, new, new_writer, maximize_with, begin_write, write_buffer, end_write,
  end_read, view_bytes, write_capacity, maximize_write_capacity, view_with,
}
use btui.Queue.Invariant.{InBounds, IsValid, new-IsValid}
use btui.Queue.Contents.{contents}
use btui.Queue.Sizes.{full_iff}
use btui.Queue.Concurrent.{System, ReaderPhase, Step, Reach, start, fifo, viewed_front}

abbrev zeros : List ℕ
zeros = 0 ∷ 0 ∷ 0 ∷ 0 ∷ []

abbrev bytes : List ℕ
bytes = 7 ∷ 8 ∷ []

abbrev fresh : Producer
fresh = record { queue = new zeros 4; writer = new_writer }

fresh-IsValid : IsValid fresh
fresh-IsValid = new-IsValid zeros 4 (omega arith) (omega arith)

-- Two unread bytes at the end, and one that went round it.
abbrev wrapped : Queue
wrapped = record {
  write_index = 1;
  data_end = 4;
  capacity = 4;
  buffer = 9 ∷ 0 ∷ 7 ∷ 8 ∷ [];
  read_index = 2;
}

wrapped-InBounds : InBounds wrapped
wrapped-InBounds = record {
  fits = omega arith;
  small = omega arith;
  write_in = omega arith;
  read_in = omega arith;
  end_in = omega arith;
  wrapped = inr (omega arith);
}

contents-wrapped : contents wrapped ≡ 7 ∷ 8 ∷ 9 ∷ []
contents-wrapped = refl

full_iff_example : ((maximize_write_capacity fresh).1 ≡ 0) ↔ (
    (fresh.queue.write_index + 1 ≡ fresh.queue.read_index)
    ⊎ ((fresh.queue.write_index ≡ fresh.queue.capacity) × (fresh.queue.read_index ≤ 1)))
full_iff_example = full_iff fresh-IsValid

begin_write-fresh : (begin_write (length bytes) fresh).1 ≡ true
unfolding begin_write maximize_write_capacity maximize_with write_capacity new new_writer
begin_write-fresh = refl

-- The writer takes the buffer, writes two bytes and commits them, and the reader shows them.
abbrev maximized : Producer
maximized = maximize_with 0 fresh

abbrev written : Producer
written = record {
  queue = record (new zeros 4) { buffer = 7 ∷ 8 ∷ 0 ∷ 0 ∷ [] };
  writer = record { write_pos = 2; write_end = 4 };
}

write_bytes : write_buffer bytes maximized ≡ some written
unfolding write_buffer maximize_with new new_writer
write_bytes = refl

abbrev begun : System
begun = start zeros 4

abbrev committed : System
committed = record begun { producer = end_write written; written = [] ++ bytes }

Reach-committed : Reach begun committed
unfolding new
Reach-committed =
    Reach.next
      (Reach.next (Reach.next (Reach.next Reach.here (Step.load_read refl)) (Step.maximize 0 refl))
        (Step.write bytes written refl write_bytes))
      (Step.commit refl)

abbrev shown : ReadResult
shown = record { buffer1 = some 0; size1 = 2; buffer2 = none; size2 = 0 }

abbrev viewing : System
viewing = record committed { reader_phase = ReaderPhase.viewing 2 shown }

Reach-viewing : Reach begun viewing
unfolding new end_write view_with
Reach-viewing = Reach.next (Reach.next Reach-committed (Step.load_write refl)) (Step.view 2 refl)

fifo_example : committed.written ≡ committed.consumed ++ contents committed.producer.queue
fifo_example = fifo zeros 4 (omega arith) (omega arith) Reach-committed

viewed_front_example :
    contents viewing.producer.queue
    ≡ view_bytes shown viewing.producer.queue.buffer ++ contents (end_read 2 viewing.producer.queue)
viewed_front_example = viewed_front zeros 4 2 shown (omega arith) (omega arith) Reach-viewing refl
