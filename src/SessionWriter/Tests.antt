-- ===== src/SessionWriter/Tests.antt =====
-- An event with one argument byte, of 21 bytes, on queues of 32 and of 8.
use btui.Prelude.{
  ℕ, zero, suc, ap, ◌+◌, ◌*◌, ◌<◌, ◌^◌, ◌≡◌, refl, true, false, none, some, List, [], ◌∷◌, ◌++◌,
  length, max, arith,
}
use btui.Queue.{
  Producer, begin_write, maximize_with, maximize_write_capacity, write_capacity, new, new_writer,
}
use btui.Queue.Invariant.{IsValid, new-IsValid}
use btui.Queue.Contents.{contents}
use btui.SessionWriter.{SessionWriter, Allocator, fresh_producer, sum_length, add_event}
use btui.SessionWriter.Events.{
  event_entry, add_event_in_place, add_event_in_new_channel, add_event_fails,
}

zeros : ℕ → List ℕ
zeros zero = []
zeros (suc n) = 0 ∷ zeros n

length-zeros : (n : ℕ) → length (zeros n) ≡ n
unfolding zeros
length-zeros zero = refl
length-zeros (suc n) = ap suc (length-zeros n)

abbrev writer_of : ℕ → SessionWriter
writer_of n = record {
  writer_prop = record { id = 7; name = 119 ∷ []; batch_size = 30 };
  current = fresh_producer (zeros n) n;
  closed = [];
}

writer_of-IsValid : (n : ℕ) → n < 2 ^ 63 → IsValid (writer_of n).current
writer_of-IsValid n h = new-IsValid (zeros n) n (omega (arith, length-zeros n)) h

abbrev args : List (List ℕ)
args = (5 ∷ []) ∷ []

abbrev plenty : Allocator
plenty n = some (zeros n)

abbrev nothing_left : Allocator
nothing_left n = none

fits_32 : (begin_write (16 + sum_length args + 4) (writer_of 32).current).1 ≡ true
unfolding begin_write maximize_write_capacity maximize_with write_capacity new new_writer sum_length
fits_32 = refl

full_8 : (begin_write (16 + sum_length args + 4) (writer_of 8).current).1 ≡ false
unfolding begin_write maximize_write_capacity maximize_with write_capacity new new_writer sum_length
full_8 = refl

size_21 : 16 + sum_length args + 4 ≡ 21
unfolding sum_length
size_21 = refl

add_event_in_place_example :
    (p : Producer) × (add_event plenty 1 1000 args (writer_of 32)
      ≡ some (record (writer_of 32) { current = p }, true))
    × IsValid p
    × (contents p.queue ≡ contents (writer_of 32).current.queue ++ event_entry 1 1000 args)
unfolding new new_writer
add_event_in_place_example =
    add_event_in_place plenty 1 1000 args (writer_of-IsValid 32 (omega arith)) refl fits_32

add_event_in_new_channel_example :
    (p old : Producer) × (add_event plenty 1 1000 args (writer_of 8)
      ≡ some (
        record {
          writer_prop = record (writer_of 8).writer_prop { batch_size = 0 };
          current = p;
          closed = (writer_of 8).closed ++ (((writer_of 8).writer_prop, old) ∷ []);
        },
        true,
      ))
    × IsValid p
    × (contents p.queue ≡ event_entry 1 1000 args)
    × IsValid old
    × (contents old.queue ≡ contents (writer_of 8).current.queue)
add_event_in_new_channel_example =
    add_event_in_new_channel plenty 1 1000 args
      (zeros (max (writer_of 8).current.queue.capacity (2 * (16 + sum_length args + 4))))
      (writer_of 8) (writer_of-IsValid 8 (omega arith)) full_8 refl
      (omega (
        arith,
        length-zeros (max (writer_of 8).current.queue.capacity (2 * (16 + sum_length args + 4))),
      ))
      (omega (arith, size_21))

add_event_fails_example :
    (p : Producer) × (add_event nothing_left 1 1000 args (writer_of 8)
      ≡ some (record (writer_of 8) { current = p }, false))
    × IsValid p
    × (contents p.queue ≡ contents (writer_of 8).current.queue)
add_event_fails_example =
    add_event_fails nothing_left 1 1000 args (writer_of 8) (writer_of-IsValid 8 (omega arith))
      full_8 refl
