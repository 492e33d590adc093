-- ===== src/SessionWriter.antt =====
-- include/binlog/SessionWriter.hpp: events are serialized into the queue of the writer's channel; when it
-- is full, a new channel takes its place. The serialized arguments are given as the byte strings that
-- mserialize writes, one for each write.
pub mod Events
mod Tests
use btui.Prelude.{
  ℕ, ◌+◌, ◌*◌, ◌-◌, ◌%◌, ◌^◌, Bool, true, false, Option, none, some, List, [], ◌∷◌, ◌++◌, length,
  max, if◌then◌else◌,
}
use btui.Range.{le_bytes}
use btui.Entries.{WriterProp}
use btui.Queue
use btui.Queue.{Producer, begin_write, write_buffer, end_write, new_writer}

-- The channels that the writer has created in its session, in order: those that it has replaced, which are closed, and its
-- channel. Each is a queue with its writer, and the `writerProp` of the channel.
pub record SessionWriter : Type 0 where
  pub writer_prop : WriterProp
  pub current : Producer
  pub closed : List (WriterProp × Producer)

abbrev pub fresh_producer : List ℕ → ℕ → Producer
fresh_producer memory capacity = record { queue = Queue.new memory capacity; writer = new_writer }

-- The memory that a new channel of the given capacity gets, or `none` where allocation throws.
abbrev pub Allocator : Type 0
Allocator = ℕ → Option (List ℕ)

pub sum_length : List (List ℕ) → ℕ
sum_length [] = 0
sum_length (a ∷ rest) = length a + sum_length rest

-- `replaceChannel`: the new channel is registered behind the others, with the id and the name of the old one.
unfoldable pub replace_channel : Allocator → ℕ → SessionWriter → SessionWriter × Bool
replace_channel allocate min_capacity w =
    let capacity = max w.current.queue.capacity (2 * min_capacity) in
    elim (allocate capacity) [
      | none ↦ (w, false)
      | some memory ↦ (
        record {
          writer_prop = record w.writer_prop { batch_size = 0 };
          current = fresh_producer memory capacity;
          closed = w.closed ++ ((w.writer_prop, w.current) ∷ []);
        },
        true,
      )
    ]

-- A write for each field; `none` is a failed assertion of `writeBuffer`.
pub write_all : List (List ℕ) → Producer → Option Producer
write_all [] p = some p
write_all (f ∷ fs) p = elim (write_buffer f p) [ none ↦ none | some p' ↦ write_all fs p' ]

abbrev pub fields : ℕ → ℕ → ℕ → List (List ℕ) → List (List ℕ)
fields size id clock args = le_bytes 4 (size % 2 ^ 32) ∷ le_bytes 8 id ∷ le_bytes 8 clock ∷ args

-- The writes and the commit, on a queue with space for them.
unfoldable pub commit_event :
    ℕ → ℕ → ℕ → List (List ℕ) → SessionWriter → Option (SessionWriter × Bool)
unfolding write_all
commit_event size id clock args w = elim (write_all (fields size id clock args) w.current) [
  | none ↦ none
  | some p ↦ some (record w { current = end_write p }, true)
]

-- The second attempt of `addEvent`, after `replaceChannel`.
abbrev pub retry : ℕ → ℕ → ℕ → List (List ℕ) → SessionWriter → Option (SessionWriter × Bool)
retry size id clock args w =
    let (p, fits) = begin_write (size + 4) w.current in
    if fits
    then commit_event size id clock args (record w { current = p })
    else some (record w { current = p }, false)

unfoldable pub add_event :
    Allocator → ℕ → ℕ → List (List ℕ) → SessionWriter → Option (SessionWriter × Bool)
unfolding sum_length
add_event allocate id clock args w =
    let size = 8 + 8 + sum_length args in
    let (p, fits) = begin_write (size + 4) w.current in
    let w1 = record w { current = p } in
    if fits
    then commit_event size id clock args w1
    else retry size id clock args (replace_channel allocate (size + 4) w1).0
