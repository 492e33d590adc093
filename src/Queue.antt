-- ===== src/Queue.antt =====
-- include/binlog/detail/Queue.hpp, QueueWriter.hpp and QueueReader.hpp: the lock free queue of bytes
-- between one producer and one consumer. A pointer into the buffer is an index into it, a null
-- pointer is `none`, and a `std::size_t` difference wraps at 2 ^ 64.
pub mod Invariant
pub mod Contents
pub mod Sizes
pub mod Fifo
pub mod Concurrent
mod Tests
use btui.Prelude.{
  ℕ, ◌+◌, ◌-◌, ◌%◌, ◌^◌, Bool, true, Option, none, some, List, length, leb, ltb, if◌then◌else◌,
  sub64, to_i64, slice, blit, ◌++◌, [],
}
use btui.Prelude.Int.{pos, pos_part, ◌+ℤ◌, ◌-ℤ◌, leb_ℤ}

-- The indices that writer and reader share, and the buffer.
pub record Queue : Type 0 where
  pub write_index : ℕ
  pub data_end : ℕ
  pub capacity : ℕ
  pub buffer : List ℕ
  pub read_index : ℕ

-- `Queue(buffer, capacity)`
unfoldable pub new : List ℕ → ℕ → Queue
new buffer capacity = record {
  write_index = 0;
  data_end = 0;
  capacity = capacity;
  buffer = buffer;
  read_index = 0;
}

-- `_writePos` and `_writeEnd` as offsets from `buffer()`.
pub record QueueWriter : Type 0 where
  pub write_pos : ℕ
  pub write_end : ℕ

unfoldable pub new_writer : QueueWriter
new_writer = record { write_pos = 0; write_end = 0 }

-- What a writer's method reads and updates.
pub record Producer : Type 0 where
  pub queue : Queue
  pub writer : QueueWriter

unfoldable pub write_capacity : QueueWriter → ℕ
write_capacity w = sub64 w.write_end w.write_pos

-- `unreadWriteSize`: `size_t` arithmetic, in the order of the source.
unfoldable pub unread_write_size : Queue → ℕ
unread_write_size q =
    if leb q.read_index q.write_index
    then sub64 q.write_index q.read_index
    else (sub64 q.data_end q.read_index + q.write_index) % 2 ^ 64

-- `maximizeWriteCapacity` after its two loads: `w` is `writeIndex`, which only the writer changes,
-- and `r` is the `readIndex` that it has loaded.
unfoldable pub maximize_with : ℕ → Producer → Producer
maximize_with r p =
    let q = p.queue in
    let w = q.write_index in
    let right_size = to_i64 (sub64 q.capacity w) in
    let left_size = to_i64 r -ℤ pos 1 in
    if ltb w r
    then record p { writer = record { write_pos = w; write_end = r - 1 } }
    else (if leb_ℤ left_size right_size
        then record p {
          writer = record { write_pos = w; write_end = pos_part (pos w +ℤ right_size) };
        }
        else record {
          queue = record q { data_end = w };
          writer = record { write_pos = 0; write_end = pos_part left_size };
        })

unfoldable pub maximize_write_capacity : Producer → Producer × ℕ
unfolding maximize_with write_capacity
maximize_write_capacity p =
    let p' = maximize_with p.queue.read_index p in (p', write_capacity p'.writer)

unfoldable pub begin_write : ℕ → Producer → Producer × Bool
unfolding maximize_write_capacity
begin_write size p =
    if leb size (write_capacity p.writer)
    then (p, true)
    else (let (p', available) = maximize_write_capacity p in (p', leb size available))

-- `writeBuffer`; `none` is the failed assertion.
unfoldable pub write_buffer : List ℕ → Producer → Option Producer
unfolding blit
write_buffer src p =
    let q = p.queue in
    let w = p.writer in
    if leb (w.write_pos + length src) w.write_end
    then some (record {
      queue = record q { buffer = blit w.write_pos src q.buffer };
      writer = record w { write_pos = w.write_pos + length src };
    })
    else none

unfoldable pub end_write : Producer → Producer
end_write p = record p { queue = record p.queue { write_index = p.writer.write_pos } }

-- The two buffers that a read returns: offset (`none` for `nullptr`) and size.
pub record ReadResult : Type 0 where
  pub buffer1 : Option ℕ
  pub size1 : ℕ
  pub buffer2 : Option ℕ
  pub size2 : ℕ

unfoldable pub size : ReadResult → ℕ
size rr = rr.size1 + rr.size2

-- `beginRead` after its loads: `w` is the `writeIndex` that it has loaded and keeps in `_readEnd`.
unfoldable pub view_with : ℕ → Queue → ReadResult
view_with w q =
    let r = q.read_index in
    if leb r w
    then record { buffer1 = some r; size1 = sub64 w r; buffer2 = none; size2 = 0 }
    else (if ltb r q.data_end
        then record { buffer1 = some r; size1 = sub64 q.data_end r; buffer2 = some 0; size2 = w }
        else record { buffer1 = some 0; size1 = w; buffer2 = none; size2 = 0 })

-- `beginRead` returns the view, and `_readEnd`.
unfoldable pub begin_read : Queue → ReadResult × ℕ
unfolding view_with
begin_read q = (view_with q.write_index q, q.write_index)

-- `endRead` with the stored `_readEnd`.
unfoldable pub end_read : ℕ → Queue → Queue
end_read read_end q = record q { read_index = read_end }

-- The bytes that a consumer finds behind a pointer and a size.
unfoldable pub bytes_at : Option ℕ → ℕ → List ℕ → List ℕ
bytes_at none n buf = []
bytes_at (some i) n buf = slice i n buf

unfoldable pub view_bytes : ReadResult → List ℕ → List ℕ
unfolding bytes_at
view_bytes rr buf = bytes_at rr.buffer1 rr.size1 buf ++ bytes_at rr.buffer2 rr.size2 buf
