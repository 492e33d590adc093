-- ===== src/Session.antt =====
-- include/binlog/Session.hpp: a session owns the channels of its writers and the metadata, and moves
-- both to an output. Every method runs under the session's lock. The bytes passed to `out.write` are
-- returned as one list.
pub mod Consume
mod Tests
use btui.Prelude.{
  ℕ, ◌+◌, ◌-◌, ◌%◌, ◌^◌, Bool, true, false, List, [], ◌∷◌, ◌++◌, length, if◌then◌else◌, slice, ◌==◌,
}
use btui.Severity.{Severity, trace}
use btui.Entries.{
  EventSource, WriterProp, ClockSync, Entry, event_source_entry, writer_prop_entry,
  clock_sync_entry, serialize_size_prefixed_tagged,
}
use btui.Queue
use btui.Queue.{Queue, Producer, ReadResult, size, begin_read, end_read, bytes_at, new_writer}

-- A channel with its queue; `shared` says that a writer holds it (`use_count() != 1`).
pub record Channel : Type 0 where
  pub queue : Queue
  pub writer_prop : WriterProp
  pub shared : Bool

pub record ConsumeResult : Type 0 where
  pub bytes_consumed : ℕ
  pub total_bytes_consumed : ℕ
  pub channels_polled : ℕ
  pub channels_removed : ℕ

pub record Session : Type 0 where
  pub channels : List Channel
  pub clock_sync : List ℕ
  pub sources : List ℕ
  pub sources_consume_pos : ℕ
  pub next_source_id : ℕ
  pub total_consumed_bytes : ℕ
  pub min_severity : Severity
  pub consume_clock_sync : Bool

-- `Session()`, with the value of `systemClockSync()`.
unfoldable pub new : ClockSync → Session
new system = record {
  channels = [];
  clock_sync = (serialize_size_prefixed_tagged system).0;
  sources = [];
  sources_consume_pos = 0;
  next_source_id = 1;
  total_consumed_bytes = 0;
  min_severity = trace;
  consume_clock_sync = true;
}

-- `createChannel`, with the memory that the queue gets.
unfoldable pub create_channel : List ℕ → ℕ → WriterProp → Session → Session
create_channel memory capacity wp s = record s {
  channels =
      s.channels
      ++ (record { queue = Queue.new memory capacity; writer_prop = wp; shared = true } ∷ []);
}

-- `setChannelWriterId`, `setChannelWriterName`
unfoldable pub set_channel_writer_id : ℕ → Channel → Channel
set_channel_writer_id id ch = record ch { writer_prop = record ch.writer_prop { id = id } }

unfoldable pub set_channel_writer_name : List ℕ → Channel → Channel
set_channel_writer_name name ch = record ch { writer_prop = record ch.writer_prop { name = name } }

unfoldable pub add_event_source : EventSource → Session → Session × ℕ
add_event_source source s =
    let entry = record source { id = s.next_source_id } in
    (
      record s {
        sources = s.sources ++ (serialize_size_prefixed_tagged entry).0;
        next_source_id = (s.next_source_id + 1) % 2 ^ 64;
      },
      s.next_source_id,
    )

unfoldable pub set_min_severity : Severity → Session → Session
set_min_severity severity s = record s { min_severity = severity }

unfoldable pub set_clock_sync : ClockSync → Session → Session
set_clock_sync sync s = record s {
  clock_sync = s.clock_sync ++ (serialize_size_prefixed_tagged sync).0;
  consume_clock_sync = true;
}

-- `consumeSpecialEntry`: the bytes written, and their number as returned.
abbrev pub consume_special_entry : WriterProp → List ℕ × ℕ
consume_special_entry entry = serialize_size_prefixed_tagged entry

-- The body of the loop over the channels up to `isClosed`: the channel after it, the bytes written,
-- and what is added to `bytesConsumed`.
unfoldable pub consume_channel : Channel → Channel × List ℕ × ℕ
consume_channel ch =
    let (view, read_end) = begin_read ch.queue in
    let wp = record ch.writer_prop { batch_size = size view } in
    let (entry, entry_size) = consume_special_entry wp in
    let first = bytes_at view.buffer1 view.size1 ch.queue.buffer in
    let second = if view.size2 == 0 then [] else bytes_at view.buffer2 view.size2 ch.queue.buffer in
    if size view == 0 then (ch, [], 0) else (
      record ch { queue = end_read read_end ch.queue; writer_prop = wp },
      entry ++ (first ++ second),
      entry_size + size view,
    )

-- What the loop has done: the channels that are kept, in order, the bytes, and the counts.
pub record Polled : Type 0 where
  pub kept : List Channel
  pub written : List ℕ
  pub consumed : ℕ
  pub polled : ℕ
  pub removed : ℕ

abbrev pub keep : Bool → Channel → List Channel → List Channel
keep true ch chs = ch ∷ chs
keep false ch chs = chs

-- One channel in front of what the loop does with those after it.
unfoldable pub poll : Channel × List ℕ × ℕ → Bool → Polled → Polled
poll (ch, written, consumed) shared after = record {
  kept = keep shared ch after.kept;
  written = written ++ after.written;
  consumed = consumed + after.consumed;
  polled = 1 + after.polled;
  removed = if shared then after.removed else 1 + after.removed;
}

-- The loop, and the `erase` of the channels that it reset.
pub consume_channels : List Channel → Polled
consume_channels [] = record { kept = []; written = []; consumed = 0; polled = 0; removed = 0 }
consume_channels (ch ∷ chs) = poll (consume_channel ch) ch.shared (consume_channels chs)

unfoldable pub consume : Session → Session × ConsumeResult × List ℕ
unfolding consume_channels
consume s =
    let sync = if s.consume_clock_sync then s.clock_sync else [] in
    let source_write_size = length s.sources - s.sources_consume_pos in
    let done = consume_channels s.channels in
    let bytes_consumed = length sync + source_write_size + done.consumed in
    (
      record s {
        channels = done.kept;
        sources_consume_pos = s.sources_consume_pos + source_write_size;
        total_consumed_bytes = s.total_consumed_bytes + bytes_consumed;
        consume_clock_sync = false;
      },
      record {
        bytes_consumed = bytes_consumed;
        total_bytes_consumed = s.total_consumed_bytes + bytes_consumed;
        channels_polled = done.polled;
        channels_removed = done.removed;
      },
      sync ++ (slice s.sources_consume_pos source_write_size s.sources ++ done.written),
    )

unfoldable pub reconsume_metadata : Session → Session × ConsumeResult × List ℕ
reconsume_metadata s =
    let bytes_consumed = length s.clock_sync + s.sources_consume_pos in
    (
      record s { total_consumed_bytes = s.total_consumed_bytes + bytes_consumed },
      record {
        bytes_consumed = bytes_consumed;
        total_bytes_consumed = s.total_consumed_bytes + bytes_consumed;
        channels_polled = 0;
        channels_removed = 0;
      },
      s.clock_sync ++ slice 0 s.sources_consume_pos s.sources,
    )
