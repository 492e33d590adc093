-- ===== src/Session/Tests.antt =====
-- A session with an empty open channel, and one that is closed and holds a byte.
use btui.Prelude.{
  ℕ, ◌+◌, ◌≤◌, ◌≡◌, true, false, List, [], ◌∷◌, ◌++◌, length, drop, All, inl, if◌then◌else◌, arith,
}
use btui.Queue.{Queue}
use btui.Queue.Invariant.{InBounds}
use btui.Queue.Contents.{contents}
use btui.Session.{Session, Channel, consume}
use btui.Session.Consume.{IsValid, all_bytes, kept, consume_lem}

abbrev a_queue : ℕ → Queue
a_queue w = record {
  write_index = w;
  data_end = 0;
  capacity = 2;
  buffer = 7 ∷ 8 ∷ [];
  read_index = 0;
}

a_queue-InBounds : (w : ℕ) → w ≤ 2 → InBounds (a_queue w)
a_queue-InBounds w h = record {
  fits = omega arith;
  small = omega arith;
  write_in = h;
  read_in = omega arith;
  end_in = omega arith;
  wrapped = inl (omega arith);
}

abbrev channels : List Channel
channels =
    record {
      queue = a_queue 0;
      writer_prop = record { id = 1; name = []; batch_size = 0 };
      shared = true;
    }
    ∷ record {
      queue = a_queue 1;
      writer_prop = record { id = 2; name = []; batch_size = 0 };
      shared = false;
    }
    ∷ []

abbrev a_session : Session
a_session = record {
  channels = channels;
  clock_sync = 1 ∷ [];
  sources = 2 ∷ 3 ∷ [];
  sources_consume_pos = 1;
  next_source_id = 3;
  total_consumed_bytes = 0;
  min_severity = 32;
  consume_clock_sync = true;
}

a_session-IsValid : IsValid a_session
a_session-IsValid = record {
  position = omega arith;
  bounds = (a_queue-InBounds 0 (omega arith), (a_queue-InBounds 1 (omega arith), tt));
  fits = omega arith;
}

consume_lem_example :
    let after = (consume a_session).0 in
    let result = (consume a_session).1 in
    let written = (consume a_session).2 in
    (written
      ≡ (if a_session.consume_clock_sync then a_session.clock_sync else [])
        ++ (drop a_session.sources_consume_pos a_session.sources ++ all_bytes a_session.channels))
    × (result.bytes_consumed ≡ length written)
    × (after.sources_consume_pos ≡ length a_session.sources)
    × (after.channels ≡ kept a_session.channels)
    × All (λ ch. contents ch.queue ≡ []) after.channels
    × (result.channels_polled ≡ length a_session.channels)
    × (result.channels_removed + length after.channels ≡ length a_session.channels)
consume_lem_example = consume_lem a_session a_session-IsValid
