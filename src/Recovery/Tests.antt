-- ===== src/Recovery/Tests.antt =====
-- A dump with a stream of one entry, and a queue with an entry of two bytes.
use btui.Prelude.{ℕ, ◌+◌, ◌^◌, ◌<◌, ◌≡◌, refl, true, some, List, [], ◌∷◌, ◌++◌, length, arith, inl}
use btui.Range.{le_bytes, read, view, le_value}
use btui.Queue.{Queue, begin_read}
use btui.Queue.Invariant.{InBounds}
use btui.Queue.Contents.{contents}
use btui.RecoverableStream.{make, write_all}
use mathlib.Core.List.{Perm}
use btui.Prelude.{◌*◌, ◌≤◌, ◌==◌, ltb, if◌then◌else◌, subst, sym}
use btui.Model.{stable_sort}
use btui.Model.Sorting.{Sorted, by_key, stable_sort-Sorted, stable_sort-Perm}
use btui.Recovery.Output.{
  kind_value, cmp, Sort, Sorts, write_buffers, write_recovered, Grouped, write_recovered-Grouped,
}
use btui.Recovery.{
  BufferType, RecoveredBuffer, ◌>>=◌, search, check_queue_invariants, check_entry_buffer,
  check_from, data_magic,
}
use btui.Recovery.Scan.{queue_bytes, search-queue_bytes}
use btui.Recovery.Ends.{IsInside, begin_read-IsInside}
use btui.Recovery.Streams.{frames, search-write_all}
use btui.Visit.Values.{concat}

abbrev queue : Queue
queue = record {
  write_index = 6;
  data_end = 0;
  capacity = 8;
  buffer = 2 ∷ 0 ∷ 0 ∷ 0 ∷ 7 ∷ 8 ∷ 0 ∷ 0 ∷ [];
  read_index = 0;
}

queue-checked : check_queue_invariants queue ≡ true
unfolding check_queue_invariants
queue-checked = refl

begin_read-IsInside_example :
    let rr = (begin_read queue).0 in IsInside 8 rr.buffer1 rr.size1 × IsInside 8 rr.buffer2 rr.size2
begin_read-IsInside_example = begin_read-IsInside queue (omega arith) queue-checked

queue-InBounds : InBounds queue
queue-InBounds = record {
  fits = omega arith;
  small = omega arith;
  write_in = omega arith;
  read_in = omega arith;
  end_in = omega arith;
  wrapped = inl (omega arith);
}

queue-entries : check_entry_buffer (contents queue) ≡ true
unfolding check_entry_buffer check_from read view le_value
queue-entries = refl

search-queue_bytes_example :
    search 4 (
      (1 ∷ 2 ∷ [])
      ++ (data_magic ++ (le_bytes 8 77 ++ (queue_bytes 99 queue ++ (queue.buffer ++ (3 ∷ []))))))
    ≡ (search 3 (3 ∷ []) >>= λ more.
        some
          (record { kind = BufferType.plain_data; session = 77; buffer = contents queue } ∷ more))
search-queue_bytes_example =
    search-queue_bytes 3 77 99 queue (1 ∷ 2 ∷ []) (3 ∷ []) ((omega arith), ((omega arith), tt))
      (omega arith) (omega arith) queue-InBounds refl queue-entries

abbrev writes : List (List ℕ)
writes = (2 ∷ 0 ∷ 0 ∷ 0 ∷ []) ∷ (7 ∷ 8 ∷ []) ∷ []

writes-frames : concat writes ≡ frames ((7 ∷ 8 ∷ []) ∷ [])
unfolding concat frames le_bytes
writes-frames = refl

writes-small : length (concat writes) < 2 ^ 64
unfolding concat
writes-small = omega arith

search-write_all_example :
    search 4
      ((1 ∷ []) ++ ((write_all (λ n. n + n) writes (make 24 18312004912759029180 77)).vector ++ []))
    ≡ (search 3 [] >>= λ more.
        some (record { kind = BufferType.metadata; session = 77; buffer = concat writes } ∷ more))
search-write_all_example =
    search-write_all 3 24 77 (λ n. n + n) (1 ∷ []) [] writes ((7 ∷ 8 ∷ []) ∷ []) ((omega arith), tt)
      (omega arith) writes-frames ((omega arith), tt) writes-small

abbrev sort : Sort
sort less buffers = stable_sort less buffers

abbrev key : RecoveredBuffer → ℕ
key b = 2 * b.session + kind_value b.kind

kind_bound : (k : BufferType) → kind_value k ≤ 1
kind_bound BufferType.metadata = omega arith
kind_bound BufferType.plain_data = omega arith

key_lem :
    (s t m n : ℕ)
    → m ≤ 1
    → n ≤ 1
    → (if s == t then ltb m n else ltb s t) ≡ ltb (2 * s + m) (2 * t + n)
key_lem s t m n h g = ground arith

cmp_at : (a b : RecoveredBuffer) → cmp a b ≡ by_key true key a b
unfolding cmp
cmp_at a b =
    key_lem a.session b.session (kind_value a.kind) (kind_value b.kind) (kind_bound a.kind)
      (kind_bound b.kind)

cmp-by_key : cmp ≡ by_key true key
cmp-by_key = λ i a b. cmp_at a b i

sort-Sorts : Sorts sort cmp
sort-Sorts = record {
  permutes = λ buffers. stable_sort-Perm cmp buffers;
  sorts = λ buffers.
      subst (λ less. Sorted less (stable_sort less buffers)) (sym cmp-by_key)
        (stable_sort-Sorted true key buffers);
}

write_recovered-Grouped_example :
    (buffers : List RecoveredBuffer) × (written : List RecoveredBuffer) × (search 5
        (1 ∷ 188 ∷ 189 ∷ 2 ∷ [])
      ≡ some buffers)
    × (write_recovered sort 5 (1 ∷ 188 ∷ 189 ∷ 2 ∷ []) ≡ some (write_buffers written))
    × Perm written buffers
    × Grouped written
write_recovered-Grouped_example =
    write_recovered-Grouped sort 5 (1 ∷ 188 ∷ 189 ∷ 2 ∷ []) sort-Sorts (omega arith)
