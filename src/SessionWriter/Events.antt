-- ===== src/SessionWriter/Events.antt =====
-- What `addEvent` appends, and when it fails.
use btui.Prelude.{
  ℕ, ◌+◌, ◌*◌, ◌≤◌, ◌<◌, ◌%◌, ◌^◌, ◌≡◌, inl, inr, refl, sym, ap, ap₂, subst, ◌∙◌, true, false, none,
  some, List, [], ◌∷◌, ◌++◌, append-nil, append_assoc, length, max, arith, leb→le, le→leb,
  Bool-cases,
}
use btui.Range.{le_bytes}
use btui.Range.Words.{length-le_bytes}
use btui.Queue
use btui.Queue.{
  Producer, QueueWriter, begin_write, maximize_with, maximize_write_capacity, write_buffer,
  end_write, new_writer, write_capacity,
}
use btui.Queue.Invariant.{
  IsValid, new-IsValid, begin_write-IsValid, write_buffer-IsValid, end_write-IsValid,
}
use btui.Queue.Contents.{
  contents, pending, contents-write_buffer, pending-write_buffer, contents-end_write,
}
use btui.Queue.Sizes.{begin_write_lem, arena}
use btui.Queue.Fifo.{contents-begin_write, pending-begin_write, write_buffer-some}
use btui.SessionWriter.{
  SessionWriter, Allocator, fresh_producer, sum_length, replace_channel, write_all, fields,
  commit_event, add_event,
}

pub concat : List (List ℕ) → List ℕ
concat [] = []
concat (a ∷ rest) = a ++ concat rest

-- The bytes of an event with these serialized arguments.
abbrev pub event_entry : ℕ → ℕ → List (List ℕ) → List ℕ
event_entry id clock args =
    le_bytes 4 ((16 + sum_length args) % 2 ^ 32)
    ++ (le_bytes 8 id ++ (le_bytes 8 clock ++ concat args))

length_left :
    (src : List ℕ) {p p' : Producer}
    → IsValid p
    → write_buffer src p ≡ some p'
    → write_capacity p'.writer + length src ≡ write_capacity p.writer
unfolding write_buffer write_capacity
length_left src v e = ground arith

write_all_lem :
    (fs : List (List ℕ)) {p : Producer}
    → IsValid p
    → sum_length fs ≤ write_capacity p.writer
    → (p' : Producer) × (write_all fs p ≡ some p')
      × IsValid p'
      × (contents p'.queue ≡ contents p.queue)
      × (pending p' ≡ pending p ++ concat fs)
unfolding write_all sum_length concat
write_all_lem [] {p} v h = (p, refl, v, refl, sym (append-nil (pending p)))
write_all_lem (f ∷ fs) {p} v h =
    let (p1, e) = write_buffer-some f v (omega arith) in
    let v1 = write_buffer-IsValid f v e in
    let (p2, r, v2, c, d) = write_all_lem fs v1 (omega (arith, length_left f v e)) in
    (
      p2,
      rw (write_all, e) r,
      v2,
      c ∙ contents-write_buffer f v e,
      d
          ∙ ap (λ l. l ++ concat fs) (pending-write_buffer f v e)
          ∙ append_assoc (pending p) f (concat fs),
    )

sum_length-fields :
    (size id clock : ℕ) (args : List (List ℕ)) {n : ℕ}
    → 16 + sum_length args + 4 ≤ n
    → sum_length (fields size id clock args) ≤ n
unfolding sum_length
sum_length-fields size id clock args h =
    omega
      (arith, length-le_bytes 4 (size % 2 ^ 32), length-le_bytes 8 id, length-le_bytes 8 clock, h)

-- What `addEvent` does to the channel that has the space.
commit_lem :
    (id clock : ℕ) (args : List (List ℕ)) {w : SessionWriter}
    → IsValid w.current
    → 16 + sum_length args + 4 ≤ write_capacity w.current.writer
    → pending w.current ≡ []
    → (p : Producer) × (commit_event (16 + sum_length args) id clock args w
        ≡ some (record w { current = p }, true))
      × IsValid p
      × (contents p.queue ≡ contents w.current.queue ++ event_entry id clock args)
unfolding commit_event sum_length concat
commit_lem id clock args {w} v h none_pending =
    let fs = fields (16 + sum_length args) id clock args in
    let (p, e, v1, c, d) =
      write_all_lem fs v (sum_length-fields (16 + sum_length args) id clock args h) in
    (
      end_write p,
      rw (commit_event, e) refl,
      end_write-IsValid v1,
      contents-end_write v1 ∙ ap₂ (◌++◌) c (d ∙ ap (λ l. l ++ concat fs) none_pending),
    )

-- A new channel of twice the size has the space.
fresh_fits :
    (memory : List ℕ) (capacity n : ℕ)
    → n ≤ capacity
    → capacity < 2 ^ 63
    → (begin_write n (fresh_producer memory capacity)).1 ≡ true
unfolding begin_write maximize_write_capacity maximize_with write_capacity Queue.new new_writer
fresh_fits memory capacity n h s = ground arith

fresh_contents :
    (memory : List ℕ) (capacity : ℕ)
    → (contents (fresh_producer memory capacity).queue ≡ [])
      × (pending (fresh_producer memory capacity) ≡ [])
unfolding Queue.new new_writer
fresh_contents memory capacity = (refl, refl)

begin_fits :
    (n : ℕ) {p : Producer}
    → IsValid p
    → (begin_write n p).1 ≡ true
    → n ≤ write_capacity (begin_write n p).0.writer
begin_fits n v ok = leb→le _ _ (sym (begin_write_lem n v).1 ∙ ok)

-- `addEvent` where the valid channel has space for the event, with nothing uncommitted: it
-- returns true, appends exactly the event's bytes to the channel's contents, keeps the channel
-- valid and replaces no channel.
pub add_event_in_place :
    (allocate : Allocator) (id clock : ℕ) (args : List (List ℕ)) {w : SessionWriter}
    → IsValid w.current
    → pending w.current ≡ []
    → (begin_write (16 + sum_length args + 4) w.current).1 ≡ true
    → (p : Producer) × (add_event allocate id clock args w ≡ some (record w { current = p }, true))
      × IsValid p
      × (contents p.queue ≡ contents w.current.queue ++ event_entry id clock args)
unfolding add_event
add_event_in_place allocate id clock args {w} v none_pending ok =
    let n = 16 + sum_length args + 4 in
    let (p, e, v1, c) =
      commit_lem id clock args {w = record w { current = (begin_write n w.current).0 }}
        (begin_write-IsValid n v) (begin_fits n v ok) (pending-begin_write n v none_pending) in
    (
      p,
      rw (add_event, ok) e,
      v1,
      c ∙ ap (λ l. l ++ event_entry id clock args) (contents-begin_write n v),
    )

capacity-begin_write :
    (n : ℕ) {p : Producer} → IsValid p → (begin_write n p).0.queue.capacity ≡ p.queue.capacity
unfolding begin_write maximize_write_capacity maximize_with
capacity-begin_write n v = ground arith

arena-begin_write :
    (n : ℕ) {p : Producer} → IsValid p → arena (begin_write n p).0.queue ≡ arena p.queue
unfolding begin_write maximize_write_capacity maximize_with
arena-begin_write n v = ground arith

-- A second `beginWrite` finds no more space than the first.
full_again :
    (n : ℕ) (p : Producer)
    → IsValid p
    → (begin_write n p).1 ≡ false
    → (begin_write n (begin_write n p).0).1 ≡ false
full_again n p v full = elim (Bool-cases (begin_write n (begin_write n p).0).1) [
  | inr e ↦ e
  | inl e ↦ elim ((begin_write_lem n (begin_write-IsValid n v)).0.0 e) [
    | inl h ↦ e ∙ sym ((begin_write_lem n v).1 ∙ le→leb n _ h) ∙ full
    | inr h ↦
        e ∙ sym ((begin_write_lem n v).0.1 (inr (omega (arith, h, arena-begin_write n v)))) ∙ full
  ]
]

replace_found :
    (allocate : Allocator) (n : ℕ) (w : SessionWriter) {memory : List ℕ}
    → allocate (max w.current.queue.capacity (2 * n)) ≡ some memory
    → (replace_channel allocate n w).0 ≡ record {
      writer_prop = record w.writer_prop { batch_size = 0 };
      current = fresh_producer memory (max w.current.queue.capacity (2 * n));
      closed = w.closed ++ ((w.writer_prop, w.current) ∷ []);
    }
unfolding replace_channel
replace_found allocate n w found = rw (replace_channel, found) refl

replace_failed :
    (allocate : Allocator) (n : ℕ) (w : SessionWriter)
    → allocate (max w.current.queue.capacity (2 * n)) ≡ none
    → (replace_channel allocate n w).0 ≡ w
unfolding replace_channel
replace_failed allocate n w failed = rw (replace_channel, failed) refl

-- `addEvent` where the valid channel lacks the space, twice the event's size is below 2 ^ 63,
-- and memory of the asked capacity is found for a new channel: it returns true, the contents of
-- the new, valid channel are exactly the event's bytes, its writer has the id and the name of the old
-- channel's writer and no batch size, and the old channel is closed, valid, with its contents and
-- its writer unchanged, and stands right before the new one.
pub add_event_in_new_channel :
    (allocate : Allocator) (id clock : ℕ) (args : List (List ℕ)) (memory : List ℕ)
    (w : SessionWriter)
    → IsValid w.current
    → (begin_write (16 + sum_length args + 4) w.current).1 ≡ false
    → allocate (max w.current.queue.capacity (2 * (16 + sum_length args + 4))) ≡ some memory
    → max w.current.queue.capacity (2 * (16 + sum_length args + 4)) ≤ length memory
    → 2 * (16 + sum_length args + 4) < 2 ^ 63
    → (p old : Producer) × (add_event allocate id clock args w
        ≡ some (
          record {
            writer_prop = record w.writer_prop { batch_size = 0 };
            current = p;
            closed = w.closed ++ ((w.writer_prop, old) ∷ []);
          },
          true,
        ))
      × IsValid p
      × (contents p.queue ≡ event_entry id clock args)
      × IsValid old
      × (contents old.queue ≡ contents w.current.queue)
unfolding add_event
add_event_in_new_channel allocate id clock args memory w v full found fits bound =
    let n = 16 + sum_length args + 4 in
    let capacity = max w.current.queue.capacity (2 * n) in
    let w1 = record w { current = (begin_write n w.current).0 } in
    let replaced =
      subst
        (λ c.
          allocate (max c (2 * n)) ≡ some memory
          → (replace_channel allocate n w1).0 ≡ record {
            writer_prop = record w1.writer_prop { batch_size = 0 };
            current = fresh_producer memory (max c (2 * n));
            closed = w1.closed ++ ((w1.writer_prop, w1.current) ∷ []);
          })
        (capacity-begin_write n v) (replace_found allocate n w1) found in
    let v0 = new-IsValid memory capacity fits (omega (arith, v.bounds.small)) in
    let ok = fresh_fits memory capacity n (omega arith) (omega arith) in
    let (p, e, v1, c) =
      commit_lem id clock args
        {w = record {
          writer_prop = record w.writer_prop { batch_size = 0 };
          current = (begin_write n (fresh_producer memory capacity)).0;
          closed = w.closed ++ ((w.writer_prop, (begin_write n w.current).0) ∷ []);
        }}
        (begin_write-IsValid n v0) (begin_fits n v0 ok)
        (pending-begin_write n v0 (fresh_contents memory capacity).1) in
    (
      p,
      (begin_write n w.current).0,
      rw (add_event, full, replaced, ok) e,
      v1,
      c
          ∙ ap (λ l. l ++ event_entry id clock args)
              (contents-begin_write n v0 ∙ (fresh_contents memory capacity).0),
      begin_write-IsValid n v,
      contents-begin_write n v,
    )

-- `addEvent` where the valid channel lacks the space and no memory is found: it returns false,
-- replaces no channel, and leaves the channel valid with its contents as they are.
pub add_event_fails :
    (allocate : Allocator) (id clock : ℕ) (args : List (List ℕ)) (w : SessionWriter)
    → IsValid w.current
    → (begin_write (16 + sum_length args + 4) w.current).1 ≡ false
    → allocate (max w.current.queue.capacity (2 * (16 + sum_length args + 4))) ≡ none
    → (p : Producer) × (add_event allocate id clock args w ≡ some (record w { current = p }, false))
      × IsValid p
      × (contents p.queue ≡ contents w.current.queue)
unfolding add_event
add_event_fails allocate id clock args w v full failed =
    let n = 16 + sum_length args + 4 in
    let w1 = record w { current = (begin_write n w.current).0 } in
    let replaced =
      replace_failed allocate n w1
        (ap (λ c. allocate (max c (2 * n))) (capacity-begin_write n v) ∙ failed) in
    (
      (begin_write n (begin_write n w.current).0).0,
      rw (add_event, full, replaced, full_again n w.current v full) refl,
      begin_write-IsValid n (begin_write-IsValid n v),
      contents-begin_write n (begin_write-IsValid n v) ∙ contents-begin_write n v,
    )
