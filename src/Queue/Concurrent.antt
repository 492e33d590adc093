-- ===== src/Queue/Concurrent.antt =====
-- Producer and consumer as two threads that share the queue. Each atomic load or store is a step of
-- its own, so either may work with an index that the other has moved on since:
--   * writer: `load_read` is the load of `readIndex` in `maximizeWriteCapacity`, `maximize` the rest
--     of it; `write` is `writeBuffer`, `commit` is `endWrite`;
--   * reader: `load_write` is the load of `writeIndex` in `beginRead`, `view` the rest of it (it reads
--     `dataEnd`, which the writer sets); `copy` is the consumer that reads the bytes of the view (as
--     `out.write` of `Session::consume`), `release` is `endRead`.
-- `staged`, `written` and `consumed` are histories, which no step reads.
use btui.Prelude.{
  ℕ, ◌≤◌, ◌<◌, ◌^◌, ◌≡◌, refl, sym, ap, ap₂, subst, ◌∙◌, some, List, [], ◌++◌, append_assoc, length,
  arith,
}
use btui.Queue.{Queue, Producer, ReadResult, new, new_writer}
use btui.Queue.{maximize_with, write_buffer, end_write, view_with, view_bytes, end_read}
use btui.Queue.Invariant.{IsValid, InBounds, Stale, Stale-now, ReadsTo}
use btui.Queue.Invariant.{
  new-IsValid, maximize_with-IsValid, write_buffer-IsValid, end_write-IsValid, end_read-IsValid,
}
use btui.Queue.Contents.{
  ReadsTo-now, contents-maximize, contents-write_buffer, unread_to, contents, pending,
  view_bytes-eq_unread_to, contents-end_read, unread_to-maximize, pending-maximize,
  unread_to-write_buffer, pending-write_buffer, contents-end_write, pending-end_write,
  unread_to-end_write,
}

pub data WriterPhase : Type 0 where
  ready : WriterPhase
  loaded : ℕ → WriterPhase

pub data ReaderPhase : Type 0 where
  idle : ReaderPhase
  loaded : ℕ → ReaderPhase
  viewing : ℕ → ReadResult → ReaderPhase
  copied : ℕ → List ℕ → ReaderPhase

pub record System : Type 0 where
  pub producer : Producer
  pub writer_phase : WriterPhase
  pub reader_phase : ReaderPhase
  pub staged : List ℕ
  pub written : List ℕ
  pub consumed : List ℕ

abbrev pub start : List ℕ → ℕ → System
start buffer capacity = record {
  producer = record { queue = new buffer capacity; writer = new_writer };
  writer_phase = WriterPhase.ready;
  reader_phase = ReaderPhase.idle;
  staged = [];
  written = [];
  consumed = [];
}

pub data Step (s : System) : System → Type 0 where
  load_read :
      s.writer_phase ≡ WriterPhase.ready
      → Step s (record s { writer_phase = WriterPhase.loaded s.producer.queue.read_index })
  maximize :
      (rs : ℕ)
      → s.writer_phase ≡ WriterPhase.loaded rs
      → Step s (record s {
        producer = maximize_with rs s.producer;
        writer_phase = WriterPhase.ready;
        staged = [];
      })
  write :
      (src : List ℕ) (p : Producer)
      → s.writer_phase ≡ WriterPhase.ready
      → write_buffer src s.producer ≡ some p
      → Step s (record s { producer = p; staged = s.staged ++ src })
  commit :
      s.writer_phase ≡ WriterPhase.ready
      → Step s (record s {
        producer = end_write s.producer;
        staged = [];
        written = s.written ++ s.staged;
      })
  load_write :
      s.reader_phase ≡ ReaderPhase.idle
      → Step s (record s { reader_phase = ReaderPhase.loaded s.producer.queue.write_index })
  view :
      (e : ℕ)
      → s.reader_phase ≡ ReaderPhase.loaded e
      → Step s (record s { reader_phase = ReaderPhase.viewing e (view_with e s.producer.queue) })
  copy :
      (e : ℕ) (rr : ReadResult)
      → s.reader_phase ≡ ReaderPhase.viewing e rr
      → Step s
          (record s { reader_phase = ReaderPhase.copied e (view_bytes rr s.producer.queue.buffer) })
  release :
      (e : ℕ) (bytes : List ℕ)
      → s.reader_phase ≡ ReaderPhase.copied e bytes
      → Step s (record s {
        producer = record s.producer { queue = end_read e s.producer.queue };
        reader_phase = ReaderPhase.idle;
        consumed = s.consumed ++ bytes;
      })

pub data Reach (s : System) : System → Type 0 where
  here : Reach s s
  next : {t u : System} → Reach s t → Step t u → Reach s u

abbrev pub WriterKnows : WriterPhase → Queue → Type 0
WriterKnows WriterPhase.ready q = Unit {0}
WriterKnows (WriterPhase.loaded rs) q = Stale rs q

abbrev pub ReaderKnows : ReaderPhase → Queue → Type 0
ReaderKnows ReaderPhase.idle q = Unit {0}
ReaderKnows (ReaderPhase.loaded e) q = ReadsTo e q
ReaderKnows (ReaderPhase.viewing e rr) q = ReadsTo e q × (rr ≡ view_with e q)
ReaderKnows (ReaderPhase.copied e bytes) q = ReadsTo e q × (bytes ≡ unread_to e q)

pub record Inv (s : System) : Type 0 where
  pub valid : IsValid s.producer
  pub writer_knows : WriterKnows s.writer_phase s.producer.queue
  pub reader_knows : ReaderKnows s.reader_phase s.producer.queue
  pub staged_pending : s.staged ≡ pending s.producer
  pub history : s.written ≡ s.consumed ++ contents s.producer.queue

-- A step of the writer that keeps every view keeps what the reader knows.
ReaderKnows-of_views :
    (ph : ReaderPhase) (q q' : Queue)
    → ((e : ℕ)
        → ReadsTo e q
        → (unread_to e q' ≡ unread_to e q) × ReadsTo e q' × (view_with e q' ≡ view_with e q))
    → ReaderKnows ph q
    → ReaderKnows ph q'
ReaderKnows-of_views ReaderPhase.idle q q' k h = tt
ReaderKnows-of_views (ReaderPhase.loaded e) q q' k h = (k e h).1
ReaderKnows-of_views (ReaderPhase.viewing e rr) q q' k h = ((k e h.0).1, h.1 ∙ sym (k e h.0).2)
ReaderKnows-of_views (ReaderPhase.copied e bytes) q q' k h = ((k e h.0).1, h.1 ∙ sym (k e h.0).0)

WriterKnows-end_read :
    (ph : WriterPhase) (e : ℕ) (q : Queue)
    → InBounds q
    → ReadsTo e q
    → WriterKnows ph q
    → WriterKnows ph (end_read e q)
unfolding end_read
WriterKnows-end_read WriterPhase.ready e q b r h = tt
WriterKnows-end_read (WriterPhase.loaded rs) e q b r h = omega arith

pending-end_read :
    (e : ℕ) (p : Producer) → pending (record p { queue = end_read e p.queue }) ≡ pending p
unfolding end_read
pending-end_read e p = refl

pub start-Inv :
    (buffer : List ℕ) (capacity : ℕ)
    → capacity ≤ length buffer
    → capacity < 2 ^ 63
    → Inv (start buffer capacity)
unfolding new new_writer
start-Inv buffer capacity h c = record {
  valid = new-IsValid buffer capacity h c;
  writer_knows = tt;
  reader_knows = tt;
  staged_pending = refl;
  history = refl;
}

pub Step-Inv : {s t : System} → Step s t → Inv s → Inv t
Step-Inv {s} (load_read e) v = record {
  valid = v.valid;
  writer_knows = Stale-now s.producer.queue v.valid.bounds;
  reader_knows = v.reader_knows;
  staged_pending = v.staged_pending;
  history = v.history;
}
Step-Inv {s} (maximize rs e) v =
    let st : Stale rs s.producer.queue =
      subst (λ ph. WriterKnows ph s.producer.queue) e v.writer_knows in
    record {
      valid = maximize_with-IsValid rs v.valid st;
      writer_knows = tt;
      reader_knows =
          ReaderKnows-of_views s.reader_phase s.producer.queue _
            (λ n. unread_to-maximize rs n v.valid st) v.reader_knows;
      staged_pending = sym (pending-maximize rs v.valid st);
      history = v.history ∙ ap (λ l. s.consumed ++ l) (sym (contents-maximize rs v.valid st));
    }
Step-Inv {s} (write src p e w) v = record {
  valid = write_buffer-IsValid src v.valid w;
  writer_knows = subst (λ ph. WriterKnows ph p.queue) (sym e) tt;
  reader_knows =
      ReaderKnows-of_views s.reader_phase s.producer.queue _
        (λ n. unread_to-write_buffer src n v.valid w) v.reader_knows;
  staged_pending = ap (λ l. l ++ src) v.staged_pending ∙ sym (pending-write_buffer src v.valid w);
  history = v.history ∙ ap (λ l. s.consumed ++ l) (sym (contents-write_buffer src v.valid w));
}
Step-Inv {s} (commit e) v = record {
  valid = end_write-IsValid v.valid;
  writer_knows = subst (λ ph. WriterKnows ph (end_write s.producer).queue) (sym e) tt;
  reader_knows =
      ReaderKnows-of_views s.reader_phase s.producer.queue _ (λ n. unread_to-end_write n v.valid)
        v.reader_knows;
  staged_pending = sym (pending-end_write s.producer);
  history =
      ap₂ (◌++◌) v.history v.staged_pending
      ∙ append_assoc s.consumed (contents s.producer.queue) (pending s.producer)
      ∙ ap (λ l. s.consumed ++ l) (sym (contents-end_write v.valid));
}
Step-Inv {s} (load_write e) v = record {
  valid = v.valid;
  writer_knows = v.writer_knows;
  reader_knows = ReadsTo-now s.producer.queue v.valid.bounds;
  staged_pending = v.staged_pending;
  history = v.history;
}
Step-Inv {s} (view n e) v = record {
  valid = v.valid;
  writer_knows = v.writer_knows;
  reader_knows = (subst (λ ph. ReaderKnows ph s.producer.queue) e v.reader_knows, refl);
  staged_pending = v.staged_pending;
  history = v.history;
}
Step-Inv {s} (copy n rr e) v =
    let k : ReadsTo n s.producer.queue × (rr ≡ view_with n s.producer.queue) =
      subst (λ ph. ReaderKnows ph s.producer.queue) e v.reader_knows in
    record {
      valid = v.valid;
      writer_knows = v.writer_knows;
      reader_knows = (
        k.0,
        ap (λ x. view_bytes x s.producer.queue.buffer) k.1
            ∙ view_bytes-eq_unread_to n s.producer.queue v.valid.bounds k.0,
      );
      staged_pending = v.staged_pending;
      history = v.history;
    }
Step-Inv {s} (release n bytes e) v =
    let k : ReadsTo n s.producer.queue × (bytes ≡ unread_to n s.producer.queue) =
      subst (λ ph. ReaderKnows ph s.producer.queue) e v.reader_knows in
    record {
      valid = end_read-IsValid n v.valid k.0;
      writer_knows =
          WriterKnows-end_read s.writer_phase n s.producer.queue v.valid.bounds k.0 v.writer_knows;
      reader_knows = tt;
      staged_pending = v.staged_pending ∙ sym (pending-end_read n s.producer);
      history =
          v.history
          ∙ ap (λ l. s.consumed ++ l)
              (contents-end_read n s.producer.queue v.valid.bounds k.0
                ∙ ap (λ l. l ++ contents (end_read n s.producer.queue)) (sym k.1))
          ∙ sym (append_assoc s.consumed bytes (contents (end_read n s.producer.queue)));
    }

pub Reach-Inv : {s t : System} → Inv s → Reach s t → Inv t
Reach-Inv v here = v
Reach-Inv v (next r st) = Step-Inv st (Reach-Inv v r)

-- However the steps of the two threads interleave, from a fresh queue whose buffer holds `capacity`
-- bytes: the bytes committed so far are the bytes consumed so far, followed by the bytes in the
-- queue, in order.
pub fifo :
    (buffer : List ℕ) (capacity : ℕ) {t : System}
    → capacity ≤ length buffer
    → capacity < 2 ^ 63
    → Reach (start buffer capacity) t
    → t.written ≡ t.consumed ++ contents t.producer.queue
fifo buffer capacity h c r = (Reach-Inv (start-Inv buffer capacity h c) r).history

-- However the steps interleave: until the reader releases its view, the bytes behind the view are
-- the front of the queue's contents, and releasing it leaves the rest of the contents.
pub viewed_front :
    (buffer : List ℕ) (capacity : ℕ) {t : System} (e : ℕ) (rr : ReadResult)
    → capacity ≤ length buffer
    → capacity < 2 ^ 63
    → Reach (start buffer capacity) t
    → t.reader_phase ≡ ReaderPhase.viewing e rr
    → contents t.producer.queue
      ≡ view_bytes rr t.producer.queue.buffer ++ contents (end_read e t.producer.queue)
viewed_front buffer capacity {t} e rr h c r ph =
    let v : Inv t = Reach-Inv (start-Inv buffer capacity h c) r in
    let q : Queue = t.producer.queue in
    let k : ReadsTo e q × (rr ≡ view_with e q) = subst (λ x. ReaderKnows x q) ph v.reader_knows in
    contents-end_read e q v.valid.bounds k.0
    ∙ ap (λ l. l ++ contents (end_read e q))
        (sym (ap (λ x. view_bytes x q.buffer) k.1 ∙ view_bytes-eq_unread_to e q v.valid.bounds k.0))
