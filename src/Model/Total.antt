-- ===== src/Model/Total.antt =====
-- A load ends.
use btui.Prelude.{ℕ, zero, suc, ◌≤◌, ◌<◌, ◌≡◌, refl, Option, none, some, List, arith}
use btui.Result.{Result, ok, throw}
use btui.Entries.{EventSource}
use btui.EventStream.{Event, EventStream, EntryStream, Outcome}
use btui.EventStream.Progress.{Shrinks}
use btui.EventStream.Advance.{Advances, Leaves, next_event-Returns}
use btui.Model.{BtuiModel, LogRecord, apply_filters}
use btui.Model.Load.{
  Printer, make_record, append, push, push_source, on_event, load_from_entry_stream,
}

module _ (print_local print_utc print_message : Printer) {S : Type 0} {input : EntryStream S}
    (l : Shrinks input) (a : Advances l) (filename : List ℕ) where
  -- The stream that a load leaves.
  abbrev pub Ends : S → Option (BtuiModel × S × Result (Unit {0})) → Type 0
  Ends s o =
      (m : BtuiModel) × (s' : S) × (result : Result (Unit {0})) × (o ≡ some (m, s', result))
      × l.Valid s'
      × (l.left s' ≤ l.left s)

  further :
      (s s' : S) (o : Option (BtuiModel × S × Result (Unit {0})))
      → l.left s' < l.left s
      → Ends s' o
      → Ends s o
  further s s' o h (m, s1, result, e, v, k) = (m, s1, result, e, v, omega arith)

  push-Ends :
      (k : S → EventStream → BtuiModel → Option (BtuiModel × S × Result (Unit {0}))) (s : S)
      (es : EventStream) (m : BtuiModel)
      → l.Valid s
      → ((m' : BtuiModel) → Ends s (k s es m'))
      → (r : Result LogRecord)
      → Ends s (push print_local print_utc print_message input filename k s es m r)
  push-Ends k s es m v h (throw e) = (m, s, throw e, refl, v, omega arith)
  push-Ends k s es m v h (ok rec) =
      h (append print_local print_utc print_message input filename rec m)

  source-Ends :
      (k : S → EventStream → BtuiModel → Option (BtuiModel × S × Result (Unit {0}))) (s : S)
      (es : EventStream) (m : BtuiModel) (event : Event) (source : EventSource)
      → l.Valid s
      → ((m' : BtuiModel) → Ends s (k s es m'))
      → (o : Option EventSource) → o ≡ some source
      → Ends s (push_source print_local print_utc print_message input filename k s es m event o)
  source-Ends k s es m event source v h none e = absurd cc
  source-Ends k s es m event source v h (some found) e =
      push-Ends k s es m v h
        (make_record print_local print_utc print_message input filename event found es)

  event-Ends :
      (k : S → EventStream → BtuiModel → Option (BtuiModel × S × Result (Unit {0}))) (m : BtuiModel)
      (s : S) (r : S × Outcome (Option Event))
      → Leaves l a s r
      → ((s' : S) (es' : EventStream) (m' : BtuiModel)
          → l.Valid s'
          → l.left s' < l.left s
          → Ends s' (k s' es' m'))
      → Ends s (on_event print_local print_utc print_message input filename k m (some r))
  event-Ends k m s (s', (es', throw e)) (v, less) h = (m, s', throw e, refl, v, less)
  event-Ends k m s (s', (es', ok none)) (v, less) h = (apply_filters m, s', ok tt, refl, v, less)
  event-Ends k m s (s', (es', ok (some event))) ((v, less), (source, e)) h =
      further s s' _ less
        (source-Ends k s' es' m event source v (λ m'. h s' es' m' v less) event.source e)

  -- On a stream whose payloads use up its bytes and which does not go back: with more fuel than bytes are left, a
  -- load ends, normally or with an exception, and the stream does not go back.
  pub load_total :
      (f : ℕ) (s : S) (es : EventStream) (m : BtuiModel)
      → l.Valid s
      → l.left s < f
      → Ends s (load_from_entry_stream print_local print_utc print_message input filename f s es m)
  unfolding load_from_entry_stream
  load_total zero s es m v h = absurd (omega arith)
  load_total (suc f) s es m v h =
      let (r, e, q) = next_event-Returns l a (suc f) s es v h in
      rw e (
        event-Ends
          (λ s' es' m'.
            load_from_entry_stream print_local print_utc print_message input filename f s' es' m')
          m s r q (λ s' es' m' v' less. load_total f s' es' m' v' (omega arith)))
