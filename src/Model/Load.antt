-- ===== src/Model/Load.antt =====
-- `BtuiModel::loadFromEntryStream`: events are decoded, rendered and appended; then the filters are
-- applied. The three `PrettyPrinter`s are arguments: each renders an event with the writer and the clock
-- of the stream, or throws.
use btui.Prelude.{
  ℕ, zero, suc, ◌≡◌, refl, sym, subst, ap, ◌∙◌, Option, none, some, List, [], ◌∷◌, ◌++◌, append-nil,
  append_assoc,
}
use btui.Result.{Result, ok, throw, Error, ◌>>=◌}
use btui.Severity.{severity_to_string}
use btui.Entries.{EventSource, WriterProp, ClockSync}
use btui.EventStream.{Event, EventStream, EntryStream, Outcome, next_event}
use btui.Text.{base_name}
use btui.Model.{LogRecord, BtuiModel, apply_filters}

abbrev pub Printer : Type 0
Printer = Event → WriterProp → ClockSync → Result (List ℕ)

module _ (print_local print_utc print_message : Printer) {S : Type 0} (input : EntryStream S)
    (filename : List ℕ) where
  -- The body of the loop, up to `push_back`.
  unfoldable pub make_record : Event → EventSource → EventStream → Result LogRecord
  make_record event source es = do
    timestamp_local ← print_local event es.writer_prop es.clock_sync
    timestamp_utc ← print_utc event es.writer_prop es.clock_sync
    message ← print_message event es.writer_prop es.clock_sync
    ok (record {
      severity = source.severity;
      severity_str = severity_to_string source.severity;
      category = source.category;
      writer_name = es.writer_prop.name;
      writer_id = es.writer_prop.id;
      file = base_name source.file;
      file_full = source.file;
      line = source.line;
      function = source.function;
      clock_value = event.clock_value;
      timestamp_local = timestamp_local;
      timestamp_utc = timestamp_utc;
      message = message;
      format_string = source.format_string;
      argument_tags = source.argument_tags;
      source_filename = filename;
    })

  abbrev pub append : LogRecord → BtuiModel → BtuiModel
  append rec m = record m { all_records = m.all_records ++ (rec ∷ []) }

  -- What a call of the loop leaves: the model, the stream, and whether it threw.
  abbrev pub Loaded : Type 0
  Loaded = BtuiModel × S × Result (Unit {0})

  abbrev pub push :
      (S → EventStream → BtuiModel → Option Loaded)
      → S
      → EventStream
      → BtuiModel
      → Result LogRecord
      → Option Loaded
  push k s es m (throw e) = some (m, s, throw e)
  push k s es m (ok rec) = k s es (append rec m)

  abbrev pub push_source :
      (S → EventStream → BtuiModel → Option Loaded)
      → S
      → EventStream
      → BtuiModel
      → Event
      → Option EventSource
      → Option Loaded
  push_source k s es m event none = none
  push_source k s es m event (some source) = push k s es m (make_record event source es)

  -- An event without a source is not returned by `nextEvent`.
  abbrev pub on_event :
      (S → EventStream → BtuiModel → Option Loaded)
      → BtuiModel
      → Option (S × Outcome (Option Event))
      → Option Loaded
  on_event k m none = none
  on_event k m (some (s, (es, throw e))) = some (m, s, throw e)
  on_event k m (some (s, (es, ok none))) = some (apply_filters m, s, ok tt)
  on_event k m (some (s, (es, ok (some event)))) = push_source k s es m event event.source

  -- The loop and what follows it, on fuel; `none` means that the fuel ran out.
  unfoldable pub load_from_entry_stream : ℕ → S → EventStream → BtuiModel → Option Loaded
  load_from_entry_stream zero s es m = none
  load_from_entry_stream (suc fuel) s es m =
      on_event (λ s' es' m'. load_from_entry_stream fuel s' es' m') m
        (next_event input (suc fuel) s es)

  -- A load that ends applies the filters; one that throws does not.
  abbrev pub finish : Result (Unit {0}) → BtuiModel → BtuiModel
  finish (ok u) m = apply_filters m
  finish (throw e) m = m

  -- The records of a stream, the stream behind them, and how reading it ends: each is made of the next event of the
  -- stream and of its source, until there is no event, or `nextEvent` or the making of a record throws.
  pub data Reads : S → EventStream → List LogRecord → S → Result (Unit {0}) → Type 0 where
    at_end :
        (fuel : ℕ) (s : S) (es : EventStream) (s' : S) (es' : EventStream)
        → next_event input fuel s es ≡ some (s', (es', ok none))
        → Reads s es [] s' (ok tt)
    no_event :
        (fuel : ℕ) (s : S) (es : EventStream) (s' : S) (es' : EventStream) (e : Error)
        → next_event input fuel s es ≡ some (s', (es', throw e))
        → Reads s es [] s' (throw e)
    no_record :
        (fuel : ℕ) (s : S) (es : EventStream) (s' : S) (es' : EventStream) (event : Event)
        (source : EventSource) (e : Error)
        → next_event input fuel s es ≡ some (s', (es', ok (some event)))
        → event.source ≡ some source
        → make_record event source es' ≡ throw e
        → Reads s es [] s' (throw e)
    a_record :
        (fuel : ℕ) (s : S) (es : EventStream) (s' : S) (es' : EventStream) (event : Event)
        (source : EventSource) (rec : LogRecord) (recs : List LogRecord) (s'' : S)
        (out : Result (Unit {0}))
        → next_event input fuel s es ≡ some (s', (es', ok (some event)))
        → event.source ≡ some source
        → make_record event source es' ≡ ok rec
        → Reads s' es' recs s'' out
        → Reads s es (rec ∷ recs) s'' out

  abbrev pub Appends : S → EventStream → BtuiModel → Option Loaded → Type 0
  Appends s es m none = Unit {0}
  Appends s es m (some (m', s', out)) =
      (added : List LogRecord) × Reads s es added s' out
      × (m' ≡ finish out (record m { all_records = m.all_records ++ added }))

  nothing_added : (m : BtuiModel) → m ≡ record m { all_records = m.all_records ++ [] }
  nothing_added m = ap (λ l. record m { all_records = l }) (sym (append-nil m.all_records))

  module _ (fuel : ℕ) (s : S) (es : EventStream) (m : BtuiModel)
      (k : S → EventStream → BtuiModel → Option Loaded)
      (k_appends : (s' : S) (es' : EventStream) (m' : BtuiModel)
        → Appends s' es' m' (k s' es' m')) where
    Appends-behind :
        (s' : S) (es' : EventStream) (event : Event) (source : EventSource) (rec : LogRecord)
        → next_event input fuel s es ≡ some (s', (es', ok (some event)))
        → event.source ≡ some source
        → make_record event source es' ≡ ok rec
        → (x : Option Loaded) → Appends s' es' (append rec m) x
        → Appends s es m x
    Appends-behind s' es' event source rec e o q none h = tt
    Appends-behind s' es' event source rec e o q (some (m', s'', out)) (added, reads, g) = (
      rec ∷ added,
      Reads.a_record fuel s es s' es' event source rec added s'' out e o q reads,
      g
          ∙ ap (λ l. finish out (record m { all_records = l }))
              (append_assoc m.all_records (rec ∷ []) added),
    )

    push-Appends :
        (s' : S) (es' : EventStream) (event : Event) (source : EventSource)
        → next_event input fuel s es ≡ some (s', (es', ok (some event)))
        → event.source ≡ some source
        → (r : Result LogRecord) → make_record event source es' ≡ r
        → Appends s es m (push k s' es' m r)
    push-Appends s' es' event source e o (throw x) q =
        ([], Reads.no_record fuel s es s' es' event source x e o q, nothing_added m)
    push-Appends s' es' event source e o (ok rec) q =
        Appends-behind s' es' event source rec e o q (k s' es' (append rec m))
          (k_appends s' es' (append rec m))

    on_source-Appends :
        (s' : S) (es' : EventStream) (event : Event)
        → next_event input fuel s es ≡ some (s', (es', ok (some event)))
        → (o : Option EventSource) → event.source ≡ o
        → Appends s es m (push_source k s' es' m event o)
    on_source-Appends s' es' event e none o = tt
    on_source-Appends s' es' event e (some source) o =
        push-Appends s' es' event source e o (make_record event source es') refl

    on_event-Appends :
        (x : Option (S × Outcome (Option Event)))
        → next_event input fuel s es ≡ x
        → Appends s es m (on_event k m x)
    on_event-Appends none e = tt
    on_event-Appends (some (s', (es', throw x))) e =
        ([], Reads.no_event fuel s es s' es' x e, nothing_added m)
    on_event-Appends (some (s', (es', ok none))) e =
        ([], Reads.at_end fuel s es s' es' e, ap apply_filters (nothing_added m))
    on_event-Appends (some (s', (es', ok (some event)))) e =
        on_source-Appends s' es' event e event.source refl

  pub load-Appends :
      (fuel : ℕ) (s : S) (es : EventStream) (m : BtuiModel)
      → Appends s es m (load_from_entry_stream fuel s es m)
  unfolding load_from_entry_stream
  load-Appends zero s es m = tt
  load-Appends (suc fuel) s es m =
      on_event-Appends (suc fuel) s es m _ (λ s' es' m'. load-Appends fuel s' es' m')
        (next_event input (suc fuel) s es) refl

  -- A load appends behind the old records those of the stream: one for each event that `nextEvent` returns, in
  -- their order, up to the end of the stream or to the first exception. If it reaches the end, the filters are
  -- applied to all records; if it throws, the records before the exception stay, and the shown indices,
  -- the filters and the order are those from before the load.
  pub load_lem :
      (fuel : ℕ) (s : S) (es : EventStream) (m : BtuiModel) {m' : BtuiModel} {s' : S}
      {out : Result (Unit {0})}
      → load_from_entry_stream fuel s es m ≡ some (m', s', out)
      → (added : List LogRecord) × Reads s es added s' out
        × (m' ≡ finish out (record m { all_records = m.all_records ++ added }))
  load_lem fuel s es m e = subst (Appends s es m) e (load-Appends fuel s es m)
