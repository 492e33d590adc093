-- ===== src/EventStream/Decode.antt =====
-- `nextEvent` on a stream of complete entries, against a description of the stream by its items: sources,
-- writer properties, clock syncs and events, each written as the producers write it.
use btui.Prelude.{
  ℕ, zero, suc, ◌+◌, ◌^◌, ◌≤◌, ◌<◌, ◌≡◌, refl, ap, ◌∙◌, true, false, Option, none, some, List, [],
  ◌∷◌, ◌++◌, append-nil, append_assoc, length, length-append, All, arith, ◌==◌, if◌then◌else◌,
}
use btui.Result.{Result, ok, throw, Error}
use btui.Range.{Range, le_bytes, empty}
use btui.Range.Words.{read-le_bytes, view-append_of_length, length-le_bytes}
use btui.SegmentedMap.{emplace, find}
use btui.SegmentedMap.Map.{IsValid, emplace-IsValid, find-emplace}
use btui.Entries.{
  EventSource, WriterProp, ClockSync, Entry, event_source_entry, writer_prop_entry,
  clock_sync_entry, serialize_size_prefixed_tagged, default_writer_prop, default_clock_sync,
}
use btui.Entries.Codec.{
  FitsSource, FitsWriterProp, FitsClockSync, Lawful, source_lawful, writer_prop_lawful,
  clock_sync_lawful,
}
use btui.Entries.Frames.{payload-serialize, empty_frame}
use btui.EntryStream.{next_range_payload}
use btui.EventStream.{
  Event, EventStream, EntryStream, dispatch, store_source, store_writer_prop, store_clock_sync,
  read_event_of, store_event, read_event_source, read_writer_prop, read_clock_sync, read_event,
  special, read_special, skip, deliver, handle_entry, next_event,
}

-- A range of entries is an entry stream.
abbrev pub range_stream : EntryStream Range
range_stream = record { next_entry_payload = next_range_payload }

pub data Item : Type 0 where
  source : EventSource → Item
  writer : WriterProp → Item
  clock : ClockSync → Item
  event : ℕ → ℕ → List ℕ → Item

-- The bytes of an event, as `SessionWriter::addEvent` writes them: size, source id, clock, arguments.
abbrev pub event_bytes : ℕ → ℕ → List ℕ → List ℕ
event_bytes id value args =
    le_bytes 4 (16 + length args) ++ (le_bytes 8 id ++ (le_bytes 8 value ++ args))

unfoldable pub encode : Item → List ℕ
encode (source s) = (serialize_size_prefixed_tagged s).0
encode (writer w) = (serialize_size_prefixed_tagged w).0
encode (clock c) = (serialize_size_prefixed_tagged c).0
encode (event id value args) = event_bytes id value args

unfoldable pub encode_all : List Item → List ℕ
encode_all [] = []
encode_all (i ∷ is) = encode i ++ encode_all is

-- Each field fits its type, and each size its 32 bits; ids of events have their top bit clear.
abbrev pub FitsItem : Item → Type 0
FitsItem (source s) = FitsSource s × (event_source_entry.serialized_size s + 8 < 2 ^ 32)
FitsItem (writer w) = FitsWriterProp w × (writer_prop_entry.serialized_size w + 8 < 2 ^ 32)
FitsItem (clock c) = FitsClockSync c × (clock_sync_entry.serialized_size c + 8 < 2 ^ 32)
FitsItem (event id value args) = (id < 2 ^ 63) × (value < 2 ^ 64) × (16 + length args < 2 ^ 32)

-- What a reader has to know of the stream so far.
pub record Spec : Type 0 where
  pub sources : ℕ → Option EventSource
  pub writer_prop : WriterProp
  pub clock_sync : ClockSync

abbrev pub initial : Spec
initial = record {
  sources = λ _. none;
  writer_prop = default_writer_prop;
  clock_sync = default_clock_sync;
}

abbrev pub found : ℕ → ℕ → List ℕ → Option EventSource → Result (Option Event)
found id value args none = throw (Error.invalid_source id)
found id value args (some s) =
    ok (some (record { source = some s; clock_value = value; arguments = args }))

-- The items up to and including the next event are used up: the last source with its id is its source.
unfoldable pub next_item : Spec → List Item → Spec × Result (Option Event) × List Item
next_item sp [] = (sp, ok none, [])
next_item sp (source s ∷ is) =
    next_item (record sp { sources = λ j. if s.id == j then some s else sp.sources j }) is
next_item sp (writer w ∷ is) = next_item (record sp { writer_prop = w }) is
next_item sp (clock c ∷ is) = next_item (record sp { clock_sync = c }) is
next_item sp (event id value args ∷ is) = (sp, found id value args (sp.sources id), is)

-- The decoder's members hold what the description says.
pub record Agrees (sp : Spec) (es : EventStream) : Type 0 where
  pub valid : IsValid es.event_sources
  pub same_sources : (j : ℕ) → j < 2 ^ 64 → find j es.event_sources ≡ sp.sources j
  pub same_writer : es.writer_prop ≡ sp.writer_prop
  pub same_clock : es.clock_sync ≡ sp.clock_sync

special_true : (t : ℕ) → 2 ^ 63 ≤ t → t < 256 ^ 8 → special t ≡ true
special_true t h g = ground arith

special_false : (t : ℕ) → t < 2 ^ 63 → special t ≡ false
special_false t h = ground arith

-- A written special entry is handled by its reader.
handle_special :
    {A : Type 0} ⦃e : Entry A⦄ (l : Lawful e) (a : A) (es : EventStream)
    → handle_entry (le_bytes 8 e.tag ++ e.serialize a) es
      ≡ skip (read_special e.tag (e.serialize a) es)
unfolding handle_entry
handle_special ⦃e⦄ l a es =
    ap (dispatch es) (read-le_bytes 8 e.tag (e.serialize a) l.tag_fits)
    ∙ rw (special_true e.tag l.special l.tag_fits)

handle_event :
    (id value : ℕ) (args : List ℕ) (es : EventStream)
    → id < 2 ^ 63
    → handle_entry (le_bytes 8 id ++ (le_bytes 8 value ++ args)) es
      ≡ deliver (read_event id (le_bytes 8 value ++ args) es)
unfolding handle_entry
handle_event id value args es h =
    ap (dispatch es) (read-le_bytes 8 id (le_bytes 8 value ++ args) (omega arith))
    ∙ rw (special_false id h)

module _ (f : ℕ) (s s' : Range) (p : Range) (es es' : EventStream)
    (next : next_range_payload s ≡ (s', ok p)) (full : empty p ≡ false) where
  pub next_event_skip :
      handle_entry p es ≡ (es', ok none)
      → next_event range_stream (suc f) s es ≡ next_event range_stream f s' es'
  unfolding next_event
  next_event_skip h = rw (next, full, h)

  next_event_stop :
      (ev : Event)
      → handle_entry p es ≡ (es', ok (some ev))
      → next_event range_stream (suc f) s es ≡ some (s', (es', ok (some ev)))
  unfolding next_event
  next_event_stop ev h = rw (next, full, h)

  next_event_throw :
      (e : Error)
      → handle_entry p es ≡ (es', throw e)
      → next_event range_stream (suc f) s es ≡ some (s', (es', throw e))
  unfolding next_event
  next_event_throw e h = rw (next, full, h)

next_event_end :
    (f : ℕ) (es : EventStream) → next_event range_stream (suc f) [] es ≡ some ([], (es, ok none))
unfolding next_event next_range_payload empty
next_event_end f es = refl

tagged_full : (v : ℕ) (rest : List ℕ) → empty (le_bytes 8 v ++ rest) ≡ false
unfolding empty le_bytes
tagged_full v rest = refl

handle_source :
    (s : EventSource) (es : EventStream)
    → FitsSource s
    → handle_entry (le_bytes 8 event_source_entry.tag ++ event_source_entry.serialize s) es
      ≡ (record es { event_sources = emplace s.id s es.event_sources }, ok none)
unfolding read_special read_event_source
handle_source s es h =
    handle_special source_lawful s es
    ∙ ap (λ r. skip (store_source es r)) (rw append-nil at (source_lawful.round_trip s [] h))

handle_writer :
    (w : WriterProp) (es : EventStream)
    → FitsWriterProp w
    → handle_entry (le_bytes 8 writer_prop_entry.tag ++ writer_prop_entry.serialize w) es
      ≡ (record es { writer_prop = w }, ok none)
unfolding read_special read_writer_prop
handle_writer w es h =
    handle_special writer_prop_lawful w es
    ∙ ap (λ r. skip (store_writer_prop es r))
        (rw append-nil at (writer_prop_lawful.round_trip w [] h))

handle_clock :
    (c : ClockSync) (es : EventStream)
    → FitsClockSync c
    → handle_entry (le_bytes 8 clock_sync_entry.tag ++ clock_sync_entry.serialize c) es
      ≡ (record es { clock_sync = c }, ok none)
unfolding read_special read_clock_sync
handle_clock c es h =
    handle_special clock_sync_lawful c es
    ∙ ap (λ r. skip (store_clock_sync es r))
        (rw append-nil at (clock_sync_lawful.round_trip c [] h))

-- What `nextEvent` does with the bytes of the items `is` that are left.
pub record Follows (sp : Spec) (out : Spec × Result (Option Event) × List Item) (f : ℕ)
    (input : Range) (es : EventStream) : Type 0 where
  pub es' : EventStream
  pub agrees : Agrees out.0 es'
  pub returns : next_event range_stream f input es ≡ some (encode_all out.2, (es', out.1))

Agrees-source :
    (s : EventSource) {sp : Spec} {es : EventStream}
    → s.id < 2 ^ 64
    → Agrees sp es
    → Agrees
        (record sp { sources = λ j. if s.id == j then some s else sp.sources j })
        (record es { event_sources = emplace s.id s es.event_sources })
Agrees-source s {sp} {es} h a = record {
  valid = emplace-IsValid s.id s a.valid h;
  same_sources = λ j k.
      find-emplace s.id j s a.valid h k
      ∙ ap (λ x. if s.id == j then some s else x) (a.same_sources j k);
  same_writer = a.same_writer;
  same_clock = a.same_clock;
}

event_payload :
    (id value : ℕ) (args rest : List ℕ)
    → 16 + length args < 2 ^ 32
    → next_range_payload (event_bytes id value args ++ rest)
      ≡ (rest, ok (le_bytes 8 id ++ (le_bytes 8 value ++ args)))
unfolding next_range_payload
event_payload id value args rest h = rw (
  append_assoc,
  empty_frame,
  read-le_bytes 4 (16 + length args) (body ++ rest) (omega arith),
  view-append_of_length (16 + length args) body rest (
      omega (
        arith,
        length-append (le_bytes 8 id) (le_bytes 8 value ++ args),
        length-append (le_bytes 8 value) args,
        length-le_bytes 8 id,
        length-le_bytes 8 value,
      )),
)
  where
    body : List ℕ
    body = le_bytes 8 id ++ (le_bytes 8 value ++ args)

Follows-event :
    (f id value : ℕ) (args : List ℕ) (is : List Item) {sp : Spec} {es : EventStream}
    → FitsItem (event id value args)
    → Agrees sp es
    → (x : Option EventSource) → sp.sources id ≡ x
    → Follows sp
        (sp, found id value args x, is)
        (suc f)
        (event_bytes id value args ++ encode_all is)
        es
unfolding read_event
Follows-event f id value args is {sp} {es} h a none e = record {
  es' = es;
  agrees = a;
  returns =
      next_event_throw f _ _ _ es es (event_payload id value args (encode_all is) h.2)
        (tagged_full id _) (Error.invalid_source id)
        (handle_event id value args es h.0
          ∙ ap (λ o. deliver (read_event_of id (le_bytes 8 value ++ args) es o))
              (a.same_sources id (omega arith) ∙ e));
}
Follows-event f id value args is {sp} {es} h a (some src) e = record {
  es' = record es { event = ev };
  agrees = record {
    valid = a.valid;
    same_sources = a.same_sources;
    same_writer = a.same_writer;
    same_clock = a.same_clock;
  };
  returns =
      next_event_stop f _ _ _ es _ (event_payload id value args (encode_all is) h.2)
        (tagged_full id _) ev
        (handle_event id value args es h.0
          ∙ ap (λ o. deliver (read_event_of id (le_bytes 8 value ++ args) es o))
              (a.same_sources id (omega arith) ∙ e)
          ∙ ap (λ r. deliver (store_event es src r)) (read-le_bytes 8 value args (omega arith)));
}
  where
    ev : Event
    ev = record { source = some src; clock_value = value; arguments = args }

Follows-of_skip :
    (f : ℕ) (sp sp' : Spec) (out : Spec × Result (Option Event) × List Item) (input input' : Range)
    (es es' : EventStream)
    → next_event range_stream (suc f) input es ≡ next_event range_stream f input' es'
    → Follows sp' out f input' es'
    → Follows sp out (suc f) input es
Follows-of_skip f sp sp' out input input' es es' e w = record {
  es' = w.es';
  agrees = w.agrees;
  returns = e ∙ w.returns;
}

-- On the bytes of items that fit, from members that agree with a description, with fuel for one round for each item and one more: `nextEvent` skips
-- the special entries before the next event, which it returns with the last source that was
-- given for its id, or else throws; its members then hold the last source of each id, writer and clock.
pub next_event-Follows :
    (is : List Item) (f : ℕ) {sp : Spec} {es : EventStream}
    → All FitsItem is
    → length is < f
    → Agrees sp es
    → Follows sp (next_item sp is) f (encode_all is) es
unfolding next_item encode_all encode
next_event-Follows is zero h k a = absurd (omega arith)
next_event-Follows [] (suc f) {sp} {es} h k a = record {
  es' = es;
  agrees = a;
  returns = next_event_end f es;
}
next_event-Follows (source s ∷ is) (suc f) {sp} {es} (h, hs) k a =
    Follows-of_skip f _ _ _ _ _ _ _
      (next_event_skip f _ _ _ es _ (payload-serialize source_lawful s h.1 (encode_all is))
        (tagged_full _ _) (handle_source s es h.0))
      (next_event-Follows is f hs (omega arith) (Agrees-source s h.0.id_fits a))
next_event-Follows (writer w ∷ is) (suc f) {sp} {es} (h, hs) k a =
    Follows-of_skip f _ _ _ _ _ _ _
      (next_event_skip f _ _ _ es _ (payload-serialize writer_prop_lawful w h.1 (encode_all is))
        (tagged_full _ _) (handle_writer w es h.0))
      (next_event-Follows is f hs (omega arith) (record {
        valid = a.valid;
        same_sources = a.same_sources;
        same_writer = refl;
        same_clock = a.same_clock;
      }))
next_event-Follows (clock c ∷ is) (suc f) {sp} {es} (h, hs) k a =
    Follows-of_skip f _ _ _ _ _ _ _
      (next_event_skip f _ _ _ es _ (payload-serialize clock_sync_lawful c h.1 (encode_all is))
        (tagged_full _ _) (handle_clock c es h.0))
      (next_event-Follows is f hs (omega arith) (record {
        valid = a.valid;
        same_sources = a.same_sources;
        same_writer = a.same_writer;
        same_clock = refl;
      }))
next_event-Follows (event id value args ∷ is) (suc f) {sp} {es} (h, hs) k a =
    Follows-event f id value args is h a (sp.sources id) refl
