-- ===== src/EventStream/Istreams.antt =====
-- An `std::istream` of whole entries gives the events that a range of them gives.
use btui.Prelude.{
  ℕ, zero, suc, ◌+◌, ◌<◌, ◌^◌, ◌≡◌, refl, sym, ap, ap₂, ◌∙◌, true, false, Option, none, some, List,
  [], ◌∷◌, ◌++◌, append_assoc, length, length-append, take, drop, slice, drop_add,
  take-length-append, drop-length-append, All, arith,
}
use btui.Result.{ok, throw, Error}
use btui.Range.{Range, empty, le_bytes}
use btui.Range.Words.{read-le_bytes, view-append, length-le_bytes, le_value-le_bytes}
use btui.Entries.{
  Entry, serialize_size_prefixed_tagged, event_source_entry, writer_prop_entry, clock_sync_entry,
}
use btui.Entries.Codec.{Lawful, source_lawful, writer_prop_lawful, clock_sync_lawful}
use btui.Entries.Frames.{empty_frame}
use btui.EntryStream.{Istream, next_entry_payload, next_range_payload}
use btui.EventStream.{Event, EventStream, Outcome, after, handle_entry, next_event}
use btui.EventStream.Decode.{
  range_stream, Item, source, writer, clock, event, encode, encode_all, FitsItem,
}
use btui.EventStream.Progress.{istream_stream}

-- A payload that an entry can have.
abbrev pub FitsPayload : List ℕ → Type 0
FitsPayload p = (length p < 2 ^ 32) × (empty p ≡ false)

abbrev entry : List ℕ → List ℕ → List ℕ
entry p rest = le_bytes 4 (length p) ++ (p ++ rest)

-- The bytes of entries with these payloads.
unfoldable pub entries : List (List ℕ) → List ℕ
entries [] = []
entries (p ∷ ps) = entry p (entries ps)

unfoldable pub payload_of : Item → List ℕ
payload_of (source s) = le_bytes 8 event_source_entry.tag ++ event_source_entry.serialize s
payload_of (writer w) = le_bytes 8 writer_prop_entry.tag ++ writer_prop_entry.serialize w
payload_of (clock c) = le_bytes 8 clock_sync_entry.tag ++ clock_sync_entry.serialize c
payload_of (event id value args) = le_bytes 8 id ++ (le_bytes 8 value ++ args)

unfoldable pub payloads : List Item → List (List ℕ)
payloads [] = []
payloads (i ∷ is) = payload_of i ∷ payloads is

special_lem :
    {A : Type 0} ⦃e : Entry A⦄ (l : Lawful e) (a : A)
    → e.serialized_size a + 8 < 2 ^ 32
    → (serialize_size_prefixed_tagged a).0
      ≡ le_bytes 4 (length (le_bytes 8 e.tag ++ e.serialize a))
        ++ (le_bytes 8 e.tag ++ e.serialize a)
unfolding serialize_size_prefixed_tagged
special_lem ⦃e⦄ l a h =
    ap (λ n. le_bytes 4 n ++ (le_bytes 8 e.tag ++ e.serialize a))
      (omega (
        arith,
        l.length_serialize a,
        length-append (le_bytes 8 e.tag) (e.serialize a),
        length-le_bytes 8 e.tag,
      ))

length-event :
    (id value : ℕ) (args : List ℕ)
    → length (le_bytes 8 id ++ (le_bytes 8 value ++ args)) ≡ 16 + length args
length-event id value args = omega (
  arith,
  length-append (le_bytes 8 id) (le_bytes 8 value ++ args),
  length-append (le_bytes 8 value) args,
  length-le_bytes 8 id,
  length-le_bytes 8 value,
)

encode_lem : (i : Item) → FitsItem i → encode i ≡ le_bytes 4 (length (payload_of i)) ++ payload_of i
unfolding encode payload_of
encode_lem (source s) h = special_lem source_lawful s h.1
encode_lem (writer w) h = special_lem writer_prop_lawful w h.1
encode_lem (clock c) h = special_lem clock_sync_lawful c h.1
encode_lem (event id value args) h =
    ap (λ n. le_bytes 4 n ++ (le_bytes 8 id ++ (le_bytes 8 value ++ args)))
      (sym (length-event id value args))

pub encode_all-entries : (is : List Item) → All FitsItem is → encode_all is ≡ entries (payloads is)
unfolding encode_all entries payloads
encode_all-entries [] h = refl
encode_all-entries (i ∷ is) (h, hs) =
    ap₂ (λ a b. a ++ b) (encode_lem i h) (encode_all-entries is hs)
    ∙ append_assoc (le_bytes 4 (length (payload_of i))) (payload_of i) (entries (payloads is))

tagged-length :
    {A : Type 0} {e : Entry A} (l : Lawful e) (a : A)
    → e.serialized_size a + 8 < 2 ^ 32
    → FitsPayload (le_bytes 8 e.tag ++ e.serialize a)
unfolding empty le_bytes
tagged-length {A} {e} l a h = (
  omega (
    arith,
    l.length_serialize a,
    length-append (le_bytes 8 e.tag) (e.serialize a),
    length-le_bytes 8 e.tag,
  ),
  refl,
)

payload_of-Fits : (i : Item) → FitsItem i → FitsPayload (payload_of i)
unfolding payload_of empty le_bytes
payload_of-Fits (source s) h = tagged-length source_lawful s h.1
payload_of-Fits (writer w) h = tagged-length writer_prop_lawful w h.1
payload_of-Fits (clock c) h = tagged-length clock_sync_lawful c h.1
payload_of-Fits (event id value args) h = (omega (arith, length-event id value args, h.2), refl)

pub payloads-Fit : (is : List Item) → All FitsItem is → All FitsPayload (payloads is)
unfolding payloads
payloads-Fit [] h = tt
payloads-Fit (i ∷ is) (h, hs) = (payload_of-Fits i h, payloads-Fit is hs)

range_payload : (p rest : List ℕ) → FitsPayload p → next_range_payload (entry p rest) ≡ (rest, ok p)
unfolding next_range_payload
range_payload p rest h =
    rw (empty_frame, read-le_bytes 4 (length p) (p ++ rest) h.0, view-append p rest)

module _ (content : List ℕ) where
  -- A good stream at a position.
  abbrev pub at : ℕ → ℕ → Istream
  at pos gcount = record { content = content; pos = pos; good = true; gcount = gcount }

  slice_size :
      (pos : ℕ) (p rest : List ℕ)
      → drop pos content ≡ entry p rest
      → slice pos 4 content ≡ le_bytes 4 (length p)
  slice_size pos p rest e =
      ap (take 4) e
      ∙ ap (λ n. take n (entry p rest)) (sym (length-le_bytes 4 (length p)))
      ∙ take-length-append (le_bytes 4 (length p)) (p ++ rest)

  drop_size :
      (pos : ℕ) (p rest : List ℕ)
      → drop pos content ≡ entry p rest
      → drop (pos + 4) content ≡ p ++ rest
  drop_size pos p rest e =
      drop_add pos 4 content
      ∙ ap (drop 4) e
      ∙ ap (λ n. drop n (entry p rest)) (sym (length-le_bytes 4 (length p)))
      ∙ drop-length-append (le_bytes 4 (length p)) (p ++ rest)

  drop_payload :
      (pos : ℕ) (p rest : List ℕ)
      → drop pos content ≡ entry p rest
      → drop (pos + 4 + length p) content ≡ rest
  drop_payload pos p rest e =
      drop_add (pos + 4) (length p) content
      ∙ ap (drop (length p)) (drop_size pos p rest e)
      ∙ drop-length-append p rest

  slice_payload :
      (pos : ℕ) (p rest : List ℕ)
      → drop pos content ≡ entry p rest
      → slice (pos + 4) (length p) content ≡ p
  slice_payload pos p rest e =
      ap (take (length p)) (drop_size pos p rest e) ∙ take-length-append p rest

  istream_payload :
      (pos gcount : ℕ) (p rest : List ℕ)
      → FitsPayload p
      → drop pos content ≡ entry p rest
      → next_entry_payload (at pos gcount) ≡ (at (pos + 4 + length p) (length p), ok p)
  unfolding next_entry_payload
  istream_payload pos gcount p rest h e = ground (
    arith,
    slice_size pos p rest e,
    length-le_bytes 4 (length p),
    le_value-le_bytes 4 (length p) h.0,
    slice_payload pos p rest e,
  )

  istream_end :
      (pos gcount : ℕ)
      → drop pos content ≡ []
      → next_entry_payload (at pos gcount)
        ≡ (record { content = content; pos = pos + 0; good = false; gcount = 0 }, ok [])
  unfolding next_entry_payload
  istream_end pos gcount e = rw e refl

  -- The same events, or the same exception, from a range and from a stream; behind an event both stand before the
  -- same entries.
  pub data Same
      : Option (Range × Outcome (Option Event))
        → Option (Istream × Outcome (Option Event))
        → Type 0 where
    fuel_out : Same none none
    throws :
        (r : Range) (s : Istream) (es : EventStream) (e : Error)
        → Same (some (r, (es, throw e))) (some (s, (es, throw e)))
    ends :
        (r : Range) (s : Istream) (es : EventStream)
        → Same (some (r, (es, ok none))) (some (s, (es, ok none)))
    delivers :
        (r : Range) (ps : List (List ℕ)) (pos gcount : ℕ) (es : EventStream) (ev : Event)
        → r ≡ entries ps
        → All FitsPayload ps
        → drop pos content ≡ entries ps
        → Same (some (r, (es, ok (some ev)))) (some (at pos gcount, (es, ok (some ev))))

  after-Same :
      (k : Range → EventStream → Option (Range × Outcome (Option Event)))
      (k' : Istream → EventStream → Option (Istream × Outcome (Option Event))) (ps : List (List ℕ))
      (pos gcount : ℕ)
      → All FitsPayload ps
      → drop pos content ≡ entries ps
      → ((es : EventStream) → Same (k (entries ps) es) (k' (at pos gcount) es))
      → (o : Outcome (Option Event)) → Same (after k (entries ps) o) (after k' (at pos gcount) o)
  after-Same k k' ps pos gcount h e c (es, throw x) = Same.throws (entries ps) (at pos gcount) es x
  after-Same k k' ps pos gcount h e c (es, ok none) = c es
  after-Same k k' ps pos gcount h e c (es, ok (some ev)) =
      Same.delivers (entries ps) ps pos gcount es ev refl h e

  pub next_event-Same :
      (f : ℕ) (ps : List (List ℕ)) (pos gcount : ℕ) (es : EventStream)
      → All FitsPayload ps
      → drop pos content ≡ entries ps
      → Same
          (next_event range_stream f (entries ps) es)
          (next_event istream_stream f (at pos gcount) es)
  unfolding next_event entries
  next_event-Same zero ps pos gcount es h e = Same.fuel_out
  next_event-Same (suc f) [] pos gcount es h e = rw (istream_end pos gcount e) (
      unfold next_range_payload empty in
      Same.ends [] (record { content = content; pos = pos + 0; good = false; gcount = 0 }) es)
  next_event-Same (suc f) (p ∷ ps) pos gcount es (h, hs) e =
      rw (range_payload p (entries ps) h, istream_payload pos gcount p (entries ps) h e, h.1)
        (after-Same (λ s' es'. next_event range_stream f s' es')
          (λ s' es'. next_event istream_stream f s' es') ps (pos + 4 + length p) (length p) hs
          (drop_payload pos p (entries ps) e)
          (λ es'.
            next_event-Same f ps (pos + 4 + length p) (length p) es' hs
              (drop_payload pos p (entries ps) e))
          (handle_entry p es))
