-- ===== src/Printers/Items.antt =====
-- Printing written entries.
use btui.Prelude.{
  ap₂, ℕ, zero, suc, ◌≤◌, ◌<◌, ◌≡◌, refl, sym, subst, Option, none, some, List, [], ◌∷◌, length,
  length-append, arith, All, ◌==◌, if◌then◌else◌,
}
use btui.Result.{Result, ok, throw, Error}
use btui.Range.{le_bytes, Range}
use btui.Entries.{serialize_size_prefixed_tagged, EventSource}
use btui.EventStream.{Event, EventStream, next_event}
use btui.EventStream.Decode.{
  encode, Item, source, writer, clock, event, Spec, found, next_item, Agrees, FitsItem, encode_all,
  next_event-Follows, range_stream,
}
use btui.PrettyPrinter.{Platform, PrettyPrinter, print_event}
use btui.Printers.{Done, Body, on_next, Loop, print_from, write, after_event, print_one}

-- What is printed for items, with the sources, the writer and the clock that came before them.
module _ {A : Type 0} (body : Body A) where
  abbrev pub then_items : (PrettyPrinter → A → Done A) → Done A × PrettyPrinter → Done A
  then_items k ((out, throw e), p) = (out, throw e)
  then_items k ((out, ok u), p) = k p out

  abbrev pub print_found :
      (PrettyPrinter → A → Done A)
      → Spec
      → ℕ
      → ℕ
      → List ℕ
      → PrettyPrinter
      → A
      → Option EventSource
      → Done A
  print_found k sp id value args p out none = (out, throw (Error.invalid_source id))
  print_found k sp id value args p out (some s) = then_items k (
      body p s (record { source = some s; clock_value = value; arguments = args }) sp.writer_prop
        sp.clock_sync out)

  unfoldable pub print_items : Spec → List Item → PrettyPrinter → A → Done A
  print_items sp [] p out = (out, ok tt)
  print_items sp (source s ∷ is) p out =
      print_items (record sp { sources = λ j. if s.id == j then some s else sp.sources j }) is p out
  print_items sp (writer w ∷ is) p out = print_items (record sp { writer_prop = w }) is p out
  print_items sp (clock c ∷ is) p out = print_items (record sp { clock_sync = c }) is p out
  print_items sp (event id value args ∷ is) p out =
      print_found (λ p' o. print_items sp is p' o) sp id value args p out (sp.sources id)

  -- The same, by the next event.
  abbrev print_source :
      (PrettyPrinter → A → Done A) → Spec → Event → PrettyPrinter → A → Option EventSource → Done A
  print_source k sp ev p out none = (out, ok tt)
  print_source k sp ev p out (some s) = then_items k (body p s ev sp.writer_prop sp.clock_sync out)

  abbrev print_next : Spec × Result (Option Event) × List Item → PrettyPrinter → A → Done A
  print_next (sp, throw e, is) p out = (out, throw e)
  print_next (sp, ok none, is) p out = (out, ok tt)
  print_next (sp, ok (some ev), is) p out =
      print_source (λ p' o. print_items sp is p' o) sp ev p out ev.source

  found_next :
      (sp : Spec) (id value : ℕ) (args : List ℕ) (is : List Item) (p : PrettyPrinter) (out : A)
      (o : Option EventSource)
      → print_found (λ p' o. print_items sp is p' o) sp id value args p out o
        ≡ print_next (sp, found id value args o, is) p out
  found_next sp id value args is p out none = refl
  found_next sp id value args is p out (some s) = refl

  print_items_next :
      (sp : Spec) (is : List Item) (p : PrettyPrinter) (out : A)
      → print_items sp is p out ≡ print_next (next_item sp is) p out
  unfolding print_items next_item
  print_items_next sp [] p out = refl
  print_items_next sp (source s ∷ is) p out =
      print_items_next (record sp { sources = λ j. if s.id == j then some s else sp.sources j }) is
        p out
  print_items_next sp (writer w ∷ is) p out =
      print_items_next (record sp { writer_prop = w }) is p out
  print_items_next sp (clock c ∷ is) p out =
      print_items_next (record sp { clock_sync = c }) is p out
  print_items_next sp (event id value args ∷ is) p out =
      found_next sp id value args is p out (sp.sources id)

  -- The output of a loop.
  abbrev pub Prints : Done A → Loop A → Type 0
  Prints r l = (es : EventStream) × (p : PrettyPrinter) × (l ≡ some (es, p, r))

-- The items behind an event that is found are fewer, and the event has a source.
abbrev GoesOn : ℕ → Spec × Result (Option Event) × List Item → Type 0
GoesOn n (sp, throw e, is) = Unit {0}
GoesOn n (sp, ok none, is) = Unit {0}
GoesOn n (sp, ok (some ev), is) =
    (length is < n) × All FitsItem is × ((s : EventSource) × (ev.source ≡ some s))

GoesOn-le :
    (n m : ℕ) (o : Spec × Result (Option Event) × List Item) → n ≤ m → GoesOn n o → GoesOn m o
GoesOn-le n m (sp, throw e, is) k g = tt
GoesOn-le n m (sp, ok none, is) k g = tt
GoesOn-le n m (sp, ok (some ev), is) k (l, h, s) = (omega arith, h, s)

GoesOn-suc : (n : ℕ) (o : Spec × Result (Option Event) × List Item) → GoesOn n o → GoesOn (suc n) o
GoesOn-suc n (sp, throw e, is) g = tt
GoesOn-suc n (sp, ok none, is) g = tt
GoesOn-suc n (sp, ok (some ev), is) (l, h, s) = (omega arith, h, s)

found-GoesOn :
    (sp : Spec) (id value : ℕ) (args : List ℕ) (is : List Item) (o : Option EventSource)
    → All FitsItem is
    → GoesOn (suc (length is)) (sp, found id value args o, is)
found-GoesOn sp id value args is none h = tt
found-GoesOn sp id value args is (some s) h = (omega arith, h, (s, refl))

next_item-GoesOn :
    (is : List Item) (sp : Spec) → All FitsItem is → GoesOn (length is) (next_item sp is)
unfolding next_item
next_item-GoesOn [] sp h = tt
next_item-GoesOn (source s ∷ is) sp (h, hs) =
    GoesOn-suc (length is)
      (next_item (record sp { sources = λ j. if s.id == j then some s else sp.sources j }) is)
      (next_item-GoesOn is (record sp { sources = λ j. if s.id == j then some s else sp.sources j })
        hs)
next_item-GoesOn (writer w ∷ is) sp (h, hs) =
    GoesOn-suc (length is) (next_item (record sp { writer_prop = w }) is)
      (next_item-GoesOn is (record sp { writer_prop = w }) hs)
next_item-GoesOn (clock c ∷ is) sp (h, hs) =
    GoesOn-suc (length is) (next_item (record sp { clock_sync = c }) is)
      (next_item-GoesOn is (record sp { clock_sync = c }) hs)
next_item-GoesOn (event id value args ∷ is) sp (h, hs) =
    found-GoesOn sp id value args is (sp.sources id) hs

module _ {A : Type 0} (body : Body A) where
  after_event_lem :
      (k : PrettyPrinter → A → Loop A) (k' : PrettyPrinter → A → Done A) (es : EventStream)
      → ((p : PrettyPrinter) (o : A) → Prints body (k' p o) (k p o))
      → (r : Done A × PrettyPrinter)
      → Prints body (then_items body k' r) (after_event body range_stream k es r)
  after_event_lem k k' es h ((out, throw e), p) = (es, p, refl)
  after_event_lem k k' es h ((out, ok u), p) = h p out

  source_lem :
      (k : PrettyPrinter → A → Loop A) (k' : PrettyPrinter → A → Done A) (sp : Spec) (ev : Event)
      (es : EventStream) (p : PrettyPrinter) (out : A)
      → ((p : PrettyPrinter) (o : A) → Prints body (k' p o) (k p o))
      → Agrees sp es
      → (o : Option EventSource) → (s : EventSource) × (o ≡ some s)
      → Prints body
          (print_source body k' sp ev p out o)
          (print_one body range_stream k es p out ev o)
  source_lem k k' sp ev es p out h a none (s, e) = absurd cc
  source_lem k k' sp ev es p out h a (some s) g =
      subst (λ x. Prints body x (print_one body range_stream k es p out ev (some s)))
        (ap₂ (λ w c. then_items body k' (body p s ev w c out)) a.same_writer a.same_clock)
        (after_event_lem k k' es h (body p s ev es.writer_prop es.clock_sync out))

  next_lem :
      (k : Range → EventStream → PrettyPrinter → A → Loop A) (n : ℕ)
      (o : Spec × Result (Option Event) × List Item) (es : EventStream) (p : PrettyPrinter)
      (out : A)
      → ((is : List Item) (sp : Spec) (es : EventStream) (p : PrettyPrinter) (out : A)
          → length is < n
          → All FitsItem is
          → Agrees sp es
          → Prints body (print_items body sp is p out) (k (encode_all is) es p out))
      → Agrees o.0 es
      → GoesOn n o
      → Prints body
          (print_next body o p out)
          (on_next body range_stream k p out (some (encode_all o.2, (es, o.1))))
  next_lem k n (sp, throw e, is) es p out c a g = (es, p, refl)
  next_lem k n (sp, ok none, is) es p out c a g = (es, p, refl)
  next_lem k n (sp, ok (some ev), is) es p out c a (l, h, (s, e)) =
      source_lem (λ p' o. k (encode_all is) es p' o) (λ p' o. print_items body sp is p' o) sp ev es
        p out (λ p' o. c is sp es p' o l h a) a ev.source (s, e)

  pub print_from_lem :
      (f : ℕ) (is : List Item) (sp : Spec) (es : EventStream) (p : PrettyPrinter) (out : A)
      → length is < f
      → All FitsItem is
      → Agrees sp es
      → Prints body
          (print_items body sp is p out)
          (print_from body range_stream f (encode_all is) es p out)
  unfolding print_from
  print_from_lem zero is sp es p out k h a = absurd (omega arith)
  print_from_lem (suc f) is sp es p out k h a =
      let fo = next_event-Follows is (suc f) h k a in
      let go : Range → EventStream → PrettyPrinter → A → Loop A =
        λ s' es' p' o. print_from body range_stream f s' es' p' o in
      subst
        (λ x.
          Prints body x (
            on_next body range_stream go p out
              (next_event range_stream (suc f) (encode_all is) es)))
        (sym (print_items_next body sp is p out))
        (subst
          (λ l.
            Prints body (print_next body (next_item sp is) p out)
              (on_next body range_stream go p out l))
          (sym fo.returns)
          (next_lem go f (next_item sp is) fo.es' p out
            (λ is' sp' es' p' o l h' a'. print_from_lem f is' sp' es' p' o l h' a') fo.agrees
            (GoesOn-le (length is) f (next_item sp is) (omega arith) (next_item-GoesOn is sp h))))

encode-full : (i : Item) → 1 ≤ length (encode i)
unfolding encode serialize_size_prefixed_tagged le_bytes
encode-full (source s) = omega arith
encode-full (writer w) = omega arith
encode-full (clock c) = omega arith
encode-full (event id value args) = omega arith

length-encode_all : (is : List Item) → length is ≤ length (encode_all is)
unfolding encode_all
length-encode_all [] = omega arith
length-encode_all (i ∷ is) =
    omega (arith, length-append (encode i) (encode_all is), encode-full i, length-encode_all is)

-- Writing the bytes of entries that fit to a text output stream, with members that agree with the sources, the writer
-- and the clock before them, prints each of their events with the last source of its id, the last writer and the last
-- clock, in order, up to the first that throws.
pub write-print_items :
    (platform : Platform) (is : List Item) (sp : Spec) (es : EventStream) (p : PrettyPrinter)
    (out : List ℕ)
    → All FitsItem is
    → Agrees sp es
    → Prints
        (print_event platform)
        (print_items (print_event platform) sp is p out)
        (write platform (encode_all is) es p out)
unfolding write
write-print_items platform is sp es p out h a =
    print_from_lem (print_event platform) (suc (length (encode_all is))) is sp es p out
      (omega (arith, length-encode_all is)) h a
