-- ===== src/Printers/Istreams.antt =====
-- The loop of the printers on an `std::istream` of whole entries does what it does on a range of them.
use btui.Prelude.{ℕ, zero, suc, ◌≡◌, refl, Option, none, some, List, All, drop}
use btui.Result.{ok, throw}
use btui.Range.{Range}
use btui.Entries.{EventSource}
use btui.EntryStream.{Istream}
use btui.EventStream.{Event, EventStream, Outcome}
use btui.EventStream.Decode.{range_stream}
use btui.EventStream.Progress.{istream_stream}
use btui.EventStream.Istreams.{FitsPayload, entries, at, Same, next_event-Same}
use btui.PrettyPrinter.{PrettyPrinter}
use btui.Printers.{Body, Done, Loop, after_event, print_one, on_next, print_from}

module _ {A : Type 0} (body : Body A) (content : List ℕ) where
  after_lem :
      (k k' : PrettyPrinter → A → Loop A) (es : EventStream)
      → ((p : PrettyPrinter) (out : A) → k p out ≡ k' p out)
      → (r : Done A × PrettyPrinter)
      → after_event body range_stream k es r ≡ after_event body istream_stream k' es r
  after_lem k k' es e ((out, throw x), p) = refl
  after_lem k k' es e ((out, ok u), p) = e p out

  one_lem :
      (k k' : PrettyPrinter → A → Loop A) (es : EventStream) (p : PrettyPrinter) (out : A)
      (event : Event)
      → ((p : PrettyPrinter) (out : A) → k p out ≡ k' p out)
      → (o : Option EventSource)
      → print_one body range_stream k es p out event o
        ≡ print_one body istream_stream k' es p out event o
  one_lem k k' es p out event e none = refl
  one_lem k k' es p out event e (some source) =
      after_lem k k' es e (body p source event es.writer_prop es.clock_sync out)

  next_lem :
      (k : Range → EventStream → PrettyPrinter → A → Loop A)
      (k' : Istream → EventStream → PrettyPrinter → A → Loop A) (p : PrettyPrinter) (out : A)
      → ((ps : List (List ℕ)) (pos gcount : ℕ) (es : EventStream) (p : PrettyPrinter) (out : A)
          → All FitsPayload ps
          → drop pos content ≡ entries ps
          → k (entries ps) es p out ≡ k' (at content pos gcount) es p out)
      → (x : Option (Range × Outcome (Option Event)))
        (y : Option (Istream × Outcome (Option Event)))
      → Same content x y
      → on_next body range_stream k p out x ≡ on_next body istream_stream k' p out y
  next_lem k k' p out c x y Same.fuel_out = refl
  next_lem k k' p out c x y (Same.throws r s es e) = refl
  next_lem k k' p out c x y (Same.ends r s es) = refl
  next_lem k k' p out c x y (Same.delivers r ps pos gcount es ev q h e) =
      one_lem (λ p' o. k r es p' o) (λ p' o. k' (at content pos gcount) es p' o) es p out ev
        (λ p' o. rw q (c ps pos gcount es p' o h e)) ev.source

  pub print_from-istream :
      (f : ℕ) (ps : List (List ℕ)) (pos gcount : ℕ) (es : EventStream) (p : PrettyPrinter) (out : A)
      → All FitsPayload ps
      → drop pos content ≡ entries ps
      → print_from body range_stream f (entries ps) es p out
        ≡ print_from body istream_stream f (at content pos gcount) es p out
  unfolding print_from
  print_from-istream zero ps pos gcount es p out h e = refl
  print_from-istream (suc f) ps pos gcount es p out h e =
      next_lem (λ s' es' p' o. print_from body range_stream f s' es' p' o)
        (λ s' es' p' o. print_from body istream_stream f s' es' p' o) p out
        (λ ps' pos' gcount' es' p' o h' e'. print_from-istream f ps' pos' gcount' es' p' o h' e') _
        _ (next_event-Same content (suc f) ps pos gcount es h e)
