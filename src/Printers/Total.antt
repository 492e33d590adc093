-- ===== src/Printers/Total.antt =====
-- The loops of the printers end.
use btui.Prelude.{ℕ, zero, suc, ◌<◌, ◌≡◌, refl, Option, none, some, arith}
use btui.Result.{ok, throw}
use btui.Entries.{EventSource}
use btui.EventStream.{Event, EventStream, EntryStream, Outcome}
use btui.EventStream.Progress.{Shrinks}
use btui.EventStream.Advance.{Advances, Leaves, next_event-Returns}
use btui.PrettyPrinter.{PrettyPrinter}
use btui.Printers.{Done, Loop, Body, after_event, print_one, on_next, print_from}

abbrev pub IsDone : {A : Type 0} → Loop A → Type 0
IsDone {A} o = (es : EventStream) × (p : PrettyPrinter) × (done : Done A) × (o ≡ some (es, p, done))

module _ {A : Type 0} (body : Body A) {S : Type 0} {input : EntryStream S} (l : Shrinks input)
    (a : Advances l) where
  after_event-IsDone :
      (k : PrettyPrinter → A → Loop A) (es : EventStream)
      → ((p : PrettyPrinter) (out : A) → IsDone (k p out))
      → (r : Done A × PrettyPrinter) → IsDone (after_event body input k es r)
  after_event-IsDone k es h ((out, throw e), p) = (es, p, (out, throw e), refl)
  after_event-IsDone k es h ((out, ok u), p) = h p out

  print_one-IsDone :
      (k : PrettyPrinter → A → Loop A) (es : EventStream) (p : PrettyPrinter) (out : A)
      (event : Event) (source : EventSource)
      → ((p : PrettyPrinter) (out : A) → IsDone (k p out))
      → (o : Option EventSource) → o ≡ some source
      → IsDone (print_one body input k es p out event o)
  print_one-IsDone k es p out event source h none e = absurd cc
  print_one-IsDone k es p out event source h (some found) e =
      after_event-IsDone k es h (body p found event es.writer_prop es.clock_sync out)

  on_next-IsDone :
      (k : S → EventStream → PrettyPrinter → A → Loop A) (p : PrettyPrinter) (out : A) (s : S)
      (r : S × Outcome (Option Event))
      → Leaves l a s r
      → ((s' : S) (es' : EventStream) (p' : PrettyPrinter) (out' : A)
          → l.Valid s'
          → l.left s' < l.left s
          → IsDone (k s' es' p' out'))
      → IsDone (on_next body input k p out (some r))
  on_next-IsDone k p out s (s', (es', throw e)) v h = (es', p, (out, throw e), refl)
  on_next-IsDone k p out s (s', (es', ok none)) v h = (es', p, (out, ok tt), refl)
  on_next-IsDone k p out s (s', (es', ok (some event))) ((v, less), (source, e)) h =
      print_one-IsDone (λ p' o. k s' es' p' o) es' p out event source (λ p' o. h s' es' p' o v less)
        event.source e

  -- On a stream whose payloads use up its bytes and which does not go back: with more fuel than bytes are left,
  -- the loop ends.
  pub print_from-IsDone :
      (f : ℕ) (s : S) (es : EventStream) (p : PrettyPrinter) (out : A)
      → l.Valid s
      → l.left s < f
      → IsDone (print_from body input f s es p out)
  unfolding print_from
  print_from-IsDone zero s es p out v h = absurd (omega arith)
  print_from-IsDone (suc f) s es p out v h =
      let (r, e, q) = next_event-Returns l a (suc f) s es v h in
      rw e (
        on_next-IsDone (λ s' es' p' o. print_from body input f s' es' p' o) p out s r q
          (λ s' es' p' o v' less. print_from-IsDone f s' es' p' o v' (omega arith)))
