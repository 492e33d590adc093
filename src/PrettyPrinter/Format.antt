-- ===== src/PrettyPrinter/Format.antt =====
-- Formats are texts with fields between them.
use btui.Prelude.{
  ==→eq, ℕ, ◌≡◌, refl, sym, ap, ◌∙◌, Bool, true, false, List, [], ◌∷◌, ◌++◌, append_assoc,
  append-nil, All, ◌==◌, if◌then◌else◌, some, Bool-cases, inl, inr,
}
use btui.Result.{ok}
use btui.Entries.{EventSource, WriterProp, ClockSync}
use btui.EventStream.{Event}
use btui.PrettyPrinter.{
  Platform, PrettyPrinter, Printed, then_print, print_format, print_event, print_event_field,
  event_field, use_localtime_from, use_localtime,
}

-- A field: its letter, what it prints, and the text behind it.
abbrev pub Field : Type 0
Field = ℕ × (List ℕ × List ℕ)

-- A text in a format: % is doubled.
unfoldable pub escape : List ℕ → List ℕ
escape [] = []
escape (c ∷ s) = if c == 37 then 37 ∷ 37 ∷ escape s else c ∷ escape s

unfoldable pub pattern_of : List ℕ → List Field → List ℕ
unfolding escape
pattern_of text [] = escape text
pattern_of text ((spec, (chars, behind)) ∷ fields) =
    escape text ++ (37 ∷ spec ∷ pattern_of behind fields)

unfoldable pub shown : List ℕ → List Field → List ℕ
shown text [] = text
shown text ((spec, (chars, behind)) ∷ fields) = text ++ (chars ++ shown behind fields)

abbrev pub Shows : (ℕ → List ℕ → Printed) → Field → Type 0
Shows field (spec, (chars, behind)) = (o : List ℕ) → field spec o ≡ (o ++ chars, ok tt)

module _ (field : ℕ → List ℕ → Printed) where
  print_char :
      (c : ℕ) (format out : List ℕ)
      → (c == 37) ≡ false
      → print_format field (c ∷ format) out ≡ print_format field format (out ++ (c ∷ []))
  unfolding print_format
  print_char c [] out h = refl
  print_char c (d ∷ format) out h = rw h refl

  print_escape :
      (text rest out : List ℕ)
      → Shows field (37, (37 ∷ [], []))
      → print_format field (escape text ++ rest) out ≡ print_format field rest (out ++ text)
  unfolding escape print_format
  print_escape [] rest out h = ap (print_format field rest) (sym (append-nil out))
  print_escape (c ∷ s) rest out h = elim (Bool-cases (c == 37)) [
    | inl e ↦ rw e (
        ap (then_print (print_format field (escape s ++ rest))) (h out)
        ∙ print_escape s rest (out ++ (37 ∷ [])) h
        ∙ ap (print_format field rest) (append_assoc out (37 ∷ []) s)
        ∙ ap (λ x. print_format field rest (out ++ (x ∷ s))) (sym (==→eq c 37 e)))
    | inr e ↦ rw e (
        print_char c (escape s ++ rest) out e
        ∙ print_escape s rest (out ++ (c ∷ [])) h
        ∙ ap (print_format field rest) (append_assoc out (c ∷ []) s))
  ]

  print_pattern :
      (text : List ℕ) (fields : List Field) (out : List ℕ)
      → Shows field (37, (37 ∷ [], []))
      → All (Shows field) fields
      → print_format field (pattern_of text fields) out ≡ (out ++ shown text fields, ok tt)
  unfolding pattern_of shown print_format
  print_pattern text [] out h hs =
      ap (λ l. print_format field l out) (sym (append-nil (escape text)))
      ∙ print_escape text [] out h
  print_pattern text ((spec, (chars, behind)) ∷ fields) out h (g, hs) =
      print_escape text (37 ∷ spec ∷ pattern_of behind fields) out h
      ∙ ap (then_print (print_format field (pattern_of behind fields))) (g (out ++ text))
      ∙ print_pattern behind fields ((out ++ text) ++ chars) h hs
      ∙ ap (λ o. (o, ok tt))
          (append_assoc (out ++ text) chars (shown behind fields)
            ∙ append_assoc out text (chars ++ shown behind fields))

-- An event is printed as the texts of the event format, in which %% is a single %, and between them what its fields
-- print; and the printer keeps the clock sync.
pub print_event-pattern_of :
    (platform : Platform) (p : PrettyPrinter) (source : EventSource) (event : Event)
    (writer_prop : WriterProp)
    → (sync : ClockSync) (text : List ℕ) (fields : List Field) (out : List ℕ)
    → p.event_format ≡ pattern_of text fields
    → All
        (Shows (λ spec o.
          print_event_field platform
            (record p { clock_sync = some sync })
            spec
            source
            event
            writer_prop
            sync
            o))
        fields
    → print_event platform p source event writer_prop sync out
      ≡ ((out ++ shown text fields, ok tt), record p { clock_sync = some sync })
unfolding print_event print_event_field event_field
print_event-pattern_of platform p source event writer_prop sync text fields out e h =
    let p' = record p { clock_sync = some sync } in
    ap (λ o. (o, p'))
      (ap
          (λ f.
            print_format
              (λ spec o. print_event_field platform p' spec source event writer_prop sync o) f out)
          e
        ∙ print_pattern
            (λ spec o. print_event_field platform p' spec source event writer_prop sync o) text
            fields out (λ o. refl) h)

-- The letters of the fields, up to the first time.
unfoldable pub first_is_local : List Field → Bool
first_is_local [] = true
first_is_local ((spec, (chars, behind)) ∷ fields) =
    let later = first_is_local fields in
    if spec == b'd' then true else (if spec == b'u' then false else later)

localtime-escape :
    (text rest : List ℕ)
    → use_localtime_from false (escape text ++ rest) ≡ use_localtime_from false rest
unfolding use_localtime_from escape
localtime-escape [] rest = refl
localtime-escape (c ∷ s) rest = elim (Bool-cases (c == 37)) [
  | inl e ↦ rw e (localtime-escape s rest)
  | inr e ↦ rw e (ap (λ b. use_localtime_from b (escape s ++ rest)) e ∙ localtime-escape s rest)
]

-- Local time is used unless the first time among the fields of the event format is %u; a letter behind a doubled %
-- is no field.
pub use_localtime-pattern_of :
    (text : List ℕ) (fields : List Field)
    → use_localtime (pattern_of text fields) ≡ first_is_local fields
unfolding use_localtime pattern_of first_is_local use_localtime_from
use_localtime-pattern_of text [] =
    ap (use_localtime_from false) (sym (append-nil (escape text))) ∙ localtime-escape text []
use_localtime-pattern_of text ((spec, (chars, behind)) ∷ fields) =
    localtime-escape text (37 ∷ spec ∷ pattern_of behind fields)
    ∙ ap (λ b. if spec == b'd' then true else (if spec == b'u' then false else b))
        (use_localtime-pattern_of behind fields)
