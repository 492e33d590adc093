-- ===== src/PrettyPrinter/Message.antt =====
-- The message of an event: its format with the arguments filled in.
use btui.Prelude.{
  ℕ, ◌≤◌, ◌≡◌, refl, sym, ap, ◌∙◌, Bool, true, false, ◌&&◌, List, [], ◌∷◌, ◌++◌, append_assoc,
  append-nil, All, ◌==◌,
}
use btui.Result.{ok}
use btui.Range.{Range}
use btui.Entries.{EventSource}
use btui.Tags.Pop.{tag_pop_lem}
use btui.Visitor.{new}
use btui.Visit.Values.{Value, tag_of, bytes_of, render}
use btui.Visit.Whole.{Fits, tag_of-IsWhole}
use btui.Visit.Steps.{height}
use btui.Visit.Render.{visit_value-render}
use btui.PrettyPrinter.{
  Platform, PrettyPrinter, print_arithmetic, print_struct, print_message, printed_message,
  print_event_message,
}

-- The arguments, each with the text behind it.
abbrev pub Arguments : Type 0
Arguments = List (Value × List ℕ)

-- The format, with {} for each argument.
unfoldable pub format_of : List ℕ → Arguments → List ℕ
format_of text [] = text
format_of text ((v, t) ∷ args) = text ++ (123 ∷ 125 ∷ format_of t args)

unfoldable pub tags_of : Arguments → List ℕ
tags_of [] = []
tags_of ((v, t) ∷ args) = tag_of v ++ tags_of args

unfoldable pub bytes_of_all : Arguments → List ℕ
bytes_of_all [] = []
bytes_of_all ((v, t) ∷ args) = bytes_of v ++ bytes_of_all args

-- A text without {}.
unfoldable pub HasNoHole : List ℕ → Type 0
HasNoHole [] = Unit {0}
HasNoHole (c ∷ []) = Unit {0}
HasNoHole (c ∷ d ∷ text) = (((c == 123) && (d == 125)) ≡ false) × HasNoHole (d ∷ text)

and_false : (b : Bool) → b && false ≡ false
and_false true = refl
and_false false = refl

module _ (platform : Platform) (p : PrettyPrinter) where
  -- The format with what the arguments print.
  unfoldable pub filled : List ℕ → Arguments → List ℕ
  filled text [] = text
  filled text ((v, t) ∷ args) = text ++ (render (print_arithmetic platform) v ++ filled t args)

  -- An argument can be visited by its tag, and is at most 2048 deep, and there is no {} in the text behind it.
  abbrev pub IsArgument : Value × List ℕ → Type 0
  IsArgument (v, t) = Fits (tag_of v) (print_struct platform p) v × (height v ≤ 2048) × HasNoHole t

  last_text :
      (text : List ℕ) (tags out : List ℕ) (args : Range)
      → HasNoHole text
      → print_message platform p text tags (new out) args ≡ (new (out ++ text), ok args)
  unfolding print_message HasNoHole new
  last_text [] tags out args h = ap (λ o. (new o, ok args)) (sym (append-nil out))
  last_text (c ∷ []) tags out args h = refl
  last_text (c ∷ d ∷ text) tags out args (h, hs) =
      rw (h, last_text (d ∷ text) tags (out ++ (c ∷ [])) args hs)
        (ap (λ o. (new o, ok args)) (append_assoc out (c ∷ []) (d ∷ text)))

  skip_text :
      (text fmt : List ℕ) (tags out : List ℕ) (args : Range)
      → HasNoHole text
      → print_message platform p (text ++ (123 ∷ fmt)) tags (new out) args
        ≡ print_message platform p (123 ∷ fmt) tags (new (out ++ text)) args
  unfolding print_message HasNoHole new
  skip_text [] fmt tags out args h =
      ap (λ o. print_message platform p (123 ∷ fmt) tags (new o) args) (sym (append-nil out))
  skip_text (c ∷ []) fmt tags out args h = rw (and_false (c == 123)) refl
  skip_text (c ∷ d ∷ text) fmt tags out args (h, hs) =
      rw (h, skip_text (d ∷ text) fmt tags (out ++ (c ∷ [])) args hs)
        (ap (λ o. print_message platform p (123 ∷ fmt) tags (new o) args)
          (append_assoc out (c ∷ []) (d ∷ text)))

  argument_lem :
      (v : Value) (fmt tags out : List ℕ) (rest : Range)
      → Fits (tag_of v) (print_struct platform p) v
      → height v ≤ 2048
      → print_message platform p (123 ∷ 125 ∷ fmt) (tag_of v ++ tags) (new out) (bytes_of v ++ rest)
        ≡ print_message platform p fmt tags (new (out ++ render (print_arithmetic platform) v)) rest
  unfolding print_message
  argument_lem v fmt tags out rest f k =
      rw
        (
          tag_pop_lem (tag_of-IsWhole (tag_of v) (print_struct platform p) v f).tag tags,
          visit_value-render (print_arithmetic platform) (print_struct platform p) v out rest f k,
        )
        refl

  message_lem :
      (text : List ℕ) (values : Arguments) (out rest : List ℕ)
      → HasNoHole text
      → All IsArgument values
      → print_message platform p
          (format_of text values)
          (tags_of values)
          (new out)
          (bytes_of_all values ++ rest)
        ≡ (new (out ++ filled text values), ok rest)
  unfolding filled format_of tags_of bytes_of_all
  message_lem text [] out rest h hs = last_text text [] out rest h
  message_lem text ((v, t) ∷ values) out rest h ((f, k, g), hs) =
      let printed : List ℕ = render (print_arithmetic platform) v in
      ap
        (λ r.
          print_message platform p (text ++ (123 ∷ 125 ∷ format_of t values))
            (tag_of v ++ tags_of values) (new out) r)
        (append_assoc (bytes_of v) (bytes_of_all values) rest)
      ∙ skip_text text (125 ∷ format_of t values) (tag_of v ++ tags_of values) out
          (bytes_of v ++ (bytes_of_all values ++ rest)) h
      ∙ argument_lem v (format_of t values) (tags_of values) (out ++ text)
          (bytes_of_all values ++ rest) f k
      ∙ message_lem t values ((out ++ text) ++ printed) rest g hs
      ∙ ap (λ o. (new o, ok rest))
          (append_assoc (out ++ text) printed (filled t values)
            ∙ append_assoc out text (printed ++ filled t values))

-- The message of an event is its format with each {} replaced by what the next argument prints, where
-- the argument tags are those of the arguments and the argument bytes start with theirs, each argument fits
-- its tag and the printer's structs and is at most 2048 deep, and the texts between the arguments hold no {}. An
-- argument fits if its sizes fit their types, its names hold no separators, no struct without
-- fields refers to one around it, the printer takes exactly the structs
-- that are marked as printed, whose first field is neither a tuple nor a struct, and no sequence of more than 32
-- elements has only elements without bytes, made of empty tuples and structs alone.
pub print_event_message-filled :
    (platform : Platform) (p : PrettyPrinter) (source : EventSource)
    → (text : List ℕ) (values : Arguments) (out rest : List ℕ) → HasNoHole text
    → All (IsArgument platform p) values
    → print_event_message platform p
        (record source { format_string = format_of text values; argument_tags = tags_of values })
        (bytes_of_all values ++ rest)
        out
      ≡ (out ++ filled platform p text values, ok tt)
unfolding print_event_message new
print_event_message-filled platform p source text values out rest h hs =
    ap printed_message (message_lem platform p text values out rest h hs)
