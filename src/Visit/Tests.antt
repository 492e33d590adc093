-- ===== src/Visit/Tests.antt =====
-- Visiting `P{ x: 5, y: [(1, 2), ...] }`, a struct of an `int` and a sequence of 33 pairs of `int`s, and three more bytes.
use btui.Prelude.{
  ℕ, ◌+◌, ◌≤◌, ◌<◌, ◌≡◌, ◌≢◌, refl, none, [], ◌∷◌, ◌++◌, arith, inr, zero, suc, List,
}
use btui.Result.{ok}
use btui.Tags.Pop.{Balanced}
use btui.Visitor.{new}
use btui.Visit.{arithmetic_size, NumberPrinter, StructPrinter, visit_value}
use btui.Visit.Values.{
  count, Value, Values, number, sequence, tuple, structure, occupies, nil, cons, last, field,
  tag_of, bytes_of, IsName, render,
}
use btui.Visit.Tags.{IsPlain, plain-Balanced}
use btui.Visit.Whole.{Fits, FitsElems, tag_of-IsWhole}
use btui.Visit.Steps.{height}
use btui.Visit.Render.{visit_value-render}

abbrev digit : NumberPrinter
digit tag bits = (48 + bits) ∷ []

abbrev no_struct : StructPrinter
no_struct name tag r = ok (none, r)

abbrev pair : Value
pair = tuple (cons (number 105 1) (cons (number 105 2) nil))

pairs : ℕ → Values
pairs zero = nil
pairs (suc n) = cons pair (pairs n)

abbrev point : Value
point =
    structure (80 ∷ [])
      (field (120 ∷ []) (number 105 5) (last (121 ∷ []) (sequence (tag_of pair) (pairs 33))))

IsName-of : (x : ℕ) → IsPlain x → x ≢ 96 → x ≢ 39 → IsName (x ∷ [])
IsName-of x p a b = record {
  brackets = record { balanced = λ k. plain-Balanced p k Balanced.done };
  no_label = (a, tt);
  no_quote = (b, tt);
}

letter : (x : ℕ) → 64 ≤ x → x < 123 → x ≢ 92 → IsPlain x
letter x a b c = record {
  no_tuple = (omega arith, omega arith);
  no_variant = (omega arith, omega arith);
  no_structure = (omega arith, omega arith);
  no_enumeration = (omega arith, c);
}

pub letter-IsName : (x : ℕ) → 64 ≤ x → x < 123 → x ≢ 92 → x ≢ 96 → IsName (x ∷ [])
letter-IsName x a b c d = IsName-of x (letter x a b c) d (omega arith)

pair-Fits : (full : List ℕ) → Fits full no_struct pair
unfolding Fits arithmetic_size
pair-Fits full = ((4, refl, omega arith), ((4, refl, omega arith), tt))

pairs-Fit : (full : List ℕ) (n : ℕ) → FitsElems full no_struct (tag_of pair) (pairs n)
unfolding Fits pairs
pairs-Fit full zero = tt
pairs-Fit full (suc n) = (refl, pair-Fits full, pairs-Fit full n)

point-Fits : Fits (tag_of point) no_struct point
unfolding Fits arithmetic_size count occupies pairs
point-Fits = (
  letter-IsName 80 (omega arith) (omega arith) (omega arith) (omega arith),
  (
    letter-IsName 120 (omega arith) (omega arith) (omega arith) (omega arith),
    (4, refl, omega arith),
    (
      letter-IsName 121 (omega arith) (omega arith) (omega arith) (omega arith),
      (
        refl,
        tag_of-IsWhole (tag_of point) no_struct pair (pair-Fits (tag_of point)),
        pairs-Fit (tag_of point) 33,
        omega arith,
        inr refl,
      ),
    ),
  ),
  λ r. refl,
)

point-height : height point ≤ 2048
unfolding height pairs
point-height = omega arith

visit_value-render_example :
    visit_value digit no_struct (tag_of point) (new []) (bytes_of point ++ (7 ∷ 8 ∷ 9 ∷ []))
    ≡ (new ([] ++ render digit point), ok (7 ∷ 8 ∷ 9 ∷ []))
visit_value-render_example =
    visit_value-render digit no_struct point [] (7 ∷ 8 ∷ 9 ∷ []) point-Fits point-height
