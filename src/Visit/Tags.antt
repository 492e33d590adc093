-- ===== src/Visit/Tags.antt =====
-- The tags of values are well formed: their brackets match, and they can be popped.
use btui.Prelude.{
  ℕ, zero, suc, ◌≤◌, ◌≡◌, ◌≢◌, refl, sym, ap, subst, false, none, some, List, [], ◌∷◌, ◌++◌,
  append_assoc, append-nil, length, length-append, All, arith,
}
use btui.Text.{is_empty}
use btui.Tags.{tag_first_size, tag_pop, drop_last}
use btui.Tags.Pop.{Balanced, Brackets, IsTag, tag_pop_lem}
use btui.Visit.{arithmetic_size, pop_all}
use btui.Visit.Values.{IsBalanced, concat}

pub Balanced-append :
    {o c : ℕ} {s t : List ℕ} → Balanced o c s → Balanced o c t → Balanced o c (s ++ t)
Balanced-append Balanced.done b = b
Balanced-append (Balanced.other x p q a) b = Balanced.other x p q (Balanced-append a b)
Balanced-append {o} {c} {t = t} (Balanced.nested {inner} {s} a a') b =
    subst (Balanced o c) (ap (λ l. o ∷ l) (sym (append_assoc inner (c ∷ s) t)))
      (Balanced.nested a (Balanced-append a' b))

-- A character that is no bracket.
pub record IsPlain (x : ℕ) : Type 0 where
  pub no_tuple : (x ≢ 40) × (x ≢ 41)
  pub no_variant : (x ≢ 60) × (x ≢ 62)
  pub no_structure : (x ≢ 123) × (x ≢ 125)
  pub no_enumeration : (x ≢ 47) × (x ≢ 92)

pub plain-Balanced :
    {o c x : ℕ} {s : List ℕ} → IsPlain x → Brackets o c → Balanced o c s → Balanced o c (x ∷ s)
plain-Balanced {x = x} p Brackets.tuple b = Balanced.other x p.no_tuple.0 p.no_tuple.1 b
plain-Balanced {x = x} p Brackets.variant b = Balanced.other x p.no_variant.0 p.no_variant.1 b
plain-Balanced {x = x} p Brackets.structure b = Balanced.other x p.no_structure.0 p.no_structure.1 b
plain-Balanced {x = x} p Brackets.enumeration b =
    Balanced.other x p.no_enumeration.0 p.no_enumeration.1 b

-- What stands between brackets of one kind keeps those of each kind balanced.
pub bracketed-Balanced :
    {o c o' c' : ℕ} {s : List ℕ}
    → Brackets o c
    → Brackets o' c'
    → Balanced o' c' s
    → Balanced o' c' (o ∷ s ++ (c ∷ []))
bracketed-Balanced Brackets.tuple Brackets.tuple b = Balanced.nested b Balanced.done
bracketed-Balanced Brackets.tuple Brackets.variant b =
    Balanced.other 40 (omega arith) (omega arith)
      (Balanced-append b (Balanced.other 41 (omega arith) (omega arith) Balanced.done))
bracketed-Balanced Brackets.tuple Brackets.structure b =
    Balanced.other 40 (omega arith) (omega arith)
      (Balanced-append b (Balanced.other 41 (omega arith) (omega arith) Balanced.done))
bracketed-Balanced Brackets.tuple Brackets.enumeration b =
    Balanced.other 40 (omega arith) (omega arith)
      (Balanced-append b (Balanced.other 41 (omega arith) (omega arith) Balanced.done))
bracketed-Balanced Brackets.variant Brackets.tuple b =
    Balanced.other 60 (omega arith) (omega arith)
      (Balanced-append b (Balanced.other 62 (omega arith) (omega arith) Balanced.done))
bracketed-Balanced Brackets.variant Brackets.variant b = Balanced.nested b Balanced.done
bracketed-Balanced Brackets.variant Brackets.structure b =
    Balanced.other 60 (omega arith) (omega arith)
      (Balanced-append b (Balanced.other 62 (omega arith) (omega arith) Balanced.done))
bracketed-Balanced Brackets.variant Brackets.enumeration b =
    Balanced.other 60 (omega arith) (omega arith)
      (Balanced-append b (Balanced.other 62 (omega arith) (omega arith) Balanced.done))
bracketed-Balanced Brackets.structure Brackets.tuple b =
    Balanced.other 123 (omega arith) (omega arith)
      (Balanced-append b (Balanced.other 125 (omega arith) (omega arith) Balanced.done))
bracketed-Balanced Brackets.structure Brackets.variant b =
    Balanced.other 123 (omega arith) (omega arith)
      (Balanced-append b (Balanced.other 125 (omega arith) (omega arith) Balanced.done))
bracketed-Balanced Brackets.structure Brackets.structure b = Balanced.nested b Balanced.done
bracketed-Balanced Brackets.structure Brackets.enumeration b =
    Balanced.other 123 (omega arith) (omega arith)
      (Balanced-append b (Balanced.other 125 (omega arith) (omega arith) Balanced.done))
bracketed-Balanced Brackets.enumeration Brackets.tuple b =
    Balanced.other 47 (omega arith) (omega arith)
      (Balanced-append b (Balanced.other 92 (omega arith) (omega arith) Balanced.done))
bracketed-Balanced Brackets.enumeration Brackets.variant b =
    Balanced.other 47 (omega arith) (omega arith)
      (Balanced-append b (Balanced.other 92 (omega arith) (omega arith) Balanced.done))
bracketed-Balanced Brackets.enumeration Brackets.structure b =
    Balanced.other 47 (omega arith) (omega arith)
      (Balanced-append b (Balanced.other 92 (omega arith) (omega arith) Balanced.done))
bracketed-Balanced Brackets.enumeration Brackets.enumeration b = Balanced.nested b Balanced.done

-- A tag that can be popped in front of others, and stand between brackets.
pub record IsWhole (t : List ℕ) : Type 0 where
  pub tag : IsTag t
  pub brackets : IsBalanced t

pub differs : (k : ℕ) {x n : ℕ} → arithmetic_size k ≡ none → arithmetic_size x ≡ some n → x ≢ k
differs k e h = λ y. cc

pub number-IsPlain : (x n : ℕ) → arithmetic_size x ≡ some n → IsPlain x × (x ≢ 91)
unfolding arithmetic_size
number-IsPlain x n e = (
  record {
    no_tuple = (differs 40 refl e, differs 41 refl e);
    no_variant = (differs 60 refl e, differs 62 refl e);
    no_structure = (differs 123 refl e, differs 125 refl e);
    no_enumeration = (differs 47 refl e, differs 92 refl e);
  },
  differs 91 refl e,
)

pub number-IsWhole : (x n : ℕ) → arithmetic_size x ≡ some n → IsWhole (x ∷ [])
number-IsWhole x n e =
    let (p, q) = number-IsPlain x n e in
    record {
      tag = IsTag.arithmetic x q p.no_tuple.0 p.no_variant.0 p.no_structure.0 p.no_enumeration.0;
      brackets = record { balanced = λ k. plain-Balanced p k Balanced.done };
    }

-- The characters [ ` ' c and 0.
bracket-IsPlain : IsPlain 91
bracket-IsPlain = record {
  no_tuple = (omega arith, omega arith);
  no_variant = (omega arith, omega arith);
  no_structure = (omega arith, omega arith);
  no_enumeration = (omega arith, omega arith);
}

pub backtick-IsPlain : IsPlain 96
backtick-IsPlain = record {
  no_tuple = (omega arith, omega arith);
  no_variant = (omega arith, omega arith);
  no_structure = (omega arith, omega arith);
  no_enumeration = (omega arith, omega arith);
}

pub quote-IsPlain : IsPlain 39
quote-IsPlain = record {
  no_tuple = (omega arith, omega arith);
  no_variant = (omega arith, omega arith);
  no_structure = (omega arith, omega arith);
  no_enumeration = (omega arith, omega arith);
}

char-IsPlain : IsPlain 99
char-IsPlain = record {
  no_tuple = (omega arith, omega arith);
  no_variant = (omega arith, omega arith);
  no_structure = (omega arith, omega arith);
  no_enumeration = (omega arith, omega arith);
}

zero-IsPlain : IsPlain 48
zero-IsPlain = record {
  no_tuple = (omega arith, omega arith);
  no_variant = (omega arith, omega arith);
  no_structure = (omega arith, omega arith);
  no_enumeration = (omega arith, omega arith);
}

pub sequence-IsWhole : {t : List ℕ} → IsWhole t → IsWhole (91 ∷ t)
sequence-IsWhole w = record {
  tag = IsTag.sequence w.tag;
  brackets = record { balanced = λ k. plain-Balanced bracket-IsPlain k (w.brackets.balanced k) };
}

pub bracketed-IsWhole :
    {o c : ℕ} {s : List ℕ} → Brackets o c → IsBalanced s → IsWhole (o ∷ s ++ (c ∷ []))
bracketed-IsWhole b w = record {
  tag = IsTag.bracketed b (w.balanced b);
  brackets = record { balanced = λ k. bracketed-Balanced b k (w.balanced k) };
}

pub char-IsWhole : IsWhole (99 ∷ [])
char-IsWhole = record {
  tag = IsTag.arithmetic 99 (omega arith) (omega arith) (omega arith) (omega arith) (omega arith);
  brackets = record { balanced = λ k. plain-Balanced char-IsPlain k Balanced.done };
}

pub zero-IsWhole : IsWhole (48 ∷ [])
zero-IsWhole = record {
  tag = IsTag.arithmetic 48 (omega arith) (omega arith) (omega arith) (omega arith) (omega arith);
  brackets = record { balanced = λ k. plain-Balanced zero-IsPlain k Balanced.done };
}

-- Popping whole tags.
pub pop-IsWhole : {t : List ℕ} → IsWhole t → tag_pop t ≡ (t, [])
pop-IsWhole {t} w = subst (λ l. tag_pop l ≡ (t, [])) (append-nil t) (tag_pop_lem w.tag [])

IsTag-nonempty : {t : List ℕ} → IsTag t → (is_empty t ≡ false) × (1 ≤ length t)
unfolding is_empty
IsTag-nonempty (IsTag.arithmetic x a b c d e) = (refl, omega arith)
IsTag-nonempty (IsTag.sequence t) = (refl, omega arith)
IsTag-nonempty (IsTag.bracketed k b) = (refl, omega arith)

pop_all-nil : (f : ℕ) → pop_all f [] ≡ []
unfolding pop_all tag_pop tag_first_size is_empty
pop_all-nil zero = refl
pop_all-nil (suc f) = refl

pub pop_all-concat :
    (ts : List (List ℕ)) (f : ℕ)
    → All IsWhole ts
    → length (concat ts) ≤ f
    → pop_all f (concat ts) ≡ ts
unfolding pop_all concat
pop_all-concat [] f w h = pop_all-nil f
pop_all-concat (t ∷ ts) zero (w, ws) h =
    absurd (omega (arith, (IsTag-nonempty w.tag).1, length-append t (concat ts)))
pop_all-concat (t ∷ ts) (suc f) (w, ws) h =
    rw
      (
        tag_pop_lem w.tag (concat ts),
        (IsTag-nonempty w.tag).0,
        pop_all-concat ts f ws
            (omega (arith, (IsTag-nonempty w.tag).1, length-append t (concat ts))),
      )
      refl

pub drop_last-append : (s : List ℕ) (c : ℕ) → drop_last (s ++ (c ∷ [])) ≡ s
unfolding drop_last
drop_last-append [] c = refl
drop_last-append (x ∷ []) c = refl
drop_last-append (x ∷ y ∷ s) c = ap (λ l. x ∷ l) (drop_last-append (y ∷ s) c)
