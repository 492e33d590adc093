-- ===== src/Bread/Options.antt =====
-- The options of bread, read by bin/getopt.cpp.
use btui.Prelude.{
  Option, none, ℕ, zero, suc, ◌+◌, ◌*◌, ◌<◌, ◌≡◌, refl, sym, ap, ap₂, ◌∙◌, true, Option, none, some,
  inr, List, [], ◌∷◌, ◌++◌, append_assoc, length, length-append, arith,
}
use btui.GetOpt.{Arguments, State, strchr, getopt}
use btui.GetOpt.Arguments.{argument_lem, flag_lem, operands_lem, AreOperands}
use btui.Bread.{Settings, optstring, on_option, on_getopt, parse}

-- An option with its argument.
pub data Choice : Type 0 where
  format date_format : (argument : List ℕ) → Choice

unfoldable pub arguments_of : List Choice → Arguments
arguments_of [] = []
arguments_of (format x ∷ cs) = (b'-' ∷ b'f' ∷ []) ∷ x ∷ arguments_of cs
arguments_of (date_format x ∷ cs) = (b'-' ∷ b'd' ∷ []) ∷ x ∷ arguments_of cs

-- A later option replaces an earlier one.
unfoldable pub chosen : List Choice → Settings → Settings
chosen [] s = s
chosen (format x ∷ cs) s = chosen cs (record s { format = x ++ (10 ∷ []) })
chosen (date_format x ∷ cs) s = chosen cs (record s { date_format = x })

abbrev state_at : Option (List ℕ) → ℕ → State
state_at o n = record { optarg = o; optind = n }

-- One option with an argument, in front of others.
module _ (pre rest : Arguments) (x : List ℕ) (o : Option (List ℕ)) (fuel : ℕ) (s : Settings) where
  behind_two : (a : List ℕ) → pre ++ (a ∷ x ∷ rest) ≡ (pre ++ (a ∷ x ∷ [])) ++ rest
  behind_two a = sym (append_assoc pre (a ∷ x ∷ []) rest)

  length-two : (a : List ℕ) → length pre + 2 ≡ length (pre ++ (a ∷ x ∷ []))
  length-two a = sym (length-append pre (a ∷ x ∷ []))

  parse_format :
      parse getopt (pre ++ ((b'-' ∷ b'f' ∷ []) ∷ x ∷ rest)) (suc fuel) (state_at o (length pre)) s
      ≡ parse getopt
          ((pre ++ ((b'-' ∷ b'f' ∷ []) ∷ x ∷ [])) ++ rest)
          fuel
          (state_at (some x) (length (pre ++ ((b'-' ∷ b'f' ∷ []) ∷ x ∷ []))))
          (record s { format = x ++ (10 ∷ []) })
  unfolding parse strchr on_option
  parse_format =
      let argv : Arguments = pre ++ ((b'-' ∷ b'f' ∷ []) ∷ x ∷ rest) in
      ap (λ r. on_getopt (λ st' s'. parse getopt argv fuel st' s') s r)
        (argument_lem optstring b'f' [] (58 ∷ b'd' ∷ 58 ∷ b's' ∷ b'h' ∷ []) (omega arith)
          (omega arith) pre rest x o refl refl)
      ∙ ap₂
          (λ a n. parse getopt a fuel (state_at (some x) n) (record s { format = x ++ (10 ∷ []) }))
          (behind_two (b'-' ∷ b'f' ∷ [])) (length-two (b'-' ∷ b'f' ∷ []))

  parse_date_format :
      parse getopt (pre ++ ((b'-' ∷ b'd' ∷ []) ∷ x ∷ rest)) (suc fuel) (state_at o (length pre)) s
      ≡ parse getopt
          ((pre ++ ((b'-' ∷ b'd' ∷ []) ∷ x ∷ [])) ++ rest)
          fuel
          (state_at (some x) (length (pre ++ ((b'-' ∷ b'd' ∷ []) ∷ x ∷ []))))
          (record s { date_format = x })
  unfolding parse strchr on_option
  parse_date_format =
      let argv : Arguments = pre ++ ((b'-' ∷ b'd' ∷ []) ∷ x ∷ rest) in
      ap (λ r. on_getopt (λ st' s'. parse getopt argv fuel st' s') s r)
        (argument_lem optstring b'd' [] (58 ∷ b's' ∷ b'h' ∷ []) (omega arith) (omega arith) pre rest
          x o refl refl)
      ∙ ap₂ (λ a n. parse getopt a fuel (state_at (some x) n) (record s { date_format = x }))
          (behind_two (b'-' ∷ b'd' ∷ [])) (length-two (b'-' ∷ b'd' ∷ []))

shift : (n m k : ℕ) → m ≡ n + 2 → m + 2 * k ≡ n + 2 * suc k
shift n m k e = omega arith

-- The settings and `optind` behind options with arguments and in front of operands.
pub parse_lem :
    (cs : List Choice) (pre operands : Arguments) (o : Option (List ℕ)) (fuel : ℕ) (s : Settings)
    → length cs < fuel
    → AreOperands operands
    → parse getopt (pre ++ (arguments_of cs ++ operands)) fuel (state_at o (length pre)) s
      ≡ some (inr (chosen cs s, length pre + 2 * length cs))
unfolding parse arguments_of chosen
parse_lem cs pre operands o zero s h g = absurd (omega arith)
parse_lem [] pre operands o (suc fuel) s h g =
    rw (operands_lem optstring pre operands o g) (ap (λ n. some (inr (s, n))) (omega arith))
parse_lem (format x ∷ cs) pre operands o (suc fuel) s h g =
    parse_format pre (arguments_of cs ++ operands) x o fuel s
    ∙ parse_lem cs (pre ++ ((b'-' ∷ b'f' ∷ []) ∷ x ∷ [])) operands (some x) fuel
        (record s { format = x ++ (10 ∷ []) }) (omega arith) g
    ∙ ap (λ n. some (inr (chosen cs (record s { format = x ++ (10 ∷ []) }), n)))
        (shift (length pre) _ (length cs) (length-append pre ((b'-' ∷ b'f' ∷ []) ∷ x ∷ [])))
parse_lem (date_format x ∷ cs) pre operands o (suc fuel) s h g =
    parse_date_format pre (arguments_of cs ++ operands) x o fuel s
    ∙ parse_lem cs (pre ++ ((b'-' ∷ b'd' ∷ []) ∷ x ∷ [])) operands (some x) fuel
        (record s { date_format = x }) (omega arith) g
    ∙ ap (λ n. some (inr (chosen cs (record s { date_format = x }), n)))
        (shift (length pre) _ (length cs) (length-append pre ((b'-' ∷ b'd' ∷ []) ∷ x ∷ [])))

-- An option -s is returned by every call.
parse_stuck :
    (pre rest : Arguments) (more : List ℕ) (o : Option (List ℕ)) (fuel : ℕ) (s : Settings)
    → parse getopt (pre ++ ((b'-' ∷ b's' ∷ more) ∷ rest)) fuel (state_at o (length pre)) s ≡ none
unfolding parse on_option strchr
parse_stuck pre rest more o zero s = refl
parse_stuck pre rest more o (suc fuel) s =
    rw
      (
        parse,
        flag_lem optstring b's' more (b'h' ∷ []) (omega arith) (omega arith) pre rest o refl
            (omega arith),
      )
      (parse_stuck pre rest more o fuel (record s { sorted = true }))

pub parse_sorted :
    (cs : List Choice) (pre rest : Arguments) (more : List ℕ) (o : Option (List ℕ)) (fuel : ℕ)
    (s : Settings)
    → parse getopt
        (pre ++ (arguments_of cs ++ ((b'-' ∷ b's' ∷ more) ∷ rest)))
        fuel
        (state_at o (length pre))
        s
      ≡ none
unfolding parse arguments_of
parse_sorted cs pre rest more o zero s = refl
parse_sorted [] pre rest more o (suc fuel) s = parse_stuck pre rest more o (suc fuel) s
parse_sorted (format x ∷ cs) pre rest more o (suc fuel) s =
    parse_format pre (arguments_of cs ++ ((b'-' ∷ b's' ∷ more) ∷ rest)) x o fuel s
    ∙ parse_sorted cs (pre ++ ((b'-' ∷ b'f' ∷ []) ∷ x ∷ [])) rest more (some x) fuel
        (record s { format = x ++ (10 ∷ []) })
parse_sorted (date_format x ∷ cs) pre rest more o (suc fuel) s =
    parse_date_format pre (arguments_of cs ++ ((b'-' ∷ b's' ∷ more) ∷ rest)) x o fuel s
    ∙ parse_sorted cs (pre ++ ((b'-' ∷ b'd' ∷ []) ∷ x ∷ [])) rest more (some x) fuel
        (record s { date_format = x })
