-- ===== src/Bread/Printing.antt =====
-- What bread does for a command line, with the getopt of bin/getopt.cpp.
use btui.Prelude.{Option, none, ℕ, ◌≡◌, ap, Option, none, List, [], ◌∷◌, ◌++◌}
use btui.GetOpt.{Arguments, getopt}
use btui.PrettyPrinter.{Platform}
use btui.Bread.{defaults, Files, on_parsed, main}
use btui.Bread.Options.{Choice, arguments_of, parse_sorted}

-- The path behind the options: the first operand, or the standard input.
abbrev pub path_of : Arguments → List ℕ
path_of [] = b'-' ∷ []
path_of (x ∷ operands) = x

module _ (platform : Platform) (help : List ℕ) (files : Files) (stdin : List ℕ) where
  -- With bin/getopt.cpp's getopt, an option -s behind options -f and -d with their arguments keeps the loop over
  -- the options going forever: it does not end on any fuel.
  pub main-never_ends :
      (program : List ℕ) (cs : List Choice) (more : List ℕ) (rest : Arguments)
      (option_fuel fuel : ℕ)
      → main getopt platform help files stdin option_fuel fuel
          (program ∷ (arguments_of cs ++ ((b'-' ∷ b's' ∷ more) ∷ rest)))
        ≡ none
  unfolding main
  main-never_ends program cs more rest option_fuel fuel =
      ap
        (λ r.
          on_parsed getopt platform help files stdin fuel
            (program ∷ (arguments_of cs ++ ((b'-' ∷ b's' ∷ more) ∷ rest))) r)
        (parse_sorted cs (program ∷ []) rest more none option_fuel defaults)
