-- ===== src/Bread/Tests.antt =====
-- Command lines of bread.
use btui.Prelude.{some, ◌+◌, ◌≡◌, none, some, List, [], ◌∷◌, ◌++◌}
use btui.Prelude.Int.{pos, pos_part}
use btui.PrettyPrinter.{Platform}
use btui.GetOpt.{Arguments, getopt}
use btui.Bread.{Files, main}
use btui.Bread.Options.{Choice, format, arguments_of}
use btui.Bread.Printing.{main-never_ends}

abbrev platform : Platform
platform = record {
  print_signed = λ z. (48 + pos_part z) ∷ [];
  print_unsigned = λ n. (48 + n) ∷ [];
  print_floating = λ c bits. [];
  print_nine = λ z. [];
  gmtime = λ t. record {
    tm_year = pos 70;
    tm_mon = pos 0;
    tm_mday = pos 1;
    tm_hour = pos 0;
    tm_min = pos 0;
    tm_sec = t;
  };
}

-- One empty file.
abbrev files : Files
files path = some []

-- -f %m
abbrev choices : List Choice
choices = format (b'%' ∷ b'm' ∷ []) ∷ []

abbrev operands : Arguments
operands = (b'x' ∷ []) ∷ []

main-never_ends_example :
    main getopt platform [] files [] 1000 1
      ([] ∷ (arguments_of choices ++ ((b'-' ∷ b's' ∷ []) ∷ operands)))
    ≡ none
main-never_ends_example = main-never_ends platform [] files [] [] choices [] operands 1000 1
