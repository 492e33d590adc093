-- ===== src/Bread.antt =====
-- bin/bread.cpp: the command that prints a log file. `getopt` is bin/getopt.cpp's on Windows and the C
-- library's elsewhere, a parameter; so are the help text, the files and the standard input.
pub mod Options
pub mod Printing
mod Tests
use btui.Prelude.{
  ℕ, zero, suc, ◌+◌, Bool, true, false, Option, none, some, List, [], ◌∷◌, ◌++◌, length, get_or,
  ltb, if◌then◌else◌, ◌==◌, ◌⊎◌, inl, inr,
}
use btui.Result.{Result, ok, throw}
use btui.EntryStream.{opened}
use btui.PrettyPrinter.{Platform, PrettyPrinter, Printed}
use btui.GetOpt.{Arguments, State, GetOpt, initial}
use btui.Printers.{Loop, print_events, print_sorted_events}

pub record Settings : Type 0 where
  pub input_path : List ℕ
  pub format : List ℕ
  pub date_format : List ℕ
  pub sorted : Bool

-- BINLOG_DEFAULT_FORMAT, "%S %C [%d] %n %m (%G:%L)"
abbrev pub default_format : List ℕ
default_format =
    37 ∷ 83 ∷ 32 ∷ 37 ∷ 67 ∷ 32 ∷ 91 ∷ 37 ∷ 100 ∷ 93 ∷ 32 ∷ 37 ∷ 110 ∷ 32 ∷ 37 ∷ 109 ∷ 32 ∷ 40 ∷ 37
    ∷ 71 ∷ 58 ∷ 37 ∷ 76 ∷ 41 ∷ []

-- BINLOG_DEFAULT_DATE_FORMAT, "%Y-%m-%d %H:%M:%S.%N"
abbrev pub default_date_format : List ℕ
default_date_format =
    37 ∷ 89 ∷ 45 ∷ 37 ∷ 109 ∷ 45 ∷ 37 ∷ 100 ∷ 32 ∷ 37 ∷ 72 ∷ 58 ∷ 37 ∷ 77 ∷ 58 ∷ 37 ∷ 83 ∷ 46 ∷ 37
    ∷ 78 ∷ []

abbrev pub defaults : Settings
defaults = record {
  input_path = b'-' ∷ [];
  format = default_format ++ (10 ∷ []);
  date_format = default_date_format;
  sorted = false;
}

-- "f:d:sh"
abbrev pub optstring : List ℕ
optstring = b'f' ∷ 58 ∷ b'd' ∷ 58 ∷ b's' ∷ b'h' ∷ []

-- `optarg`, which is set behind an option with an argument.
abbrev pub string_of : Option (List ℕ) → List ℕ
string_of none = []
string_of (some s) = s

-- The `switch`: an exit code, or the settings to go on with.
unfoldable pub on_option : ℕ → Option (List ℕ) → Settings → ℕ ⊎ Settings
on_option opt optarg s =
    if opt == b'f'
    then inr (record s { format = string_of optarg ++ (10 ∷ []) })
    else (if opt == b'd'
        then inr (record s { date_format = string_of optarg })
        else (if opt == b's'
            then inr (record s { sorted = true })
            else (if opt == b'h' then inl 0 else inl 1)))

-- The settings and `optind`, or the code to exit with behind the help; or nothing, if the fuel runs out.
abbrev pub Parsed : Type 0
Parsed = Option (ℕ ⊎ (Settings × ℕ))

abbrev pub after_option : (Settings → Parsed) → ℕ ⊎ Settings → Parsed
after_option k (inl code) = some (inl code)
after_option k (inr s) = k s

abbrev pub on_getopt : (State → Settings → Parsed) → Settings → Option ℕ × State → Parsed
on_getopt k s (none, st) = some (inr (s, st.optind))
on_getopt k s (some opt, st) = after_option (k st) (on_option opt st.optarg s)

module _ (getopt : GetOpt) (argv : Arguments) where
  -- `while ((opt = getopt(argc, argv, "f:d:sh")) != -1)`
  unfoldable pub parse : ℕ → State → Settings → Parsed
  unfolding on_option
  parse zero st s = none
  parse (suc fuel) st s = on_getopt (λ st' s'. parse fuel st' s') s (getopt argv optstring st)

-- `if (optind < argc) { inputPath = argv[optind]; }`
unfoldable pub with_path : Arguments → ℕ → Settings → Settings
with_path argv optind s =
    if ltb optind (length argv) then record s { input_path = get_or argv optind [] } else s

-- `path == "-"`
unfoldable pub is_dash : List ℕ → Bool
is_dash [] = false
is_dash (x ∷ []) = x == b'-'
is_dash (x ∷ y ∷ s) = false

-- The content of the files that can be opened.
abbrev pub Files : Type 0
Files = List ℕ → Option (List ℕ)

-- `openFile`
unfoldable pub open_file : Files → List ℕ → List ℕ → Option (List ℕ)
unfolding is_dash
open_file files stdin path = if is_dash path then some stdin else files path

-- The exit code, and what was written to the standard output.
pub record Exit : Type 0 where
  pub code : ℕ
  pub output : List ℕ

-- Behind an exception the exit code is 3.
abbrev pub exit_of : Loop (List ℕ) → Option Exit
exit_of none = none
exit_of (some (es, p, (out, throw e))) = some (record { code = 3; output = out })
exit_of (some (es, p, (out, ok u))) = some (record { code = 0; output = out })

-- A file is printed, sorted or not; one that is not opened exits with 2.
abbrev pub print_file : Platform → ℕ → Settings → Option (List ℕ) → Option Exit
print_file platform fuel s none = some (record { code = 2; output = [] })
print_file platform fuel s (some content) = exit_of (
    if s.sorted
    then print_sorted_events platform fuel (opened content) s.format s.date_format []
    else print_events platform fuel (opened content) s.format s.date_format [])

module _ (getopt : GetOpt) (platform : Platform) (help : List ℕ) (files : Files)
    (stdin : List ℕ) where
  abbrev pub on_parsed : ℕ → Arguments → Parsed → Option Exit
  on_parsed fuel argv none = none
  on_parsed fuel argv (some (inl code)) = some (record { code = code; output = help })
  on_parsed fuel argv (some (inr (s, optind))) =
      let s' = with_path argv optind s in
      print_file platform fuel s' (open_file files stdin s'.input_path)

  -- `main`, with fuel for the options and for the events.
  unfoldable pub main : ℕ → ℕ → Arguments → Option Exit
  unfolding parse with_path open_file
  main option_fuel fuel argv = on_parsed fuel argv (parse getopt argv option_fuel initial defaults)
