-- ===== src/BtuiMain.antt =====
-- bin/btui.cpp: the command that shows log files. `getopt`, the help text, the files, the standard input and
-- whether it is a terminal are parameters, and so is what the pretty printers of the model print with a date format.
pub mod Loading
mod Tests
use btui.Prelude.{
  ℕ, zero, suc, Bool, true, false, ◌&&◌, Option, none, some, List, [], ◌∷◌, drop, if◌then◌else◌,
  ◌==◌, ◌⊎◌, inl, inr,
}
use btui.Result.{Result}
use btui.EntryStream.{Istream}
use btui.EventStream.{fresh}
use btui.GetOpt.{Arguments, State, GetOpt, initial}
use btui.Bread.{string_of, default_format, default_date_format, is_dash, Files}
use btui.EntryStream.{opened}
use btui.EventStream.Progress.{istream_stream}
use btui.Model.{BtuiModel, SortOrder, apply_sorting, new}
use btui.Model.Load.{Printer, load_from_entry_stream}

pub record Settings : Type 0 where
  pub format : List ℕ
  pub date_format : List ℕ
  pub sorted : Bool
  pub tail : Bool

-- BTUI_DEFAULT_FORMAT and BTUI_DEFAULT_DATE_FORMAT are those of bread.
abbrev pub defaults : Settings
defaults = record {
  format = default_format;
  date_format = default_date_format;
  sorted = false;
  tail = false;
}

-- "f:d:sth"
abbrev pub optstring : List ℕ
optstring = b'f' ∷ 58 ∷ b'd' ∷ 58 ∷ b's' ∷ b't' ∷ b'h' ∷ []

-- The `switch`: an exit code, or the settings to go on with.
unfoldable pub on_option : ℕ → Option (List ℕ) → Settings → ℕ ⊎ Settings
on_option opt optarg s =
    if opt == b'f'
    then inr (record s { format = string_of optarg })
    else (if opt == b'd'
        then inr (record s { date_format = string_of optarg })
        else (if opt == b's'
            then inr (record s { sorted = true })
            else (if opt == b't'
                then inr (record s { tail = true })
                else (if opt == b'h' then inl 0 else inl 1))))

abbrev pub Parsed : Type 0
Parsed = Option (ℕ ⊎ (Settings × ℕ))

abbrev pub after_option : (Settings → Parsed) → ℕ ⊎ Settings → Parsed
after_option k (inl code) = some (inl code)
after_option k (inr s) = k s

abbrev pub on_getopt : (State → Settings → Parsed) → Settings → Option ℕ × State → Parsed
on_getopt k s (none, st) = some (inr (s, st.optind))
on_getopt k s (some opt, st) = after_option (k st) (on_option opt st.optarg s)

module _ (getopt : GetOpt) (argv : Arguments) where
  -- `while ((opt = getopt(argc, argv, "f:d:sth")) != -1)`
  unfoldable pub parse : ℕ → State → Settings → Parsed
  unfolding on_option
  parse zero st s = none
  parse (suc fuel) st s = on_getopt (λ st' s'. parse fuel st' s') s (getopt argv optstring st)

-- The operands, or a dash.
abbrev pub or_dash : Arguments → Arguments
or_dash [] = (b'-' ∷ []) ∷ []
or_dash (path ∷ paths) = path ∷ paths

unfoldable pub input_paths : Arguments → ℕ → Arguments
input_paths argv optind = or_dash (drop optind argv)

-- `inputPaths.size() == 1 && inputPaths[0] == "-"`
unfoldable pub only_stdin : Arguments → Bool
unfolding is_dash
only_stdin (path ∷ []) = is_dash path
only_stdin paths = false

-- "stdin"
abbrev pub stdin_name : List ℕ
stdin_name = 115 ∷ 116 ∷ 100 ∷ 105 ∷ 110 ∷ []

-- What a load leaves: the exit code behind a file that is not opened, or the model.
abbrev pub Loads : Type 0
Loads = Option (ℕ ⊎ BtuiModel)

module _ (print_local print_utc print_message : List ℕ → Printer) (files : Files) (fuel : ℕ) where
  -- `loadFromStream`; an exception is caught, and the records before it stay.
  abbrev pub on_loaded :
      (Istream → BtuiModel → Loads) → Option (BtuiModel × Istream × Result (Unit {0})) → Loads
  on_loaded k none = none
  on_loaded k (some (m, s, result)) = k s m

  abbrev pub load_stream : (Istream → BtuiModel → Loads) → List ℕ → Istream → BtuiModel → Loads
  load_stream k name input m = on_loaded k (
      load_from_entry_stream (print_local m.date_format) (print_utc m.date_format)
        (print_message m.date_format) istream_stream name fuel input fresh m)

  -- A file, with the standard input for the paths behind it.
  abbrev pub load_file : (BtuiModel → Loads) → List ℕ → BtuiModel → Option (List ℕ) → Loads
  load_file k path m none = some (inl 2)
  load_file k path m (some content) = load_stream (λ s m'. k m') path (opened content) m

  -- `for (const auto& path : inputPaths)`
  unfoldable pub load_paths : Arguments → Istream → BtuiModel → Loads
  unfolding is_dash
  load_paths [] cin m = some (inr m)
  load_paths (path ∷ paths) cin m =
      if is_dash path
      then load_stream (λ s m'. load_paths paths s m') stdin_name cin m
      else load_file (λ m'. load_paths paths cin m') path m (files path)

  -- `if (sorted)`
  abbrev pub sort_if : Bool → BtuiModel → BtuiModel
  sort_if true m = apply_sorting (record m { sort_order = SortOrder.ascending })
  sort_if false m = m

  abbrev pub show : Arguments → Settings → Loads → Option (ℕ ⊎ (BtuiModel × Arguments × Bool))
  show paths s none = none
  show paths s (some (inl code)) = some (inl code)
  show paths s (some (inr m)) = some (inr (sort_if s.sorted m, paths, s.tail))

  abbrev pub on_parsed :
      Bool → Istream → Arguments → Parsed → Option (ℕ ⊎ (BtuiModel × Arguments × Bool))
  on_parsed is_terminal cin argv none = none
  on_parsed is_terminal cin argv (some (inl code)) = some (inl code)
  on_parsed is_terminal cin argv (some (inr (s, optind))) =
      let paths = input_paths argv optind in
      if only_stdin paths && is_terminal
      then some (inl 2)
      else show paths s (load_paths paths cin (new s.format s.date_format))

  -- `main`, up to the window: an exit code, or the model, the paths and the tail mode of the window.
  unfoldable pub main :
      GetOpt → Bool → ℕ → List ℕ → Arguments → Option (ℕ ⊎ (BtuiModel × Arguments × Bool))
  unfolding parse input_paths only_stdin load_paths
  main getopt is_terminal option_fuel stdin argv =
      on_parsed is_terminal (opened stdin) argv (parse getopt argv option_fuel initial defaults)
