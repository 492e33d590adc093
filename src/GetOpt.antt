-- ===== src/GetOpt.antt =====
-- bin/getopt.cpp: the options of a command line, one call at a time. A string is its characters up to the
-- closing zero, which is read behind them.
pub mod Arguments
mod Tests
use btui.Prelude.{
  ℕ, suc, ◌+◌, Bool, true, false, ◌||◌, Option, none, some, List, [], ◌∷◌, length, get_or, ltb, not,
  if◌then◌else◌, ◌==◌,
}

-- `argv`, of length `argc`.
abbrev pub Arguments : Type 0
Arguments = List (List ℕ)

-- The global variables.
pub record State : Type 0 where
  pub optarg : Option (List ℕ)
  pub optind : ℕ

abbrev pub initial : State
initial = record { optarg = none; optind = 1 }

-- `strchr`: what is behind the first occurrence.
unfoldable pub strchr : List ℕ → ℕ → Option (List ℕ)
strchr [] c = none
strchr (x ∷ s) c = if x == c then some s else strchr s c

-- A call returns an option, a question mark (63) or, as none, -1.
abbrev pub GetOpt : Type 0
GetOpt = Arguments → List ℕ → State → Option ℕ × State

-- An option that takes an argument.
unfoldable pub take_argument : Arguments → ℕ → State → Option ℕ × State
take_argument argv opt st =
    let next = suc st.optind in
    if ltb next (length argv)
    then (some opt, record { optarg = some (get_or argv next []); optind = suc next })
    else (some 63, record st { optind = next })

-- An option that `optstring` has, by what is behind it there; without a colon (58) it takes no argument.
unfoldable pub known_option : Arguments → ℕ → State → Option (List ℕ) → Option ℕ × State
unfolding take_argument
known_option argv opt st none = (some 63, st)
known_option argv opt st (some s) =
    if get_or s 0 0 == 58 then take_argument argv opt st else (some opt, st)

unfoldable pub getopt : GetOpt
unfolding strchr known_option
getopt argv optstring st =
    let arg = get_or argv st.optind [] in
    let opt = get_or arg 1 0 in
    if (not (ltb st.optind (length argv))) || (not (get_or arg 0 0 == b'-'))
    then (none, st)
    else (if (opt == 0) || (opt == b'-')
        then (none, record st { optind = suc st.optind })
        else known_option argv opt st (strchr optstring opt))
