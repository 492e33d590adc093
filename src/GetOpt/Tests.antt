-- ===== src/GetOpt/Tests.antt =====
-- Calls of getopt on the arguments of bread.
use btui.Prelude.{ℕ, ◌≡◌, refl, none, some, List, [], ◌∷◌}
use btui.GetOpt.{initial, getopt}

-- "f:d:sh"
abbrev optstring : List ℕ
optstring = b'f' ∷ 58 ∷ b'd' ∷ 58 ∷ b's' ∷ b'h' ∷ []

-- An argument that is missing.
missing :
    getopt ([] ∷ (b'-' ∷ b'f' ∷ []) ∷ []) optstring initial
    ≡ (some 63, record { optarg = none; optind = 2 })
unfolding getopt
missing = refl

-- What follows the letter of an option with an argument is not read.
attached :
    getopt ([] ∷ (b'-' ∷ b'f' ∷ b'x' ∷ []) ∷ (b'y' ∷ []) ∷ []) optstring initial
    ≡ (some b'f', record { optarg = some (b'y' ∷ []); optind = 3 })
unfolding getopt
attached = refl

-- Two dashes end the options.
ended :
    getopt ([] ∷ (b'-' ∷ b'-' ∷ []) ∷ []) optstring initial
    ≡ (none, record { optarg = none; optind = 2 })
unfolding getopt
ended = refl
