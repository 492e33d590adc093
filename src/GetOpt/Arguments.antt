-- ===== src/GetOpt/Arguments.antt =====
-- What one call does to the arguments in front of it.
use btui.Prelude.{
  ℕ, suc, ◌+◌, ◌≡◌, ◌≢◌, refl, ap, ◌∙◌, Option, none, some, List, [], ◌∷◌, ◌++◌, length,
  length-append, get_or, lt→ltb, le→ltb_false, ne→==_false, arith,
}
use btui.GetOpt.{strchr, known_option, take_argument, getopt}

pub get_or-append :
    (pre : List (List ℕ)) (x : List ℕ) (rest : List (List ℕ))
    → get_or (pre ++ (x ∷ rest)) (length pre) [] ≡ x
get_or-append [] x rest = refl
get_or-append (y ∷ pre) x rest = get_or-append pre x rest

get_or-second :
    (pre : List (List ℕ)) (x y : List ℕ) (rest : List (List ℕ))
    → get_or (pre ++ (x ∷ y ∷ rest)) (suc (length pre)) [] ≡ y
get_or-second [] x y rest = refl
get_or-second (z ∷ pre) x y rest = get_or-second pre x y rest

-- The dash and the letter of an option in front of the rest.
module _ (optstring : List ℕ) (c : ℕ) (more s : List ℕ) (not_zero : c ≢ 0)
    (not_dash : c ≢ b'-') where
  opt_at :
      (pre : List (List ℕ)) (rest : List (List ℕ)) (o : Option (List ℕ))
      (found : strchr optstring c ≡ some s)
      → getopt
          (pre ++ ((b'-' ∷ c ∷ more) ∷ rest))
          optstring
          (record { optarg = o; optind = length pre })
        ≡ known_option
            (pre ++ ((b'-' ∷ c ∷ more) ∷ rest))
            c
            (record { optarg = o; optind = length pre })
            (some s)
  unfolding getopt
  opt_at pre rest o found =
      rw
        (
          get_or-append pre (b'-' ∷ c ∷ more) rest,
          lt→ltb (length pre) (length (pre ++ ((b'-' ∷ c ∷ more) ∷ rest)))
              (omega (arith, length-append pre ((b'-' ∷ c ∷ more) ∷ rest))),
          ne→==_false c 0 not_zero,
          ne→==_false c b'-' not_dash,
          found,
        )
        refl

  -- An option with an argument takes the next one.
  pub argument_lem :
      (pre rest : List (List ℕ)) (x : List ℕ) (o : Option (List ℕ))
      → strchr optstring c ≡ some s
      → get_or s 0 0 ≡ 58
      → getopt
          (pre ++ ((b'-' ∷ c ∷ more) ∷ x ∷ rest))
          optstring
          (record { optarg = o; optind = length pre })
        ≡ (some c, record { optarg = some x; optind = length pre + 2 })
  unfolding known_option take_argument
  argument_lem pre rest x o found e =
      opt_at pre (x ∷ rest) o found
      ∙ rw
          (
            e,
            lt→ltb (suc (length pre)) (length (pre ++ ((b'-' ∷ c ∷ more) ∷ x ∷ rest)))
                (omega (arith, length-append pre ((b'-' ∷ c ∷ more) ∷ x ∷ rest))),
            get_or-second pre (b'-' ∷ c ∷ more) x rest,
          )
          (ap (λ n. (some c, record { optarg = some x; optind = n })) (omega arith))

  -- An option without an argument is returned, and `optind` stays at it.
  pub flag_lem :
      (pre rest : List (List ℕ)) (o : Option (List ℕ))
      → strchr optstring c ≡ some s
      → get_or s 0 0 ≢ 58
      → getopt
          (pre ++ ((b'-' ∷ c ∷ more) ∷ rest))
          optstring
          (record { optarg = o; optind = length pre })
        ≡ (some c, record { optarg = o; optind = length pre })
  unfolding known_option
  flag_lem pre rest o found d = opt_at pre rest o found ∙ rw (ne→==_false (get_or s 0 0) 58 d) refl

-- The operands: none, or the first one does not start with a dash.
abbrev pub AreOperands : List (List ℕ) → Type 0
AreOperands [] = Unit {0}
AreOperands (x ∷ rest) = get_or x 0 0 ≢ b'-'

pub operands_lem :
    (optstring : List ℕ) (pre rest : List (List ℕ)) (o : Option (List ℕ))
    → AreOperands rest
    → getopt (pre ++ rest) optstring (record { optarg = o; optind = length pre })
      ≡ (none, record { optarg = o; optind = length pre })
unfolding getopt
operands_lem optstring pre [] o h =
    rw (le→ltb_false (length pre) (length (pre ++ [])) (omega (arith, length-append pre []))) refl
operands_lem optstring pre (x ∷ rest) o h =
    rw
      (
        get_or-append pre x rest,
        lt→ltb (length pre) (length (pre ++ (x ∷ rest)))
            (omega (arith, length-append pre (x ∷ rest))),
        ne→==_false (get_or x 0 0) b'-' h,
      )
      refl
