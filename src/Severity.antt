-- ===== src/Severity.antt =====
-- include/binlog/Severity.hpp: severities are 16 bit numbers, of which seven have names.
use btui.Prelude.{ℕ, ◌^◌, List, [], ◌∷◌, ◌==◌, if◌then◌else◌}

abbrev pub Severity : Type 0
Severity = ℕ

abbrev pub trace : Severity
trace = 2 ^ 5

abbrev pub debug : Severity
debug = 2 ^ 6

abbrev pub info : Severity
info = 2 ^ 7

abbrev pub warning : Severity
warning = 2 ^ 8

abbrev pub error : Severity
error = 2 ^ 9

abbrev pub critical : Severity
critical = 2 ^ 10

abbrev pub no_logs : Severity
no_logs = 2 ^ 15

-- The four letters of a severity, `UNKW` for a number without a name.
unfoldable pub severity_to_string : Severity → List ℕ
severity_to_string s =
    if s == trace
    then b'T' ∷ b'R' ∷ b'A' ∷ b'C' ∷ []
    else (if s == debug
        then b'D' ∷ b'E' ∷ b'B' ∷ b'G' ∷ []
        else (if s == info
            then b'I' ∷ b'N' ∷ b'F' ∷ b'O' ∷ []
            else (if s == warning
                then b'W' ∷ b'A' ∷ b'R' ∷ b'N' ∷ []
                else (if s == error
                    then b'E' ∷ b'R' ∷ b'R' ∷ b'O' ∷ []
                    else (if s == critical
                        then b'C' ∷ b'R' ∷ b'I' ∷ b'T' ∷ []
                        else (if s == no_logs
                            then b'N' ∷ b'O' ∷ b'L' ∷ b'G' ∷ []
                            else b'U' ∷ b'N' ∷ b'K' ∷ b'W' ∷ []))))))
