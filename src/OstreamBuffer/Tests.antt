-- ===== src/OstreamBuffer/Tests.antt =====
-- Writing a character, a string and a number.
use btui.Prelude.{◌≡◌, List, [], ◌∷◌, ◌++◌, All, arith}
use btui.OstreamBuffer.{Write, new, close, apply_all}
use btui.OstreamBuffer.Contents.{IsValid, Fits, written_all, close-apply_all}

abbrev writes : List Write
writes =
    Write.char 91 ∷ Write.chars (97 ∷ 98 ∷ []) ∷ Write.flushed ∷ Write.number 32 (52 ∷ 50 ∷ []) ∷ []

writes-Fits : All Fits writes
writes-Fits = omega arith

close-apply_all_example :
    (close (apply_all writes (new (62 ∷ []))) ≡ (62 ∷ []) ++ written_all writes)
    × IsValid (apply_all writes (new (62 ∷ [])))
close-apply_all_example = close-apply_all (62 ∷ []) writes writes-Fits
