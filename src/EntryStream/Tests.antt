-- ===== src/EntryStream/Tests.antt =====
-- A file with one whole entry and one that is cut off.
use btui.Prelude.{◌≡◌, refl, true, [], ◌∷◌}
use btui.Result.{ok, throw, Error}
use btui.Range.{le_value}
use btui.EntryStream.{Istream, next_entry_payload, read_some, rewind}

abbrev file : Istream
file = record { content = 2 ∷ 0 ∷ 0 ∷ 0 ∷ 7 ∷ 8 ∷ 9 ∷ []; pos = 0; good = true; gcount = 0 }

abbrev behind : Istream
behind = record file { pos = 6; gcount = 2 }

first_entry : next_entry_payload file ≡ (behind, ok (7 ∷ 8 ∷ []))
unfolding next_entry_payload read_some rewind le_value
first_entry = refl

second_entry : next_entry_payload behind ≡ (record behind { gcount = 1 }, throw Error.entry_size)
unfolding next_entry_payload read_some rewind le_value
second_entry = refl
