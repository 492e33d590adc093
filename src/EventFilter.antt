-- ===== src/EventFilter.antt =====
-- include/binlog/EventFilter.hpp: from a buffer of entries, those pass that are special or that are
-- events of an allowed source. The predicate of the user is an argument, and the set of allowed ids
-- is a list without repetitions.
pub mod Passes
mod Tests
use btui.Prelude.{
  ℕ, zero, suc, ◌+◌, ◌^◌, Bool, true, false, Option, none, some, List, [], ◌∷◌, ◌++◌, ◌==◌, ◌||◌,
  if◌then◌else◌,
}
use btui.Result.{Result, ok, throw, ◌>>=◌}
use btui.Range.{Range, read, view, empty}
use btui.Entries.{EventSource, event_source_entry}
use btui.EventStream.{special}

pub contains : ℕ → List ℕ → Bool
contains id [] = false
contains id (x ∷ ids) = (x == id) || contains id ids

unfoldable pub insert : ℕ → List ℕ → List ℕ
insert id ids = if contains id ids then ids else id ∷ ids

-- `_allowedSourceIds`, what was written to `out`, and `totalWriteSize`.
pub record State : Type 0 where
  pub allowed_source_ids : List ℕ
  pub out : List ℕ
  pub total_write_size : ℕ

-- An entry: its size, its payload, and the entries behind it.
unfoldable pub split_entry : Range → Result (ℕ × Range × Range)
split_entry entries = do
  (size, entries) ← read 4 entries
  (payload, entries) ← view size entries
  ok (size, payload, entries)

-- The ids after an event source.
abbrev pub add_source :
    (EventSource → Bool) → List ℕ → Result (EventSource × Range) → Result (List ℕ)
add_source is_allowed ids (throw e) = throw e
add_source is_allowed ids (ok (source, rest)) =
    ok (if is_allowed source then insert source.id ids else ids)

-- The ids after an entry with this tag.
unfoldable pub inspect : (EventSource → Bool) → List ℕ → ℕ → Range → Result (List ℕ)
unfolding insert
inspect is_allowed ids tag payload =
    if special tag
    then (if tag == event_source_entry.tag
        then add_source is_allowed ids (event_source_entry.deserialize payload)
        else ok ids)
    else ok ids

-- `out.write(entry.view(sizePrefixedSize), sizePrefixedSize)`
abbrev pub write_entry : ℕ → State → Result (List ℕ × Range) → State × Result (Unit {0})
write_entry size s (throw e) = (s, throw e)
write_entry size s (ok (bytes, rest)) =
    (record s { out = s.out ++ bytes; total_write_size = s.total_write_size + size }, ok tt)

-- The body of the loop once the tag is read; `entry` is the range that starts with the entry.
abbrev pub pass : Range → ℕ → ℕ → State → Result (List ℕ) → State × Result (Unit {0})
pass entry size tag s (throw e) = (s, throw e)
pass entry size tag s (ok ids) =
    let s' = record s { allowed_source_ids = ids } in
    if special tag || contains tag s.allowed_source_ids
    then write_entry (size + 4) s' (view (size + 4) entry)
    else (s', ok tt)

abbrev pub handle_payload :
    (EventSource → Bool) → Range → ℕ → State → Result (ℕ × Range) → State × Result (Unit {0})
handle_payload is_allowed entry size s (throw e) = (s, throw e)
handle_payload is_allowed entry size s (ok (tag, payload)) =
    pass entry size tag s (inspect is_allowed s.allowed_source_ids tag payload)

-- The rounds behind one that has ended in this way.
abbrev pub go_on :
    (State → Option (State × Result ℕ)) → State × Result (Unit {0}) → Option (State × Result ℕ)
go_on k (s, throw e) = some (s, throw e)
go_on k (s, ok u) = k s

abbrev pub handle_split :
    (EventSource → Bool)
    → (Range → State → Option (State × Result ℕ))
    → Range
    → State
    → Result (ℕ × Range × Range)
    → Option (State × Result ℕ)
handle_split is_allowed k entry s (throw e) = some (s, throw e)
handle_split is_allowed k entry s (ok (size, payload, rest)) =
    go_on (k rest) (handle_payload is_allowed entry size s (read 8 payload))

-- The loop of `writeAllowed`, on fuel; `none` means that the fuel ran out.
pub write_from : (EventSource → Bool) → ℕ → Range → State → Option (State × Result ℕ)
write_from is_allowed zero entries s = none
write_from is_allowed (suc fuel) entries s =
    if empty entries
    then some (s, ok s.total_write_size)
    else handle_split is_allowed (λ rest s'. write_from is_allowed fuel rest s') entries s
        (split_entry entries)

-- `writeAllowed`: a call starts with nothing written; the ids stay from one call to the next.
unfoldable pub write_allowed : (EventSource → Bool) → ℕ → Range → List ℕ → Option (State × Result ℕ)
unfolding write_from
write_allowed is_allowed fuel buffer ids =
    write_from is_allowed fuel buffer
      (record { allowed_source_ids = ids; out = []; total_write_size = 0 })
