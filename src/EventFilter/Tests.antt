-- ===== src/EventFilter/Tests.antt =====
-- Two sources, of which the predicate takes the first, and an event of each.
use btui.Prelude.{ℕ, ◌≡◌, Bool, some, List, [], ◌∷◌, length, All, arith, ◌==◌}
use btui.Result.{ok}
use btui.Entries.{EventSource}
use btui.EventStream.Decode.{Item, FitsItem, encode_all}
use btui.EventFilter.{State, write_allowed, contains}
use btui.EventFilter.Passes.{allowed_items, allowed_after, write_allowed_lem}

abbrev source_of : ℕ → EventSource
source_of id = record {
  id = id;
  severity = 128;
  category = [];
  function = [];
  file = [];
  line = 0;
  format_string = [];
  argument_tags = [];
}

abbrev items : List Item
items =
    Item.source (source_of 1)
    ∷ Item.source (source_of 2)
    ∷ Item.event 1 1000 []
    ∷ Item.event 2 1001 []
    ∷ []

items-Fits : All FitsItem items
items-Fits = omega arith

abbrev is_first : EventSource → Bool
is_first s = s.id == 1

write_allowed_lem_example :
    (s : State) × (write_allowed is_first 5 (encode_all items) []
      ≡ some (s, ok (length (encode_all (allowed_items is_first (λ j. contains j []) items)))))
    × (s.out ≡ encode_all (allowed_items is_first (λ j. contains j []) items))
    × ((j : ℕ)
        → contains j s.allowed_source_ids ≡ allowed_after is_first (λ i. contains i []) items j)
write_allowed_lem_example = write_allowed_lem is_first items 5 [] items-Fits (omega arith)
