-- ===== src/Model/Tests.antt =====
-- Three records, two of which pass the filter on the severity.
use btui.Prelude.{ℕ, ◌<◌, ◌≡◌, ◌↔◌, refl, some, List, [], ◌∷◌, ◌++◌, get_elem?, arith}
use btui.Result.{ok, throw, Error}
use btui.EventStream.{fresh, next_event, handle_entry, read_special, read_event_source, read_event}
use btui.SegmentedMap.{find, emplace, new}
use btui.EventStream.Decode.{Item, encode, encode_all, range_stream}
use btui.Entries.{EventSource, serialize_size_prefixed_tagged, serialize_string, deserialize_string}
use btui.Severity.{severity_to_string}
use btui.EntryStream.{next_range_payload}
use btui.Range.{empty, read, view, le_bytes}
use btui.Text.{contains_substring_case_insensitive, base_name}
use btui.Model.{
  LogRecord, FilterState, SortOrder, BtuiModel, no_filter, passes, apply_filters, clock_at,
  record_count, record_at, cycle_sort_order,
}
use btui.Model.Sorting.{with_key}
use btui.Model.Filtering.{Listed, Matches, shown_iff}
use btui.Model.Order.{InOrder, RisesFrom, Cycled, shown-InOrder, cycle_sort_order_lem}
use btui.Model.InRange.{InRange, Call, perform_all, record_at_total}
use btui.Model.Load.{Printer, Reads, make_record, load_from_entry_stream, finish, load_lem}

abbrev a_record : ℕ → ℕ → LogRecord
a_record severity clock = record {
  severity = severity;
  severity_str = [];
  category = 109 ∷ [];
  writer_name = [];
  writer_id = 0;
  file = [];
  file_full = [];
  line = 1;
  function = [];
  clock_value = clock;
  timestamp_local = [];
  timestamp_utc = [];
  message = 104 ∷ 105 ∷ [];
  format_string = [];
  argument_tags = [];
  source_filename = [];
}

abbrev a_filter : FilterState
a_filter = record no_filter { min_severity = 128; category_filter = 77 ∷ [] }

abbrev a_model : BtuiModel
a_model = record {
  event_format = [];
  date_format = [];
  all_records = a_record 128 9 ∷ a_record 64 8 ∷ a_record 512 7 ∷ [];
  filtered_indices = [];
  filter_state = a_filter;
  sort_order = SortOrder.ascending;
}

-- An event with its source, and one byte behind them: a record is added, and the model keeps its indices.
abbrev no_printer : Printer
no_printer event writer clock = ok []

abbrev a_source : EventSource
a_source = record {
  id = 1;
  severity = 128;
  category = [];
  function = [];
  file = [];
  line = 0;
  format_string = [];
  argument_tags = [];
}

abbrev cut_off_bytes : List ℕ
cut_off_bytes = encode_all (Item.source a_source ∷ Item.event 1 1000 [] ∷ []) ++ (1 ∷ [])

abbrev added_record : LogRecord
added_record = record (a_record 128 1000) {
  severity_str = severity_to_string 128;
  category = [];
  line = 0;
  message = [];
}

shown_iff_example : Listed 2 (apply_filters a_model).filtered_indices ↔ (
    (rec : LogRecord) × (get_elem? a_model.all_records 2 ≡ some rec)
    × Matches a_model.filter_state rec)
shown_iff_example = shown_iff a_model 2

a_model-InRange : InRange a_model
a_model-InRange = record { in_range = λ k h. elim h [ ] }

-- The filters are applied, and a load throws behind a record.
abbrev calls : List Call
calls =
    Call.filters
    ∷ Call.load no_printer no_printer no_printer range_stream [] 4 cut_off_bytes fresh
    ∷ []

two_shown : 1 < record_count (perform_all calls a_model)
unfolding record_count apply_filters passes contains_substring_case_insensitive clock_at
    load_from_entry_stream next_event next_range_payload empty read view encode_all encode
    serialize_size_prefixed_tagged le_bytes serialize_string handle_entry read_special
    read_event_source deserialize_string read_event find emplace fresh new make_record base_name
two_shown = omega arith

record_at_total_example : (rec : LogRecord) × (record_at (perform_all calls a_model) 1 ≡ some rec)
record_at_total_example = record_at_total calls 1 a_model-InRange two_shown

shown-InOrder_example :
    InOrder a_model.all_records a_model.sort_order (apply_filters a_model).filtered_indices
shown-InOrder_example = shown-InOrder a_model

abbrev falling : BtuiModel
falling = record a_model { sort_order = SortOrder.descending; filtered_indices = 0 ∷ 2 ∷ [] }

falling-InOrder : InOrder falling.all_records SortOrder.descending falling.filtered_indices
unfolding clock_at with_key
falling-InOrder = ((refl, tt), λ t. ground arith)

cycle_sort_order_lem_example :
    Cycled falling.all_records falling.sort_order falling.filtered_indices
      ((cycle_sort_order falling).sort_order, (cycle_sort_order falling).filtered_indices)
    × ((k : ℕ)
        → Listed k (cycle_sort_order falling).filtered_indices ↔ Listed k falling.filtered_indices)
    × ((falling.sort_order ≡ SortOrder.descending)
        → RisesFrom 0 (apply_filters (cycle_sort_order falling)).filtered_indices)
cycle_sort_order_lem_example = cycle_sort_order_lem falling falling-InOrder

cut_off :
    load_from_entry_stream no_printer no_printer no_printer range_stream [] 4 cut_off_bytes fresh
      a_model
    ≡ some (
      record a_model { all_records = a_model.all_records ++ (added_record ∷ []) },
      1 ∷ [],
      throw Error.range_overflow,
    )
unfolding load_from_entry_stream next_event next_range_payload empty read view encode_all encode
    serialize_size_prefixed_tagged le_bytes serialize_string handle_entry read_special
    read_event_source deserialize_string read_event find emplace fresh new make_record base_name
cut_off = refl

load_lem_example :
    (added : List LogRecord) × Reads no_printer no_printer no_printer range_stream [] cut_off_bytes
      fresh added
      (1 ∷ [])
      (throw Error.range_overflow)
    × (record a_model { all_records = a_model.all_records ++ (added_record ∷ []) }
        ≡ finish no_printer no_printer no_printer range_stream []
            (throw Error.range_overflow)
            (record a_model { all_records = a_model.all_records ++ added }))
load_lem_example =
    load_lem no_printer no_printer no_printer range_stream [] 4 cut_off_bytes fresh a_model cut_off
