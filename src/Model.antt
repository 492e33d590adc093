-- ===== src/Model.antt =====
-- bin/btui_model.hpp and btui_model.cpp: the records of the log viewer, its filters and its order. A
-- string is a list of bytes; a date is rendered by the `PrettyPrinter`s of `Model.Load`.
pub mod Sorting
pub mod Filtering
pub mod Order
pub mod InRange
pub mod Load
pub mod Total
mod Tests
use btui.Prelude.{
  ℕ, zero, suc, ◌+◌, Bool, true, false, Option, none, some, List, [], ◌∷◌, ◌++◌, length, get_elem?,
  get_or, ltb, leb, ◌==◌, if◌then◌else◌,
}
use btui.Severity.{Severity, trace, debug, info, warning, error, critical}
use btui.Text.{contains_substring_case_insensitive}

pub record LogRecord : Type 0 where
  pub severity : Severity
  pub severity_str : List ℕ
  pub category : List ℕ
  pub writer_name : List ℕ
  pub writer_id : ℕ
  pub file : List ℕ
  pub file_full : List ℕ
  pub line : ℕ
  pub function : List ℕ
  pub clock_value : ℕ
  pub timestamp_local : List ℕ
  pub timestamp_utc : List ℕ
  pub message : List ℕ
  pub format_string : List ℕ
  pub argument_tags : List ℕ
  pub source_filename : List ℕ

pub record FilterState : Type 0 where
  pub min_severity : Severity
  pub category_filter : List ℕ
  pub writer_filter : List ℕ
  pub message_filter : List ℕ

-- `FilterState{}`
abbrev pub no_filter : FilterState
no_filter = record {
  min_severity = trace;
  category_filter = [];
  writer_filter = [];
  message_filter = [];
}

pub data SortOrder : Type 0 where
  unsorted ascending descending : SortOrder

pub record BtuiModel : Type 0 where
  pub event_format : List ℕ
  pub date_format : List ℕ
  pub all_records : List LogRecord
  pub filtered_indices : List ℕ
  pub filter_state : FilterState
  pub sort_order : SortOrder

unfoldable pub new : List ℕ → List ℕ → BtuiModel
new event_format date_format = record {
  event_format = event_format;
  date_format = date_format;
  all_records = [];
  filtered_indices = [];
  filter_state = no_filter;
  sort_order = SortOrder.unsorted;
}

-- A record that passes each filter of `applyFilters`.
unfoldable pub passes : FilterState → LogRecord → Bool
passes fs rec =
    if ltb rec.severity fs.min_severity
    then false
    else (if contains_substring_case_insensitive rec.category fs.category_filter
        then (if contains_substring_case_insensitive rec.writer_name fs.writer_filter
            then (if contains_substring_case_insensitive rec.message fs.message_filter
                then true
                else false)
            else false)
        else false)

-- The loop of `applyFilters` at index `i`; the list is the records that it has not reached.
pub filter_from : FilterState → List LogRecord → ℕ → List ℕ
filter_from fs [] i = []
filter_from fs (rec ∷ rest) i =
    let later = filter_from fs rest (i + 1) in if passes fs rec then i ∷ later else later

-- `std::stable_sort` by a comparison: an element goes before those that are not less than it.
unfoldable pub insert_sorted : {A : Type 0} → (A → A → Bool) → A → List A → List A
insert_sorted less x [] = x ∷ []
insert_sorted less x (y ∷ ys) =
    let later = insert_sorted less x ys in if less y x then y ∷ later else x ∷ y ∷ ys

unfoldable pub stable_sort : {A : Type 0} → (A → A → Bool) → List A → List A
stable_sort less [] = []
stable_sort less (x ∷ xs) = insert_sorted less x (stable_sort less xs)

-- The clock value of record `i`; `0` out of range, which `InRange` rules out.
unfoldable pub clock_at : List LogRecord → ℕ → ℕ
clock_at [] i = 0
clock_at (rec ∷ rest) zero = rec.clock_value
clock_at (rec ∷ rest) (suc i) = clock_at rest i

abbrev pub earlier : List LogRecord → ℕ → ℕ → Bool
earlier records a b = ltb (clock_at records a) (clock_at records b)

abbrev pub later : List LogRecord → ℕ → ℕ → Bool
later records a b = ltb (clock_at records b) (clock_at records a)

abbrev pub sorted_indices : SortOrder → List LogRecord → List ℕ → List ℕ
sorted_indices SortOrder.unsorted records indices = indices
sorted_indices SortOrder.ascending records indices = stable_sort (earlier records) indices
sorted_indices SortOrder.descending records indices = stable_sort (later records) indices

unfoldable pub apply_sorting : BtuiModel → BtuiModel
unfolding stable_sort insert_sorted
apply_sorting m = record m {
  filtered_indices = sorted_indices m.sort_order m.all_records m.filtered_indices;
}

unfoldable pub apply_filters : BtuiModel → BtuiModel
unfolding filter_from apply_sorting
apply_filters m =
    apply_sorting (record m { filtered_indices = filter_from m.filter_state m.all_records 0 })

unfoldable pub record_count : BtuiModel → ℕ
record_count m = length m.filtered_indices

unfoldable pub total_record_count : BtuiModel → ℕ
total_record_count m = length m.all_records

-- `record(i)`; `none` where the source reads out of range.
unfoldable pub record_at : BtuiModel → ℕ → Option LogRecord
record_at m i = elim (get_elem? m.filtered_indices i) [
  | none ↦ none
  | some j ↦ get_elem? m.all_records j
]

unfoldable pub set_sort_order : SortOrder → BtuiModel → BtuiModel
set_sort_order order m = record m { sort_order = order }

abbrev pub next_order : SortOrder → SortOrder
next_order SortOrder.unsorted = SortOrder.ascending
next_order SortOrder.ascending = SortOrder.descending
next_order SortOrder.descending = SortOrder.unsorted

unfoldable pub cycle_sort_order : BtuiModel → BtuiModel
cycle_sort_order m = apply_sorting (record m { sort_order = next_order m.sort_order })

abbrev pub next_severity : Severity → Severity
next_severity s =
    if s == trace
    then debug
    else (if s == debug
        then info
        else (if s == info
            then warning
            else (if s == warning then error else (if s == error then critical else trace))))

unfoldable pub cycle_severity_filter : BtuiModel → BtuiModel
cycle_severity_filter m = apply_filters (record m {
  filter_state = record m.filter_state { min_severity = next_severity m.filter_state.min_severity };
})

unfoldable pub reset_filters : BtuiModel → BtuiModel
reset_filters m = apply_filters (record m { filter_state = no_filter })
