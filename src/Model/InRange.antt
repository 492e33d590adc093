-- ===== src/Model/InRange.antt =====
-- The shown indices are in the range of the records.
use btui.Prelude.{
  ℕ, zero, suc, ◌<◌, ◌≡◌, refl, sym, subst, Option, none, some, List, [], ◌∷◌, ◌++◌, arith, inl,
  inr, length, length-append, get_elem?,
}
use btui.Result.{Result, ok, throw}
use btui.EventStream.{EventStream, EntryStream}
use btui.Model.Load.{Printer, load_from_entry_stream, Appends, load-Appends}
use btui.Model.{
  LogRecord, FilterState, SortOrder, BtuiModel, new, apply_sorting, apply_filters, record_count,
  record_at, set_sort_order, cycle_sort_order, cycle_severity_filter, reset_filters,
}
use btui.Model.Filtering.{Listed, Listed-sorted, shown_iff}

get_elem?-lt : {A : Type 0} (xs : List A) (i : ℕ) {a : A} → get_elem? xs i ≡ some a → i < length xs
get_elem?-lt [] i e = absurd (cc)
get_elem?-lt (x ∷ xs) zero e = omega arith
get_elem?-lt (x ∷ xs) (suc i) e = omega (arith, get_elem?-lt xs i e)

get_elem?-some :
    {A : Type 0} (xs : List A) (i : ℕ) → i < length xs → (a : A) × (get_elem? xs i ≡ some a)
get_elem?-some [] i h = absurd (omega arith)
get_elem?-some (x ∷ xs) zero h = (x, refl)
get_elem?-some (x ∷ xs) (suc i) h = get_elem?-some xs i (omega arith)

Listed-get_elem? : (xs : List ℕ) (i : ℕ) {a : ℕ} → get_elem? xs i ≡ some a → Listed a xs
Listed-get_elem? [] i e = absurd (cc)
Listed-get_elem? (x ∷ xs) zero e = inl (cc)
Listed-get_elem? (x ∷ xs) (suc i) e = inr (Listed-get_elem? xs i e)

-- Each shown index is the index of a record.
pub record InRange (m : BtuiModel) : Type 0 where
  pub in_range : (k : ℕ) → Listed k m.filtered_indices → k < length m.all_records

pub new-InRange : (event_format date_format : List ℕ) → InRange (new event_format date_format)
unfolding new
new-InRange event_format date_format = record { in_range = λ k h. absurd h }

pub apply_filters-InRange : (m : BtuiModel) → InRange (apply_filters m)
apply_filters-InRange m = record {
  in_range =
      λ k h. let (rec, g, mt) = (shown_iff m k).0 h in same k (get_elem?-lt m.all_records k g);
}
  where
    same : (k : ℕ) → k < length m.all_records → k < length (apply_filters m).all_records
    same k h = unfold apply_filters apply_sorting in h

pub apply_sorting-InRange : (m : BtuiModel) → InRange m → InRange (apply_sorting m)
unfolding apply_sorting
apply_sorting-InRange m v = record {
  in_range =
      λ k h. v.in_range k ((Listed-sorted m.sort_order m.all_records k m.filtered_indices).0 h);
}

-- A load that ends, normally or by an exception, leaves its model.
abbrev pub left_model :
    {S : Type 0} → BtuiModel → Option (BtuiModel × S × Result (Unit {0})) → BtuiModel
left_model m none = m
left_model m (some (m', s, out)) = m'

-- The calls of the viewer on its model, those of its tail thread and of the command included, which load the
-- entries of a stream of any kind.
pub data Call : Type 1 where
  filters sorting cycle_order cycle_severity reset : Call
  order : SortOrder → Call
  criteria : FilterState → Call
  load :
      (print_local print_utc print_message : Printer) {S : Type 0} (input : EntryStream S)
      (filename : List ℕ) (fuel : ℕ) (s : S) (es : EventStream)
      → Call

abbrev pub perform : Call → BtuiModel → BtuiModel
perform Call.filters m = apply_filters m
perform Call.sorting m = apply_sorting m
perform Call.cycle_order m = cycle_sort_order m
perform Call.cycle_severity m = cycle_severity_filter m
perform Call.reset m = reset_filters m
perform (Call.order o) m = set_sort_order o m
perform (Call.criteria fs) m = record m { filter_state = fs }
perform (Call.load print_local print_utc print_message input filename fuel s es) m =
    left_model m
      (load_from_entry_stream print_local print_utc print_message input filename fuel s es m)

-- A load adds records, and leaves the shown indices or applies the filters.
load-InRange :
    (print_local print_utc print_message : Printer) {S : Type 0} (input : EntryStream S)
    (filename : List ℕ) (m : BtuiModel)
    → InRange m
    → (r : Option (BtuiModel × S × Result (Unit {0}))) (s : S) (es : EventStream)
    → Appends print_local print_utc print_message input filename s es m r
    → InRange (left_model m r)
load-InRange print_local print_utc print_message input filename m v none s es h = v
load-InRange print_local print_utc print_message input filename m v (some (m', s', ok u)) s es
      (added, reads, e) =
    subst InRange (sym e)
      (apply_filters-InRange (record m { all_records = m.all_records ++ added }))
load-InRange print_local print_utc print_message input filename m v (some (m', s', throw x)) s es
      (added, reads, e) =
    subst InRange (sym e) (record {
      in_range = λ k h. omega (arith, v.in_range k h, length-append m.all_records added);
    })

perform-InRange : (c : Call) (m : BtuiModel) → InRange m → InRange (perform c m)
unfolding cycle_sort_order cycle_severity_filter reset_filters set_sort_order
perform-InRange Call.filters m v = apply_filters-InRange m
perform-InRange Call.sorting m v = apply_sorting-InRange m v
perform-InRange Call.cycle_order m v = apply_sorting-InRange _ (record { in_range = v.in_range })
perform-InRange Call.cycle_severity m v = apply_filters-InRange _
perform-InRange Call.reset m v = apply_filters-InRange _
perform-InRange (Call.order o) m v = record { in_range = v.in_range }
perform-InRange (Call.criteria fs) m v = record { in_range = v.in_range }
perform-InRange (Call.load print_local print_utc print_message input filename fuel s es) m v =
    load-InRange print_local print_utc print_message input filename m v _ s es
      (load-Appends print_local print_utc print_message input filename fuel s es m)

abbrev pub perform_all : List Call → BtuiModel → BtuiModel
perform_all [] m = m
perform_all (c ∷ cs) m = perform_all cs (perform c m)

pub perform_all-InRange : (cs : List Call) (m : BtuiModel) → InRange m → InRange (perform_all cs m)
perform_all-InRange [] m v = v
perform_all-InRange (c ∷ cs) m v = perform_all-InRange cs (perform c m) (perform-InRange c m v)

record_at-some :
    (m : BtuiModel) (i k : ℕ) (rec : LogRecord)
    → get_elem? m.filtered_indices i ≡ some k
    → get_elem? m.all_records k ≡ some rec
    → record_at m i ≡ some rec
unfolding record_at
record_at-some m i k rec e g = rw (e, record_at) g

-- After any calls, loads that end or throw included, on a model whose shown indices are in range, `record(i)`
-- returns a record for each `i` below `recordCount()`.
pub record_at_total :
    (cs : List Call) {m : BtuiModel} (i : ℕ)
    → InRange m
    → i < record_count (perform_all cs m)
    → (rec : LogRecord) × (record_at (perform_all cs m) i ≡ some rec)
unfolding record_count
record_at_total cs {m} i v h =
    let m' = perform_all cs m in
    let (k, e) = get_elem?-some m'.filtered_indices i h in
    let (rec, g) =
      get_elem?-some m'.all_records k
        ((perform_all-InRange cs m v).in_range k (Listed-get_elem? m'.filtered_indices i e)) in
    (rec, record_at-some m' i k rec e g)
