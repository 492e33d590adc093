-- ===== src/Model/Order.antt =====
-- The order in which records are shown.
use btui.Prelude.{
  ℕ, ◌+◌, ◌≤◌, ◌≡◌, ◌↔◌, refl, sym, subst, Bool, true, false, List, [], ◌∷◌, arith, Bool-cases, inl,
  inr, ◌==◌,
}
use btui.Model.{
  LogRecord, FilterState, SortOrder, BtuiModel, passes, filter_from, stable_sort, earlier, later,
  clock_at, sorted_indices, apply_sorting, apply_filters, next_order, cycle_sort_order,
}
use btui.Model.Sorting.{by_key, Sorted, with_key, stable_sort-Sorted, with_key-stable_sort}
use btui.Model.Filtering.{Listed, Listed-sorted}

-- Indices that rise, all of them from `i` on: records in the order in which they were loaded.
abbrev pub RisesFrom : ℕ → List ℕ → Type 0
RisesFrom i [] = Unit
RisesFrom i (k ∷ ks) = (i ≤ k) × RisesFrom (k + 1) ks

RisesFrom-le : (i j : ℕ) (ks : List ℕ) → i ≤ j → RisesFrom j ks → RisesFrom i ks
RisesFrom-le i j [] h r = tt
RisesFrom-le i j (k ∷ ks) h (l, r) = (omega arith, r)

filter_from-RisesFrom :
    (fs : FilterState) (recs : List LogRecord) (i : ℕ) → RisesFrom i (filter_from fs recs i)
unfolding filter_from
filter_from-RisesFrom fs [] i = tt
filter_from-RisesFrom fs (rec ∷ rest) i = elim (Bool-cases (passes fs rec)) [
  | inl e ↦ rw e (omega arith, filter_from-RisesFrom fs rest (i + 1))
  | inr e ↦ rw e (
      RisesFrom-le i (i + 1) (filter_from fs rest (i + 1)) (omega arith)
        (filter_from-RisesFrom fs rest (i + 1)))
]

with_key-RisesFrom :
    (key : ℕ → ℕ) (t i : ℕ) (ks : List ℕ) → RisesFrom i ks → RisesFrom i (with_key key t ks)
unfolding with_key
with_key-RisesFrom key t i [] r = tt
with_key-RisesFrom key t i (k ∷ ks) (l, r) = elim (Bool-cases (key k == t)) [
  | inl e ↦ rw e (l, with_key-RisesFrom key t (k + 1) ks r)
  | inr e ↦ rw e (
      RisesFrom-le i (k + 1) (with_key key t ks) (omega arith)
        (with_key-RisesFrom key t (k + 1) ks r))
]

-- The order that a sort order promises: that of loading; or clock values that rise or fall, and among equal clock
-- values that of loading.
abbrev pub InOrder : List LogRecord → SortOrder → List ℕ → Type 0
InOrder recs SortOrder.unsorted ks = RisesFrom 0 ks
InOrder recs SortOrder.ascending ks =
    Sorted (earlier recs) ks × ((t : ℕ) → RisesFrom 0 (with_key (clock_at recs) t ks))
InOrder recs SortOrder.descending ks =
    Sorted (later recs) ks × ((t : ℕ) → RisesFrom 0 (with_key (clock_at recs) t ks))

stable_sort-InOrder :
    (up : Bool) (recs : List LogRecord) (ks : List ℕ)
    → ((t : ℕ) → RisesFrom 0 (with_key (clock_at recs) t ks))
    → Sorted (by_key up (clock_at recs)) (stable_sort (by_key up (clock_at recs)) ks)
      × ((t : ℕ)
          → RisesFrom 0 (with_key (clock_at recs) t (stable_sort (by_key up (clock_at recs)) ks)))
stable_sort-InOrder up recs ks r = (
  stable_sort-Sorted up (clock_at recs) ks,
  λ t. subst (RisesFrom 0) (sym (with_key-stable_sort up (clock_at recs) t ks)) (r t),
)

sorted_indices-InOrder :
    (o : SortOrder) (recs : List LogRecord) (ks : List ℕ)
    → RisesFrom 0 ks
    → InOrder recs o (sorted_indices o recs ks)
sorted_indices-InOrder SortOrder.unsorted recs ks r = r
sorted_indices-InOrder SortOrder.ascending recs ks r =
    stable_sort-InOrder true recs ks (λ t. with_key-RisesFrom (clock_at recs) t 0 ks r)
sorted_indices-InOrder SortOrder.descending recs ks r =
    stable_sort-InOrder false recs ks (λ t. with_key-RisesFrom (clock_at recs) t 0 ks r)

-- What `applyFilters` shows is in the model's order: in the unsorted order, the indices rise, as the records were
-- loaded; in ascending order the clock values rise, and the indices of records with equal clock values rise; in
-- descending order the clock values fall, and the indices of records with equal clock values still rise.
pub shown-InOrder :
    (m : BtuiModel) → InOrder m.all_records m.sort_order (apply_filters m).filtered_indices
unfolding apply_filters apply_sorting
shown-InOrder m =
    sorted_indices-InOrder m.sort_order m.all_records (filter_from m.filter_state m.all_records 0)
      (filter_from-RisesFrom m.filter_state m.all_records 0)

-- The order that is shown behind a change of the order: the new one, but what was shown in descending order stays.
abbrev pub Cycled : List LogRecord → SortOrder → List ℕ → SortOrder × List ℕ → Type 0
Cycled recs SortOrder.unsorted ks (o, ks') =
    (o ≡ SortOrder.ascending) × InOrder recs SortOrder.ascending ks'
Cycled recs SortOrder.ascending ks (o, ks') =
    (o ≡ SortOrder.descending) × InOrder recs SortOrder.descending ks'
Cycled recs SortOrder.descending ks (o, ks') =
    (o ≡ SortOrder.unsorted) × (ks' ≡ ks) × InOrder recs SortOrder.descending ks'

next_order-Cycled :
    (o : SortOrder) (recs : List LogRecord) (ks : List ℕ)
    → InOrder recs o ks
    → Cycled recs o ks (next_order o, sorted_indices (next_order o) recs ks)
next_order-Cycled SortOrder.unsorted recs ks r =
    (refl, stable_sort-InOrder true recs ks (λ t. with_key-RisesFrom (clock_at recs) t 0 ks r))
next_order-Cycled SortOrder.ascending recs ks (s, r) = (refl, stable_sort-InOrder false recs ks r)
next_order-Cycled SortOrder.descending recs ks r = (refl, refl, r)

-- Where what is shown is in the model's order, changing the order goes from unsorted to ascending and on to
-- descending, and shows the same indices in the new order, equal clock values still as loaded; from descending it
-- goes to unsorted, but what is shown stays in descending order until the filters are applied again,
-- which brings back the order of loading.
pub cycle_sort_order_lem :
    (m : BtuiModel)
    → InOrder m.all_records m.sort_order m.filtered_indices
    → Cycled m.all_records m.sort_order m.filtered_indices
        ((cycle_sort_order m).sort_order, (cycle_sort_order m).filtered_indices)
      × ((k : ℕ) → Listed k (cycle_sort_order m).filtered_indices ↔ Listed k m.filtered_indices)
      × ((m.sort_order ≡ SortOrder.descending)
          → RisesFrom 0 (apply_filters (cycle_sort_order m)).filtered_indices)
unfolding cycle_sort_order apply_filters apply_sorting
cycle_sort_order_lem m r = (
  next_order-Cycled m.sort_order m.all_records m.filtered_indices r,
  λ k. Listed-sorted (next_order m.sort_order) m.all_records k m.filtered_indices,
  λ e. rw e (filter_from-RisesFrom m.filter_state m.all_records 0),
)
