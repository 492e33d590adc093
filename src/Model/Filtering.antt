-- ===== src/Model/Filtering.antt =====
-- Which records are shown: exactly those that pass the filters, each index in range.
use btui.Prelude.{
  ℕ, zero, suc, ◌+◌, ◌-◌, ◌≤◌, ◌≡◌, ◌↔◌, ◌⊎◌, refl, sym, subst, Bool, true, some, List, [], ◌∷◌,
  arith, Bool-cases, inl, inr, length, get_elem?, le→ltb_false,
}
use btui.Text.{contains_substring_case_insensitive}
use btui.Text.Contains.{OccursAt, contains_iff}
use btui.Model.{
  LogRecord, FilterState, SortOrder, BtuiModel, passes, filter_from, insert_sorted, stable_sort,
  earlier, later, sorted_indices, apply_sorting, apply_filters, record_count, next_order,
  cycle_sort_order,
}
use btui.Model.Sorting.{length-stable_sort}

abbrev pub Listed : ℕ → List ℕ → Type 0
Listed k [] = ⊥
Listed k (x ∷ xs) = (k ≡ x) ⊎ Listed k xs

-- What the filters ask of a record.
pub record Matches (fs : FilterState) (rec : LogRecord) : Type 0 where
  pub severe : fs.min_severity ≤ rec.severity
  pub in_category : (k : ℕ) × OccursAt rec.category fs.category_filter k
  pub in_writer : (k : ℕ) × OccursAt rec.writer_name fs.writer_filter k
  pub in_message : (k : ℕ) × OccursAt rec.message fs.message_filter k

-- A record passes the test of `applyFilters` exactly when its severity is at least the smallest one, and
-- each filter text occurs in its field, up to the case of letters.
pub passes_iff : (fs : FilterState) (rec : LogRecord) → (passes fs rec ≡ true) ↔ Matches fs rec
unfolding passes
passes_iff fs rec = (forth, back)
  where
    cat :
        (contains_substring_case_insensitive rec.category fs.category_filter ≡ true)
        ↔ ((k : ℕ) × OccursAt rec.category fs.category_filter k)
    cat = contains_iff rec.category fs.category_filter

    wri :
        (contains_substring_case_insensitive rec.writer_name fs.writer_filter ≡ true)
        ↔ ((k : ℕ) × OccursAt rec.writer_name fs.writer_filter k)
    wri = contains_iff rec.writer_name fs.writer_filter

    mes :
        (contains_substring_case_insensitive rec.message fs.message_filter ≡ true)
        ↔ ((k : ℕ) × OccursAt rec.message fs.message_filter k)
    mes = contains_iff rec.message fs.message_filter

    tests :
        passes fs rec ≡ true
        → (fs.min_severity ≤ rec.severity)
          × (contains_substring_case_insensitive rec.category fs.category_filter ≡ true)
          × (contains_substring_case_insensitive rec.writer_name fs.writer_filter ≡ true)
          × (contains_substring_case_insensitive rec.message fs.message_filter ≡ true)
    tests h = ground arith

    forth : passes fs rec ≡ true → Matches fs rec
    forth h =
        let (a, b, c, d) = tests h in
        record { severe = a; in_category = cat.0 b; in_writer = wri.0 c; in_message = mes.0 d }

    back : Matches fs rec → passes fs rec ≡ true
    back m = rw (
      le→ltb_false rec.severity fs.min_severity m.severe,
      cat.1 m.in_category,
      wri.1 m.in_writer,
      mes.1 m.in_message,
    )

filter_from_sound :
    (fs : FilterState) (recs : List LogRecord) (i k : ℕ)
    → Listed k (filter_from fs recs i)
    → (i ≤ k) × ((rec : LogRecord) × (get_elem? recs (k - i) ≡ some rec) × (passes fs rec ≡ true))
unfolding filter_from
filter_from_sound fs [] i k h = absurd h
filter_from_sound fs (rec ∷ rest) i k h = elim (Bool-cases (passes fs rec)) [
  | inl e ↦ elim (split (rw e at h)) [
    | inl a ↦ (
      omega arith,
      (
        rec,
        subst (λ n. get_elem? (rec ∷ rest) n ≡ some rec) {x = 0} {y = k - i} (omega arith) refl,
        e,
      ),
    )
    | inr b ↦ further (filter_from_sound fs rest (i + 1) k b)
  ]
  | inr e ↦ further (filter_from_sound fs rest (i + 1) k (rw e at h))
]
  where
    split :
        Listed k (i ∷ filter_from fs rest (i + 1))
        → (k ≡ i) ⊎ Listed k (filter_from fs rest (i + 1))
    split x = x

    further :
        (i + 1 ≤ k)
          × ((r : LogRecord) × (get_elem? rest (k - (i + 1)) ≡ some r) × (passes fs r ≡ true))
        → (i ≤ k)
          × ((r : LogRecord) × (get_elem? (rec ∷ rest) (k - i) ≡ some r) × (passes fs r ≡ true))
    further (le, (r, g, t)) = (
      omega arith,
      (
        r,
        subst (λ n. get_elem? (rec ∷ rest) n ≡ some r) {x = suc (k - (i + 1))} {y = k - i}
            (omega arith) g,
        t,
      ),
    )

filter_from_complete :
    (fs : FilterState) (recs : List LogRecord) (i j : ℕ) (rec : LogRecord)
    → get_elem? recs j ≡ some rec
    → passes fs rec ≡ true
    → Listed (i + j) (filter_from fs recs i)
unfolding filter_from
filter_from_complete fs [] i j rec e p = absurd (cc)
filter_from_complete fs (r ∷ rest) i zero rec e p =
    let t : passes fs r ≡ true = subst (λ x. passes fs x ≡ true) (sym (cc e)) p in
    rw t (inl (omega arith))
filter_from_complete fs (r ∷ rest) i (suc j) rec e p =
    let there : Listed (i + suc j) (filter_from fs rest (i + 1)) =
      subst (λ n. Listed n (filter_from fs rest (i + 1))) {x = i + 1 + j} {y = i + suc j}
        (omega arith) (filter_from_complete fs rest (i + 1) j rec e p) in
    elim (Bool-cases (passes fs r)) [ inl t ↦ rw t (inr there) | inr t ↦ rw t there ]

swap_through : {X Y L I : Type 0} → (I ↔ (X ⊎ L)) → ((Y ⊎ I) ↔ (X ⊎ (Y ⊎ L)))
swap_through {X} {Y} {L} {I} e = (forth, back)
  where
    forth : Y ⊎ I → X ⊎ (Y ⊎ L)
    forth (inl a) = inr (inl a)
    forth (inr b) = elim (e.0 b) [ inl c ↦ inl c | inr d ↦ inr (inr d) ]

    back : X ⊎ (Y ⊎ L) → Y ⊎ I
    back (inl a) = inr (e.1 (inl a))
    back (inr (inl b)) = inl b
    back (inr (inr c)) = inr (e.1 (inr c))

Listed-insert :
    (less : ℕ → ℕ → Bool) (x k : ℕ) (ys : List ℕ)
    → Listed k (insert_sorted less x ys) ↔ ((k ≡ x) ⊎ Listed k ys)
unfolding insert_sorted
Listed-insert less x k [] = ((λ h. h), λ h. h)
Listed-insert less x k (y ∷ ys) = elim (Bool-cases (less y x)) [
  | inl e ↦ rw e (swap_through (Listed-insert less x k ys))
  | inr e ↦ rw e ((λ h. h), λ h. h)
]

Listed-sort :
    (less : ℕ → ℕ → Bool) (k : ℕ) (xs : List ℕ) → Listed k (stable_sort less xs) ↔ Listed k xs
unfolding stable_sort
Listed-sort less k [] = ((λ h. h), λ h. h)
Listed-sort less k (x ∷ xs) =
    let ins = Listed-insert less x k (stable_sort less xs) in
    let ih = Listed-sort less k xs in
    (
      (λ h. elim (ins.0 h) [ inl a ↦ inl a | inr b ↦ inr (ih.0 b) ]),
      λ h. ins.1 (elim h [ inl a ↦ inl a | inr b ↦ inr (ih.1 b) ]),
    )

pub Listed-sorted :
    (o : SortOrder) (recs : List LogRecord) (k : ℕ) (xs : List ℕ)
    → Listed k (sorted_indices o recs xs) ↔ Listed k xs
Listed-sorted SortOrder.unsorted recs k xs = ((λ h. h), λ h. h)
Listed-sorted SortOrder.ascending recs k xs = Listed-sort (earlier recs) k xs
Listed-sorted SortOrder.descending recs k xs = Listed-sort (later recs) k xs

-- After `applyFilters`, in every sort order: an index is shown exactly when it is the index of a record
-- that matches the filters.
pub shown_iff :
    (m : BtuiModel) (k : ℕ)
    → Listed k (apply_filters m).filtered_indices
      ↔ ((rec : LogRecord) × (get_elem? m.all_records k ≡ some rec) × Matches m.filter_state rec)
unfolding apply_filters apply_sorting
shown_iff m k = (forth, back)
  where
    all : List ℕ
    all = filter_from m.filter_state m.all_records 0

    forth :
        Listed k (sorted_indices m.sort_order m.all_records all)
        → (rec : LogRecord) × (get_elem? m.all_records k ≡ some rec) × Matches m.filter_state rec
    forth h =
        let (z, (rec, g, p)) =
          filter_from_sound m.filter_state m.all_records 0 k
            ((Listed-sorted m.sort_order m.all_records k all).0 h) in
        (
          rec,
          subst (λ n. get_elem? m.all_records n ≡ some rec) {x = k - 0} {y = k} (omega arith) g,
          (passes_iff m.filter_state rec).0 p,
        )

    back :
        ((rec : LogRecord) × (get_elem? m.all_records k ≡ some rec) × Matches m.filter_state rec)
        → Listed k (sorted_indices m.sort_order m.all_records all)
    back (rec, g, mt) = (Listed-sorted m.sort_order m.all_records k all).1 (
        subst (λ n. Listed n all) {x = 0 + k} {y = k} (omega arith)
          (filter_from_complete m.filter_state m.all_records 0 k rec g
            ((passes_iff m.filter_state rec).1 mt)))

length-sorted_indices :
    (o : SortOrder) (recs : List LogRecord) (xs : List ℕ)
    → length (sorted_indices o recs xs) ≡ length xs
length-sorted_indices SortOrder.unsorted recs xs = refl
length-sorted_indices SortOrder.ascending recs xs = length-stable_sort (earlier recs) xs
length-sorted_indices SortOrder.descending recs xs = length-stable_sort (later recs) xs

-- Changing the order shows as many records as before.
pub record_count-cycle_sort_order :
    (m : BtuiModel) → record_count (cycle_sort_order m) ≡ record_count m
unfolding record_count cycle_sort_order apply_sorting
record_count-cycle_sort_order m =
    length-sorted_indices (next_order m.sort_order) m.all_records m.filtered_indices
