-- ===== src/SegmentedMap/Map.antt =====
-- The segmented map is a map: what `find` returns after `emplace`, and how `size` counts.
use btui.Prelude.{
  ℕ, zero, suc, ◌-◌, ◌^◌, ◌≤◌, ◌<◌, ◌≡◌, refl, sym, ap, ◌∙◌, Bool, true, false, Option, none, some,
  List, [], ◌∷◌, length, get_elem?, leb, ◌==◌, if◌then◌else◌, arith,
}
use btui.SegmentedMap.{SegmentedMap, new, emplace, find, total_length, size}
use btui.SegmentedMap.Lookup.{
  Ordered, lookup, place, no_segments, find-eq_lookup, emplace-eq_place, place-Ordered,
  lookup-place, place_head, length-snoc, length-set,
}

abbrev pub is_none {ℓ} : {A : Type ℓ} → Option A → Bool
is_none none = true
is_none (some a) = false

-- The first offset is 0, and the segments are in order.
abbrev pub ValidLists : {V : Type 0} → List ℕ → List (List V) → Type 0
ValidLists [] ss = ⊥
ValidLists (o ∷ os) [] = ⊥
ValidLists (o ∷ os) (s ∷ ss) = (o ≡ 0) × Ordered (o ∷ os) (s ∷ ss)

module _ {V : Type 0} where
  pub record IsValid (m : SegmentedMap V) : Type 0 where
    pub lists : ValidLists m.offsets m.segments

  pub new-IsValid : IsValid (new {V = V})
  unfolding new
  new-IsValid = record { lists = (refl, omega arith) }

  find-emplace_lists :
      (key j : ℕ) (v : V) (os : List ℕ) (ss : List (List V))
      → ValidLists os ss
      → key < 2 ^ 64
      → j < 2 ^ 64
      → ValidLists
          (emplace key v (record { offsets = os; segments = ss })).offsets
          (emplace key v (record { offsets = os; segments = ss })).segments
        × (find j (emplace key v (record { offsets = os; segments = ss }))
            ≡ (if key == j then some v else find j (record { offsets = os; segments = ss })))
  find-emplace_lists key j v [] ss w h g = absurd w
  find-emplace_lists key j v (o ∷ os) [] w h g = absurd w
  find-emplace_lists key j v (o ∷ os) (s ∷ ss) (z, w) h g =
      let (os', s', ss', e) = place_head key v o os s ss in
      let k : o ≤ key = omega arith in
      let l : o ≤ j = omega arith in
      let e' : emplace key v (record { offsets = o ∷ os; segments = s ∷ ss })
          ≡ record { offsets = o ∷ os'; segments = s' ∷ ss' } =
        emplace-eq_place key v o os s ss w k h ∙ e in
      let w' : Ordered (o ∷ os') (s' ∷ ss') = rw e at (place-Ordered key v o os s ss w k h) in
      let f : lookup j (o ∷ os') (s' ∷ ss')
          ≡ (if key == j then some v else lookup j (o ∷ os) (s ∷ ss)) =
        rw e at (lookup-place key j v o os s ss w k l) in
      rw e' (
        (z, w'),
        find-eq_lookup j o os' s' ss' w' l g
            ∙ f
            ∙ ap (λ x. if key == j then some v else x) (sym (find-eq_lookup j o os s ss w l g)),
      )

  -- `emplace` keeps the map valid.
  pub emplace-IsValid :
      (key : ℕ) (v : V) {m : SegmentedMap V} → IsValid m → key < 2 ^ 64 → IsValid (emplace key v m)
  emplace-IsValid key v {m} w h = record {
    lists = (find-emplace_lists key key v m.offsets m.segments w.lists h h).0;
  }

  -- On a valid map with 64 bit keys: after `emplace`, `find` returns the new value at its key, and what it
  -- returned before at every other key.
  pub find-emplace :
      (key j : ℕ) (v : V) {m : SegmentedMap V}
      → IsValid m
      → key < 2 ^ 64
      → j < 2 ^ 64
      → find j (emplace key v m) ≡ (if key == j then some v else find j m)
  find-emplace key j v {m} w h g = (find-emplace_lists key j v m.offsets m.segments w.lists h g).1

  -- A new map finds nothing.
  pub find-new : (key : ℕ) → find key (new {V = V}) ≡ none
  unfolding find new
  find-new key = ground arith

  is_none-get_elem? : (s : List V) (i : ℕ) → is_none (get_elem? s i) ≡ leb (length s) i
  is_none-get_elem? [] i = ground arith
  is_none-get_elem? (x ∷ s) zero = ground arith
  is_none-get_elem? (x ∷ s) (suc i) = ground (arith, is_none-get_elem? s i)

  total_length-place :
      (key : ℕ) (v : V) (o : ℕ) (os : List ℕ) (s : List V) (ss : List (List V))
      → Ordered (o ∷ os) (s ∷ ss)
      → o ≤ key
      → total_length (place key v (o ∷ os) (s ∷ ss)).segments ≡ (
          if is_none (lookup key (o ∷ os) (s ∷ ss))
          then suc (total_length (s ∷ ss))
          else total_length (s ∷ ss))
  unfolding total_length place lookup
  total_length-place key v o [] s (s' ∷ ss) w h = absurd w
  total_length-place key v o [] s [] w h =
      ground (arith, is_none-get_elem? s (key - o), length-snoc s v, length-set s (key - o) v)
  total_length-place key v o (o' ∷ os) s [] w h = absurd (no_segments V o' os w.1)
  total_length-place key v o (o' ∷ os) s (s' ∷ ss) w h = ground (
    arith,
    is_none-get_elem? s (key - o),
    length-snoc s v,
    length-set s (key - o) v,
    total_length-place key v o' os s' ss w.1,
  )

  size-emplace_lists :
      (key : ℕ) (v : V) (os : List ℕ) (ss : List (List V))
      → ValidLists os ss
      → key < 2 ^ 64
      → size (emplace key v (record { offsets = os; segments = ss })) ≡ (
          if is_none (find key (record { offsets = os; segments = ss }))
          then suc (total_length ss)
          else total_length ss)
  unfolding size
  size-emplace_lists key v [] ss w h = absurd w
  size-emplace_lists key v (o ∷ os) [] w h = absurd w
  size-emplace_lists key v (o ∷ os) (s ∷ ss) (z, w) h =
      let k : o ≤ key = omega arith in
      rw (emplace-eq_place key v o os s ss w k h, find-eq_lookup key o os s ss w k h)
        (total_length-place key v o os s ss w k)

  -- On a valid map with a 64 bit key: `emplace` makes the map larger by one if the key was not
  -- in it, and keeps its size if it was.
  pub size-emplace :
      (key : ℕ) (v : V) {m : SegmentedMap V}
      → IsValid m
      → key < 2 ^ 64
      → size (emplace key v m) ≡ (if is_none (find key m) then suc (size m) else size m)
  unfolding size
  size-emplace key v {m} w h = size-emplace_lists key v m.offsets m.segments w.lists h
