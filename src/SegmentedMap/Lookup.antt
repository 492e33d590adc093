-- ===== src/SegmentedMap/Lookup.antt =====
-- The segmented map against its abstract view, a partial function from keys to values.
use btui.Prelude.{
  ℕ, zero, suc, ◌+◌, ◌-◌, ◌^◌, ◌≤◌, ◌<◌, ◌≡◌, refl, ap, Option, none, some, List, [], ◌∷◌, ◌++◌,
  length, get_elem?, set, ltb, leb, ◌==◌, if◌then◌else◌, Bool-cases, inl, inr, arith,
}
use btui.SegmentedMap.{SegmentedMap, advance, segment_index, emplace, find}

module _ {V : Type 0} where
  -- Each segment ends before the next one starts, and the last one within the 64 bit keys.
  abbrev pub Ordered : List ℕ → List (List V) → Type 0
  Ordered (o ∷ []) (s ∷ []) = o + length s ≤ 2 ^ 64
  Ordered (o ∷ o' ∷ os) (s ∷ ss) = (o + length s ≤ o') × Ordered (o' ∷ os) ss
  Ordered _ _ = ⊥

  -- What the map's vectors say of a key, by recursion on both.
  unfoldable pub lookup : ℕ → List ℕ → List (List V) → Option V
  lookup key (o ∷ []) (s ∷ ss) = get_elem? s (key - o)
  lookup key (o ∷ o' ∷ os) (s ∷ ss) =
      if leb o' key then lookup key (o' ∷ os) ss else get_elem? s (key - o)
  lookup key _ _ = none

  -- What `emplace` makes of the vectors: at the first segment,
  abbrev pub put_here : ℕ → V → ℕ → List ℕ → List V → List (List V) → SegmentedMap V
  put_here key v o os s ss =
      if length s == (key - o)
      then record { offsets = o ∷ os; segments = (s ++ (v ∷ [])) ∷ ss }
      else (if ltb (key - o) (length s)
          then record { offsets = o ∷ os; segments = set s (key - o) v ∷ ss }
          else record { offsets = o ∷ key ∷ os; segments = s ∷ (v ∷ []) ∷ ss })

  abbrev pub behind : ℕ → List V → SegmentedMap V → SegmentedMap V
  behind o s m = record { offsets = o ∷ m.offsets; segments = s ∷ m.segments }

  -- or at a later one.
  unfoldable pub place : ℕ → V → List ℕ → List (List V) → SegmentedMap V
  place key v (o ∷ []) (s ∷ ss) = put_here key v o [] s ss
  place key v (o ∷ o' ∷ os) (s ∷ ss) =
      if leb o' key then behind o s (place key v (o' ∷ os) ss) else put_here key v o (o' ∷ os) s ss
  place key v os ss = record { offsets = os; segments = ss }

advance_suc : (key : ℕ) (os : List ℕ) (si : ℕ) → advance key os (si + 1) ≡ advance key os si + 1
unfolding advance
advance_suc key [] si = refl
advance_suc key (o ∷ os) si = ground (arith, advance_suc key os (si + 1))

advance-le : (key : ℕ) (os : List ℕ) (si : ℕ) → si ≤ advance key os si
unfolding advance
advance-le key [] si = omega arith
advance-le key (o ∷ os) si = ground (arith, advance-le key os (si + 1))

index_next :
    (key o o' : ℕ) (os : List ℕ)
    → o' ≤ key
    → segment_index key (o ∷ o' ∷ os) ≡ suc (segment_index key (o' ∷ os))
unfolding segment_index
index_next key o o' os h = ground (arith, advance_suc key os 1, advance-le key os 1)

index_here : (key o o' : ℕ) (os : List ℕ) → key < o' → segment_index key (o ∷ o' ∷ os) ≡ 0
unfolding segment_index
index_here key o o' os h = ground arith

pub no_segments : (V : Type 0) (o : ℕ) (os : List ℕ) → ¬ Ordered {V = V} (o ∷ os) []
no_segments V o [] h = h
no_segments V o (o' ∷ os) h = h

module _ {V : Type 0} where
  get_elem?-none : (i : ℕ) (xs : List V) → length xs ≤ i → get_elem? xs i ≡ none
  get_elem?-none i [] h = refl
  get_elem?-none zero (x ∷ xs) h = absurd (omega arith)
  get_elem?-none (suc i) (x ∷ xs) h = get_elem?-none i xs (omega arith)

  -- `find` is the recursive lookup.
  pub find-eq_lookup :
      (key o : ℕ) (os : List ℕ) (s : List V) (ss : List (List V))
      → Ordered (o ∷ os) (s ∷ ss)
      → o ≤ key
      → key < 2 ^ 64
      → find key (record { offsets = o ∷ os; segments = s ∷ ss }) ≡ lookup key (o ∷ os) (s ∷ ss)
  unfolding find lookup
  find-eq_lookup key o [] s (s' ∷ ss) w h k = absurd w
  find-eq_lookup key o [] s [] w h k = ground (arith, get_elem?-none (key - o) s)
  find-eq_lookup key o (o' ∷ os) s [] w h k = absurd (no_segments V o' os w.1)
  find-eq_lookup key o (o' ∷ os) s (s' ∷ ss) w h k = ground (
    arith,
    index_next key o o' os,
    index_here key o o' os,
    find-eq_lookup key o' os s' ss w.1,
    get_elem?-none (key - o) s,
  )

  pub emplace-eq_place :
      (key : ℕ) (v : V) (o : ℕ) (os : List ℕ) (s : List V) (ss : List (List V))
      → Ordered (o ∷ os) (s ∷ ss)
      → o ≤ key
      → key < 2 ^ 64
      → emplace key v (record { offsets = o ∷ os; segments = s ∷ ss })
        ≡ place key v (o ∷ os) (s ∷ ss)
  unfolding emplace place
  emplace-eq_place key v o [] s (s' ∷ ss) w h k = absurd w
  emplace-eq_place key v o [] s [] w h k = ground arith
  emplace-eq_place key v o (o' ∷ os) s [] w h k = absurd (no_segments V o' os w.1)
  emplace-eq_place key v o (o' ∷ os) s (s' ∷ ss) w h k = ground (
    arith,
    index_next key o o' os,
    index_here key o o' os,
    emplace-eq_place key v o' os s' ss w.1,
  )

  get_elem?-snoc :
      (s : List V) (v : V) (i : ℕ)
      → get_elem? (s ++ (v ∷ [])) i ≡ (if length s == i then some v else get_elem? s i)
  get_elem?-snoc [] v zero = refl
  get_elem?-snoc [] v (suc i) = ground arith
  get_elem?-snoc (x ∷ s) v zero = ground arith
  get_elem?-snoc (x ∷ s) v (suc i) = ground (arith, get_elem?-snoc s v i)

  get_elem?-set :
      (s : List V) (v : V) (i j : ℕ)
      → i < length s
      → get_elem? (set s i v) j ≡ (if i == j then some v else get_elem? s j)
  get_elem?-set [] v i j h = absurd (omega arith)
  get_elem?-set (x ∷ s) v zero zero h = refl
  get_elem?-set (x ∷ s) v zero (suc j) h = ground arith
  get_elem?-set (x ∷ s) v (suc i) zero h = ground arith
  get_elem?-set (x ∷ s) v (suc i) (suc j) h = ground (arith, get_elem?-set s v i j)

  pub length-set : (s : List V) (i : ℕ) (v : V) → length (set s i v) ≡ length s
  length-set [] i v = refl
  length-set (x ∷ s) zero v = refl
  length-set (x ∷ s) (suc i) v = ap suc (length-set s i v)

  pub length-snoc : (s : List V) (v : V) → length (s ++ (v ∷ [])) ≡ length s + 1
  length-snoc [] v = omega arith
  length-snoc (x ∷ s) v = omega (arith, length-snoc s v)

  put_here_head :
      (key : ℕ) (v : V) (o : ℕ) (os : List ℕ) (s : List V) (ss : List (List V))
      → (os' : List ℕ) × (s' : List V) × (ss' : List (List V)) × (put_here key v o os s ss
          ≡ record { offsets = o ∷ os'; segments = s' ∷ ss' })
  put_here_head key v o os s ss = elim (Bool-cases (length s == (key - o))) [
    | inl e ↦ (os, s ++ (v ∷ []), ss, rw e)
    | inr e ↦ elim (Bool-cases (ltb (key - o) (length s))) [
      | inl f ↦ (os, set s (key - o) v, ss, rw (e, f))
      | inr f ↦ (key ∷ os, s, (v ∷ []) ∷ ss, rw (e, f))
    ]
  ]

  -- The first offset stays, and there is a first segment.
  pub place_head :
      (key : ℕ) (v : V) (o : ℕ) (os : List ℕ) (s : List V) (ss : List (List V))
      → (os' : List ℕ) × (s' : List V) × (ss' : List (List V)) × (place key v (o ∷ os) (s ∷ ss)
          ≡ record { offsets = o ∷ os'; segments = s' ∷ ss' })
  unfolding place
  place_head key v o [] s ss = put_here_head key v o [] s ss
  place_head key v o (o' ∷ os) s ss = elim (Bool-cases (leb o' key)) [
    | inl e ↦ ((place key v (o' ∷ os) ss).offsets, s, (place key v (o' ∷ os) ss).segments, rw e)
    | inr e ↦ rw e (put_here_head key v o (o' ∷ os) s ss)
  ]

  pub place-Ordered :
      (key : ℕ) (v : V) (o : ℕ) (os : List ℕ) (s : List V) (ss : List (List V))
      → Ordered (o ∷ os) (s ∷ ss)
      → o ≤ key
      → key < 2 ^ 64
      → Ordered (place key v (o ∷ os) (s ∷ ss)).offsets (place key v (o ∷ os) (s ∷ ss)).segments
  unfolding place
  place-Ordered key v o [] s (s' ∷ ss) w h k = absurd w
  place-Ordered key v o [] s [] w h k = ground (arith, length-snoc s v, length-set s (key - o) v)
  place-Ordered key v o (o' ∷ os) s [] w h k = absurd (no_segments V o' os w.1)
  place-Ordered key v o (o' ∷ os) s (s' ∷ ss) w h k = ground (
    arith,
    length-snoc s v,
    length-set s (key - o) v,
    place-Ordered key v o' os s' ss w.1,
    place_head key v o' os s' ss,
  )

  pub lookup-place :
      (key j : ℕ) (v : V) (o : ℕ) (os : List ℕ) (s : List V) (ss : List (List V))
      → Ordered (o ∷ os) (s ∷ ss)
      → o ≤ key
      → o ≤ j
      → lookup j (place key v (o ∷ os) (s ∷ ss)).offsets (place key v (o ∷ os) (s ∷ ss)).segments
        ≡ (if key == j then some v else lookup j (o ∷ os) (s ∷ ss))
  unfolding place lookup
  lookup-place key j v o [] s (s' ∷ ss) w h g = absurd w
  lookup-place key j v o [] s [] w h g = ground (
    arith,
    get_elem?-snoc s v (j - o),
    get_elem?-set s v (key - o) (j - o),
    get_elem?-none (j - key) (v ∷ []),
    get_elem?-none (j - o) s,
  )
  lookup-place key j v o (o' ∷ os) s [] w h g = absurd (no_segments V o' os w.1)
  lookup-place key j v o (o' ∷ os) s (s' ∷ ss) w h g = ground (
    arith,
    get_elem?-snoc s v (j - o),
    get_elem?-set s v (key - o) (j - o),
    get_elem?-none (j - key) (v ∷ []),
    get_elem?-none (j - o) s,
    lookup-place key j v o' os s' ss w.1,
    place_head key v o' os s' ss,
  )
