-- ===== src/EventFilter/Passes.antt =====
-- Which items pass the filter: the special ones, and the events of allowed sources.
use btui.Prelude.{
  ℕ, zero, suc, ◌+◌, ◌<◌, ◌^◌, ◌≡◌, refl, sym, ap, ap₂, ◌∙◌, inl, inr, Bool, true, false, Option,
  some, List, [], ◌∷◌, ◌++◌, append-nil, append_assoc, length, length-append, All, arith, ◌==◌,
  ◌||◌, if◌then◌else◌, Bool-cases, subst, ==→eq,
}
use native.Mathlib.Nat.{add-zero}
use btui.Result.{Result, ok}
use btui.Range.{empty, le_bytes}
use btui.Range.Words.{read-le_bytes, view-append_of_length, length-le_bytes}
use btui.Entries.{
  WriterProp, ClockSync, default_writer_prop, default_clock_sync, EventSource, Entry,
  event_source_entry, writer_prop_entry, clock_sync_entry, serialize_size_prefixed_tagged,
}
use btui.Entries.Codec.{Lawful, FitsSource, source_lawful, writer_prop_lawful, clock_sync_lawful}
use btui.Entries.Frames.{empty_frame}
use btui.EventStream.{special}
use btui.EventStream.Decode.{Item, FitsItem, encode, encode_all, event_bytes}
use btui.EventFilter.{
  State, add_source, contains, insert, split_entry, inspect, pass, go_on, write_from, write_allowed,
}

-- The items that pass, for the ids that are allowed so far.
pub allowed_items : (EventSource → Bool) → (ℕ → Bool) → List Item → List Item
allowed_items p allowed [] = []
allowed_items p allowed (Item.source s ∷ is) =
    Item.source s ∷ allowed_items p (if p s then (λ j. (s.id == j) || allowed j) else allowed) is
allowed_items p allowed (Item.writer w ∷ is) = Item.writer w ∷ allowed_items p allowed is
allowed_items p allowed (Item.clock c ∷ is) = Item.clock c ∷ allowed_items p allowed is
allowed_items p allowed (Item.event id value args ∷ is) =
    let later = allowed_items p allowed is in
    if allowed id then Item.event id value args ∷ later else later

-- The ids that are allowed behind the items, for the ids that are allowed so far.
pub allowed_after : (EventSource → Bool) → (ℕ → Bool) → List Item → ℕ → Bool
allowed_after p allowed [] = allowed
allowed_after p allowed (Item.source s ∷ is) =
    allowed_after p (if p s then (λ j. (s.id == j) || allowed j) else allowed) is
allowed_after p allowed (Item.writer w ∷ is) = allowed_after p allowed is
allowed_after p allowed (Item.clock c ∷ is) = allowed_after p allowed is
allowed_after p allowed (Item.event id value args ∷ is) = allowed_after p allowed is

frame : ℕ → List ℕ → List ℕ
frame tag body = le_bytes 4 (8 + length body) ++ (le_bytes 8 tag ++ body)

length-frame : (tag : ℕ) (body : List ℕ) → length (frame tag body) ≡ 8 + length body + 4
unfolding frame
length-frame tag body = simp (length-append, length-le_bytes) (omega arith)

split-frame :
    (tag : ℕ) (body rest : List ℕ)
    → 8 + length body < 2 ^ 32
    → split_entry (frame tag body ++ rest) ≡ ok (8 + length body, le_bytes 8 tag ++ body, rest)
unfolding split_entry frame
split-frame tag body rest h = rw (
  append_assoc,
  read-le_bytes 4 (8 + length body) ((le_bytes 8 tag ++ body) ++ rest) (omega arith),
  view-append_of_length (8 + length body) (le_bytes 8 tag ++ body) rest
      (omega (arith, length-append (le_bytes 8 tag) body, length-le_bytes 8 tag)),
)

module _ (p : EventSource → Bool) (f tag : ℕ) (body rest : List ℕ) (s : State)
    (size_fits : 8 + length body < 2 ^ 32) (tag_fits : tag < 2 ^ 64) where
  step_frame :
      write_from p (suc f) (frame tag body ++ rest) s
      ≡ go_on
          (λ s'. write_from p f rest s')
          (pass
            (frame tag body ++ rest)
            (8 + length body)
            tag
            s
            (inspect p s.allowed_source_ids tag body))
  unfolding write_from frame
  step_frame = rw (
    append_assoc,
    empty_frame,
    (ap split_entry
          (sym (append_assoc (le_bytes 4 (8 + length body)) (le_bytes 8 tag ++ body) rest))
        ∙ split-frame tag body rest size_fits),
    read-le_bytes 8 tag body (omega arith),
  )

  step_pass :
      {ids : List ℕ}
      → inspect p s.allowed_source_ids tag body ≡ ok ids
      → (special tag || contains tag s.allowed_source_ids) ≡ true
      → write_from p (suc f) (frame tag body ++ rest) s
        ≡ write_from p f rest (record {
          allowed_source_ids = ids;
          out = s.out ++ frame tag body;
          total_write_size = s.total_write_size + length (frame tag body);
        })
  step_pass e c =
      step_frame
      ∙ rw
          (
            e,
            c,
            view-append_of_length (8 + length body + 4) (frame tag body) rest
                (length-frame tag body),
            length-frame tag body,
          )
          refl

  step_drop :
      inspect p s.allowed_source_ids tag body ≡ ok s.allowed_source_ids
      → (special tag || contains tag s.allowed_source_ids) ≡ false
      → write_from p (suc f) (frame tag body ++ rest) s ≡ write_from p f rest s
  step_drop e c = step_frame ∙ rw (e, c) refl

special-frame :
    {A : Type 0} ⦃e : Entry A⦄ (l : Lawful e) (a : A)
    → e.serialized_size a + 8 < 2 ^ 32
    → (serialize_size_prefixed_tagged a).0 ≡ frame e.tag (e.serialize a)
unfolding serialize_size_prefixed_tagged frame
special-frame ⦃e⦄ l a h =
    ap (λ n. le_bytes 4 n ++ (le_bytes 8 e.tag ++ e.serialize a))
      (omega (arith, l.length_serialize a))

event-frame :
    (id value : ℕ) (args : List ℕ) → event_bytes id value args ≡ frame id (le_bytes 8 value ++ args)
unfolding frame
event-frame id value args =
    ap (λ n. le_bytes 4 n ++ (le_bytes 8 id ++ (le_bytes 8 value ++ args)))
      (omega (arith, length-append (le_bytes 8 value) args, length-le_bytes 8 value))

contains-insert :
    (id j : ℕ) (ids : List ℕ) → contains j (insert id ids) ≡ ((id == j) || contains j ids)
unfolding insert contains
contains-insert id j ids = elim (Bool-cases (contains id ids)) [
  | inr e ↦ rw (insert, e) refl
  | inl e ↦ elim (Bool-cases (id == j)) [
    | inr n ↦ rw (insert, e, n) refl
    | inl y ↦ rw (insert, e, y) (subst (λ k. contains k ids ≡ true) (==→eq id j y) e)
  ]
]

abbrev pub wrote : List ℕ → List ℕ → State → State
wrote ids bytes s = record {
  allowed_source_ids = ids;
  out = s.out ++ bytes;
  total_write_size = s.total_write_size + length bytes;
}

-- The state that the filter leaves, with the ids for which `after` holds.
abbrev pub Passed : (ℕ → Bool) → List Item → State → Option (State × Result ℕ) → Type 0
Passed after is s r =
    let n = s.total_write_size + length (encode_all is) in
    (ids : List ℕ) × (r
      ≡ some (
        record { allowed_source_ids = ids; out = s.out ++ encode_all is; total_write_size = n },
        ok n,
      ))
    × ((j : ℕ) → contains j ids ≡ after j)

Passed-cons :
    {after : ℕ → Bool} (i : Item) (is : List Item) (s : State) (ids : List ℕ)
    (r : Option (State × Result ℕ))
    → Passed after is
        (record {
          allowed_source_ids = ids;
          out = s.out ++ encode i;
          total_write_size = s.total_write_size + length (encode i);
        })
        r
    → Passed after (i ∷ is) s r
unfolding encode_all
Passed-cons i is s ids r (ids', h, a) = (
  ids',
  h
      ∙ ap₂
          (λ l n. some (record { allowed_source_ids = ids'; out = l; total_write_size = n }, ok n))
          (append_assoc s.out (encode i) (encode_all is))
          (omega (arith, length-append (encode i) (encode_all is))),
  a,
)

pass_special :
    {A : Type 0} ⦃e : Entry A⦄ (l : Lawful e) (a : A) (p : EventSource → Bool) (f : ℕ)
    (rest : List ℕ) (s : State) {ids : List ℕ}
    → e.serialized_size a + 8 < 2 ^ 32
    → special e.tag ≡ true
    → inspect p s.allowed_source_ids e.tag (e.serialize a) ≡ ok ids
    → write_from p (suc f) ((serialize_size_prefixed_tagged a).0 ++ rest) s
      ≡ write_from p f rest (record {
        allowed_source_ids = ids;
        out = s.out ++ (serialize_size_prefixed_tagged a).0;
        total_write_size = s.total_write_size + length (serialize_size_prefixed_tagged a).0;
      })
pass_special ⦃e⦄ l a p f rest s h t i = rw (special-frame l a h) (
    step_pass p f e.tag (e.serialize a) rest s (omega (arith, l.length_serialize a, h))
      (omega (arith, l.tag_fits)) i (rw t refl))

inspect-source :
    (p : EventSource → Bool) (x : EventSource) (ids : List ℕ)
    → FitsSource x
    → inspect p ids event_source_entry.tag (event_source_entry.serialize x)
      ≡ ok (if p x then insert x.id ids else ids)
unfolding inspect
inspect-source p x ids h =
    ap (add_source p ids) (rw append-nil at (source_lawful.round_trip x [] h))

inspect-other :
    (p : EventSource → Bool) (ids : List ℕ) (w : WriterProp) (c : ClockSync)
    → (inspect p ids writer_prop_entry.tag (writer_prop_entry.serialize w) ≡ ok ids)
      × (inspect p ids clock_sync_entry.tag (clock_sync_entry.serialize c) ≡ ok ids)
unfolding inspect
inspect-other p ids w c = (refl, refl)

inspect-event :
    (p : EventSource → Bool) (ids : List ℕ) (id : ℕ) (payload : List ℕ)
    → id < 2 ^ 63
    → (inspect p ids id payload ≡ ok ids) × (special id ≡ false)
unfolding inspect
inspect-event p ids id payload h = let e : special id ≡ false = ground arith in (rw e refl, e)

contains_source :
    (b : Bool) (id : ℕ) (ids : List ℕ) (allowed : ℕ → Bool)
    → ((j : ℕ) → contains j ids ≡ allowed j)
    → (j : ℕ)
    → contains j (if b then insert id ids else ids)
      ≡ (if b then (λ k. (id == k) || allowed k) else allowed) j
contains_source true id ids allowed h j = contains-insert id j ids ∙ ap (λ b. (id == j) || b) (h j)
contains_source false id ids allowed h j = h j

write_from-nil :
    (p : EventSource → Bool) (f : ℕ) (s : State)
    → write_from p (suc f) [] s ≡ some (s, ok s.total_write_size)
unfolding write_from empty
write_from-nil p f s = refl

write_from-allowed_items :
    (p : EventSource → Bool) (is : List Item) (f : ℕ) (allowed : ℕ → Bool) (s : State)
    → All FitsItem is
    → length is < f
    → ((j : ℕ) → contains j s.allowed_source_ids ≡ allowed j)
    → Passed
        (allowed_after p allowed is)
        (allowed_items p allowed is)
        s
        (write_from p f (encode_all is) s)
unfolding allowed_items allowed_after encode_all encode
write_from-allowed_items p is zero allowed s h k a = absurd (omega arith)
write_from-allowed_items p [] (suc f) allowed s h k a =
    (s.allowed_source_ids, rw (append-nil, add-zero) (write_from-nil p f s), a)
write_from-allowed_items p (Item.source x ∷ is) (suc f) allowed s (h, hs) k a =
    let ids : List ℕ = if p x then insert x.id s.allowed_source_ids else s.allowed_source_ids in
    Passed-cons (Item.source x) _ s ids _ (
      subst (Passed _ _ (wrote ids (encode (Item.source x)) s))
        (sym (
          pass_special source_lawful x p f (encode_all is) s h.1 refl
            (inspect-source p x s.allowed_source_ids h.0)))
        (write_from-allowed_items p is f _ (wrote ids (encode (Item.source x)) s) hs (omega arith)
          (contains_source (p x) x.id s.allowed_source_ids allowed a)))
write_from-allowed_items p (Item.writer w ∷ is) (suc f) allowed s (h, hs) k a =
    let s' = wrote s.allowed_source_ids (encode (Item.writer w)) s in
    Passed-cons (Item.writer w) _ s s.allowed_source_ids _ (
      subst (Passed _ _ s')
        (sym (
          pass_special writer_prop_lawful w p f (encode_all is) s h.1 refl
            (inspect-other p s.allowed_source_ids w default_clock_sync).0))
        (write_from-allowed_items p is f allowed s' hs (omega arith) a))
write_from-allowed_items p (Item.clock c ∷ is) (suc f) allowed s (h, hs) k a =
    let s' = wrote s.allowed_source_ids (encode (Item.clock c)) s in
    Passed-cons (Item.clock c) _ s s.allowed_source_ids _ (
      subst (Passed _ _ s')
        (sym (
          pass_special clock_sync_lawful c p f (encode_all is) s h.1 refl
            (inspect-other p s.allowed_source_ids default_writer_prop c).1))
        (write_from-allowed_items p is f allowed s' hs (omega arith) a))
write_from-allowed_items p (Item.event id value args ∷ is) (suc f) allowed s (h, hs) k a =
    let body = le_bytes 8 value ++ args in
    let (i, t) = inspect-event p s.allowed_source_ids id body h.0 in
    let fits : 8 + length body < 2 ^ 32 =
      omega (arith, length-append (le_bytes 8 value) args, length-le_bytes 8 value) in
    let s' = wrote s.allowed_source_ids (frame id body) s in
    elim (Bool-cases (allowed id)) [
      | inl e ↦ rw e (
          Passed-cons (Item.event id value args) _ s s.allowed_source_ids _ (
            rw (event-frame id value args) (
              subst (Passed (allowed_after p allowed is) (allowed_items p allowed is) s')
                (sym
                  (step_pass p f id body (encode_all is) s fits (omega arith) i (rw (t, a id) e)))
                (write_from-allowed_items p is f allowed s' hs (omega arith) a))))
      | inr e ↦
          rw (e, event-frame id value args)
            (subst (Passed (allowed_after p allowed is) (allowed_items p allowed is) s)
              (sym (step_drop p f id body (encode_all is) s fits (omega arith) i (rw (t, a id) e)))
              (write_from-allowed_items p is f allowed s hs (omega arith) a))
    ]

-- Every special entry passes, and an event passes exactly if a source with its id was allowed, earlier in the
-- buffer or in an earlier call: on the bytes of items that fit, with fuel for one round for each item and one
-- more, `writeAllowed` writes the bytes of the items that pass, in order, and returns their number; the ids that it keeps for later calls are
-- exactly those that were allowed before and those of the allowed sources of the buffer.
pub write_allowed_lem :
    (p : EventSource → Bool) (is : List Item) (f : ℕ) (ids : List ℕ)
    → All FitsItem is
    → length is < f
    → let passed = encode_all (allowed_items p (λ j. contains j ids) is) in
      (s : State) × (write_allowed p f (encode_all is) ids ≡ some (s, ok (length passed)))
      × (s.out ≡ passed)
      × ((j : ℕ) → contains j s.allowed_source_ids ≡ allowed_after p (λ i. contains i ids) is j)
unfolding write_allowed
write_allowed_lem p is f ids h k =
    let (ids', e, a) =
      write_from-allowed_items p is f (λ j. contains j ids)
        (record { allowed_source_ids = ids; out = []; total_write_size = 0 }) h k (λ j. refl) in
    let passed = encode_all (allowed_items p (λ j. contains j ids) is) in
    let s : State = record {
      allowed_source_ids = ids';
      out = passed;
      total_write_size = 0 + length passed;
    } in
    (s, e ∙ ap (λ (n : ℕ). some (s, ok n)) (omega arith), refl, a)
