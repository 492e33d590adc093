-- ===== src/Session/Consume.antt =====
-- What `Session::consume` writes and leaves.
use btui.Prelude.{
  ℕ, zero, suc, ◌+◌, ◌-◌, ◌≤◌, ◌<◌, ◌^◌, ◌≡◌, inl, inr, refl, sym, ap, ap₂, ◌∙◌, Bool, true, false,
  Option, none, some, List, [], ◌∷◌, ◌++◌, length, length-append, arith, if◌then◌else◌, ◌==◌,
  Bool-cases, slice, All, drop, length-slice, take_all, length-drop, subst,
}
use btui.Queue.{size, bytes_at, begin_read, end_read, view_bytes}
use btui.Queue.Invariant.{InBounds}
use btui.Queue.Contents.{contents}
use btui.Queue.Sizes.{size-begin_read}
use btui.Queue.Fifo.{read_drains}
use btui.Entries.{writer_prop_entry, serialize_size_prefixed_tagged}
use btui.Entries.Codec.{writer_prop_lawful}
use btui.Entries.Frames.{size_written}
use btui.Session.{Session, Channel, keep, consume_channel, consume_channels, poll, consume}

-- What a reader finds in a channel: nothing, or the writer's properties with the size of the batch,
-- and the batch.
abbrev pub channel_bytes : Channel → List ℕ
channel_bytes ch =
    if length (contents ch.queue) == 0
    then []
    else ((serialize_size_prefixed_tagged
          (record ch.writer_prop { batch_size = length (contents ch.queue) })).0
        ++ contents ch.queue)

empty_of_length : (l : List ℕ) → (length l == 0) ≡ true → l ≡ []
empty_of_length [] e = refl
empty_of_length (x ∷ l) e = ground arith

second_lem :
    (b : Option ℕ) (n : ℕ) (buf : List ℕ)
    → (if n == 0 then [] else bytes_at b n buf) ≡ bytes_at b n buf
unfolding bytes_at
second_lem none zero buf = refl
second_lem (some i) zero buf = refl
second_lem b (suc n) buf = ground arith

consume_channel_lem :
    (ch : Channel)
    → InBounds ch.queue
    → ((consume_channel ch).1 ≡ channel_bytes ch) × (contents (consume_channel ch).0.queue ≡ [])
unfolding consume_channel view_bytes
consume_channel_lem ch b =
    let buf = ch.queue.buffer in
    let rr = (begin_read ch.queue).0 in
    elim (Bool-cases (length (contents ch.queue) == 0)) [
      | inl e ↦
          rw (consume_channel, size-begin_read ch.queue b, e)
            (refl, empty_of_length (contents ch.queue) e)
      | inr e ↦
          rw (consume_channel, size-begin_read ch.queue b, e)
            (
              ap
                  (λ l.
                    (serialize_size_prefixed_tagged
                      (record ch.writer_prop { batch_size = length (contents ch.queue) })).0
                    ++ l)
                  (ap (λ l. bytes_at rr.buffer1 rr.size1 buf ++ l)
                      (second_lem rr.buffer2 rr.size2 buf)
                    ∙ (read_drains b).0),
              (read_drains b).1,
            )
    ]

-- The size of a writer's properties does not overflow its size field.
abbrev pub Fits : Channel → Type 0
Fits ch = 8 + (4 + length ch.writer_prop.name) + 8 + 8 < 2 ^ 32

consumed_eq :
    (ch : Channel)
    → InBounds ch.queue
    → Fits ch
    → (consume_channel ch).2 ≡ length (channel_bytes ch)
unfolding consume_channel serialize_size_prefixed_tagged
consumed_eq ch b fits =
    let wp = record ch.writer_prop { batch_size = length (contents ch.queue) } in
    elim (Bool-cases (length (contents ch.queue) == 0)) [
      | inl e ↦ rw (consume_channel, size-begin_read ch.queue b, e) refl
      | inr e ↦
          rw (consume_channel, size-begin_read ch.queue b, e)
            (omega (
              arith,
              size_written writer_prop_lawful wp fits,
              length-append (serialize_size_prefixed_tagged wp).0 (contents ch.queue),
            ))
    ]

consume_channel-InBounds :
    (ch : Channel) → InBounds ch.queue → InBounds (consume_channel ch).0.queue
unfolding begin_read end_read consume_channel
consume_channel-InBounds ch b = elim (Bool-cases (size (begin_read ch.queue).0 == 0)) [
  | inl e ↦ rw (consume_channel, e) b
  | inr e ↦ rw (consume_channel, e) (ground arith)
]

consume_channel-Fits : (ch : Channel) → Fits ch → Fits (consume_channel ch).0
unfolding consume_channel
consume_channel-Fits ch f = elim (Bool-cases (size (begin_read ch.queue).0 == 0)) [
  | inl e ↦ rw (consume_channel, e) f
  | inr e ↦ rw (consume_channel, e) f
]

pub record IsValid (s : Session) : Type 0 where
  pub position : s.sources_consume_pos ≤ length s.sources
  pub bounds : All (λ ch. InBounds ch.queue) s.channels
  pub fits : All Fits s.channels

pub all_bytes : List Channel → List ℕ
all_bytes [] = []
all_bytes (ch ∷ chs) = channel_bytes ch ++ all_bytes chs

-- The channels of `s` that a writer still shares, as a consumer leaves them.
pub kept : List Channel → List Channel
kept [] = []
kept (ch ∷ chs) = keep ch.shared (consume_channel ch).0 (kept chs)

keep-All :
    (P : Channel → Type 0) (b : Bool) (ch : Channel) (chs : List Channel)
    → P ch
    → All P chs
    → All P (keep b ch chs)
keep-All P true ch chs p a = (p, a)
keep-All P false ch chs p a = a

keep-count :
    (b : Bool) (ch : Channel) (chs : List Channel) (r : ℕ)
    → (if b then r else 1 + r) + length (keep b ch chs) ≡ 1 + (r + length chs)
keep-count true ch chs r = omega arith
keep-count false ch chs r = omega arith

kept-All :
    (P : Channel → Type 0) (chs : List Channel)
    → All (λ ch. P (consume_channel ch).0) chs
    → All P (kept chs)
unfolding kept
kept-All P [] a = a
kept-All P (ch ∷ chs) (p, a) = keep-All P ch.shared _ _ p (kept-All P chs a)

consume_channels_lem :
    (chs : List Channel)
    → All (λ ch. InBounds ch.queue) chs
    → All Fits chs
    → let done = consume_channels chs in
      (done.kept ≡ kept chs)
      × (done.written ≡ all_bytes chs)
      × (done.consumed ≡ length (all_bytes chs))
      × (done.polled ≡ length chs)
      × (done.removed + length (kept chs) ≡ length chs)
unfolding consume_channels kept all_bytes poll
consume_channels_lem [] b f = (refl, refl, refl, refl, refl)
consume_channels_lem (ch ∷ chs) (b, bs) (f, fs) =
    let (k, w, c, p, r) = consume_channels_lem chs bs fs in
    (
      ap (keep ch.shared (consume_channel ch).0) k,
      ap₂ (◌++◌) (consume_channel_lem ch b).0 w,
      omega (arith, consumed_eq ch b f, c, length-append (channel_bytes ch) (all_bytes chs)),
      omega (arith, p),
      elim (Bool-cases ch.shared) [
        | inl e ↦ rw e (omega (arith, r))
        | inr e ↦ rw e (omega (arith, r))
      ],
    )

map-All :
    {P Q : Channel → Type 0} (chs : List Channel)
    → ((ch : Channel) → P ch → Q ch)
    → All P chs
    → All Q chs
map-All [] f a = a
map-All (ch ∷ chs) f (p, a) = (f ch p, map-All chs f a)

-- On a valid session: `consume` writes the clock syncs, if they are due, then the event sources
-- that were not consumed, all of them, and then for each channel with unread data its writer's
-- properties and the data, in order. It reports the number of bytes written and of channels
-- polled, keeps exactly the channels that are shared, counts the others as removed, and leaves
-- each one kept empty.
pub consume_lem :
    (s : Session)
    → IsValid s
    → let after = (consume s).0 in
      let result = (consume s).1 in
      let written = (consume s).2 in
      (written
        ≡ (if s.consume_clock_sync then s.clock_sync else [])
          ++ (drop s.sources_consume_pos s.sources ++ all_bytes s.channels))
      × (result.bytes_consumed ≡ length written)
      × (after.sources_consume_pos ≡ length s.sources)
      × (after.channels ≡ kept s.channels)
      × All (λ ch. contents ch.queue ≡ []) after.channels
      × (result.channels_polled ≡ length s.channels)
      × (result.channels_removed + length after.channels ≡ length s.channels)
unfolding consume
consume_lem s v =
    let sync : List ℕ = if s.consume_clock_sync then s.clock_sync else [] in
    let n = length s.sources - s.sources_consume_pos in
    let done = consume_channels s.channels in
    let (k, w, c, p, r) = consume_channels_lem s.channels v.bounds v.fits in
    let new_sources = slice s.sources_consume_pos n s.sources in
    (
      ap₂ (λ a b. sync ++ (a ++ b))
          (take_all n (drop s.sources_consume_pos s.sources)
            (omega (arith, length-drop s.sources_consume_pos s.sources)))
          w,
      omega (
        arith,
        c,
        ap length w,
        length-append sync (new_sources ++ done.written),
        length-append new_sources done.written,
        length-slice s.sources_consume_pos n s.sources (omega (arith, v.position)),
      ),
      omega (arith, v.position),
      k,
      subst (All (λ ch. contents ch.queue ≡ [])) (sym k) (
          kept-All _ s.channels
            (map-All s.channels (λ ch b. (consume_channel_lem ch b).1) v.bounds)),
      p,
      omega (arith, ap length k, r),
    )

-- The session is valid after `consume`.
pub consume-IsValid : (s : Session) → IsValid s → IsValid (consume s).0
unfolding consume
consume-IsValid s v =
    let k = sym (consume_channels_lem s.channels v.bounds v.fits).0 in
    record {
      position = omega (arith, v.position);
      bounds =
          subst (All (λ ch. InBounds ch.queue)) k
            (kept-All _ s.channels (map-All s.channels consume_channel-InBounds v.bounds));
      fits =
          subst (All Fits) k
            (kept-All Fits s.channels (map-All s.channels consume_channel-Fits v.fits));
    }

all_bytes-empty : (chs : List Channel) → All (λ ch. contents ch.queue ≡ []) chs → all_bytes chs ≡ []
unfolding all_bytes
all_bytes-empty [] a = refl
all_bytes-empty (ch ∷ chs) (e, a) = rw e (all_bytes-empty chs a)

drop_all : (xs : List ℕ) → drop (length xs) xs ≡ []
drop_all [] = refl
drop_all (x ∷ xs) = drop_all xs

-- On a valid session nothing is written twice: a second `consume`, with nothing added in
-- between, writes nothing.
pub consume_again : (s : Session) → IsValid s → (consume (consume s).0).2 ≡ []
unfolding consume
consume_again s v =
    let (w, b, p, k, e, polled, removed) = consume_lem s v in
    let again = (consume_lem (consume s).0 (consume-IsValid s v)).0 in
    again
    ∙ ap₂ (◌++◌) (ap (λ n. drop n s.sources) p ∙ drop_all s.sources)
        (all_bytes-empty (consume s).0.channels e)
