-- ===== src/Recovery/Streams.antt =====
-- The metadata of a session is recovered from a dump of its stream.
use btui.Prelude.{
  ℕ, zero, suc, ◌^◌, ◌≤◌, ◌<◌, ◌≡◌, ◌≢◌, refl, ap, ◌∙◌, true, some, List, [], ◌∷◌, ◌++◌,
  append_assoc, length, length-append, arith, All,
}
use btui.Range.{read, le_bytes}
use btui.Range.Words.{read-le_bytes, view-append_of_length, length-le_bytes}
use btui.Visit.Values.{concat}
use btui.RecoverableStream.{make, write_all}
use btui.RecoverableStream.Layout.{write_all-make}
use btui.Recovery.{
  check_size, check_entry, BufferType, ◌>>=◌, check_from, check_entry_buffer, search,
  metadata_magic,
}
use btui.Recovery.Scan.{metadata_bytes, search-metadata_bytes}

-- Entries: each has its size in front.
unfoldable pub frames : List (List ℕ) → List ℕ
frames [] = []
frames (p ∷ ps) = le_bytes 4 (length p) ++ (p ++ frames ps)

check_cons :
    (f n : ℕ) (rest : List ℕ)
    → check_from (suc f) (le_bytes 4 n ++ rest)
      ≡ check_size (λ r. check_from f r) (read 4 (le_bytes 4 n ++ rest))
unfolding check_from le_bytes
check_cons f n rest = refl

check_step :
    (f : ℕ) (p rest : List ℕ)
    → length p < 2 ^ 32
    → check_from (suc f) (le_bytes 4 (length p) ++ (p ++ rest)) ≡ check_from f rest
check_step f p rest h =
    check_cons f (length p) (p ++ rest)
    ∙ ap (check_size (λ r. check_from f r)) (read-le_bytes 4 (length p) (p ++ rest) h)
    ∙ ap (check_entry (λ r. check_from f r)) (view-append_of_length (length p) p rest refl)

check_from-frames :
    (f : ℕ) (ps : List (List ℕ))
    → All (λ p. length p < 2 ^ 32) ps
    → length (frames ps) ≤ f
    → check_from f (frames ps) ≡ true
unfolding frames check_from
check_from-frames zero ps h k = refl
check_from-frames (suc f) [] h k = refl
check_from-frames (suc f) (p ∷ ps) (h, hs) k =
    check_step f p (frames ps) h
    ∙ check_from-frames f ps hs (
        omega (
          arith,
          length-append (le_bytes 4 (length p)) (p ++ frames ps),
          length-append p (frames ps),
          length-le_bytes 4 (length p),
        ))

pub check_entry_buffer-frames :
    (ps : List (List ℕ)) → All (λ p. length p < 2 ^ 32) ps → check_entry_buffer (frames ps) ≡ true
unfolding check_entry_buffer
check_entry_buffer-frames ps h = check_from-frames (length (frames ps)) ps h (omega arith)

magic_bytes : le_bytes 8 18312004912759029180 ≡ metadata_magic
unfolding le_bytes
magic_bytes = refl

-- The metadata that a session has written to its stream, entry by entry, is recovered from a dump that holds the stream
-- behind bytes that are not the first of a magic number, with the pointer to the session; the search goes on
-- behind it. Each entry has less than 2 ^ 32 bytes, and all of them less than 2 ^ 64.
pub search-write_all :
    (f capacity session : ℕ) (grown : ℕ → ℕ) (junk rest : List ℕ) (writes ps : List (List ℕ))
    → All (λ b. b ≢ 188) junk
    → session < 2 ^ 64
    → concat writes ≡ frames ps
    → All (λ p. length p < 2 ^ 32) ps
    → length (concat writes) < 2 ^ 64
    → search (suc f) (
        junk
        ++ ((write_all grown writes (make capacity 18312004912759029180 session)).vector ++ rest))
      ≡ (search f rest >>= λ more.
          some (
            record { kind = BufferType.metadata; session = session; buffer = concat writes }
            ∷ more))
search-write_all f capacity session grown junk rest writes ps j h e ws k =
    let body : List ℕ = metadata_bytes session (concat writes) in
    ap (λ v. search (suc f) (junk ++ (v ++ rest)))
      (write_all-make grown capacity 18312004912759029180 session writes (omega arith) (omega arith)
          k
        ∙ ap (λ m. m ++ body) magic_bytes)
    ∙ ap (λ v. search (suc f) (junk ++ v)) (append_assoc metadata_magic body rest)
    ∙ search-metadata_bytes f session junk (concat writes) rest j h k
        (ap check_entry_buffer e ∙ check_entry_buffer-frames ps ws)
