-- ===== src/RecoverableStream/Layout.antt =====
-- The header in front of the data stays right.
use btui.Prelude.{
  ℕ, ◌+◌, ◌%◌, ◌^◌, ◌<◌, ◌≡◌, ◌≢◌, refl, sym, ap, ◌∙◌, List, [], ◌∷◌, ◌++◌, append-nil,
  append_assoc, length, length-append, take, ltb, blit, arith, Bool-cases, inl, inr, ne→==_false,
}
use btui.Range.{le_bytes, le_value}
use btui.Range.Words.{le_value-le_bytes, length-le_bytes}
use btui.Visit.Values.{concat}
use btui.RecoverableStream.{
  RecoverableVectorOutputStream, make, size, set_magic, update_size, write, write_all,
}

-- Magic number, id, size and data.
abbrev pub layout : ℕ → ℕ → List ℕ → List ℕ
layout magic id data_ = le_bytes 8 magic ++ (le_bytes 8 id ++ (le_bytes 8 (length data_) ++ data_))

make_lem : (capacity magic id : ℕ) → (make capacity magic id).vector ≡ layout magic id []
unfolding make blit le_bytes
make_lem capacity magic id = refl

set_magic_lem :
    (m m' : ℕ) (rest : List ℕ) → set_magic m (le_bytes 8 m' ++ rest) ≡ le_bytes 8 m ++ rest
unfolding set_magic blit le_bytes
set_magic_lem m m' rest = refl

over_size :
    (magic id n k : ℕ) (data_ : List ℕ)
    → blit 16 (le_bytes 8 k) (le_bytes 8 magic ++ (le_bytes 8 id ++ (le_bytes 8 n ++ data_)))
      ≡ le_bytes 8 magic ++ (le_bytes 8 id ++ (le_bytes 8 k ++ data_))
unfolding blit le_bytes
over_size magic id n k data_ = refl

size_lem :
    (magic id n capacity : ℕ) (data_ : List ℕ)
    → size (record {
      vector = le_bytes 8 magic ++ (le_bytes 8 id ++ (le_bytes 8 n ++ data_));
      capacity = capacity;
    })
      ≡ length data_
unfolding size
size_lem magic id n capacity data_ = omega (
  arith,
  length-append (le_bytes 8 magic) (le_bytes 8 id ++ (le_bytes 8 n ++ data_)),
  length-append (le_bytes 8 id) (le_bytes 8 n ++ data_),
  length-append (le_bytes 8 n) data_,
  length-le_bytes 8 magic,
  length-le_bytes 8 id,
  length-le_bytes 8 n,
)

-- The size is written over whatever stands there.
update_lem :
    (magic id n capacity : ℕ) (data_ : List ℕ)
    → length data_ < 2 ^ 64
    → (update_size (record {
      vector = le_bytes 8 magic ++ (le_bytes 8 id ++ (le_bytes 8 n ++ data_));
      capacity = capacity;
    })).vector
      ≡ layout magic id data_
unfolding update_size
update_lem magic id n capacity data_ h =
    ap
      (λ k. blit 16 (le_bytes 8 k) (le_bytes 8 magic ++ (le_bytes 8 id ++ (le_bytes 8 n ++ data_))))
      (ap (λ k. k % 2 ^ 64) (size_lem magic id n capacity data_) ∙ omega arith)
    ∙ over_size magic id n (length data_) data_

layout-append :
    (m id n : ℕ) (data_ chars : List ℕ)
    → (le_bytes 8 m ++ (le_bytes 8 id ++ (le_bytes 8 n ++ data_))) ++ chars
      ≡ le_bytes 8 m ++ (le_bytes 8 id ++ (le_bytes 8 n ++ (data_ ++ chars)))
unfolding le_bytes
layout-append m id n data_ chars = refl

take-le_bytes : (magic : ℕ) (rest : List ℕ) → take 8 (le_bytes 8 magic ++ rest) ≡ le_bytes 8 magic
unfolding le_bytes
take-le_bytes magic rest = refl

magic_lem :
    (magic : ℕ) (rest : List ℕ)
    → magic < 2 ^ 64
    → le_value (take 8 (le_bytes 8 magic ++ rest)) ≡ magic
magic_lem magic rest h = ap le_value (take-le_bytes magic rest) ∙ le_value-le_bytes 8 magic h

reset_lem :
    (m id n : ℕ) (data_ chars : List ℕ)
    → set_magic m
        (set_magic 0 (le_bytes 8 m ++ (le_bytes 8 id ++ (le_bytes 8 n ++ data_))) ++ chars)
      ≡ le_bytes 8 m ++ (le_bytes 8 id ++ (le_bytes 8 n ++ (data_ ++ chars)))
unfolding set_magic blit le_bytes
reset_lem m id n data_ chars = refl

write_lem :
    (grown : ℕ → ℕ) (magic id : ℕ) (data_ chars : List ℕ) (s : RecoverableVectorOutputStream)
    → magic < 2 ^ 64
    → magic ≢ 0
    → length (data_ ++ chars) < 2 ^ 64
    → s.vector ≡ layout magic id data_
    → (write grown chars s).vector ≡ layout magic id (data_ ++ chars)
unfolding write
write_lem grown magic id data_ chars s h m k e =
    elim (Bool-cases (ltb s.capacity (length s.vector + length chars))) [
      | inl c ↦
          rw
            (
              c,
              e,
              magic_lem magic (le_bytes 8 id ++ (le_bytes 8 (length data_) ++ data_)) h,
              ne→==_false magic 0 m,
            )
            (ap (λ v. (update_size (record { vector = v; capacity = 0 })).vector)
                (reset_lem magic id (length data_) data_ chars)
              ∙ update_lem magic id (length data_) 0 (data_ ++ chars) k)
      | inr c ↦
          rw (c, e)
            (ap (λ v. (update_size (record { vector = v; capacity = s.capacity })).vector)
                (layout-append magic id (length data_) data_ chars)
              ∙ update_lem magic id (length data_) s.capacity (data_ ++ chars) k)
    ]

append_lengths : (a b c : List ℕ) → length ((a ++ b) ++ c) ≡ length (a ++ (b ++ c))
append_lengths a b c = ap length (append_assoc a b c)

write_all_lem :
    (grown : ℕ → ℕ) (magic id : ℕ) (data_ : List ℕ) (writes : List (List ℕ))
    (s : RecoverableVectorOutputStream)
    → magic < 2 ^ 64
    → magic ≢ 0
    → length (data_ ++ concat writes) < 2 ^ 64
    → s.vector ≡ layout magic id data_
    → (write_all grown writes s).vector ≡ layout magic id (data_ ++ concat writes)
unfolding write_all concat
write_all_lem grown magic id data_ [] s h m k e = e ∙ ap (layout magic id) (sym (append-nil data_))
write_all_lem grown magic id data_ (chars ∷ more) s h m k e =
    write_all_lem grown magic id (data_ ++ chars) more (write grown chars s) h m
      (omega (arith, append_lengths data_ chars (concat more), k))
      (write_lem grown magic id data_ chars s h m
        (omega (
          arith,
          length-append data_ chars,
          length-append data_ (chars ++ concat more),
          length-append chars (concat more),
        ))
        e)
    ∙ ap (layout magic id) (append_assoc data_ chars (concat more))

-- After any writes the bytes of the stream are the magic number, the id, the size of the data and the data in
-- the order of the writes, whichever of the writes made the vector move, where the magic number is not zero and the size
-- fits in 64 bits.
pub write_all-make :
    (grown : ℕ → ℕ) (capacity magic id : ℕ) (writes : List (List ℕ))
    → magic < 2 ^ 64
    → magic ≢ 0
    → length (concat writes) < 2 ^ 64
    → (write_all grown writes (make capacity magic id)).vector ≡ layout magic id (concat writes)
write_all-make grown capacity magic id writes h m k =
    write_all_lem grown magic id [] writes (make capacity magic id) h m k
      (make_lem capacity magic id)
