-- ===== src/Result.antt =====
-- What a C++ function that may throw returns: a value, or the exception.
use btui.Prelude.{◌≡◌, refl, ℕ}

pub data Error : Type 0 where
  -- `Range overflow`
  range_overflow : Error
  -- `Failed to read entry size from istream`
  entry_size : Error
  -- `Failed to read entry payload from istream`
  entry_payload : Error
  -- `Event has invalid source id`
  invalid_source : ℕ → Error
  -- `Recursion limit exceeded while visiting tag`
  recursion_limit : Error
  -- `Invalid arithmetic tag`
  arithmetic_tag : ℕ → Error
  -- `Invalid enum tag`
  enum_tag : Error
  -- `Serialized sequence size = … != … = target size, and target cannot be .resize()-ed`
  sequence_size : (new_size size : ℕ) → Error

pub data Result (A : Type 0) : Type 0 where
  throw : Error → Result A
  ok : A → Result A

module _ {T U : Type 0} where
  -- An exception leaves the calls behind it out.
  infixl 5 ◌>>=◌
  abbrev pub ◌>>=◌ : Result T → (T → Result U) → Result U
  throw problem >>= next = throw problem
  ok value >>= next = next value

  -- A chain that does not throw has a first call that returns, and then a second.
  pub >>=-eq_ok :
      (first : Result T) (next : T → Result U) {last : U}
      → (first >>= next) ≡ ok last
      → (value : T) × (first ≡ ok value) × (next value ≡ ok last)
  >>=-eq_ok (throw problem) next h = cc
  >>=-eq_ok (ok value) next h = (value, refl, h)
