-- ===== src/Prelude/Integers.antt =====
-- Go's `int` and SQLite's integers over the native numbers, under the library's names.
use zone.Prelude.{
  ℕ, suc, ◌+◌, ◌-◌, ◌^◌, ◌≡◌, refl, Bool, true, false, arith, ltb, leb, if◌then◌else◌,
}

-- `negsuc n` is `-(n + 1)`.
pub data ℤ : Type 0 where
  pos negsuc : ℕ → ℤ

infixl 60 ◌+ℤ◌
unfoldable pub ◌+ℤ◌ : ℤ → ℤ → ℤ
pos m +ℤ pos n = pos (m + n)
pos m +ℤ negsuc n = if ltb n m then pos (m - suc n) else negsuc (n - m)
negsuc m +ℤ pos n = if ltb m n then pos (n - suc m) else negsuc (m - n)
negsuc m +ℤ negsuc n = negsuc (m + n + 1)

unfoldable pub negate : ℤ → ℤ
negate (pos n) = if ltb 0 n then negsuc (n - 1) else pos 0
negate (negsuc n) = pos (n + 1)

unfoldable pub is_negative : ℤ → Bool
is_negative (pos n) = false
is_negative (negsuc n) = true

unfoldable pub less : ℤ → ℤ → Bool
less (pos m) (pos n) = ltb m n
less (pos m) (negsuc n) = false
less (negsuc m) (pos n) = true
less (negsuc m) (negsuc n) = ltb n m

-- The sum of two 64-bit integers in Go, which wraps.
unfoldable pub add_int64 : ℤ → ℤ → ℤ
unfolding ◌+ℤ◌
add_int64 (pos m) (pos n) =
    if ltb (m + n) (2 ^ 63) then pos (m + n) else negsuc (2 ^ 64 - suc (m + n))
add_int64 (negsuc m) (negsuc n) =
    if leb (m + n + 2) (2 ^ 63) then negsuc (m + n + 1) else pos (2 ^ 64 - (m + n + 2))
add_int64 (pos m) (negsuc n) = pos m +ℤ negsuc n
add_int64 (negsuc m) (pos n) = negsuc m +ℤ pos n

-- A sum with a number that is not negative is right unless it is negative.
pub add_int64-exact :
    (m : ℕ) (b : ℤ) → is_negative (add_int64 (pos m) b) ≡ false → add_int64 (pos m) b ≡ pos m +ℤ b
unfolding add_int64 ◌+ℤ◌ is_negative
add_int64-exact m (pos n) h = ground arith
add_int64-exact m (negsuc n) h = refl

-- What can be paid leaves no debt.
pub is_negative-pay :
    (m : ℕ) (b : ℤ)
    → less (pos m) b ≡ false
    → is_negative b ≡ false
    → is_negative (pos m +ℤ negate b) ≡ false
unfolding less is_negative negate ◌+ℤ◌
is_negative-pay m (pos n) h g = ground arith
is_negative-pay m (negsuc n) h g = cc
