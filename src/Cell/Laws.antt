-- ===== src/Cell/Laws.antt =====
-- What tagging keeps, and exactly where it stops.
use feline.Prelude.{ℕ, ◌^◌, ◌-◌, ◌≤◌, ◌<◌, ◌≡◌, ◌↔◌, arith, ℤ, pos, negsuc, true}
use feline.Cell.{int32, IsInt32, make_fixnum, is_fixnum, fixnum_value, IsFixnum, IsInt64}

-- For a 64-bit integer, the tagged cell has the fixnum tag, and shifting the tag out
-- gives the integer back exactly when it lies between MOST_NEGATIVE_FIXNUM and MOST_POSITIVE_FIXNUM.
pub make_fixnum_exact :
    (n : ℤ)
    → IsInt64 n
    → (is_fixnum (make_fixnum n) ≡ true) × ((fixnum_value (make_fixnum n) ≡ n) ↔ IsFixnum n)
unfolding make_fixnum
make_fixnum_exact (pos n) h = ground arith
make_fixnum_exact (negsuc n) h = ground arith

-- A number that fits an `int` is not changed by the conversion.
pub int32_fits : (n : ℤ) → IsInt32 n → int32 n ≡ n
unfolding int32
int32_fits (pos n) h = ground arith
int32_fits (negsuc n) h = ground arith

-- From 2 ^ 31 on, a number below 2 ^ 32 becomes negative.
pub int32_wraps : (n : ℕ) → 2 ^ 31 ≤ n → n < 2 ^ 32 → int32 (pos n) ≡ negsuc (2 ^ 32 - 1 - n)
unfolding int32
int32_wraps n far below = ground arith
