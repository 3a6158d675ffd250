-- ===== src/Word/Or.antt =====
-- `|` of two fields that share no bit is their sum, and `x & (2^k - 1)` is a remainder.
use native.Mathlib.Nat.{pow-succ'}
use Prim.Native.Nat.{bit_or-bitwise}
use feline.Prelude.{ℕ, zero, suc, ◌+◌, ◌*◌, ◌/◌, ◌^◌, ◌≤◌, ◌<◌, ◌≡◌, ap, arith, bit_or}
use feline.Word.Digits.{bit_or_step}

or-zero_below : (n a : ℕ) → a ≤ n → bit_or a 0 ≡ a
or-zero_below n zero h = bit_or-bitwise 0 0
or-zero_below zero (suc a) h = absurd (omega arith)
or-zero_below (suc n) (suc a) h =
    omega (arith, bit_or_step (suc a) 0, or-zero_below n (suc a / 2) (omega arith))

pub or-zero : (a : ℕ) → bit_or a 0 ≡ a
or-zero a = or-zero_below a a (omega arith)

high_half : (q k : ℕ) → q * 2 ^ suc k ≡ 2 * (q * 2 ^ k)
high_half q k = omega (arith, ap (λ t. q * t) (pow-succ' 2 k))

-- (q << k) | r, where r fits k bits.
pub or-disjoint : (k q r : ℕ) → r < 2 ^ k → bit_or (q * 2 ^ k) r ≡ q * 2 ^ k + r
or-disjoint zero q zero fits = omega (arith, or-zero (q * 1))
or-disjoint zero q (suc r) fits = absurd (omega arith)
or-disjoint (suc k) q r fits = omega (
  arith,
  high_half q k,
  bit_or_step (q * 2 ^ suc k) r,
  ap (λ t. bit_or t (r / 2)) half,
  or-disjoint k q (r / 2) (omega (arith, pow-succ' 2 k)),
)
  where
    half : q * 2 ^ suc k / 2 ≡ q * 2 ^ k
    half = omega (arith, high_half q k)
