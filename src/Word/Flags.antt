-- ===== src/Word/Flags.antt =====
-- The three lowest flags of a word: testing one, and setting one.
use Prim.Native.Nat.{bit_and-bitwise}
use feline.Prelude.{ℕ, zero, suc, ◌+◌, ◌*◌, ◌/◌, ◌%◌, ◌≤◌, ◌≡◌, arith, bit_and, bit_or}
use feline.Word.Digits.{bit_and_step, bit_or_step}
use feline.Word.Or.{or-zero}

and-zero_below : (n a : ℕ) → a ≤ n → bit_and a 0 ≡ 0
and-zero_below n zero h = bit_and-bitwise 0 0
and-zero_below zero (suc a) h = absurd (omega arith)
and-zero_below (suc n) (suc a) h =
    omega (arith, bit_and_step (suc a) 0, and-zero_below n (suc a / 2) (omega arith))

and-zero : (a : ℕ) → bit_and a 0 ≡ 0
and-zero a = and-zero_below a a (omega arith)

pub and-one : (a : ℕ) → bit_and a 1 ≡ a % 2
and-one a = omega (arith, bit_and_step a 1, and-zero (a / 2))

pub and-two : (a : ℕ) → bit_and a 2 ≡ a / 2 % 2 * 2
and-two a = omega (arith, bit_and_step a 2, and-one (a / 2))

pub and-four : (a : ℕ) → bit_and a 4 ≡ a / 4 % 2 * 4
and-four a = omega (arith, bit_and_step a 4, and-two (a / 2))

pub or-one : (a : ℕ) → bit_or a 1 ≡ a / 2 * 2 + 1
or-one a = omega (arith, bit_or_step a 1, or-zero (a / 2))

pub or-two : (a : ℕ) → bit_or a 2 ≡ a / 4 * 4 + 2 + a % 2
or-two a = omega (arith, bit_or_step a 2, or-one (a / 2))

pub or-four : (a : ℕ) → bit_or a 4 ≡ a / 8 * 8 + 4 + a % 4
or-four a = omega (arith, bit_or_step a 4, or-two (a / 2))
