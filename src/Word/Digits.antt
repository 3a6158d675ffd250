-- ===== src/Word/Digits.antt =====
-- The native bit operations as recursions on binary digits: one equation for the lowest digit of
-- each.
use Prim.Native.Nat.{max, min, digits, bitwise, differ}
use Prim.Native.Nat.{bit_and-bitwise, bit_or-bitwise, bit_xor-bitwise}
use feline.Prelude.{
  ℕ, zero, suc, ◌+◌, ◌*◌, ◌/◌, ◌%◌, ◌≤◌, ◌<◌, ◌≡◌, ◌∙◌, refl, sym, ap, inl, inr, Bool-cases, leb,
  leb→le, arith,
}
use feline.Prelude.{bit_and, bit_or, bit_xor}

module _ (z : ℕ → ℕ) (f : ℕ → ℕ → ℕ) where
  -- A round of fuel more than the number needs makes no difference.
  spare_round : (fuel x y : ℕ) → x ≤ fuel → digits z f (suc fuel) x y ≡ digits z f fuel x y
  spare_round zero zero y enough = refl
  spare_round (suc fuel) zero y enough = refl
  spare_round zero (suc x) y enough = absurd (omega arith)
  spare_round (suc fuel) (suc x) y enough =
      ap (λ r. r * 2 + f (suc x % 2) (y % 2)) (spare_round fuel (suc x / 2) (y / 2) (omega arith))

  digits-bitwise : (fuel x y : ℕ) → x ≤ fuel → digits z f fuel x y ≡ bitwise z f x y
  digits-bitwise zero zero y enough = refl
  digits-bitwise zero (suc x) y enough = absurd (omega arith)
  digits-bitwise (suc fuel) x y enough = elim (Bool-cases (leb x fuel)) [
    | inl fewer ↦
        let below = leb→le x fuel fewer in
        spare_round fuel x y below ∙ digits-bitwise fuel x y below
    | inr all ↦ let exact : x ≡ suc fuel = ground arith in ap (λ n. digits z f n x y) (sym exact)
  ]

  lowest_digit :
      (x y : ℕ)
      → bitwise z f (suc x) y ≡ bitwise z f (suc x / 2) (y / 2) * 2 + f (suc x % 2) (y % 2)
  lowest_digit x y =
      ap (λ r. r * 2 + f (suc x % 2) (y % 2)) (digits-bitwise x (suc x / 2) (y / 2) (omega arith))

-- The exclusive or of two digits is the parity of their sum.
differ_parity : (c d : ℕ) → c < 2 → d < 2 → differ c d ≡ (c + d) % 2
differ_parity zero d c<2 d<2 = omega arith
differ_parity (suc zero) zero c<2 d<2 = refl
differ_parity (suc zero) (suc zero) c<2 d<2 = refl
differ_parity (suc zero) (suc (suc d)) c<2 d<2 = absurd (omega arith)
differ_parity (suc (suc c)) d c<2 d<2 = absurd (omega arith)

pub bit_xor_step : (x y : ℕ) → bit_xor x y ≡ bit_xor (x / 2) (y / 2) * 2 + (x + y) % 2
bit_xor_step zero y = simp bit_xor-bitwise (omega arith)
bit_xor_step (suc x) y =
    let parity = differ_parity (suc x % 2) (y % 2) (omega arith) (omega arith) in
    simp bit_xor-bitwise (omega (arith, lowest_digit (λ t. t) differ x y, parity))

pub bit_or_step : (x y : ℕ) → bit_or x y ≡ bit_or (x / 2) (y / 2) * 2 + max (x % 2) (y % 2)
bit_or_step zero y = simp bit_or-bitwise (omega arith)
bit_or_step (suc x) y = simp bit_or-bitwise (lowest_digit (λ t. t) max x y)

pub bit_and_step : (x y : ℕ) → bit_and x y ≡ bit_and (x / 2) (y / 2) * 2 + min (x % 2) (y % 2)
bit_and_step zero y = simp bit_and-bitwise (omega arith)
bit_and_step (suc x) y = simp bit_and-bitwise (lowest_digit (λ t. 0) min x y)
