-- ===== src/Word/Xor.antt =====
-- Laws of `^` (bit_xor) at every width: an abelian group in which each element is its own inverse,
-- closed under a width, and commuting with right shifts.
use native.Mathlib.Nat.{pow-succ', div-div-eq-div-mul}
use feline.Prelude.{ℕ, zero, suc, ◌/◌, ◌^◌, ◌≤◌, ◌<◌, ◌≡◌, ◌∙◌, ap, sym, arith, bit_xor}
use Prim.Native.Nat.{bit_xor-bitwise}
use feline.Word.Digits.{bit_xor_step}

pub zero-xor : (b : ℕ) → bit_xor 0 b ≡ b
zero-xor b = bit_xor-bitwise 0 b

-- Each law is proved for numbers below a fuel, which the halving of the operands uses up.
xor-zero_below : (n a : ℕ) → a ≤ n → bit_xor a 0 ≡ a
xor-zero_below n zero h = zero-xor 0
xor-zero_below zero (suc a) h = absurd (omega arith)
xor-zero_below (suc n) (suc a) h =
    omega (arith, bit_xor_step (suc a) 0, xor-zero_below n (suc a / 2) (omega arith))

pub xor-zero : (a : ℕ) → bit_xor a 0 ≡ a
xor-zero a = xor-zero_below a a (omega arith)

xor_comm_below : (n a b : ℕ) → a ≤ n → bit_xor a b ≡ bit_xor b a
xor_comm_below n zero b h = zero-xor b ∙ sym (xor-zero b)
xor_comm_below zero (suc a) b h = absurd (omega arith)
xor_comm_below (suc n) (suc a) b h = omega (
  arith,
  bit_xor_step (suc a) b,
  bit_xor_step b (suc a),
  xor_comm_below n (suc a / 2) (b / 2) (omega arith),
)

pub xor_comm : (a b : ℕ) → bit_xor a b ≡ bit_xor b a
xor_comm a b = xor_comm_below a a b (omega arith)

xor-half : (a b : ℕ) → bit_xor a b / 2 ≡ bit_xor (a / 2) (b / 2)
xor-half a b = omega (arith, bit_xor_step a b)

xor_assoc_below : (n a b c : ℕ) → a ≤ n → bit_xor (bit_xor a b) c ≡ bit_xor a (bit_xor b c)
xor_assoc_below n zero b c h = rw (zero-xor b, zero-xor (bit_xor b c))
xor_assoc_below zero (suc a) b c h = absurd (omega arith)
xor_assoc_below (suc n) (suc a) b c h = omega (
  arith,
  bit_xor_step (bit_xor (suc a) b) c,
  bit_xor_step (suc a) (bit_xor b c),
  bit_xor_step (suc a) b,
  bit_xor_step b c,
  ap (λ t. bit_xor t (c / 2)) (xor-half (suc a) b),
  ap (λ t. bit_xor (suc a / 2) t) (xor-half b c),
  xor_assoc_below n (suc a / 2) (b / 2) (c / 2) (omega arith),
)

pub xor_assoc : (a b c : ℕ) → bit_xor (bit_xor a b) c ≡ bit_xor a (bit_xor b c)
xor_assoc a b c = xor_assoc_below a a b c (omega arith)

xor_self_below : (n a : ℕ) → a ≤ n → bit_xor a a ≡ 0
xor_self_below n zero h = zero-xor 0
xor_self_below zero (suc a) h = absurd (omega arith)
xor_self_below (suc n) (suc a) h =
    omega (arith, bit_xor_step (suc a) (suc a), xor_self_below n (suc a / 2) (omega arith))

pub xor_self : (a : ℕ) → bit_xor a a ≡ 0
xor_self a = xor_self_below a a (omega arith)

-- x ^ y ^ y is x.
pub xor-xor_cancel : (a b : ℕ) → bit_xor (bit_xor a b) b ≡ a
xor-xor_cancel a b = rw (xor_assoc, xor_self, xor-zero)

pub xor-eq-zero : (a b : ℕ) → bit_xor a b ≡ 0 → a ≡ b
xor-eq-zero a b h = sym (xor-xor_cancel a b) ∙ ap (λ t. bit_xor t b) h ∙ zero-xor b

div-pow-suc : (a k : ℕ) → a / 2 ^ suc k ≡ a / 2 / 2 ^ k
div-pow-suc a k = ap (λ t. a / t) (pow-succ' 2 k) ∙ sym (div-div-eq-div-mul a 2 (2 ^ k))

-- (a ^ b) >> k
pub xor-shift_right : (k a b : ℕ) → bit_xor a b / 2 ^ k ≡ bit_xor (a / 2 ^ k) (b / 2 ^ k)
xor-shift_right zero a b =
    let one : (n : ℕ) → n / 1 ≡ n = λ n. omega arith in rw (one (bit_xor a b), one a, one b)
xor-shift_right (suc k) a b =
    rw (div-pow-suc (bit_xor a b) k, div-pow-suc a k, div-pow-suc b k, xor-half)
      (xor-shift_right k (a / 2) (b / 2))

pub xor-lt : (k a b : ℕ) → a < 2 ^ k → b < 2 ^ k → bit_xor a b < 2 ^ k
xor-lt zero zero b p q = omega (arith, zero-xor b)
xor-lt zero (suc a) b p q = absurd (omega arith)
xor-lt (suc k) a b p q = omega (
  arith,
  pow-succ' 2 k,
  bit_xor_step a b,
  xor-lt k (a / 2) (b / 2) (omega (arith, pow-succ' 2 k)) (omega (arith, pow-succ' 2 k)),
)

pub xor-left_cancel : (a b : ℕ) → bit_xor a (bit_xor a b) ≡ b
xor-left_cancel a b = sym (xor_assoc a a b) ∙ ap (λ t. bit_xor t b) (xor_self a) ∙ zero-xor b
