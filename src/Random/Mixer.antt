-- ===== src/Random/Mixer.antt =====
-- The scrambling function of splitmix64 loses nothing: it has an inverse on 64-bit words, so
-- different states give different outputs.
use feline.Prelude.{ℕ, ◌*◌, ◌≡◌, ◌∙◌, sym, ap, arith, bit_xor}
use feline.Word.{u64, IsU64, ◌>>◌}
use feline.Word.Xor.{xor-zero, xor_assoc, xor-xor_cancel, xor-left_cancel, xor-shift_right, xor-lt}
use feline.Random.{scramble}

-- The inverse of `z ^ (z >> k)` where three shifts by `k` pass the width.
unshift : ℕ → ℕ → ℕ
unshift k y = bit_xor (bit_xor y (y >> k)) (y >> k >> k)

module _ (k z : ℕ) (gone : z >> k >> k >> k ≡ 0) where
  unshift_lem : unshift k (bit_xor z (z >> k)) ≡ z
  unfolding unshift
  unshift_lem =
      rw
        (
          xor-shift_right k z (z >> k),
          xor-shift_right k (z >> k) (z >> k >> k),
          gone,
          xor-zero,
          xor_assoc z (z >> k) (bit_xor (z >> k) (z >> k >> k)),
        )
        (rw (xor-left_cancel (z >> k) (z >> k >> k)) (xor-xor_cancel z (z >> k >> k)))

abbrev odd1 : ℕ → ℕ
odd1 z = u64 (z * 0xBF58476D1CE4E5B9)

abbrev odd2 : ℕ → ℕ
odd2 z = u64 (z * 0x94D049BB133111EB)

undo1 : (z : ℕ) → IsU64 z → u64 (odd1 z * 10871156337175269513) ≡ z
undo1 z h = omega arith

undo2 : (z : ℕ) → IsU64 z → u64 (odd2 z * 3573116690164977347) ≡ z
undo2 z h = omega arith

xorshift-IsU64 : (k z : ℕ) → IsU64 z → IsU64 (z >> k) → IsU64 (bit_xor z (z >> k))
xorshift-IsU64 k z h h' = xor-lt 64 z (z >> k) h h'

-- The inverse of `scramble`.
pub unscramble : ℕ → ℕ
unscramble r =
    let z2 = unshift 31 r in
    let z1 = unshift 27 (u64 (z2 * 3573116690164977347)) in
    unshift 30 (u64 (z1 * 10871156337175269513))

pub unscramble-scramble : (z : ℕ) → IsU64 z → unscramble (scramble z) ≡ z
unfolding scramble unscramble
unscramble-scramble z h =
    let y1 = bit_xor z (z >> 30) in
    let z1 = u64 (y1 * 0xBF58476D1CE4E5B9) in
    let y2 = bit_xor z1 (z1 >> 27) in
    let z2 = u64 (y2 * 0x94D049BB133111EB) in
    rw (
      unshift_lem 31 z2 (omega arith),
      undo2 y2 (xorshift-IsU64 27 z1 (omega arith) (omega arith)),
      unshift_lem 27 z1 (omega arith),
      undo1 y1 (xorshift-IsU64 30 z h (omega arith)),
      unshift_lem 30 z (omega arith),
    )

pub scramble-injective : (z w : ℕ) → IsU64 z → IsU64 w → scramble z ≡ scramble w → z ≡ w
scramble-injective z w hz hw e =
    sym (unscramble-scramble z hz) ∙ ap unscramble e ∙ unscramble-scramble w hw

pub scramble-IsU64 : (z : ℕ) → IsU64 (scramble z)
unfolding scramble
scramble-IsU64 z = xorshift-IsU64 31 _ (omega arith) (omega arith)
