-- ===== src/Random/Rotate.antt =====
-- `rotl` of src/random.c is a rotation of 64 bits: it stays in the width and is undone by the
-- rotation by the complementary amount. Each lemma is at the amounts that the generator uses (55 and
-- 36) or at their complements.
use feline.Prelude.{ℕ, ◌+◌, ◌*◌, ◌/◌, ◌%◌, ◌^◌, ◌≡◌, ◌∙◌, ap, arith, bit_or}
use feline.Word.{u64, IsU64}
use feline.Word.Or.{or-disjoint}
use feline.Random.{rotl}

rotl_55 : (s : ℕ) → IsU64 s → rotl s 55 ≡ s % 2 ^ 9 * 2 ^ 55 + s / 2 ^ 9
unfolding rotl
rotl_55 s h =
    let high : u64 (s * 2 ^ 55) ≡ s % 2 ^ 9 * 2 ^ 55 = omega arith in
    ap (λ t. bit_or t (s / 2 ^ 9)) high ∙ or-disjoint 55 (s % 2 ^ 9) (s / 2 ^ 9) (omega arith)

rotl_36 : (s : ℕ) → IsU64 s → rotl s 36 ≡ s % 2 ^ 28 * 2 ^ 36 + s / 2 ^ 28
unfolding rotl
rotl_36 s h =
    let high : u64 (s * 2 ^ 36) ≡ s % 2 ^ 28 * 2 ^ 36 = omega arith in
    ap (λ t. bit_or t (s / 2 ^ 28)) high ∙ or-disjoint 36 (s % 2 ^ 28) (s / 2 ^ 28) (omega arith)

rotl_9 : (s : ℕ) → IsU64 s → rotl s 9 ≡ s % 2 ^ 55 * 2 ^ 9 + s / 2 ^ 55
unfolding rotl
rotl_9 s h =
    let high : u64 (s * 2 ^ 9) ≡ s % 2 ^ 55 * 2 ^ 9 = omega arith in
    ap (λ t. bit_or t (s / 2 ^ 55)) high ∙ or-disjoint 9 (s % 2 ^ 55) (s / 2 ^ 55) (omega arith)

rotl_28 : (s : ℕ) → IsU64 s → rotl s 28 ≡ s % 2 ^ 36 * 2 ^ 28 + s / 2 ^ 36
unfolding rotl
rotl_28 s h =
    let high : u64 (s * 2 ^ 28) ≡ s % 2 ^ 36 * 2 ^ 28 = omega arith in
    ap (λ t. bit_or t (s / 2 ^ 36)) high ∙ or-disjoint 28 (s % 2 ^ 36) (s / 2 ^ 36) (omega arith)

pub rotl_55-IsU64 : (s : ℕ) → IsU64 s → IsU64 (rotl s 55)
rotl_55-IsU64 s h = omega (arith, rotl_55 s h)

pub rotl_9-rotl_55 : (s : ℕ) → IsU64 s → rotl (rotl s 55) 9 ≡ s
rotl_9-rotl_55 s h = omega (arith, rotl_55 s h, rotl_9 (rotl s 55) (rotl_55-IsU64 s h))

pub rotl_36-IsU64 : (s : ℕ) → IsU64 s → IsU64 (rotl s 36)
rotl_36-IsU64 s h = omega (arith, rotl_36 s h)

pub rotl_28-rotl_36 : (s : ℕ) → IsU64 s → rotl (rotl s 36) 28 ≡ s
rotl_28-rotl_36 s h = omega (arith, rotl_36 s h, rotl_28 (rotl s 36) (rotl_36-IsU64 s h))
