-- ===== src/Os/Windows/Clock/Wraps.antt =====
-- How far the nanoseconds of Windows count.
use feline.Prelude.{
  ℕ, ◌*◌, ◌/◌, ◌^◌, ◌<◌, ◌≤◌, ◌≡◌, ◌⊎◌, inl, inr, arith, pos, negsuc, ◌≤ℤ◌, ◌%◌, ltb, Bool-cases,
  ltb→lt, ap, ◌∙◌, sym, subst, neg_ℕ, ◌-◌, ◌==◌, if◌then◌else◌,
}
use feline.Cell.{of_word}
use feline.Os.Windows.Clock.{Clock, divide, os_nano_count}

neg_ℕ_nonpos : (n : ℕ) → neg_ℕ n ≤ℤ pos 0
neg_ℕ_nonpos n = ground arith

of_word_small : (w : ℕ) → w < 2 ^ 63 → of_word (w % 2 ^ 64) ≡ pos w
of_word_small w small = ground arith

of_word_large : (w : ℕ) → 2 ^ 63 ≤ w → w < 2 ^ 64 → of_word (w % 2 ^ 64) ≡ negsuc (2 ^ 64 - 1 - w)
of_word_large w large fits = ground arith

chosen : (freq f : ℕ) → 0 < f → (if f == 0 then freq else f) ≡ f
chosen freq f known = ground arith

-- Where the frequency is known: up to the count at which a thousand million times it reaches 2^63, the result is the
-- nanoseconds, rounded down; from there until it reaches 2^64, the result is not positive, although the clock has
-- gone on.
pub os_nano_count_lem :
    (freq count : ℕ) (c : Clock)
    → 0 < c.frequency
    → count * 1000000000 < 2 ^ 64
    → let ret = (os_nano_count freq count c).0 in
      ((count * 1000000000 < 2 ^ 63) × (ret ≡ pos (count * 1000000000 / c.frequency)))
      ⊎ ((2 ^ 63 ≤ count * 1000000000) × (ret ≤ℤ pos 0))
unfolding os_nano_count
os_nano_count_lem freq count c known fits =
    let w = count * 1000000000 in
    let f = c.frequency in
    elim (Bool-cases (ltb w (2 ^ 63))) [
      | inl early ↦
          let small : w < 2 ^ 63 = ltb→lt w (2 ^ 63) early in
          inl (
            small,
            ap (λ k. divide (of_word (w % 2 ^ 64)) k) (chosen freq f known)
                ∙ ap (λ v. divide v f) (of_word_small w small),
          )
      | inr late ↦
          let large : 2 ^ 63 ≤ w = ground arith in
          let value =
            ap (λ k. divide (of_word (w % 2 ^ 64)) k) (chosen freq f known)
            ∙ ap (λ v. divide v f) (of_word_large w large fits) in
          inr (large, subst (λ v. v ≤ℤ pos 0) (sym value) (neg_ℕ_nonpos _))
    ]
