-- ===== src/Word.antt =====
-- 64-bit unsigned words (`uint64_t`): a number below 2 ^ 64, every result cut to that width.
mod Digits
pub mod Xor
pub mod Or
pub mod Flags
use feline.Prelude.{ℕ, ◌+◌, ◌*◌, ◌/◌, ◌%◌, ◌^◌, ◌<◌, arith}

abbrev pub u64 : ℕ → ℕ
u64 n = n % 2 ^ 64

abbrev pub IsU64 : ℕ → Type 0
IsU64 n = n < 2 ^ 64

infixl 75 ◌<<◌ ◌>>◌
abbrev pub ◌<<◌ : ℕ → ℕ → ℕ
s << k = u64 (s * 2 ^ k)

abbrev pub ◌>>◌ : ℕ → ℕ → ℕ
s >> k = s / 2 ^ k
