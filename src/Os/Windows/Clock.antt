-- ===== src/Os/Windows/Clock.antt =====
-- The Windows bodies of the clocks of src/os.c.
pub mod Wraps
use feline.Prelude.{ℕ, suc, ◌*◌, ◌/◌, ◌%◌, ◌^◌, ◌==◌, if◌then◌else◌, ℤ, pos, negsuc, neg_ℕ}
use feline.Cell.{of_word}

-- The argument is what GetTickCount64 returned, an unsigned number of 64 bits.
unfoldable pub os_ticks : ℕ → ℤ
os_ticks count = of_word (count % 2 ^ 64)

-- The static variable `frequency`, which is 0 before the first call.
pub record Clock : Type 0 where
  pub frequency : ℕ

-- A division of `int64_t`, which rounds towards zero.
abbrev pub divide : ℤ → ℕ → ℤ
divide (pos n) f = pos (n / f)
divide (negsuc n) f = neg_ℕ (suc n / f)

-- `freq` and `count` are what QueryPerformanceFrequency and QueryPerformanceCounter store. The product is one of
-- `int64_t`, which wraps around.
unfoldable pub os_nano_count : ℕ → ℕ → Clock → ℤ × Clock
os_nano_count freq count c =
    let frequency = if c.frequency == 0 then freq else c.frequency in
    (divide (of_word (count * 1000000000 % 2 ^ 64)) frequency, record { frequency = frequency })
