-- ===== src/Startup/Failed.antt =====
-- What src/main.c leaves behind where it exits before the Feline code runs.
use feline.Prelude.{ℕ, ◌≡◌, Option, ℤ}
use feline.Os.Memory.{Mapper, Protection}
use feline.Terminal.{Tty}

-- Mapping memory does not change the modes of a terminal.
pub record MapKeeps (t : Tty) (mp : Mapper t.System) : Type 0 where
  pub mmap_keeps :
      (fd : ℤ) (hint : Option ℕ) (n : ℕ) (protection : Protection) (s : t.System)
      → t.tcgetattr fd (mp.mmap hint n protection s).1 ≡ t.tcgetattr fd s
