-- ===== src/Os/Exit.antt =====
-- The end of the program on Linux: `os_bye` of src/os.c.
pub mod Restored
use feline.Prelude.{ℤ, pos}
use feline.Terminal.{Tty, Terminal, deprep_terminal}

-- The exit status, and the system that the program leaves.
unfoldable pub os_bye : (t : Tty) → Terminal t → ℤ × t.System
os_bye t w = (pos 0, (deprep_terminal t w).system)
