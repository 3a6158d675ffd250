-- ===== src/Os/Calls.antt =====
-- The functions of src/os.c that hand on a call of the C library, with what they make of its arguments and its result:
-- memory, directories on Linux, and the environment.
use feline.Prelude.{ℕ, Option, List, ℤ}
use feline.Cell.{int32}

-- The calls: each takes the state of the system. A pointer is its address, 0 where it is null; a pointer to a text is the
-- text, `none` where it is null.
pub record Library : Type 1 where
  pub System : Type 0
  pub malloc : ℕ → System → ℕ × System
  pub free : ℕ → System → System
  pub realloc : ℕ → ℕ → System → ℕ × System
  pub opendir : List ℕ → System → ℕ × System
  pub readdir : ℕ → System → Option (List ℕ) × System
  pub closedir : ℕ → System → ℤ × System
  pub getenv : List ℕ → System → Option (List ℕ)
  pub getcwd : ℕ → System → Option (List ℕ)
  pub strerror : ℤ → List ℕ

module _ (lib : Library) where
  open lib use {System, malloc, free, realloc, opendir, readdir, closedir, getenv, getcwd, strerror}

  unfoldable pub os_malloc : ℕ → System → ℕ × System
  os_malloc size s = malloc size s

  unfoldable pub os_free : ℕ → System → System
  os_free ptr s = free ptr s

  unfoldable pub os_realloc : ℕ → ℕ → System → ℕ × System
  os_realloc ptr size s = realloc ptr size s

  unfoldable pub os_opendir : List ℕ → System → ℕ × System
  os_opendir name s = opendir name s

  -- The name in the entry, if there is one.
  unfoldable pub os_readdir : ℕ → System → Option (List ℕ) × System
  os_readdir p s = readdir p s

  unfoldable pub os_closedir : ℕ → System → ℤ × System
  os_closedir p s = closedir p s

  unfoldable pub os_getenv : List ℕ → System → Option (List ℕ)
  os_getenv name s = getenv name s

  unfoldable pub os_getcwd : ℕ → System → Option (List ℕ)
  os_getcwd size s = getcwd size s

  unfoldable pub os_strerror : ℤ → List ℕ
  os_strerror errnum = strerror (int32 errnum)
