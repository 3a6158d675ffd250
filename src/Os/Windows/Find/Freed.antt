-- ===== src/Os/Windows/Find/Freed.antt =====
-- No block of a search is lost.
use feline.Prelude.{ℕ, ◌≡◌, ◌≢◌, some, List}
use feline.Os.Windows.Find.{Finder, Machine}

module _ (ff : Finder) where
  open ff use {fresh, malloc, find_first_file, find_next_file, find_close}

  -- While a search goes on, its block is there, with its handle, and the others are as they were.
  abbrev pub IsSearching : ℕ → ℕ → Machine ff → Machine ff → Type 0
  IsSearching p h m m' =
      ((name : List ℕ) × (m'.block p ≡ some (record { handle = h; filename = name })))
      × ((a : ℕ) → a ≢ p → m'.block a ≡ m.block a)
