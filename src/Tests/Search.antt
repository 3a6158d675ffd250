-- ===== src/Tests/Search.antt =====
-- The listing of a directory and the clock of Windows in src/os.c.
use feline.Prelude.{
  ℕ, ◌*◌, ◌/◌, ◌^◌, ◌<◌, ◌≤◌, ◌≡◌, ◌⊎◌, arith, Option, none, some, List, [], ◌∷◌, pos, ◌≤ℤ◌,
}
use feline.Os.Windows.Clock.{Clock, os_nano_count}
use feline.Os.Windows.Clock.Wraps.{os_nano_count_lem}
use feline.Os.Windows.Find.{Finder, Machine}

abbrev clock : Clock
clock = record { frequency = 10000000 }

-- A counter of 10 MHz after a quarter of an hour and two minutes.
os_nano_count_lem_example :
    let ret = (os_nano_count 10000000 10200000000 clock).0 in
    ((10200000000 * 1000000000 < 2 ^ 63) × (ret ≡ pos (10200000000 * 1000000000 / clock.frequency)))
    ⊎ ((2 ^ 63 ≤ 10200000000 * 1000000000) × (ret ≤ℤ pos 0))
os_nano_count_lem_example = os_nano_count_lem 10000000 10200000000 clock (omega arith) (omega arith)

-- The names that are still to come.
abbrev next : List (List ℕ) → Option (List ℕ) × List (List ℕ)
next [] = (none, [])
next (name ∷ names) = (some name, names)

abbrev first : List (List ℕ) → Option (ℕ × List ℕ) × List (List ℕ)
first [] = (none, [])
first (name ∷ names) = (some (5, name), names)

abbrev directory : Finder
directory = record {
  System = List (List ℕ);
  fresh = record { handle = 0; filename = [] };
  malloc = λ s. (64, s);
  find_first_file = λ path s. first s;
  find_next_file = λ h s. next s;
  find_close = λ h s. (pos 1, s);
}

abbrev machine : Machine directory
machine = record { system = (97 ∷ []) ∷ (98 ∷ []) ∷ []; block = λ a. none }
