-- ===== src/Os/Windows/Find.antt =====
-- The listing of a directory on Windows in src/os.c, and the blocks of memory that it keeps.
pub mod Freed
use feline.Prelude.{
  ℕ, zero, suc, ◌==◌, Bool, true, false, if◌then◌else◌, Option, none, some, List, ℤ,
}

-- The block that a pointer stands for: the search handle, and the name in `ffd`, which `filename` points to. `fresh`
-- is what a new block holds.
pub record FindFileData : Type 0 where
  pub handle : ℕ
  pub filename : List ℕ

-- The calls: `malloc` returns 0 where there is no memory; FindFirstFile and FindNextFile return the name of the file
-- that they find.
pub record Finder : Type 1 where
  pub System : Type 0
  pub fresh : FindFileData
  pub malloc : System → ℕ × System
  pub find_first_file : List ℕ → System → Option (ℕ × List ℕ) × System
  pub find_next_file : ℕ → System → Option (List ℕ) × System
  pub find_close : ℕ → System → ℤ × System

module _ (ff : Finder) where
  open ff use {System, fresh, malloc, find_first_file, find_next_file, find_close}

  -- The system, and the blocks that are allocated.
  pub record Machine : Type 0 where
    pub system : System
    pub block : ℕ → Option FindFileData

  abbrev pub write : ℕ → Option FindFileData → (ℕ → Option FindFileData) → ℕ → Option FindFileData
  write p d block a = if a == p then d else block a

  -- The pointer that `malloc` returns, to a new block or NULL.
  unfoldable pub malloc_block : Machine → ℕ × Machine
  malloc_block m =
      let (p, s) = malloc m.system in
      (p, record { system = s; block = if p == 0 then m.block else write p (some fresh) m.block })

  -- `free`, which does nothing at NULL.
  unfoldable pub free_block : ℕ → Machine → Machine
  free_block p m = record m { block = if p == 0 then m.block else write p none m.block }

  -- `none`: the block is written where `malloc` found no memory. 0 where no file is found.
  unfoldable pub os_find_first_file : List ℕ → Machine → Option (ℕ × Machine)
  os_find_first_file filename m =
      let (p, m1) = malloc_block m in
      let (found, s2) = find_first_file filename m1.system in
      let m2 : Machine = record m1 { system = s2 } in
      elim found [
        | none ↦ some (0, free_block p m2)
        | some (h, name) ↦
            if p == 0
            then none
            else some (
              p,
              record m2 {
                block = write p (some (record { handle = h; filename = name })) m2.block;
              },
            )
      ]

  -- Whether there was a next file; `none`: the pointer is to no block.
  unfoldable pub os_find_next_file : ℕ → Machine → Option (Bool × Machine)
  os_find_next_file p m = elim (m.block p) [
    | none ↦ none
    | some d ↦
        let (found, s) = find_next_file d.handle m.system in
        elim found [
          | none ↦ some (false, record m { system = s })
          | some name ↦ some (
            true,
            record { system = s; block = write p (some (record d { filename = name })) m.block },
          )
        ]
  ]

  unfoldable pub os_find_close : ℕ → Machine → Option (ℤ × Machine)
  os_find_close p m = elim (m.block p) [
    | none ↦ none
    | some d ↦
        let (b, s) = find_close d.handle m.system in
        some (b, free_block p (record m { system = s }))
  ]

  -- The name at a pointer, and NULL at NULL; the outer `none`: the pointer is to no block.
  unfoldable pub os_find_file_filename : ℕ → Machine → Option (Option (List ℕ))
  os_find_file_filename p m =
      let name : Option (Option (List ℕ)) = elim (m.block p) [
        | none ↦ none
        | some d ↦ some (some d.filename)
      ] in
      if p == 0 then some none else name

  -- A search from beginning to end: the first file, `n` more, and the close.
  unfoldable pub next_files : ℕ → ℕ → Machine → Option Machine
  next_files zero p m = some m
  next_files (suc n) p m = elim (os_find_next_file p m) [
    | none ↦ none
    | some (found, m1) ↦ next_files n p m1
  ]
