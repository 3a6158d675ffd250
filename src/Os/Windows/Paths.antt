-- ===== src/Os/Windows/Paths.antt =====
-- Directories and the console on Windows in src/os.c: `os_getcwd`, `os_get_full_path_name`, the cursor and the
-- attributes of the console.
use feline.Prelude.{
  ℕ, ◌==◌, ◌≡◌, ◌⊎◌, inl, inr, refl, ◌∙◌, arith, Bool-cases, ◌≢◌, not, ◌&&◌, leb, if◌then◌else◌,
  Option, none, some, List, [], ℤ,
}
use feline.Terminal.Windows.{StdHandle, std_output_handle}

abbrev pub max_path : ℕ
max_path = 260

-- The calls. GetCurrentDirectory and GetFullPathName return a length and the text that they store, and
-- GetConsoleScreenBufferInfo the attributes, if it succeeds.
pub record Calls : Type 1 where
  pub System : Type 0
  pub malloc : ℕ → System → ℕ × System
  pub free : ℕ → System → System
  pub get_current_directory : ℕ → System → ℕ × List ℕ
  pub get_full_path_name : List ℕ → ℕ → ℕ → System → ℕ × List ℕ
  pub get_std_handle : StdHandle → System → ℕ
  pub set_console_cursor_position : ℕ → ℤ → ℤ → System → System
  pub console_attributes : ℕ → System → Option ℕ

module _ (calls : Calls) where
  open calls use {
    System, malloc, free, get_current_directory, get_full_path_name, get_std_handle,
    set_console_cursor_position, console_attributes,
  }

  -- The text in the buffer, or NULL.
  unfoldable pub os_getcwd : ℕ → System → Option (List ℕ)
  os_getcwd size s =
      let (ret, text) = get_current_directory size s in if not (ret == 0) then some text else none

  -- The system, and the texts in the blocks that are allocated.
  pub record Machine : Type 0 where
    pub system : System
    pub block : ℕ → Option (List ℕ)

  abbrev pub write : ℕ → Option (List ℕ) → (ℕ → Option (List ℕ)) → ℕ → Option (List ℕ)
  write p text block a = if a == p then text else block a

  -- The block with the path, or 0. The block that `malloc` returns holds no text yet.
  unfoldable pub os_get_full_path_name : List ℕ → Machine → ℕ × Machine
  os_get_full_path_name path m =
      let (buf, s) = malloc max_path m.system in
      let allocated = write buf (some []) m.block in
      let (ret, text) = get_full_path_name path max_path buf s in
      if not (ret == 0) && leb ret max_path
      then (buf, record { system = s; block = write buf (some text) allocated })
      else (0, record { system = free buf s; block = write buf none allocated })

  unfoldable pub os_set_console_cursor_position : ℤ → ℤ → System → System
  os_set_console_cursor_position x y s =
      set_console_cursor_position (get_std_handle std_output_handle s) x y s

  -- `garbage` is what the variable `info` holds where the call fails.
  unfoldable pub os_get_console_character_attributes : ℕ → System → ℕ
  os_get_console_character_attributes garbage s =
      elim (console_attributes (get_std_handle std_output_handle s) s) [
        | none ↦ garbage
        | some attributes ↦ attributes
      ]

  write_same :
      (p : ℕ) (text : Option (List ℕ)) (block : ℕ → Option (List ℕ)) → write p text block p ≡ text
  write_same p text block = ground arith

  write_other :
      (p a : ℕ) (text : Option (List ℕ)) (block : ℕ → Option (List ℕ))
      → a ≢ p
      → write p text block a ≡ block a
  write_other p a text block differ = ground arith

  -- Either the caller gets the block of `malloc` with the path that Windows has stored, or it gets 0 and that block is
  -- free again. The other blocks are as they were.
  pub os_get_full_path_name_lem :
      (path : List ℕ) (m : Machine)
      → let (buf, s) = malloc max_path m.system in
        let text = (get_full_path_name path max_path buf s).1 in
        let (ret, m') = os_get_full_path_name path m in
        (((ret ≡ buf) × (m'.block buf ≡ some text)) ⊎ ((ret ≡ 0) × (m'.block buf ≡ none)))
        × ((a : ℕ) → a ≢ buf → m'.block a ≡ m.block a)
  unfolding os_get_full_path_name
  os_get_full_path_name_lem path m =
      let (buf, s) = malloc max_path m.system in
      let (ret, text) = get_full_path_name path max_path buf s in
      let allocated = write buf (some []) m.block in
      let kept : (a : ℕ) → a ≢ buf → allocated a ≡ m.block a =
        λ a differ. write_other buf a (some []) m.block differ in
      elim (Bool-cases (not (ret == 0) && leb ret max_path)) [
        | inl found ↦
            rw (os_get_full_path_name, found)
              (
                inl (refl, write_same buf (some text) allocated),
                λ a differ. write_other buf a (some text) allocated differ ∙ kept a differ,
              )
        | inr missing ↦
            rw (os_get_full_path_name, missing)
              (
                inr (refl, write_same buf none allocated),
                λ a differ. write_other buf a none allocated differ ∙ kept a differ,
              )
      ]
