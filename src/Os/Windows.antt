-- ===== src/Os/Windows.antt =====
-- The file operations of src/os.c on Windows, over the calls that they make. A handle is a cell.
pub mod DateTime
pub mod Paths
pub mod Exit
pub mod Pointer
pub mod Stream
pub mod Threads
pub mod Clock
pub mod Find
pub mod Executable
use feline.Prelude.{
  ℕ, ◌+◌, ◌*◌, ◌-◌, ◌%◌, ◌^◌, Bool, true, false, ◌&&◌, if◌then◌else◌, Option, none, some, List, [],
  ◌∷◌, ℤ, pos, negsuc, eqb_ℤ, bit_and, bit_or, ◌==◌, length,
}
use feline.Cell.{int32}
use feline.Os.Files.{minus_one, flag, first_byte}

-- INVALID_SET_FILE_POINTER, of 32 bits.
abbrev pub invalid_pointer : ℕ
invalid_pointer = 2 ^ 32 - 1

-- FILE_ATTRIBUTE_DIRECTORY
abbrev pub attribute_directory : ℕ
attribute_directory = 0x10

-- FILE_BEGIN, FILE_CURRENT and FILE_END.
pub data MoveMethod : Type 0 where
  file_begin file_current file_end : MoveMethod

pub data Access : Type 0 where
  generic_read generic_write : Access
  flags_access : ℤ → Access

-- FILE_SHARE_READ, FILE_SHARE_READ | FILE_SHARE_WRITE and FILE_SHARE_WRITE.
pub data Share : Type 0 where
  share_read share_both share_write : Share

pub data Disposition : Type 0 where
  open_existing open_always create_always : Disposition

-- The calls. INVALID_HANDLE_VALUE is the handle -1; `get_file_attributes` is `none` for
-- INVALID_FILE_ATTRIBUTES. The distance of `set_file_pointer` is a signed 32-bit number.
pub record Win32 : Type 1 where
  pub System : Type 0
  pub last_error : System → ℤ
  pub get_file_attributes : List ℕ → System → Option ℕ
  pub create_file : List ℕ → Access → Share → Disposition → System → ℤ × System
  pub read_file : ℤ → ℕ → System → Bool × List ℕ × System
  pub write_file : ℤ → List ℕ → System → Bool × ℕ × System
  pub close_handle : ℤ → System → ℤ × System
  pub set_file_pointer : ℤ → ℤ → MoveMethod → System → ℕ × System
  pub set_end_of_file : ℤ → System → Bool × System
  pub delete_file : List ℕ → System → Bool × System
  pub move_file_replacing : List ℕ → List ℕ → System → Bool × System
  pub flush_file_buffers : ℤ → System → Bool × System
  pub set_current_directory : List ℕ → System → ℤ × System

module _ (wn : Win32) where
  open wn use {
    System, last_error, get_file_attributes, create_file, read_file, write_file, close_handle,
    set_file_pointer, set_end_of_file, delete_file, move_file_replacing, flush_file_buffers,
    set_current_directory,
  }

  -- The system, and the variable in which the C code leaves the error for the Feline side.
  pub record Machine : Type 0 where
    pub system : System
    pub os_errno_data : ℤ

  unfoldable pub os_file_is_directory : List ℕ → Machine → ℤ
  os_file_is_directory path m = elim (get_file_attributes path m.system) [
    | none ↦ pos 0
    | some attributes ↦ if bit_and attributes attribute_directory == 0 then pos 0 else pos 1
  ]

  unfoldable pub os_file_is_regular_file : List ℕ → Machine → ℤ
  os_file_is_regular_file path m = elim (get_file_attributes path m.system) [
    | none ↦ pos 0
    | some attributes ↦ if bit_and attributes attribute_directory == 0 then pos 1 else pos 0
  ]

  unfoldable pub os_open_file : List ℕ → ℤ → Machine → ℤ × Machine
  os_open_file filename flags m =
      let (h, s) = create_file filename (flags_access flags) share_read open_existing m.system in
      if eqb_ℤ h minus_one
      then (h, record m { system = s; os_errno_data = last_error s })
      else (h, record m { system = s })

  unfoldable pub os_file_open_read : List ℕ → Machine → ℤ × Machine
  os_file_open_read filename m =
      let (h, s) = create_file filename generic_read share_both open_existing m.system in
      if eqb_ℤ h minus_one
      then (minus_one, record m { system = s; os_errno_data = last_error s })
      else (h, record m { system = s })

  unfoldable pub os_file_open_append : List ℕ → Machine → ℤ × Machine
  os_file_open_append filename m =
      let (h, s) = create_file filename generic_write share_write open_always m.system in
      if eqb_ℤ h minus_one
      then (minus_one, record m { system = s; os_errno_data = last_error s })
      else (h, record m { system = (set_file_pointer h (pos 0) file_end s).1 })

  unfoldable pub os_file_create_write : List ℕ → Machine → ℤ × Machine
  os_file_create_write filename m =
      let (h, s) = create_file filename generic_write share_read create_always m.system in
      (h, record m { system = s })

  -- The result, the bytes stored in the buffer, and the machine.
  unfoldable pub os_read_file : ℤ → ℕ → Machine → ℤ × List ℕ × Machine
  os_read_file fd count m =
      let (ok, bytes, s) = read_file fd count m.system in
      (if ok then pos (length bytes) else minus_one, bytes, record m { system = s })

  unfoldable pub os_read_char : ℤ → Machine → ℤ × Machine
  os_read_char fd m =
      let (ok, bytes, s) = read_file fd 1 m.system in
      (if ok && length bytes == 1 then first_byte bytes else minus_one, record m { system = s })

  unfoldable pub os_write_file : ℤ → List ℕ → Machine → ℤ × Machine
  os_write_file fd bytes m =
      let (ok, written, s) = write_file fd bytes m.system in
      (if ok then pos written else minus_one, record m { system = s })

  unfoldable pub os_close_file : ℤ → Machine → ℤ × Machine
  os_close_file fd m =
      let (ret, s) = close_handle fd m.system in
      (if eqb_ℤ ret (pos 0) then minus_one else pos 0, record m { system = s })

  unfoldable pub os_file_size : ℤ → Machine → ℤ × Machine
  os_file_size fd m =
      let (current, s1) = set_file_pointer fd (pos 0) file_current m.system in
      let (end, s2) = set_file_pointer fd (pos 0) file_end s1 in
      let (ignored, s3) = set_file_pointer fd (int32 (pos current)) file_begin s2 in
      if current == invalid_pointer
      then (minus_one, record m { system = s1 })
      else if end == invalid_pointer
      then (minus_one, record m { system = s2 })
      else (pos end, record m { system = s3 })

  -- A position, or the failure to find it.
  abbrev position_or_error : ℕ → ℤ
  position_or_error p = if p == invalid_pointer then minus_one else pos p

  unfoldable pub os_file_position : ℤ → Machine → ℤ × Machine
  os_file_position fd m =
      let (p, s) = set_file_pointer fd (pos 0) file_current m.system in
      (position_or_error p, record m { system = s })

  unfoldable pub os_reposition_file : ℤ → ℤ → Machine → ℤ × Machine
  os_reposition_file fd offset m =
      let (p, s) = set_file_pointer fd (int32 offset) file_begin m.system in
      (position_or_error p, record m { system = s })

  unfoldable pub os_resize_file : ℤ → ℤ → Machine → ℤ × Machine
  os_resize_file fd offset m =
      let (p, s1) = set_file_pointer fd (int32 offset) file_begin m.system in
      let (ok, s2) = set_end_of_file fd s1 in
      if p == invalid_pointer
      then (minus_one, record m { system = s1 })
      else (if ok then pos 0 else minus_one, record m { system = s2 })

  unfoldable pub os_delete_file : List ℕ → Machine → ℤ × Machine
  os_delete_file filename m =
      let (ok, s) = delete_file filename m.system in
      (if ok then pos 0 else minus_one, record m { system = s })

  unfoldable pub os_rename_file : List ℕ → List ℕ → Machine → ℤ × Machine
  os_rename_file oldpath newpath m =
      let (ok, s) = move_file_replacing oldpath newpath m.system in
      (if ok then pos 0 else minus_one, record m { system = s })

  unfoldable pub os_flush_file : ℤ → Machine → ℤ × Machine
  os_flush_file fd m =
      let (ok, s) = flush_file_buffers fd m.system in
      (if ok then pos 0 else minus_one, record m { system = s })

  unfoldable pub os_emit_file : ℕ → ℤ → Machine → ℤ × Machine
  unfolding os_write_file
  os_emit_file c fd m = os_write_file fd ((c % 256) ∷ []) m

  unfoldable pub os_chdir : List ℕ → Machine → ℤ × Machine
  os_chdir path m =
      let (ret, s) = set_current_directory path m.system in (ret, record m { system = s })
