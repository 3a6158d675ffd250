-- ===== src/Os/Files.antt =====
-- The file operations of src/os.c on Linux, over the system calls that they make.
pub mod Stream
pub mod Errors
pub mod Position
use feline.Prelude.{
  ℕ, ◌+◌, ◌*◌, ◌%◌, Bool, true, false, ◌&&◌, if◌then◌else◌, Option, none, some, List, [], ◌∷◌, ℤ,
  pos, negsuc, ltb_ℤ, leb_ℤ, eqb_ℤ, bit_or, bit_and, ◌==◌,
}
use feline.Cell.{int32, int64}

abbrev pub minus_one : ℤ
minus_one = negsuc 0

-- <fcntl.h> and <unistd.h> of Linux on x86-64.
abbrev pub o_rdonly : ℕ
o_rdonly = 0

abbrev pub o_wronly : ℕ
o_wronly = 1

abbrev pub o_creat : ℕ
o_creat = 0o100

abbrev pub o_trunc : ℕ
o_trunc = 0o1000

abbrev pub o_append : ℕ
o_append = 0o2000

pub data Whence : Type 0 where
  seek_set seek_cur seek_end : Whence

pub data FileKind : Type 0 where
  directory regular other : FileKind

-- What the code reads of a `struct stat`.
pub record Stat : Type 0 where
  pub kind : FileKind
  pub mtime : ℤ

-- The system calls: each takes the state of the system and returns its result and the state after it. `read`
-- also returns the bytes that it stored. `errno` is that of the last call that failed.
pub record Posix : Type 1 where
  pub System : Type 0
  pub errno : System → ℤ
  pub stat : List ℕ → System → Option Stat
  pub open_file : List ℕ → ℕ → ℕ → System → ℤ × System
  pub read : ℤ → ℕ → System → ℤ × List ℕ × System
  pub write : ℤ → List ℕ → System → ℤ × System
  pub close : ℤ → System → ℤ × System
  pub lseek : ℤ → ℤ → Whence → System → ℤ × System
  pub ftruncate : ℤ → ℤ → System → ℤ × System
  pub unlink : List ℕ → System → ℤ × System
  pub rename : List ℕ → List ℕ → System → ℤ × System
  pub fsync : ℤ → System → ℤ × System
  pub chdir : List ℕ → System → ℤ × System

abbrev pub is_directory : FileKind → Bool
is_directory directory = true
is_directory _ = false

abbrev pub is_regular : FileKind → Bool
is_regular regular = true
is_regular _ = false

abbrev pub flag : Bool → ℤ
flag b = if b then pos 1 else pos 0

-- An `unsigned char`.
abbrev pub first_byte : List ℕ → ℤ
first_byte [] = pos 0
first_byte (c ∷ s) = pos (c % 256)

module _ (px : Posix) where
  open px use {
    System, errno, stat, open_file, read, write, close, lseek, ftruncate, unlink, rename, fsync,
    chdir,
  }

  -- The system, and the variable in which the C code leaves the error for the Feline side.
  pub record Machine : Type 0 where
    pub system : System
    pub os_errno_data : ℤ

  unfoldable pub os_file_status : List ℕ → Machine → ℤ
  os_file_status path m = elim (stat path m.system) [ none ↦ minus_one | some _ ↦ pos 0 ]

  unfoldable pub os_file_is_directory : List ℕ → Machine → ℤ
  os_file_is_directory path m = elim (stat path m.system) [
    | none ↦ pos 0
    | some st ↦ flag (is_directory st.kind)
  ]

  unfoldable pub os_file_is_regular_file : List ℕ → Machine → ℤ
  os_file_is_regular_file path m = elim (stat path m.system) [
    | none ↦ pos 0
    | some st ↦ flag (is_regular st.kind)
  ]

  unfoldable pub os_open_file : List ℕ → ℕ → Machine → ℤ × Machine
  os_open_file filename flags m =
      let (ret, system) = open_file filename flags 0 m.system in
      if ltb_ℤ ret (pos 0)
      then (minus_one, record m { system = system; os_errno_data = errno system })
      else (ret, record m { system = system })

  unfoldable pub os_file_open_read : List ℕ → Machine → ℤ × Machine
  os_file_open_read filename m =
      let (ret, system) = open_file filename o_rdonly 0 m.system in
      if ltb_ℤ ret (pos 0)
      then (minus_one, record m { system = system; os_errno_data = errno system })
      else (ret, record m { system = system })

  unfoldable pub os_file_open_append : List ℕ → Machine → ℤ × Machine
  os_file_open_append filename m =
      let flags : ℕ = bit_or o_wronly o_append in
      let (ret, system) = open_file filename flags 0 m.system in
      if leb_ℤ (pos 0) ret
      then (ret, record m { system = system })
      else let (ret', system') = open_file filename (bit_or flags o_creat) 0o644 system in
        if ltb_ℤ ret' (pos 0)
        then (minus_one, record m { system = system'; os_errno_data = errno system' })
        else (ret', record m { system = system' })

  unfoldable pub os_file_create_write : List ℕ → Machine → ℤ × Machine
  os_file_create_write filename m =
      let (ret, system) =
        open_file filename (bit_or (bit_or o_wronly o_creat) o_trunc) 0o644 m.system in
      if ltb_ℤ ret (pos 0)
      then (minus_one, record m { system = system })
      else (ret, record m { system = system })

  -- The result, the bytes stored in the buffer, and the machine.
  unfoldable pub os_read_file : ℤ → ℕ → Machine → ℤ × List ℕ × Machine
  os_read_file fd count m =
      let (n, bytes, system) = read (int32 fd) count m.system in
      let ret = int32 n in
      if ltb_ℤ ret (pos 0)
      then (minus_one, bytes, record m { system = system; os_errno_data = errno system })
      else (ret, bytes, record m { system = system })

  unfoldable pub os_read_char : ℤ → Machine → ℤ × Machine
  os_read_char fd m =
      let (n, bytes, system) = read (int32 fd) 1 m.system in
      if leb_ℤ (int32 n) (pos 0)
      then (minus_one, record m { system = system })
      else (first_byte bytes, record m { system = system })

  unfoldable pub os_write_file : ℤ → List ℕ → Machine → ℤ × Machine
  os_write_file fd bytes m =
      let (n, system) = write (int32 fd) bytes m.system in (n, record m { system = system })

  unfoldable pub os_close_file : ℤ → Machine → ℤ × Machine
  os_close_file fd m =
      let (ret, system) = close (int32 fd) m.system in
      if ltb_ℤ ret (pos 0)
      then (minus_one, record m { system = system })
      else (ret, record m { system = system })

  unfoldable pub os_file_size : ℤ → Machine → ℤ × Machine
  os_file_size fd m =
      let (current, s1) = lseek (int32 fd) (pos 0) seek_cur m.system in
      let (end, s2) = lseek (int32 fd) (pos 0) seek_end s1 in
      let (ignored, s3) = lseek (int32 fd) current seek_set s2 in
      (if eqb_ℤ end minus_one then minus_one else end, record m { system = s3 })

  unfoldable pub os_file_write_time : List ℕ → Machine → ℤ
  os_file_write_time path m = elim (stat path m.system) [ none ↦ pos 0 | some st ↦ st.mtime ]

  unfoldable pub os_file_position : ℤ → Machine → ℤ × Machine
  os_file_position fd m =
      let (p, system) = lseek (int32 fd) (pos 0) seek_cur m.system in
      (p, record m { system = system })

  -- The offset is an `off_t`, here and below.
  unfoldable pub os_reposition_file : ℤ → ℤ → Machine → ℤ × Machine
  os_reposition_file fd offset m =
      let (p, system) = lseek (int32 fd) (int64 offset) seek_set m.system in
      (p, record m { system = system })

  unfoldable pub os_resize_file : ℤ → ℤ → Machine → ℤ × Machine
  os_resize_file fd offset m =
      let (ret, system) = ftruncate (int32 fd) (int64 offset) m.system in
      (ret, record m { system = system })

  unfoldable pub os_delete_file : List ℕ → Machine → ℤ × Machine
  os_delete_file filename m =
      let (ret, system) = unlink filename m.system in (ret, record m { system = system })

  unfoldable pub os_rename_file : List ℕ → List ℕ → Machine → ℤ × Machine
  os_rename_file oldpath newpath m =
      let (ret, system) = rename oldpath newpath m.system in (ret, record m { system = system })

  unfoldable pub os_flush_file : ℤ → Machine → ℤ × Machine
  os_flush_file fd m =
      let (ret, system) = fsync (int32 fd) m.system in (ret, record m { system = system })

  -- The byte at the address of the `int`, which is its lowest.
  unfoldable pub os_emit_file : ℕ → ℤ → Machine → ℤ × Machine
  os_emit_file c fd m =
      let (n, system) = write fd ((c % 256) ∷ []) m.system in (n, record m { system = system })

  -- 1 if successful, otherwise 0.
  unfoldable pub os_chdir : List ℕ → Machine → ℤ × Machine
  os_chdir path m =
      let (ret, system) = chdir path m.system in
      (flag (eqb_ℤ ret (pos 0)), record m { system = system })
