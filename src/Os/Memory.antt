-- ===== src/Os/Memory.antt =====
-- The data stack of a thread, as src/os.c maps it on Linux. Addresses and cells are 64-bit words.
pub mod Guard
use feline.Prelude.{
  ℕ, ◌+◌, ◌-◌, ◌*◌, ◌^◌, ◌<◌, Bool, true, false, if◌then◌else◌, Option, none, some, List, ◌∷◌, ℤ,
  pos, eqb_ℤ,
}
use feline.Word.{u64}

pub data Protection : Type 0 where
  read_write read_write_exec : Protection

-- `mmap` at the address proposed, if any, and `mprotect` with PROT_NONE.
pub record Mapper (System : Type 0) : Type 0 where
  pub pagesize : ℕ
  pub mmap : Option ℕ → ℕ → Protection → System → ℕ × System
  pub mprotect_none : ℕ → ℕ → System → ℤ × System

-- MAP_FAILED, which is -1.
abbrev pub map_failed : ℕ
map_failed = 2 ^ 64 - 1

pub data Complaint : Type 0 where
  mprotect_error pthread_key_create_failed : Complaint

-- DATASTACK_SIZE
abbrev pub datastack_size : ℕ
datastack_size = 4096 * 8

module _ (System : Type 0) (mp : Mapper System) where
  open mp use {pagesize, mmap, mprotect_none}

  -- The address of the end of the stack, what is printed, and the system.
  unfoldable pub os_thread_initialize_datastack :
      List Complaint → System → ℕ × List Complaint × System
  os_thread_initialize_datastack printed s =
      let (datastack_base, s1) = mmap none (datastack_size + pagesize) read_write s in
      let top = u64 (datastack_base + datastack_size) in
      let (ret, s2) = mprotect_none top pagesize s1 in
      (top, (if eqb_ℤ ret (pos 0) then printed else mprotect_error ∷ printed), s2)
