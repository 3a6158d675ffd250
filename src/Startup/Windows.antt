-- ===== src/Startup/Windows.antt =====
-- The Windows bodies of src/main.c, and of the data stack of src/os.c, which the start calls. Addresses and cells are
-- 64-bit words.
pub mod Space
pub mod Exception
use feline.Prelude.{
  ℕ, zero, suc, ◌+◌, ◌*◌, ◌==◌, Bool, true, false, if◌then◌else◌, Option, none, some, List, [], ◌∷◌,
  ℤ, pos, eqb_ℤ,
}
use feline.Cell.{to_word}
use feline.Word.{u64}
use feline.Backtrace.{SavedBacktrace, c_save_backtrace}
use feline.Os.Memory.{Protection, read_write, read_write_exec, datastack_size}
use feline.Startup.{
  Register, SavedRegisters, rax, rbx, rcx, rdx, rsi, rdi, rbp, rsp, r8, r9, r10, r11, r12, r13, r14,
  r15, rip, efl, code_space_size, handle_space_size,
}
use feline.Terminal.Windows.{Console, Terminal, prep_terminal}

pub data Complaint : Type 0 where
  virtual_protect_error tls_alloc_failed : Complaint

-- The calls: VirtualAlloc at the address proposed, if any, which returns NULL where it fails; VirtualProtect with
-- PAGE_NOACCESS; TlsAlloc, which may have no index left. `set_handler` is AddVectoredExceptionHandler.
pub record Allocator (System : Type 0) : Type 0 where
  pub page_size : ℕ
  pub virtual_alloc : Option ℕ → ℕ → Protection → System → ℕ × System
  pub virtual_protect_none : ℕ → ℕ → System → ℤ × System
  pub tls_alloc : System → Option ℕ × System
  pub set_handler : System → System

module _ (t : Console) (al : Allocator t.System) where
  open al use {page_size, virtual_alloc, virtual_protect_none, tls_alloc, set_handler}

  -- The variables that the start sets.
  pub record Process : Type 0 where
    pub terminal : Terminal t
    pub start_time_raw_nano_count : ℤ
    pub main_argc : ℕ
    pub main_argv : ℕ
    pub primordial_sp0 : ℕ
    pub code_space : ℕ
    pub code_space_free : ℕ
    pub code_space_limit : ℕ
    pub handle_space : ℕ
    pub tls_index : Option ℕ
    pub printed : List Complaint

  -- The `for` loop, with the rounds that are left. The result is 0 where every round has failed.
  unfoldable pub try_addresses : ℕ → ℕ → t.System → ℕ × t.System
  try_addresses zero address s = (0, s)
  try_addresses (suc left) address s =
      let (p, s1) = virtual_alloc (some address) code_space_size read_write_exec s in
      let later = try_addresses left (address + 0x100000) s1 in if p == 0 then later else (p, s1)

  -- `none`: the program has exited with EXIT_FAILURE.
  unfoldable pub initialize_dynamic_code_space : Process → Option Process
  initialize_dynamic_code_space w =
      let (p, s1) = try_addresses 3 0x80000000 w.terminal.system in
      let (q, s2) =
        if p == 0 then virtual_alloc none code_space_size read_write_exec s1 else (p, s1) in
      if q == 0
      then none
      else some (record w {
        terminal = record w.terminal { system = s2 };
        code_space = q;
        code_space_free = q;
        code_space_limit = u64 (q + code_space_size);
      })

  unfoldable pub reserve_handle_space : Process → Process
  reserve_handle_space w =
      let (p, system) = virtual_alloc none handle_space_size read_write w.terminal.system in
      record w { terminal = record w.terminal { system = system }; handle_space = p }

  -- The address of the end of the stack, what is printed, and the system.
  unfoldable pub os_thread_initialize_datastack :
      List Complaint → t.System → ℕ × List Complaint × t.System
  os_thread_initialize_datastack printed s =
      let (datastack_base, s1) = virtual_alloc none (datastack_size + page_size) read_write s in
      let top = u64 (datastack_base + datastack_size) in
      let (ret, s2) = virtual_protect_none top page_size s1 in
      (top, (if eqb_ℤ ret (pos 0) then virtual_protect_error ∷ printed else printed), s2)

  unfoldable pub initialize_threads : Process → Process
  initialize_threads w =
      let (index, system) = tls_alloc w.terminal.system in
      let w1 = record w { terminal = record w.terminal { system = system }; tls_index = index } in
      elim index [ none ↦ record w1 { printed = tls_alloc_failed ∷ w1.printed } | some i ↦ w1 ]

  unfoldable pub initialize_datastack : Process → Process
  initialize_datastack w =
      let (sp0, printed, system) = os_thread_initialize_datastack w.printed w.terminal.system in
      record w {
        primordial_sp0 = sp0;
        printed = printed;
        terminal = record w.terminal { system = system };
      }

  -- The process as `cold` finds it, or `none` where it has exited before. `now` is the result of `os_nano_count`.
  unfoldable pub main : ℤ → ℕ → ℕ → Process → Option Process
  main now argc argv w =
      let w1 = record w { start_time_raw_nano_count = now; main_argc = argc; main_argv = argv } in
      let w2 = record w1 { terminal = prep_terminal t w1.terminal } in
      elim (initialize_dynamic_code_space w2) [
        | none ↦ none
        | some w3 ↦
            let w4 = initialize_threads (initialize_datastack (reserve_handle_space w3)) in
            some (record w4 {
              terminal = record w4.terminal { system = set_handler w4.terminal.system };
            })
      ]

-- The variables `saved_..._data` that an exception sets.
pub record SavedException : Type 0 where
  pub saved_exception_code : ℕ
  pub saved_exception_address : ℕ
  pub registers : SavedRegisters
  pub backtrace : SavedBacktrace

-- What is saved before `handle_signal` of the Feline side, which does not return. `context` is the registers of the
-- exception's context.
unfoldable pub windows_exception_handler :
    (ℕ → ℤ) → ℕ → ℕ → ℕ → (Register → ℤ) → SavedException → SavedException
windows_exception_handler memory rp0 code address context old = record {
  saved_exception_code = code;
  saved_exception_address = address;
  registers = record {
    saved_rax = context rax;
    saved_rbx = context rbx;
    saved_rcx = context rcx;
    saved_rdx = context rdx;
    saved_rsi = context rsi;
    saved_rdi = context rdi;
    saved_rbp = context rbp;
    saved_rsp = context rsp;
    saved_r8 = context r8;
    saved_r9 = context r9;
    saved_r10 = context r10;
    saved_r11 = context r11;
    saved_r12 = context r12;
    saved_r13 = context r13;
    saved_r14 = context r14;
    saved_r15 = context r15;
    saved_rip = context rip;
    saved_efl = context efl;
  };
  backtrace = c_save_backtrace memory (context rip) (to_word (context rsp)) rp0 old.backtrace;
}
