-- ===== src/Startup.antt =====
-- src/main.c as it is built for Linux: the order in which the program starts, and what a signal saves.
pub mod Order
pub mod Failed
pub mod Registers
pub mod Windows
use feline.Prelude.{
  ℕ, ◌+◌, ◌*◌, ◌==◌, Bool, true, false, if◌then◌else◌, Option, none, some, List, [], ◌∷◌, ℤ, pos,
  eqb_ℤ,
}
use feline.Cell.{to_word}
use feline.Word.{u64}
use feline.Backtrace.{SavedBacktrace, c_save_backtrace}
use feline.Os.Clock.{ClockTime, os_nano_count}
use feline.Os.Memory.{
  Mapper, map_failed, Complaint, pthread_key_create_failed, read_write, read_write_exec,
  os_thread_initialize_datastack,
}
use feline.Terminal.{Tty, Terminal, prep_terminal}

pub data Signal : Type 0 where
  sigsegv sigabrt sigfpe sigtrap : Signal

-- DYNAMIC_CODE_SPACE_RESERVED_SIZE and HANDLE_SPACE_RESERVED_SIZE
abbrev pub code_space_size : ℕ
code_space_size = 1024 * 1024 * 8

abbrev pub handle_space_size : ℕ
handle_space_size = 1024 * 1024 * 100

module _ (t : Tty) (mp : Mapper t.System) where
  -- The variables that the start sets, cells as 64-bit words.
  pub record Process : Type 0 where
    pub terminal : Terminal t
    pub start_time_raw_nano_count : ℤ
    pub main_argc : ℕ
    pub main_argv : ℕ
    pub primordial_sp0 : ℕ
    pub code_space : ℕ
    pub code_space_free : ℕ
    pub code_space_limit : ℕ
    pub handle_space : ℕ
    pub printed : List Complaint
    pub handled : List Signal

  unfoldable pub args : ℕ → ℕ → Process → Process
  args argc argv w = record w { main_argc = argc; main_argv = argv }

  unfoldable pub initialize_datastack : Process → Process
  initialize_datastack w =
      let (sp0, printed, system) =
        os_thread_initialize_datastack t.System mp w.printed w.terminal.system in
      record w {
        primordial_sp0 = sp0;
        printed = printed;
        terminal = record w.terminal { system = system };
      }

  -- What comes of a start: the program has exited with a status and left a system, or it goes on.
  pub data Start : Type 0 where
    exited : ℕ → t.System → Start
    going : Process → Start

  -- EXIT_FAILURE is 1.
  unfoldable pub initialize_dynamic_code_space : Process → Start
  initialize_dynamic_code_space w =
      let (p, system) = mp.mmap none code_space_size read_write_exec w.terminal.system in
      if p == map_failed
      then exited 1 system
      else going (record w {
        terminal = record w.terminal { system = system };
        code_space = p;
        code_space_free = p;
        code_space_limit = u64 (p + code_space_size);
      })

  unfoldable pub reserve_handle_space : Process → Process
  reserve_handle_space w =
      let (p, system) = mp.mmap (some 0x2000000) handle_space_size read_write w.terminal.system in
      record w { terminal = record w.terminal { system = system }; handle_space = p }

  -- `status` is what `pthread_key_create` returned.
  unfoldable pub initialize_threads : ℤ → Process → Process
  initialize_threads status w =
      if eqb_ℤ status (pos 0)
      then w
      else record w { printed = pthread_key_create_failed ∷ w.printed }

  -- The process as `cold` finds it, where the program has not exited before. The signals handled are listed the last one
  -- first.
  unfoldable pub main : ClockTime → ℤ → ℕ → ℕ → Process → Start
  main now status argc argv w =
      let w1 = args argc argv (record w { start_time_raw_nano_count = os_nano_count now }) in
      let w2 = record w1 { terminal = prep_terminal t w1.terminal } in
      elim (initialize_dynamic_code_space w2) [
        | exited code system ↦ exited code system
        | going w3 ↦
            let w4 = initialize_threads status (initialize_datastack (reserve_handle_space w3)) in
            going (record w4 { handled = sigtrap ∷ sigfpe ∷ sigabrt ∷ sigsegv ∷ w4.handled })
      ]

-- The general registers of an `mcontext_t`.
pub data Register : Type 0 where
  rax rbx rcx rdx rsi rdi rbp rsp r8 r9 r10 r11 r12 r13 r14 r15 rip efl : Register

-- The variables `saved_rax_data` to `saved_efl_data`.
pub record SavedRegisters : Type 0 where
  pub saved_rax : ℤ
  pub saved_rbx : ℤ
  pub saved_rcx : ℤ
  pub saved_rdx : ℤ
  pub saved_rsi : ℤ
  pub saved_rdi : ℤ
  pub saved_rbp : ℤ
  pub saved_rsp : ℤ
  pub saved_r8 : ℤ
  pub saved_r9 : ℤ
  pub saved_r10 : ℤ
  pub saved_r11 : ℤ
  pub saved_r12 : ℤ
  pub saved_r13 : ℤ
  pub saved_r14 : ℤ
  pub saved_r15 : ℤ
  pub saved_rip : ℤ
  pub saved_efl : ℤ

-- The variables `saved_..._data` that a signal sets.
pub record SavedSignal : Type 0 where
  pub saved_signal : ℕ
  pub saved_signal_address : ℕ
  pub registers : SavedRegisters
  pub backtrace : SavedBacktrace

abbrev pub is_rip : Register → Bool
is_rip rip = true
is_rip _ = false

-- `gregs` with the address of `handle_signal` at REG_RIP.
unfoldable pub resume_at : ℤ → (Register → ℤ) → Register → ℤ
resume_at handle_signal gregs r = if is_rip r then handle_signal else gregs r

-- The result is what is saved, and the registers to return to.
unfoldable pub signal_handler :
    ℤ → (ℕ → ℤ) → ℕ → ℕ → ℕ → (Register → ℤ) → SavedSignal → SavedSignal × (Register → ℤ)
signal_handler handle_signal memory rp0 sig address gregs old =
    let registers : SavedRegisters = record {
      saved_rax = gregs rax;
      saved_rbx = gregs rbx;
      saved_rcx = gregs rcx;
      saved_rdx = gregs rdx;
      saved_rsi = gregs rsi;
      saved_rdi = gregs rdi;
      saved_rbp = gregs rbp;
      saved_rsp = gregs rsp;
      saved_r8 = gregs r8;
      saved_r9 = gregs r9;
      saved_r10 = gregs r10;
      saved_r11 = gregs r11;
      saved_r12 = gregs r12;
      saved_r13 = gregs r13;
      saved_r14 = gregs r14;
      saved_r15 = gregs r15;
      saved_rip = gregs rip;
      saved_efl = gregs efl;
    } in
    (
      record {
        saved_signal = sig;
        saved_signal_address = address;
        registers = registers;
        backtrace =
            c_save_backtrace memory registers.saved_rip (to_word registers.saved_rsp) rp0
              old.backtrace;
      },
      resume_at handle_signal gregs,
    )
