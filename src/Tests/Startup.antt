-- ===== src/Tests/Startup.antt =====
-- src/main.c and the data stack of src/os.c, over a system that is the list of its pages that are in use.
use feline.Prelude.{
  ℕ, ◌+◌, ◌^◌, ◌≤◌, ◌<◌, ◌≡◌, ◌≢◌, ◌⊎◌, inl, inr, refl, arith, Bool, true, false, ◌&&◌,
  if◌then◌else◌, ltb, leb, min, Bool-cases, ltb→lt, none, [], ◌∷◌, ℤ, pos,
}
use feline.Word.{u64}
use feline.Backtrace.{SavedBacktrace}
use feline.Backtrace.Laws.{IsBacktrace}
use feline.Os.Clock.{ClockTime}
use feline.Os.Memory.{Mapper, map_failed, datastack_size, os_thread_initialize_datastack}
use feline.Os.Memory.Guard.{MapLaws, os_thread_initialize_datastack_lem}
use feline.Terminal.{Termios, Tty, Terminal}
use feline.Startup.{
  Process, code_space_size, main, exited, going, sigsegv, sigabrt, sigfpe, sigtrap, Register, rip,
  rsp, rax, is_rip, SavedSignal, signal_handler,
}
use feline.Startup.Registers.{saved_register, signal_handler_lem}
use feline.Startup.Order.{main_lem}

-- The memory in use: all addresses from `low` up to `high`, of those below 2 ^ 46.
record Memory : Type 0 where
  low : ℕ
  high : ℕ

abbrev usable : ℕ → Memory → Bool
usable a s = leb s.low a && ltb a s.high

-- Blocks are mapped at 2 ^ 20, up to 2 ^ 40 bytes; larger ones fail.
abbrev reserve : ℕ → Memory → ℕ × Memory
reserve n s =
    if ltb n (2 ^ 40) then (2 ^ 20, record { low = 2 ^ 20; high = 2 ^ 20 + n }) else (map_failed, s)

abbrev mapper : Mapper Memory
mapper = record {
  pagesize = 4096;
  mmap = λ hint n protection s. reserve n s;
  mprotect_none = λ p n s. (pos 0, record s { high = min s.high p });
}

abbrev pipe : Tty
pipe = record {
  System = Memory;
  isatty = λ fd s. false;
  getenv_term = λ s. none;
  tcgetattr = λ fd s. record { c_iflag = 0; c_lflag = 0; rest = [] };
  tcsetattr_drain = λ fd tio s. s;
  tcsetattr_now = λ fd tio s. s;
  unbuffer_stdin = λ s. s;
  install_sig_winch = λ s. s;
  window_size = λ fd s. none;
  chars_avail = λ fd s. (pos 0, pos 0);
  fgetc = λ s. (pos 65, s);
  fgets = λ n s. (none, s);
}

abbrev fresh : Memory
fresh = record { low = 0; high = 0 }

reserve_small : (n : ℕ) (s : Memory) → (reserve n s).0 ≢ map_failed → ltb n (2 ^ 40) ≡ true
reserve_small n s good = elim (Bool-cases (ltb n (2 ^ 40))) [
  | inl small ↦ small
  | inr large ↦ absurd (good (rw large refl))
]

reserve_bounds : (n : ℕ) (s : Memory) → (reserve n s).0 ≢ map_failed → (reserve n s).0 + n < 2 ^ 47
reserve_bounds n s good =
    let small = ltb→lt n (2 ^ 40) (reserve_small n s good) in
    rw (reserve_small n s good) (omega arith)

usable-reserve :
    (n a : ℕ) (s : Memory)
    → (reserve n s).0 ≢ map_failed
    → (reserve n s).0 ≤ a
    → a < (reserve n s).0 + n
    → usable a (reserve n s).1 ≡ true
usable-reserve n a s good lo hi =
    let small = reserve_small n s good in
    let e : (reserve n s).0 ≡ 2 ^ 20 = rw small refl in
    let lo' : 2 ^ 20 ≤ a = omega (arith, e) in
    let hi' : a < 2 ^ 20 + n = omega (arith, e) in rw small (ground arith)

usable_above : (p a : ℕ) (s : Memory) → p ≤ a → usable a (record s { high = min s.high p }) ≡ false
usable_above p a s above = ground arith

usable_below :
    (p a : ℕ) (s : Memory) → a < p → usable a (record s { high = min s.high p }) ≡ usable a s
usable_below p a s below = ground arith

abbrev mapper_laws : MapLaws Memory mapper
mapper_laws = record {
  is_accessible = usable;
  mmap_bounds = reserve_bounds;
  mmap_maps = usable-reserve;
  mprotect_protects = λ p n a s done above inside. usable_above p a s above;
  mprotect_below = λ p n a s below. usable_below p a s below;
}

abbrev stack : Memory
stack = record { low = 2 ^ 20; high = 2 ^ 20 + 36864 }

abbrev guarded : Memory
guarded = record { low = 2 ^ 20; high = 2 ^ 20 + 32768 }

mapped_good : ◌≢◌ {A = ℕ} (2 ^ 20) map_failed
mapped_good e = omega arith

os_thread_initialize_datastack_lem_example :
    (os_thread_initialize_datastack Memory mapper [] fresh ≡ (2 ^ 20 + 32768, [], guarded))
    × ((32768 < datastack_size) × (usable (2 ^ 20 + 32768) guarded ≡ true)
        ⊎ (datastack_size ≤ 32768) × (usable (2 ^ 20 + 32768) guarded ≡ false))
os_thread_initialize_datastack_lem_example =
    os_thread_initialize_datastack_lem Memory mapper mapper_laws [] fresh stack guarded (2 ^ 20)
      32768 refl mapped_good refl (omega arith)

abbrev no_backtrace : SavedBacktrace
no_backtrace = record { array = []; size = 0 }

abbrev no_signal : SavedSignal
no_signal = record {
  saved_signal = 0;
  saved_signal_address = 0;
  registers = record {
    saved_rax = pos 0;
    saved_rbx = pos 0;
    saved_rcx = pos 0;
    saved_rdx = pos 0;
    saved_rsi = pos 0;
    saved_rdi = pos 0;
    saved_rbp = pos 0;
    saved_rsp = pos 0;
    saved_r8 = pos 0;
    saved_r9 = pos 0;
    saved_r10 = pos 0;
    saved_r11 = pos 0;
    saved_r12 = pos 0;
    saved_r13 = pos 0;
    saved_r14 = pos 0;
    saved_r15 = pos 0;
    saved_rip = pos 0;
    saved_efl = pos 0;
  };
  backtrace = no_backtrace;
}

-- A program that was interrupted at 400.
abbrev interrupted : Register → ℤ
interrupted rip = pos 400
interrupted rsp = pos 16
interrupted _ = pos 5

signal_handler_lem_example :
    let (saved, gregs') = signal_handler (pos 77) (λ p. pos p) 64 11 8 interrupted no_signal in
    (saved.saved_signal ≡ 11)
    × (saved.saved_signal_address ≡ 8)
    × (saved_register saved.registers rax ≡ pos 5)
    × IsBacktrace (λ p. pos p) (pos 400) 16 64 saved.backtrace
    × (gregs' rip ≡ pos 77)
    × ((is_rip rax ≡ true) ⊎ (gregs' rax ≡ pos 5))
signal_handler_lem_example =
    signal_handler_lem (pos 77) (λ p. pos p) 64 11 8 interrupted no_signal rax

abbrev plain : Termios
plain = record { c_iflag = 0; c_lflag = 0; rest = [] }

abbrev terminal : Terminal pipe
terminal = record {
  system = fresh;
  tty = pos 0;
  otio = plain;
  terminal_prepped = false;
  terminal_rows = 0;
  terminal_columns = 0;
  line_input_data = pos 0;
}

abbrev process : Process pipe mapper
process = record {
  terminal = terminal;
  start_time_raw_nano_count = pos 0;
  main_argc = 0;
  main_argv = 0;
  primordial_sp0 = 0;
  code_space = 0;
  code_space_free = 0;
  code_space_limit = 0;
  handle_space = 0;
  printed = [];
  handled = [];
}

abbrev noon : ClockTime
noon = record { sec = 43200; fraction = 0 }

main_lem_example :
    ((2 ^ 20 ≡ map_failed)
      × (main pipe mapper noon (pos 0) 2 4096 process ≡ exited 1 (reserve code_space_size fresh).1))
    ⊎ ((2 ^ 20 ≢ map_failed)
        × ((w' : Process pipe mapper) × (main pipe mapper noon (pos 0) 2 4096 process ≡ going w')
            × (w'.code_space ≡ 2 ^ 20)
            × (w'.code_space_free ≡ 2 ^ 20)
            × (w'.code_space_limit ≡ u64 (2 ^ 20 + code_space_size))
            × (w'.main_argc ≡ 2)
            × (w'.handled ≡ sigtrap ∷ sigfpe ∷ sigabrt ∷ sigsegv ∷ [])))
main_lem_example = main_lem pipe mapper noon (pos 0) 2 4096 process
