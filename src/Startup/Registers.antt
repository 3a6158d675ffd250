-- ===== src/Startup/Registers.antt =====
-- What the signal handler of src/main.c keeps of the interrupted program.
use feline.Prelude.{ℕ, ◌≡◌, ◌⊎◌, inl, inr, refl, true, Bool-cases, ℤ}
use feline.Cell.{to_word}
use feline.Backtrace.Laws.{IsBacktrace, c_save_backtrace-IsBacktrace}
use feline.Startup.{
  Register, SavedRegisters, rax, rbx, rcx, rdx, rsi, rdi, rbp, rsp, r8, r9, r10, r11, r12, r13, r14,
  r15, rip, efl, is_rip, SavedSignal, resume_at, signal_handler,
}

-- The variable that is named after a register.
unfoldable pub saved_register : SavedRegisters → Register → ℤ
saved_register saved rax = saved.saved_rax
saved_register saved rbx = saved.saved_rbx
saved_register saved rcx = saved.saved_rcx
saved_register saved rdx = saved.saved_rdx
saved_register saved rsi = saved.saved_rsi
saved_register saved rdi = saved.saved_rdi
saved_register saved rbp = saved.saved_rbp
saved_register saved rsp = saved.saved_rsp
saved_register saved r8 = saved.saved_r8
saved_register saved r9 = saved.saved_r9
saved_register saved r10 = saved.saved_r10
saved_register saved r11 = saved.saved_r11
saved_register saved r12 = saved.saved_r12
saved_register saved r13 = saved.saved_r13
saved_register saved r14 = saved.saved_r14
saved_register saved r15 = saved.saved_r15
saved_register saved rip = saved.saved_rip
saved_register saved efl = saved.saved_efl

signal_handler-saved_register :
    (handle_signal : ℤ) (memory : ℕ → ℤ) (rp0 sig address : ℕ) (gregs : Register → ℤ)
    (old : SavedSignal) (r : Register)
    → saved_register (signal_handler handle_signal memory rp0 sig address gregs old).0.registers r
      ≡ gregs r
unfolding signal_handler saved_register
signal_handler-saved_register handle_signal memory rp0 sig address gregs old rax = refl
signal_handler-saved_register handle_signal memory rp0 sig address gregs old rbx = refl
signal_handler-saved_register handle_signal memory rp0 sig address gregs old rcx = refl
signal_handler-saved_register handle_signal memory rp0 sig address gregs old rdx = refl
signal_handler-saved_register handle_signal memory rp0 sig address gregs old rsi = refl
signal_handler-saved_register handle_signal memory rp0 sig address gregs old rdi = refl
signal_handler-saved_register handle_signal memory rp0 sig address gregs old rbp = refl
signal_handler-saved_register handle_signal memory rp0 sig address gregs old rsp = refl
signal_handler-saved_register handle_signal memory rp0 sig address gregs old r8 = refl
signal_handler-saved_register handle_signal memory rp0 sig address gregs old r9 = refl
signal_handler-saved_register handle_signal memory rp0 sig address gregs old r10 = refl
signal_handler-saved_register handle_signal memory rp0 sig address gregs old r11 = refl
signal_handler-saved_register handle_signal memory rp0 sig address gregs old r12 = refl
signal_handler-saved_register handle_signal memory rp0 sig address gregs old r13 = refl
signal_handler-saved_register handle_signal memory rp0 sig address gregs old r14 = refl
signal_handler-saved_register handle_signal memory rp0 sig address gregs old r15 = refl
signal_handler-saved_register handle_signal memory rp0 sig address gregs old rip = refl
signal_handler-saved_register handle_signal memory rp0 sig address gregs old efl = refl

-- After a signal: the number, the address and every register are saved, each register in the variable
-- that is named after it, with the backtrace of the interrupted program; it goes on at `handle_signal` with every other register as it was.
pub signal_handler_lem :
    (handle_signal : ℤ) (memory : ℕ → ℤ) (rp0 sig address : ℕ) (gregs : Register → ℤ)
    (old : SavedSignal) (r : Register)
    → let (saved, gregs') = signal_handler handle_signal memory rp0 sig address gregs old in
      (saved.saved_signal ≡ sig)
      × (saved.saved_signal_address ≡ address)
      × (saved_register saved.registers r ≡ gregs r)
      × IsBacktrace memory (gregs rip) (to_word (gregs rsp)) rp0 saved.backtrace
      × (gregs' rip ≡ handle_signal)
      × ((is_rip r ≡ true) ⊎ (gregs' r ≡ gregs r))
unfolding signal_handler resume_at
signal_handler_lem handle_signal memory rp0 sig address gregs old r = (
  refl,
  refl,
  signal_handler-saved_register handle_signal memory rp0 sig address gregs old r,
  c_save_backtrace-IsBacktrace memory _ _ rp0 _,
  refl,
  elim (Bool-cases (is_rip r)) [ inl at ↦ inl at | inr other ↦ inr (rw other refl) ],
)
