-- ===== src/Startup/Windows/Exception.antt =====
-- What the two systems keep of an interrupted program.
use feline.Prelude.{ℕ, ◌≡◌, refl, ℤ}
use feline.Cell.{to_word}
use feline.Backtrace.Laws.{IsBacktrace, c_save_backtrace-IsBacktrace}
use feline.Startup.{Register, rip, rsp, SavedSignal, signal_handler}
use feline.Startup.Registers.{saved_register}
use feline.Startup.Windows.{SavedException, windows_exception_handler}

-- For a program interrupted at the same place, the Windows handler saves the registers that the Linux one saves and,
-- where the saved backtraces were equal before, the same backtrace, which is that of the interrupted program.
pub windows_exception_handler-signal_handler :
    (handle_signal : ℤ) (memory : ℕ → ℤ) (rp0 code sig address : ℕ) (context : Register → ℤ)
    (old : SavedException) (old_signal : SavedSignal)
    → old.backtrace ≡ old_signal.backtrace
    → let saved = windows_exception_handler memory rp0 code address context old in
      let linux = (signal_handler handle_signal memory rp0 sig address context old_signal).0 in
      (saved.saved_exception_code ≡ code)
      × (saved.saved_exception_address ≡ linux.saved_signal_address)
      × ((r : Register) → saved_register saved.registers r ≡ saved_register linux.registers r)
      × (saved.backtrace ≡ linux.backtrace)
      × IsBacktrace memory (context rip) (to_word (context rsp)) rp0 saved.backtrace
unfolding windows_exception_handler signal_handler
windows_exception_handler-signal_handler handle_signal memory rp0 code sig address context old
      old_signal e =
    (refl, refl, λ r. refl, rw e refl, c_save_backtrace-IsBacktrace memory _ _ rp0 _)
