-- ===== src/Tests/Backtrace.antt =====
-- src/backtrace.c on a stack of six cells.
use feline.Prelude.{◌≡◌, refl, [], pos}
use feline.Backtrace.{SavedBacktrace, c_save_backtrace, save_loop}
use feline.Backtrace.Laws.{IsBacktrace, c_save_backtrace-IsBacktrace}

abbrev empty : SavedBacktrace
empty = record { array = []; size = 0 }

size_run : (c_save_backtrace (λ p. pos p) (pos 1) 16 64 empty).size ≡ 7
unfolding c_save_backtrace save_loop
size_run = refl

c_save_backtrace-IsBacktrace_example :
    IsBacktrace (λ p. pos p) (pos 1) 16 64 (c_save_backtrace (λ p. pos p) (pos 1) 16 64 empty)
c_save_backtrace-IsBacktrace_example = c_save_backtrace-IsBacktrace (λ p. pos p) (pos 1) 16 64 empty
