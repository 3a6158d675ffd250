-- ===== src/Backtrace.antt =====
-- src/backtrace.c: the copy of the return stack that is taken when a signal arrives. The memory that the
-- stack lies in is a parameter, the cell at each address.
pub mod Laws
use feline.Prelude.{ℕ, zero, suc, ◌+◌, leb, ltb, if◌then◌else◌, List, set, replicate, ℤ, pos}

-- The file's static variables.
pub record SavedBacktrace : Type 0 where
  pub array : List ℤ
  pub size : ℕ

unfoldable pub c_get_saved_backtrace_array : SavedBacktrace → List ℤ
c_get_saved_backtrace_array b = b.array

unfoldable pub c_get_saved_backtrace_size : SavedBacktrace → ℕ
c_get_saved_backtrace_size b = b.size

-- `sizeof (saved_backtrace_array) / sizeof (cell)`
abbrev pub capacity : ℕ
capacity = 32

-- The loop at the address `p`, with `i` cells stored. The test of `i` leaves it no more rounds than there
-- are free cells, which serve as fuel.
unfoldable pub save_loop : (ℕ → ℤ) → ℕ → ℕ → ℕ → ℕ → List ℤ → SavedBacktrace
save_loop memory zero rp0 p i array = record { array = array; size = i }
save_loop memory (suc rounds) rp0 p i array =
    let array' = set array i (memory p) in
    let rest = save_loop memory rounds rp0 (p + 8) (i + 1) array' in
    if ltb p rp0
    then if leb capacity (i + 1) then record { array = array'; size = i + 1 } else rest
    else record { array = array; size = i }

-- `rp0` is what `current_thread_raw_rp0_rax` returns.
unfoldable pub c_save_backtrace : (ℕ → ℤ) → ℤ → ℕ → ℕ → SavedBacktrace → SavedBacktrace
c_save_backtrace memory rip rsp rp0 old =
    save_loop memory 31 rp0 rsp 1 (set (replicate capacity (pos 0)) 0 rip)
