-- ===== src/Backtrace/Laws.antt =====
-- What `c_save_backtrace` leaves in the array, cell by cell.
use feline.Prelude.{
  ℕ, zero, suc, ◌+◌, ◌-◌, ◌*◌, ◌/◌, ◌≤◌, ◌<◌, min, ◌≡◌, ◌⊎◌, inl, inr, refl, ◌∙◌, arith, Bool-cases,
  ltb, List, length, get_or, set, replicate, length-set, get_or-set_self, get_or-set_ne,
  get_or-replicate, ℤ, pos,
}
use feline.Backtrace.{
  SavedBacktrace, capacity, save_loop, c_save_backtrace, c_get_saved_backtrace_array,
  c_get_saved_backtrace_size,
}

-- The cells at `p`, `p + 8`, … below `rp0`: how many they are.
abbrev pub cells_between : ℕ → ℕ → ℕ
cells_between p rp0 = (rp0 - p + 7) / 8

-- `b` is `array` with the cells from `p` on stored from index `i` on, as far as there is room.
record IsFilled (memory : ℕ → ℤ) (rp0 p i : ℕ) (array : List ℤ) (b : SavedBacktrace) : Type 0 where
  same_length : length b.array ≡ length array
  size_exact : b.size ≡ min capacity (i + cells_between p rp0)
  before : (j : ℕ) → j < i → get_or b.array j (pos 0) ≡ get_or array j (pos 0)
  stored : (k : ℕ) → i + k < b.size → get_or b.array (i + k) (pos 0) ≡ memory (p + 8 * k)
  after : (j : ℕ) → b.size ≤ j → get_or b.array j (pos 0) ≡ get_or array j (pos 0)

IsFilled-stop :
    (memory : ℕ → ℤ) (rp0 p i : ℕ) (array : List ℤ)
    → i ≤ capacity
    → (rp0 ≤ p) ⊎ (i ≡ capacity)
    → IsFilled memory rp0 p i array (record { array = array; size = i })
IsFilled-stop memory rp0 p i array room stop = record {
  same_length = refl;
  size_exact = omega arith;
  before = λ j lt. refl;
  stored = λ k lt. absurd (omega arith);
  after = λ j le. refl;
}

module _ (memory : ℕ → ℤ) (rp0 p i : ℕ) (array : List ℤ) (b : SavedBacktrace) (below : p < rp0)
    (room : i < capacity) (full : length array ≡ capacity)
    (rest : IsFilled memory rp0 (p + 8) (i + 1) (set array i (memory p)) b) where
  next_stored : (k : ℕ) → i + k < b.size → get_or b.array (i + k) (pos 0) ≡ memory (p + 8 * k)
  next_stored zero lt =
      let here : i + 0 ≡ i = omega arith in
      let there : p + 8 * 0 ≡ p = omega arith in
      rw (here, there)
        (rest.before i (omega arith) ∙ get_or-set_self array i (memory p) (pos 0) (omega arith))
  next_stored (suc k) lt =
      let here : i + suc k ≡ i + 1 + k = omega arith in
      let there : p + 8 * suc k ≡ p + 8 + 8 * k = omega arith in
      rw (here, there) (rest.stored k (omega arith))

  IsFilled-next : IsFilled memory rp0 p i array b
  IsFilled-next = record {
    same_length = rest.same_length ∙ length-set array i (memory p);
    size_exact = omega (arith, rest.size_exact);
    before = λ j lt.
        rest.before j (omega arith) ∙ get_or-set_ne array i j (memory p) (pos 0) (omega arith);
    stored = next_stored;
    after = λ j le.
        rest.after j le
        ∙ get_or-set_ne array i j (memory p) (pos 0) (omega (arith, rest.size_exact));
  }

save_loop-next :
    (memory : ℕ → ℤ) (rounds rp0 p i : ℕ) (array : List ℤ)
    → i + suc rounds ≡ capacity
    → p < rp0
    → save_loop memory (suc rounds) rp0 p i array
      ≡ save_loop memory rounds rp0 (p + 8) (i + 1) (set array i (memory p))
unfolding save_loop
save_loop-next memory zero rp0 p i array e below = ground arith
save_loop-next memory (suc rounds) rp0 p i array e below = ground arith

save_loop-end :
    (memory : ℕ → ℤ) (rounds rp0 p i : ℕ) (array : List ℤ)
    → rp0 ≤ p
    → save_loop memory rounds rp0 p i array ≡ record { array = array; size = i }
unfolding save_loop
save_loop-end memory zero rp0 p i array end = refl
save_loop-end memory (suc rounds) rp0 p i array end = ground arith

save_loop-IsFilled :
    (memory : ℕ → ℤ) (rounds rp0 p i : ℕ) (array : List ℤ)
    → i + rounds ≡ capacity
    → length array ≡ capacity
    → IsFilled memory rp0 p i array (save_loop memory rounds rp0 p i array)
save_loop-IsFilled memory zero rp0 p i array e full =
    unfold save_loop in IsFilled-stop memory rp0 p i array (omega arith) (inr (omega arith))
save_loop-IsFilled memory (suc rounds) rp0 p i array e full = elim (Bool-cases (ltb p rp0)) [
  | inl below ↦
      let p<rp0 : p < rp0 = ground arith in
      rw (save_loop-next memory rounds rp0 p i array e p<rp0) (
        IsFilled-next memory rp0 p i array
          (save_loop memory rounds rp0 (p + 8) (i + 1) (set array i (memory p))) p<rp0 (omega arith)
          full
          (save_loop-IsFilled memory rounds rp0 (p + 8) (i + 1) (set array i (memory p))
            (omega arith) (length-set array i (memory p) ∙ full)))
  | inr end ↦
      let rp0≤p : rp0 ≤ p = ground arith in
      rw (save_loop-end memory (suc rounds) rp0 p i array rp0≤p)
        (IsFilled-stop memory rp0 p i array (omega arith) (inl rp0≤p))
]

-- After a save: the array still has 32 cells, and of them are used as many as there are cells from
-- `rsp` up to `rp0` and one more, or all 32; the first is `rip`, the others used are the cells of the
-- stack in order, and the rest are 0. Nothing of an earlier backtrace is left.
pub record IsBacktrace (memory : ℕ → ℤ) (rip : ℤ) (rsp rp0 : ℕ) (b : SavedBacktrace) : Type 0 where
  pub bounded : length (c_get_saved_backtrace_array b) ≡ capacity
  pub counted : c_get_saved_backtrace_size b ≡ min capacity (1 + cells_between rsp rp0)
  pub first : get_or (c_get_saved_backtrace_array b) 0 (pos 0) ≡ rip
  pub stack :
      (k : ℕ)
      → 1 + k < c_get_saved_backtrace_size b
      → get_or (c_get_saved_backtrace_array b) (1 + k) (pos 0) ≡ memory (rsp + 8 * k)
  pub zeros :
      (j : ℕ)
      → c_get_saved_backtrace_size b ≤ j
      → get_or (c_get_saved_backtrace_array b) j (pos 0) ≡ pos 0

-- Whatever the stack holds and wherever it ends: after `c_save_backtrace` the array has 32 cells, of which as
-- many are used as the stack has from `rsp` up to `rp0` and one more, at most 32; the first is `rip`, the
-- others used are the cells of the stack in order, and the rest are 0.
pub c_save_backtrace-IsBacktrace :
    (memory : ℕ → ℤ) (rip : ℤ) (rsp rp0 : ℕ) (old : SavedBacktrace)
    → IsBacktrace memory rip rsp rp0 (c_save_backtrace memory rip rsp rp0 old)
unfolding c_save_backtrace c_get_saved_backtrace_array c_get_saved_backtrace_size
c_save_backtrace-IsBacktrace memory rip rsp rp0 old =
    let cleared : List ℤ = replicate capacity (pos 0) in
    let f = save_loop-IsFilled memory 31 rp0 rsp 1 (set cleared 0 rip) refl refl in
    record {
      bounded = f.same_length;
      counted = f.size_exact;
      first = f.before 0 (omega arith);
      stack = f.stored;
      zeros = λ j le.
          f.after j le
          ∙ get_or-set_ne cleared 0 j rip (pos 0) (omega (arith, f.size_exact))
          ∙ get_or-replicate capacity j (pos 0);
    }
