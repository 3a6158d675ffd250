-- ===== src/Os/Windows/Threads/Section.antt =====
-- What src/os.c relies on of a critical section of Windows.
use feline.Prelude.{ℕ, suc, ◌<◌, ◌≡◌, ◌≢◌, ◌⊎◌, true, false, some, pos, eqb_ℤ}
use feline.Os.Windows.Threads.{WinThreads}

-- What Windows says of a critical section: how often each thread has entered it without leaving. A thread enters
-- where no other one is in; leaving undoes one entering.
pub record SectionLaws (wt : WinThreads) : Type 0 where
  pub depth : ℕ → wt.System → ℕ → ℕ
  pub enter_lem :
      (self cs : ℕ) (s s' : wt.System)
      → wt.enter_critical_section self cs s ≡ some s'
      → ((j : ℕ) → j ≢ self → depth cs s j ≡ 0)
        × (depth cs s' self ≡ suc (depth cs s self))
        × ((j : ℕ) → j ≢ self → depth cs s' j ≡ depth cs s j)
  pub try_enter_lem :
      (self cs : ℕ) (s : wt.System)
      → let (ret, s') = wt.try_enter_critical_section self cs s in
        ((eqb_ℤ ret (pos 0) ≡ false)
          × ((j : ℕ) → j ≢ self → depth cs s j ≡ 0)
          × (depth cs s' self ≡ suc (depth cs s self))
          × ((j : ℕ) → j ≢ self → depth cs s' j ≡ depth cs s j))
        ⊎ ((eqb_ℤ ret (pos 0) ≡ true)
            × ((i : ℕ) × (i ≢ self) × (0 < depth cs s i))
            × ((j : ℕ) → depth cs s' j ≡ depth cs s j))
  pub leave_lem :
      (self cs n : ℕ) (s : wt.System)
      → depth cs s self ≡ suc n
      → let s' = wt.leave_critical_section self cs s in
        (depth cs s' self ≡ n) × ((j : ℕ) → j ≢ self → depth cs s' j ≡ depth cs s j)
