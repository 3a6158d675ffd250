-- ===== src/Os/Threads/Local.antt =====
-- What each thread knows of itself, and what becomes of a thread at its end.
use feline.Prelude.{ℕ, ◌≡◌, ◌≢◌, refl, Bool, true, false, ◌∷◌, pos, eqb_ℤ}
use feline.Os.Threads.{
  Pthreads, Process, join_failed, thread_run, os_current_thread, os_thread_join,
}

-- What POSIX and Linux say: a value is set for the calling thread alone, and no call here but that one changes it;
-- a thread that has detached itself stays detached and is not joined.
pub record ThreadLaws (pt : Pthreads) : Type 0 where
  pub set_self : (self v : ℕ) (s : pt.System) → pt.getspecific self (pt.setspecific self v s) ≡ v
  pub set_other :
      (self other v : ℕ) (s : pt.System)
      → other ≢ self
      → pt.getspecific other (pt.setspecific self v s) ≡ pt.getspecific other s
  pub is_detached : ℕ → pt.System → Bool
  pub detaches : (self : ℕ) (s : pt.System) → is_detached self (pt.detach_self self s) ≡ true
  pub join_detached :
      (self thread_id : ℕ) (s : pt.System)
      → is_detached thread_id s ≡ true
      → eqb_ℤ (pt.join self thread_id s).0 (pos 0) ≡ false

module _ (pt : Pthreads) (laws : ThreadLaws pt) where
  open laws use {set_self, set_other, is_detached, detaches, join_detached}

  -- The Feline code of a new thread runs in a process in which `os_current_thread` returns the thread's own handle
  -- to it, and to every other thread what it returned before.
  pub thread_run-os_current_thread :
      (run : ℕ → Process pt → Process pt) (self other arg : ℕ) (w : Process pt)
      → other ≢ self
      → (w1 : Process pt) × (thread_run pt run self arg w
          ≡ record (run arg w1) { system = pt.detach_self self (run arg w1).system })
        × (os_current_thread pt self w1 ≡ arg)
        × (os_current_thread pt other w1 ≡ os_current_thread pt other w)
  unfolding thread_run os_current_thread
  thread_run-os_current_thread run self other arg w differ = (
    record w { system = pt.setspecific self arg w.system },
    refl,
    set_self self arg w.system,
    set_other self other arg w.system differ,
  )

  -- A thread detaches itself before it ends: `os_thread_join`, called by any thread then, does not join it and
  -- prints the failure.
  pub os_thread_join-thread_run :
      (run : ℕ → Process pt → Process pt) (self caller arg : ℕ) (w : Process pt)
      → let done = thread_run pt run self arg w in
        (os_thread_join pt caller self done).printed ≡ join_failed ∷ done.printed
  unfolding thread_run os_thread_join
  os_thread_join-thread_run run self caller arg w =
      let last = (run arg (record w { system = pt.setspecific self arg w.system })).system in
      rw (join_detached caller self (pt.detach_self self last) (detaches self last)) refl
