-- ===== src/Os/Threads.antt =====
-- The threads and mutexes of src/os.c on Linux, over the pthread calls. A thread's identifier and the address of
-- a mutex are 64-bit words.
pub mod Exclusion
pub mod Local
use feline.Prelude.{
  ℕ, Bool, true, false, if◌then◌else◌, Option, none, some, List, [], ◌∷◌, ℤ, pos, eqb_ℤ,
}
use feline.Cell.{t_value, f_value}

pub data Complaint : Type 0 where
  create_failed join_failed mutex_init_failed allocation_failed : Complaint

-- The calls: each is made by a thread, which comes first, and returns its status and the state after it. `malloc`
-- returns the address of a block for a mutex; `pthread_create` also returns the new thread.
pub record Pthreads : Type 1 where
  pub System : Type 0
  pub malloc : ℕ → System → Option ℕ × System
  pub mutex_init : ℕ → ℕ → System → ℤ × System
  pub mutex_lock : ℕ → ℕ → System → ℤ × System
  pub mutex_trylock : ℕ → ℕ → System → ℤ × System
  pub mutex_unlock : ℕ → ℕ → System → ℤ × System
  pub create : ℕ → ℕ → System → ℤ × ℕ × System
  pub join : ℕ → ℕ → System → ℤ × System
  pub detach_self : ℕ → System → System
  pub setspecific : ℕ → ℕ → System → System
  pub getspecific : ℕ → System → ℕ

module _ (pt : Pthreads) where
  open pt use {
    System, malloc, mutex_init, mutex_lock, mutex_trylock, mutex_unlock, create, join, detach_self,
    setspecific, getspecific,
  }

  -- The system, and what was printed, the last line first.
  pub record Process : Type 0 where
    pub system : System
    pub printed : List Complaint

  say : Complaint → Process → Process
  say c w = record w { printed = c ∷ w.printed }

  -- 0 where there is no memory.
  unfoldable pub os_mutex_init : ℕ → Process → ℕ × Process
  unfolding say
  os_mutex_init self w =
      let (block, s1) = malloc self w.system in
      elim block [
        | none ↦ (0, say allocation_failed (record w { system = s1 }))
        | some mutex ↦
            let (status, s2) = mutex_init self mutex s1 in
            if eqb_ℤ status (pos 0)
            then (mutex, record w { system = s2 })
            else (mutex, say mutex_init_failed (record w { system = s2 }))
      ]

  abbrev succeeded : ℤ → ℤ
  succeeded status = if eqb_ℤ status (pos 0) then t_value else f_value

  unfoldable pub os_mutex_lock : ℕ → ℕ → Process → ℤ × Process
  os_mutex_lock self mutex w =
      let (status, s) = mutex_lock self mutex w.system in
      (succeeded status, record w { system = s })

  unfoldable pub os_mutex_trylock : ℕ → ℕ → Process → ℤ × Process
  os_mutex_trylock self mutex w =
      let (status, s) = mutex_trylock self mutex w.system in
      (succeeded status, record w { system = s })

  unfoldable pub os_mutex_unlock : ℕ → ℕ → Process → ℤ × Process
  os_mutex_unlock self mutex w =
      let (status, s) = mutex_unlock self mutex w.system in
      (succeeded status, record w { system = s })

  -- The thread that begins with `thread_run`.
  unfoldable pub os_thread_create : ℕ → ℕ → Process → ℕ × Process
  unfolding say
  os_thread_create self arg w =
      let (status, thread_id, s) = create self arg w.system in
      if eqb_ℤ status (pos 0)
      then (thread_id, record w { system = s })
      else (thread_id, say create_failed (record w { system = s }))

  unfoldable pub os_thread_join : ℕ → ℕ → Process → Process
  unfolding say
  os_thread_join self thread_id w =
      let (status, s) = join self thread_id w.system in
      if eqb_ℤ status (pos 0)
      then record w { system = s }
      else say join_failed (record w { system = s })

  -- `run` is `thread_run_internal` of the Feline side, which the thread calls with the handle of its object.
  unfoldable pub thread_run : (ℕ → Process → Process) → ℕ → ℕ → Process → Process
  thread_run run self arg w =
      let w1 = run arg (record w { system = setspecific self arg w.system }) in
      record w1 { system = detach_self self w1.system }

  unfoldable pub os_initialize_primordial_thread : ℕ → ℕ → Process → Process
  os_initialize_primordial_thread self arg w = record w { system = setspecific self arg w.system }

  unfoldable pub os_current_thread : ℕ → Process → ℕ
  os_current_thread self w = getspecific self w.system

  -- `pthread_self`
  unfoldable pub os_current_thread_raw_thread_id : ℕ → ℕ
  os_current_thread_raw_thread_id self = self
