-- ===== src/Os/Windows/Threads.antt =====
-- The Windows bodies of the threads and the mutexes of src/os.c. A mutex is a critical section. Handles, the
-- identifiers of threads and addresses are 64-bit words, and NULL is 0.
pub mod Section
pub mod Nested
use feline.Prelude.{
  ℕ, ◌==◌, ◌%◌, ◌^◌, Bool, true, false, if◌then◌else◌, Option, none, some, List, [], ◌∷◌, ℤ, pos,
  eqb_ℤ,
}
use feline.Cell.{t_value, f_value}

pub data Complaint : Type 0 where
  create_failed allocation_failed duplicate_failed : Complaint

-- The calls: each is made by a thread, which comes first. `none` stands for a call that has to wait: for the owner of
-- the section, or for the end of the thread.
pub record WinThreads : Type 1 where
  pub System : Type 0
  pub malloc : ℕ → System → ℕ × System
  pub initialize_critical_section : ℕ → ℕ → System → System
  pub enter_critical_section : ℕ → ℕ → System → Option System
  pub try_enter_critical_section : ℕ → ℕ → System → ℤ × System
  pub leave_critical_section : ℕ → ℕ → System → System
  pub create_suspended : ℕ → ℕ → System → ℕ × System
  pub resume_thread : ℕ → ℕ → System → System
  pub wait_for_single_object : ℕ → ℕ → System → Option System
  pub tls_set_value : ℕ → ℕ → System → System
  pub tls_get_value : ℕ → System → ℕ
  pub duplicate_handle : ℕ → System → ℤ × ℕ × System
  pub sleep : ℕ → ℕ → System → System

module _ (wt : WinThreads) where
  open wt use {
    System, malloc, initialize_critical_section, enter_critical_section, try_enter_critical_section,
    leave_critical_section, create_suspended, resume_thread, wait_for_single_object, tls_set_value,
    tls_get_value, duplicate_handle, sleep,
  }

  -- The system, and what was printed, the last line first.
  pub record Process : Type 0 where
    pub system : System
    pub printed : List Complaint

  say : Complaint → Process → Process
  say c w = record w { printed = c ∷ w.printed }

  unfoldable pub os_mutex_init : ℕ → Process → ℕ × Process
  unfolding say
  os_mutex_init self w =
      let (cs, s1) = malloc self w.system in
      if cs == 0
      then (cs, say allocation_failed (record w { system = s1 }))
      else (cs, record w { system = initialize_critical_section self cs s1 })

  unfoldable pub os_mutex_lock : ℕ → ℕ → Process → Option (ℤ × Process)
  os_mutex_lock self cs w = elim (enter_critical_section self cs w.system) [
    | none ↦ none
    | some s ↦ some (t_value, record w { system = s })
  ]

  unfoldable pub os_mutex_trylock : ℕ → ℕ → Process → ℤ × Process
  os_mutex_trylock self cs w =
      let (ret, s) = try_enter_critical_section self cs w.system in
      ((if eqb_ℤ ret (pos 0) then f_value else t_value), record w { system = s })

  unfoldable pub os_mutex_unlock : ℕ → ℕ → Process → ℤ × Process
  os_mutex_unlock self cs w =
      (t_value, record w { system = leave_critical_section self cs w.system })

  -- The thread that begins with `thread_run`.
  unfoldable pub os_thread_create : ℕ → ℕ → Process → ℕ × Process
  unfolding say
  os_thread_create self arg w =
      let (h, s) = create_suspended self arg w.system in
      let w1 =
        if h == 0 then say create_failed (record w { system = s }) else record w { system = s } in
      (h, record w1 { system = resume_thread self h w1.system })

  unfoldable pub os_thread_join : ℕ → ℕ → Process → Option Process
  os_thread_join self h w = elim (wait_for_single_object self h w.system) [
    | none ↦ none
    | some s ↦ some (record w { system = s })
  ]

  -- `run` is `thread_run_internal` of the Feline side, which the thread calls with the handle of its object.
  unfoldable pub thread_run : (ℕ → Process → Process) → ℕ → ℕ → Process → Process
  thread_run run self arg w =
      let w1 = run arg (record w { system = tls_set_value self arg w.system }) in
      record w1 { system = tls_set_value self 0 w1.system }

  unfoldable pub os_initialize_primordial_thread : ℕ → ℕ → Process → Process
  os_initialize_primordial_thread self arg w = record w { system = tls_set_value self arg w.system }

  unfoldable pub os_current_thread : ℕ → Process → ℕ
  os_current_thread self w = tls_get_value self w.system

  -- `GetCurrentThreadId`, a DWORD.
  unfoldable pub os_current_thread_raw_thread_id : ℕ → ℕ
  os_current_thread_raw_thread_id self = self % 2 ^ 32

  -- What DuplicateHandle stored, whether or not it succeeded.
  unfoldable pub os_current_thread_raw_thread_handle : ℕ → Process → ℕ × Process
  unfolding say
  os_current_thread_raw_thread_handle self w =
      let (status, h, s) = duplicate_handle self w.system in
      (
        h,
        if eqb_ℤ status (pos 0)
            then say duplicate_failed (record w { system = s })
            else record w { system = s },
      )

  -- The cell as a DWORD of milliseconds.
  unfoldable pub os_sleep : ℕ → ℕ → Process → Process
  os_sleep self arg w = record w { system = sleep self (arg % 2 ^ 32) w.system }
