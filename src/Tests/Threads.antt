-- ===== src/Tests/Threads.antt =====
-- The threads of src/os.c over one mutex, with a record of who owns it and of the threads' own values.
use feline.Prelude.{
  ℕ, ◌≡◌, ◌≢◌, ◌⊎◌, inl, inr, refl, Bool, true, false, if◌then◌else◌, Option, none, some, [], ℤ,
  pos, ◌==◌, eqb_ℤ,
}
use feline.Cell.{t_value, f_value}
use feline.Os.Threads.{Pthreads, Process, os_mutex_lock, os_mutex_trylock, os_mutex_unlock}
use feline.Os.Threads.Exclusion.{
  MutexLaws, Threads, Reach, lock, trylock, start, later, mutual_exclusion, os_mutex_trylock_lem,
}

record Kernel : Type 0 where
  held_by : Option ℕ
  values : ℕ → ℕ
  detached : ℕ → Bool

-- Taking the mutex fails with EBUSY (16) where it is owned.
abbrev take : ℕ → Option ℕ → Kernel → ℤ × Kernel
take self none s = (pos 0, record s { held_by = some self })
take self (some k) s = (pos 16, s)

abbrev kernel : Pthreads
kernel = record {
  System = Kernel;
  malloc = λ self s. (some 64, s);
  mutex_init = λ self m s. (pos 0, s);
  mutex_lock = λ self m s. take self s.held_by s;
  mutex_trylock = λ self m s. take self s.held_by s;
  mutex_unlock = λ self m s. (pos 0, record s { held_by = none });
  create = λ self arg s. (pos 0, 7, s);
  join = λ self id s. (if s.detached id then pos 22 else pos 0, s);
  detach_self = λ self s. record s { detached = λ i. if i == self then true else s.detached i };
  setspecific = λ self v s. record s { values = λ i. if i == self then v else s.values i };
  getspecific = λ self s. s.values self;
}

abbrev quiet : Kernel
quiet = record { held_by = none; values = λ i. 0; detached = λ i. false }

abbrev process : Process kernel
process = record { system = quiet; printed = [] }

taken_or_not :
    (self : ℕ) (o : Option ℕ) (s : Kernel)
    → s.held_by ≡ o
    → (((eqb_ℤ (take self o s).0 (pos 0)) ≡ true)
        × (s.held_by ≡ none)
        × ((take self o s).1.held_by ≡ some self))
      ⊎ (((eqb_ℤ (take self o s).0 (pos 0)) ≡ false)
          × (s.held_by ≢ none)
          × ((take self o s).1.held_by ≡ s.held_by))
taken_or_not self none s e = inl (refl, e, refl)
taken_or_not self (some k) s e = inr (refl, λ f. cc (e, f), refl)

lock_or_not :
    (self : ℕ) (s : Kernel)
    → (((eqb_ℤ (take self s.held_by s).0 (pos 0)) ≡ true)
        × (s.held_by ≡ none)
        × ((take self s.held_by s).1.held_by ≡ some self))
      ⊎ (((eqb_ℤ (take self s.held_by s).0 (pos 0)) ≡ false)
          × ((take self s.held_by s).1.held_by ≡ s.held_by))
lock_or_not self s = elim (taken_or_not self s.held_by s refl) [
  | inl done ↦ inl done
  | inr (failed, owned, kept) ↦ inr (failed, kept)
]

abbrev kernel_mutexes : MutexLaws kernel
kernel_mutexes = record {
  owner = λ m s. s.held_by;
  lock_lem = λ self m s. lock_or_not self s;
  trylock_lem = λ self m s. taken_or_not self s.held_by s refl;
  unlock_lem = λ self m s mine. (refl, refl);
}

-- Thread 1 has locked the mutex, and thread 2 has tried to.
abbrev contended : Threads kernel kernel_mutexes 64
contended = record {
  process = record { system = record quiet { held_by = some 1 }; printed = [] };
  inside = λ j. if 2 == j then false else if 1 == j then true else false;
}

contended_reached : Reach kernel kernel_mutexes 64 process contended
unfolding os_mutex_trylock os_mutex_lock
contended_reached = later (later start (lock 1 refl)) (trylock 2 refl)

mutual_exclusion_example : ◌≡◌ {A = ℕ} 1 1
mutual_exclusion_example =
    mutual_exclusion kernel kernel_mutexes 64 process contended 1 1 refl contended_reached refl refl

os_mutex_trylock_lem_example :
    (((os_mutex_trylock kernel 2 64 contended.process).0 ≡ t_value)
      × ((j : ℕ) → contended.inside j ≡ false))
    ⊎ (((os_mutex_trylock kernel 2 64 contended.process).0 ≡ f_value)
        × ((i : ℕ) × (contended.inside i ≡ true)
            × ((os_mutex_unlock kernel i 64 contended.process).0 ≡ t_value)
            × ((os_mutex_trylock kernel 2 64 (os_mutex_unlock kernel i 64 contended.process).1).0
                ≡ t_value)))
os_mutex_trylock_lem_example =
    os_mutex_trylock_lem kernel kernel_mutexes 64 process contended 2 refl contended_reached
