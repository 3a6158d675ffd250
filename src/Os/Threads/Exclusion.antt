-- ===== src/Os/Threads/Exclusion.antt =====
-- Threads that guard a section of code with one mutex, interleaved in any order.
use feline.Prelude.{
  ℕ, ◌≡◌, ◌≢◌, ◌⊎◌, inl, inr, refl, sym, ◌∙◌, ap, subst, arith, Bool, true, false, Bool-cases,
  Option-cases, Option, none, some, ℤ, pos, eqb_ℤ, ◌==◌, if◌then◌else◌, ==_iff,
}
use feline.Cell.{t_value, f_value}
use feline.Os.Threads.{Pthreads, Process, os_mutex_lock, os_mutex_trylock, os_mutex_unlock}

-- What POSIX says of a default mutex: who owns it after a call that succeeded, and that a call that failed
-- changes no owner. `pthread_mutex_lock` returns 0 only when the mutex was free.
pub record MutexLaws (pt : Pthreads) : Type 0 where
  pub owner : ℕ → pt.System → Option ℕ
  pub lock_lem :
      (self mutex : ℕ) (s : pt.System)
      → let (status, s') = pt.mutex_lock self mutex s in
        ((eqb_ℤ status (pos 0) ≡ true) × (owner mutex s ≡ none) × (owner mutex s' ≡ some self))
        ⊎ ((eqb_ℤ status (pos 0) ≡ false) × (owner mutex s' ≡ owner mutex s))
  pub trylock_lem :
      (self mutex : ℕ) (s : pt.System)
      → let (status, s') = pt.mutex_trylock self mutex s in
        ((eqb_ℤ status (pos 0) ≡ true) × (owner mutex s ≡ none) × (owner mutex s' ≡ some self))
        ⊎ ((eqb_ℤ status (pos 0) ≡ false)
            × (owner mutex s ≢ none)
            × (owner mutex s' ≡ owner mutex s))
  pub unlock_lem :
      (self mutex : ℕ) (s : pt.System)
      → owner mutex s ≡ some self
      → let (status, s') = pt.mutex_unlock self mutex s in
        (eqb_ℤ status (pos 0) ≡ true) × (owner mutex s' ≡ none)

-- Where each thread is: inside the section, or not.
abbrev pub update : (ℕ → Bool) → ℕ → Bool → ℕ → Bool
update inside i b j = if i == j then b else inside j

module _ (pt : Pthreads) (laws : MutexLaws pt) (mutex : ℕ) where
  open laws use {owner, lock_lem, trylock_lem, unlock_lem}

  pub record Threads : Type 0 where
    pub process : Process pt
    pub inside : ℕ → Bool

  -- A thread that is outside calls `os_mutex_lock` or `os_mutex_trylock`, and enters when the result is T_VALUE;
  -- one that is inside calls `os_mutex_unlock` and is outside then.
  pub data Step (s : Threads) : Threads → Type 0 where
    lock :
        (i : ℕ)
        → s.inside i ≡ false
        → Step s (record {
          process = (os_mutex_lock pt i mutex s.process).1;
          inside = update s.inside i (eqb_ℤ (os_mutex_lock pt i mutex s.process).0 t_value);
        })
    trylock :
        (i : ℕ)
        → s.inside i ≡ false
        → Step s (record {
          process = (os_mutex_trylock pt i mutex s.process).1;
          inside = update s.inside i (eqb_ℤ (os_mutex_trylock pt i mutex s.process).0 t_value);
        })
    unlock :
        (i : ℕ)
        → s.inside i ≡ true
        → Step s (record {
          process = (os_mutex_unlock pt i mutex s.process).1;
          inside = update s.inside i false;
        })

  -- From a process in which the mutex is free and every thread is outside.
  pub data Reach (w : Process pt) : Threads → Type 0 where
    start : Reach w (record { process = w; inside = λ i. false })
    later : {s t : Threads} → Reach w s → Step s t → Reach w t

  abbrev pub owns : Option ℕ → ℕ → Bool
  owns none j = false
  owns (some i) j = i == j

  -- The threads that are inside are those that own the mutex.
  abbrev pub IsGuarded : Threads → Type 0
  IsGuarded s = (j : ℕ) → s.inside j ≡ owns (owner mutex s.process.system) j

  same_thread : (i j : ℕ) → (i == j) ≡ true → i ≡ j
  same_thread i j e = (==_iff i j).0 e

  -- What a call that may enter leaves behind: its result, and the owner.
  entering :
      (s : Threads) (i : ℕ) (status : ℤ) (after : pt.System)
      → s.inside i ≡ false
      → IsGuarded s
      → ((eqb_ℤ status (pos 0) ≡ true)
          × (owner mutex s.process.system ≡ none)
          × (owner mutex after ≡ some i))
        ⊎ ((eqb_ℤ status (pos 0) ≡ false) × (owner mutex after ≡ owner mutex s.process.system))
      → (j : ℕ)
      → update s.inside i (eqb_ℤ (if eqb_ℤ status (pos 0) then t_value else f_value) t_value) j
        ≡ owns (owner mutex after) j
  entering s i status after out g (inl (e, free, mine)) j =
      let outside : s.inside j ≡ false = g j ∙ ap (λ o. owns o j) free in
      rw (e, mine) (ground arith)
  entering s i status after out g (inr (e, kept)) j = elim (Bool-cases (i == j)) [
    | inl same ↦
        let at_j : s.inside j ≡ false =
          subst (λ k. s.inside k ≡ false) (same_thread i j same) out in
        rw (e, same, kept) (sym at_j ∙ g j)
    | inr other ↦ rw (e, other, kept) (g j)
  ]

  locked :
      (i : ℕ) (before : pt.System)
      → let (status, after) = pt.mutex_trylock i mutex before in
        ((eqb_ℤ status (pos 0) ≡ true) × (owner mutex before ≡ none) × (owner mutex after ≡ some i))
        ⊎ ((eqb_ℤ status (pos 0) ≡ false) × (owner mutex after ≡ owner mutex before))
  locked i before = elim (trylock_lem i mutex before) [
    | inl done ↦ inl done
    | inr (failed, owned, kept) ↦ inr (failed, kept)
  ]

  leaving :
      (s : Threads) (i : ℕ)
      → s.inside i ≡ true
      → IsGuarded s
      → owner mutex s.process.system ≡ some i
  leaving s i in_i g = owner_of (owner mutex s.process.system) (sym (g i) ∙ in_i)
    where
      owner_of : (o : Option ℕ) → owns o i ≡ true → o ≡ some i
      owner_of none e = cc e
      owner_of (some k) e = ap (λ n. some n) (same_thread k i e)

  Step-IsGuarded : {s t : Threads} → Step s t → IsGuarded s → IsGuarded t
  unfolding os_mutex_lock os_mutex_trylock os_mutex_unlock
  Step-IsGuarded {s} (lock i out) g j =
      entering s i (pt.mutex_lock i mutex s.process.system).0 _ out g
        (lock_lem i mutex s.process.system) j
  Step-IsGuarded {s} (trylock i out) g j =
      entering s i (pt.mutex_trylock i mutex s.process.system).0 _ out g (locked i s.process.system)
        j
  Step-IsGuarded {s} (unlock i in_i) g j =
      let mine = leaving s i in_i g in
      let (done, free) = unlock_lem i mutex s.process.system mine in
      let at_j : s.inside j ≡ (i == j) = g j ∙ ap (λ o. owns o j) mine in rw free (ground arith)

  Reach-IsGuarded :
      {w : Process pt} {s : Threads} → owner mutex w.system ≡ none → Reach w s → IsGuarded s
  Reach-IsGuarded free start j = ap (λ o. owns o j) (sym free)
  Reach-IsGuarded free (later r st) j = Step-IsGuarded st (Reach-IsGuarded free r) j

  -- From a process in which the mutex is free, with every thread outside: however the calls of the threads are
  -- interleaved, two different threads are never inside together.
  pub mutual_exclusion :
      (w : Process pt) (s : Threads) (i j : ℕ)
      → owner mutex w.system ≡ none
      → Reach w s
      → s.inside i ≡ true
      → s.inside j ≡ true
      → i ≡ j
  mutual_exclusion w s i j free r in_i in_j =
      let g = Reach-IsGuarded free r in
      let mine = leaving s i in_i g in
      same_thread i j (ap (λ o. owns o j) (sym mine) ∙ sym (g j) ∙ in_j)

  -- In every state that the threads reach from one where the mutex is free: `os_mutex_trylock` by a thread returns T_VALUE and nobody is inside, or
  -- it returns F_VALUE and some thread is inside, whose `os_mutex_unlock` returns T_VALUE and lets
  -- `os_mutex_trylock` return T_VALUE next.
  pub os_mutex_trylock_lem :
      (w : Process pt) (s : Threads) (k : ℕ)
      → owner mutex w.system ≡ none
      → Reach w s
      → (((os_mutex_trylock pt k mutex s.process).0 ≡ t_value) × ((j : ℕ) → s.inside j ≡ false))
        ⊎ (((os_mutex_trylock pt k mutex s.process).0 ≡ f_value)
            × ((i : ℕ) × (s.inside i ≡ true)
                × ((os_mutex_unlock pt i mutex s.process).0 ≡ t_value)
                × ((os_mutex_trylock pt k mutex (os_mutex_unlock pt i mutex s.process).1).0
                    ≡ t_value)))
  unfolding os_mutex_trylock os_mutex_unlock
  os_mutex_trylock_lem w s k free r =
      let g = Reach-IsGuarded free r in
      let sys = s.process.system in
      elim (trylock_lem k mutex sys) [
        | inl (done, nobody, mine) ↦ inl (rw done refl, λ j. g j ∙ ap (λ o. owns o j) nobody)
        | inr (failed, owned, kept) ↦ elim (Option-cases (owner mutex sys)) [
          | inl nobody ↦ absurd (owned nobody)
          | inr (i, his) ↦
              let (out, released) = unlock_lem i mutex sys his in
              let in_i : s.inside i ≡ true = g i ∙ ap (λ o. owns o i) his ∙ (==_iff i i).1 refl in
              let next = (pt.mutex_unlock i mutex sys).1 in
              elim (trylock_lem k mutex next) [
                | inl (again, nobody, mine) ↦
                    inr (rw failed refl, (i, in_i, rw out refl, rw again refl))
                | inr (stuck, owned', kept') ↦ absurd (owned' released)
              ]
        ]
      ]
