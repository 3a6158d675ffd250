-- ===== src/Os/Windows/Threads/Nested.antt =====
-- Threads that lock and unlock one critical section, interleaved in any order. A thread that owns the section may lock
-- it again, and has to unlock it as often.
use feline.Prelude.{
  ℕ, suc, ◌<◌, ◌≡◌, ◌≢◌, ◌⊎◌, inl, inr, refl, sym, ◌∙◌, ap, subst, arith, Bool-cases, Option, none,
  some, List, ℤ, eqb_ℤ, ◌==◌, if◌then◌else◌, ==_iff,
}
use feline.Cell.{t_value, f_value}
use feline.Os.Windows.Threads.Section.{SectionLaws}
use feline.Os.Windows.Threads.{
  WinThreads, Process, Complaint, os_mutex_lock, os_mutex_trylock, os_mutex_unlock,
}

module _ (wt : WinThreads) (laws : SectionLaws wt) (cs : ℕ) where
  open laws use {depth, enter_lem, try_enter_lem, leave_lem}

  -- The calls that threads make, one after the other; a thread unlocks only what it has locked. `held` counts, for
  -- each thread, the calls that returned T_VALUE less the calls of `os_mutex_unlock`.
  pub record Threads : Type 0 where
    pub process : Process wt
    pub held : ℕ → ℕ

  abbrev pub at : (ℕ → ℕ) → ℕ → ℕ → ℕ → ℕ
  at held i n j = if i == j then n else held j

  pub data Step (s : Threads) : Threads → Type 0 where
    lock :
        (i : ℕ) (ret : ℤ) (w : Process wt)
        → os_mutex_lock wt i cs s.process ≡ some (ret, w)
        → Step s (record {
          process = w;
          held = at s.held i (if eqb_ℤ ret t_value then suc (s.held i) else s.held i);
        })
    trylock :
        (i : ℕ)
        → Step s (record {
          process = (os_mutex_trylock wt i cs s.process).1;
          held = at s.held i (
              if eqb_ℤ (os_mutex_trylock wt i cs s.process).0 t_value
              then suc (s.held i)
              else s.held i);
        })
    unlock :
        (i n : ℕ)
        → s.held i ≡ suc n
        → Step s (record { process = (os_mutex_unlock wt i cs s.process).1; held = at s.held i n })

  -- From a process in which nobody has entered.
  pub data Reach (w : Process wt) : Threads → Type 0 where
    start : Reach w (record { process = w; held = λ i. 0 })
    later : {s t : Threads} → Reach w s → Step s t → Reach w t

  -- What the threads count is what the section counts, and two different threads are never in.
  abbrev pub IsCounted : Threads → Type 0
  IsCounted s =
      ((j : ℕ) → s.held j ≡ depth cs s.process.system j)
      × ((i j : ℕ) → i ≢ j → (s.held i ≡ 0) ⊎ (s.held j ≡ 0))

  at_same : (held : ℕ → ℕ) (i n j : ℕ) → i ≡ j → at held i n j ≡ n
  at_same held i n j e = rw ((==_iff i j).1 e) refl

  at_other : (held : ℕ → ℕ) (i n j : ℕ) → j ≢ i → at held i n j ≡ held j
  at_other held i n j differ = ground arith

  -- Thread `i` is counted anew, and the others as before.
  counted :
      (held : ℕ → ℕ) (i n : ℕ) (before after : wt.System)
      → ((j : ℕ) → held j ≡ depth cs before j)
      → depth cs after i ≡ n
      → ((j : ℕ) → j ≢ i → depth cs after j ≡ depth cs before j)
      → (j : ℕ) → at held i n j ≡ depth cs after j
  counted held i n before after c mine others j = elim (Bool-cases (i == j)) [
    | inl same ↦
        let e : i ≡ j = (==_iff i j).0 same in
        at_same held i n j e ∙ subst (λ k. n ≡ depth cs after k) e (sym mine)
    | inr other ↦
        let differ : j ≢ i = λ e. ground arith in
        at_other held i n j differ ∙ c j ∙ sym (others j differ)
  ]

  -- Where the others have not entered, thread `i` may.
  alone :
      (held : ℕ → ℕ) (i n : ℕ)
      → ((j : ℕ) → j ≢ i → held j ≡ 0)
      → (a b : ℕ) → a ≢ b
      → (at held i n a ≡ 0) ⊎ (at held i n b ≡ 0)
  alone held i n others a b differ = elim (Bool-cases (a == i)) [
    | inl same ↦
        let away : b ≢ i = λ e. differ ((==_iff a i).0 same ∙ sym e) in
        inr (at_other held i n b away ∙ others b away)
    | inr other ↦
        let away : a ≢ i = λ e. ground arith in inl (at_other held i n a away ∙ others a away)
  ]

  entered :
      (s : Threads) (i : ℕ) (after : wt.System)
      → IsCounted s
      → ((j : ℕ) → j ≢ i → depth cs s.process.system j ≡ 0)
      → depth cs after i ≡ suc (depth cs s.process.system i)
      → ((j : ℕ) → j ≢ i → depth cs after j ≡ depth cs s.process.system j)
      → ((j : ℕ) → at s.held i (suc (s.held i)) j ≡ depth cs after j)
        × ((a b : ℕ)
            → a ≢ b
            → (at s.held i (suc (s.held i)) a ≡ 0) ⊎ (at s.held i (suc (s.held i)) b ≡ 0))
  entered s i after (c, e) empty mine others = (
    counted s.held i (suc (s.held i)) s.process.system after c (mine ∙ ap (λ n. suc n) (sym (c i)))
        others,
    alone s.held i (suc (s.held i)) (λ j differ. c j ∙ empty j differ),
  )

  -- A count that is set to what it was.
  at_own : (held : ℕ → ℕ) (i j : ℕ) → at held i (held i) j ≡ held j
  at_own held i j = elim (Bool-cases (i == j)) [
    | inl same ↦ at_same held i (held i) j ((==_iff i j).0 same) ∙ ap held ((==_iff i j).0 same)
    | inr other ↦ at_other held i (held i) j (λ e. ground arith)
  ]

  left :
      (held : ℕ → ℕ) (i n : ℕ)
      → held i ≡ suc n
      → ((a b : ℕ) → a ≢ b → (held a ≡ 0) ⊎ (held b ≡ 0))
      → (a b : ℕ) → a ≢ b
      → (at held i n a ≡ 0) ⊎ (at held i n b ≡ 0)
  left held i n some_held e a b differ = elim (e a b differ) [
    | inl none_a ↦ inl (at_other held i n a (not_held a none_a) ∙ none_a)
    | inr none_b ↦ inr (at_other held i n b (not_held b none_b) ∙ none_b)
  ]
    where
      not_held : (k : ℕ) → held k ≡ 0 → k ≢ i
      not_held k empty same = cc (ap held same, empty, some_held)

  -- A call of `os_mutex_lock` that returns.
  lock_entered :
      (o : Option wt.System) (printed : List Complaint) (ret : ℤ) (w : Process wt)
      → (elim o as (λ k. Option (ℤ × Process wt)) [
        | none ↦ none
        | some s ↦ some (t_value, record { system = s; printed = printed })
      ])
        ≡ some (ret, w)
      → (ret ≡ t_value) × (o ≡ some w.system)
  lock_entered none printed ret w e = cc e
  lock_entered (some s) printed ret w e =
      let same : ◌≡◌ {A = ℤ × Process wt} (t_value, record { system = s; printed = printed })
          (ret, w) =
        cc e in
      (
        sym (ap (λ (q : ℤ × Process wt). q.0) same),
        ap (λ (q : ℤ × Process wt). some q.1.system) same,
      )

  Step-IsCounted : {s t : Threads} → Step s t → IsCounted s → IsCounted t
  unfolding os_mutex_lock os_mutex_trylock os_mutex_unlock
  Step-IsCounted {s} (lock i ret w e) g =
      let (won, after) =
        lock_entered (wt.enter_critical_section i cs s.process.system) s.process.printed ret w e in
      let (empty, mine, others) = enter_lem i cs s.process.system w.system after in
      rw won (entered s i w.system g empty mine others)
  Step-IsCounted {s} (trylock i) g = elim (try_enter_lem i cs s.process.system) [
    | inl (done, empty, mine, others) ↦ rw done (entered s i _ g empty mine others)
    | inr (failed, owner, same) ↦ rw failed (
      (λ j. at_own s.held i j ∙ g.0 j ∙ sym (same j)),
      (λ a b differ. rw (at_own s.held i a, at_own s.held i b) (g.1 a b differ)),
    )
  ]
  Step-IsCounted {s} (unlock i n some_held) g =
      let (mine, others) = leave_lem i cs n s.process.system (sym (g.0 i) ∙ some_held) in
      (counted s.held i n s.process.system _ g.0 mine others, left s.held i n some_held g.1)

  Reach-IsCounted :
      {w : Process wt} {s : Threads} → ((j : ℕ) → depth cs w.system j ≡ 0) → Reach w s → IsCounted s
  Reach-IsCounted free start = ((λ j. sym (free j)), (λ a b differ. inl refl))
  Reach-IsCounted free (later r st) = Step-IsCounted st (Reach-IsCounted free r)

  -- From a process in which nobody has entered the section: however the calls of the threads are interleaved, two
  -- different threads never both hold the mutex; and the number of times that a thread holds it is the number of
  -- times that it has entered the section without leaving.
  pub mutual_exclusion_nested :
      (w : Process wt) (s : Threads) (i j : ℕ)
      → ((k : ℕ) → depth cs w.system k ≡ 0)
      → Reach w s
      → 0 < s.held i
      → 0 < s.held j
      → (i ≡ j) × (s.held i ≡ depth cs s.process.system i)
  mutual_exclusion_nested w s i j free r in_i in_j =
      let g = Reach-IsCounted free r in
      (
        elim (Bool-cases (i == j)) [
          | inl same ↦ (==_iff i j).0 same
          | inr other ↦ elim (g.1 i j (λ e. ground arith)) [
            | inl none_i ↦ absurd (omega (arith, none_i, in_i))
            | inr none_j ↦ absurd (omega (arith, none_j, in_j))
          ]
        ],
        g.0 i,
      )

  -- In every state that the threads reach, from one where nobody has entered, in which thread `k` holds the mutex: `os_mutex_trylock` by `k`
  -- returns T_VALUE again, and by any other thread F_VALUE.
  pub os_mutex_trylock_nested :
      (w : Process wt) (s : Threads) (k j : ℕ)
      → ((i : ℕ) → depth cs w.system i ≡ 0)
      → Reach w s
      → 0 < s.held k
      → ((j ≡ k) × ((os_mutex_trylock wt j cs s.process).0 ≡ t_value))
        ⊎ ((j ≢ k) × ((os_mutex_trylock wt j cs s.process).0 ≡ f_value))
  unfolding os_mutex_trylock
  os_mutex_trylock_nested w s k j free r in_k =
      let g = Reach-IsCounted free r in
      elim (try_enter_lem j cs s.process.system) [
        | inl (done, empty, mine, others) ↦ elim (Bool-cases (j == k)) [
          | inl same ↦ inl ((==_iff j k).0 same, rw done refl)
          | inr other ↦ absurd (omega (arith, in_k, g.0 k, empty k (λ e. ground arith)))
        ]
        | inr (failed, (i, away, in_i), kept) ↦
            let at_k : i ≡ k =
              (mutual_exclusion_nested w s i k free r (omega (arith, g.0 i, in_i)) in_k).0 in
            inr (λ e. away (at_k ∙ sym e), rw failed refl)
      ]
