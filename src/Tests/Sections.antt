-- ===== src/Tests/Sections.antt =====
-- The Windows threads of src/os.c over one critical section, with its owner and how often it has entered.
use feline.Prelude.{
  ℕ, zero, suc, ◌≡◌, ◌≢◌, ◌⊎◌, inl, inr, refl, sym, ◌∙◌, ap, arith, Bool, true, false, Bool-cases,
  if◌then◌else◌, Option, none, some, ℤ, pos, ◌==◌, eqb_ℤ, [], ◌<◌,
}
use feline.Cell.{t_value}
use feline.Os.Windows.Threads.{WinThreads, Process, os_mutex_trylock, os_mutex_lock}
use feline.Os.Windows.Threads.Section.{SectionLaws}
use feline.Os.Windows.Threads.Nested.{
  Threads, Reach, lock, trylock, start, later, mutual_exclusion_nested,
}

-- The section is free where `times` is 0.
record Section : Type 0 where
  owner : ℕ
  times : ℕ

abbrev may_enter : ℕ → Section → Bool
may_enter self s = if s.times == 0 then true else s.owner == self

abbrev enter : ℕ → Section → Section
enter self s = record { owner = self; times = suc s.times }

abbrev depth_of : Section → ℕ → ℕ
depth_of s j = if s.owner == j then s.times else 0

abbrev pred : ℕ → ℕ
pred zero = zero
pred (suc n) = n

abbrev try_enter : ℕ → Section → ℤ × Section
try_enter self s = if may_enter self s then (pos 1, enter self s) else (pos 0, s)

abbrev sections : WinThreads
sections = record {
  System = Section;
  malloc = λ self s. (64, s);
  initialize_critical_section = λ self cs s. record s { times = 0 };
  enter_critical_section = λ self cs s. if may_enter self s then some (enter self s) else none;
  try_enter_critical_section = λ self cs s. try_enter self s;
  leave_critical_section = λ self cs s. record s { times = pred s.times };
  create_suspended = λ self arg s. (7, s);
  resume_thread = λ self h s. s;
  wait_for_single_object = λ self h s. some s;
  tls_set_value = λ self v s. s;
  tls_get_value = λ self s. 0;
  duplicate_handle = λ self s. (pos 1, 9, s);
  sleep = λ self n s. s;
}

-- Where `self` may enter, no other thread is in.
others_out :
    (self : ℕ) (s : Section) → may_enter self s ≡ true → (j : ℕ) → j ≢ self → depth_of s j ≡ 0
others_out self s may j differ = ground arith

own_depth :
    (self : ℕ) (s : Section)
    → may_enter self s ≡ true
    → depth_of (enter self s) self ≡ suc (depth_of s self)
own_depth self s may = ground arith

others_kept :
    (self : ℕ) (s : Section)
    → may_enter self s ≡ true
    → (j : ℕ) → j ≢ self
    → depth_of (enter self s) j ≡ depth_of s j
others_kept self s may j differ = ground arith

entered_section :
    (self : ℕ) (s s' : Section)
    → (if may_enter self s then some (enter self s) else none) ≡ some s'
    → ((j : ℕ) → j ≢ self → depth_of s j ≡ 0)
      × (depth_of s' self ≡ suc (depth_of s self))
      × ((j : ℕ) → j ≢ self → depth_of s' j ≡ depth_of s j)
entered_section self s s' e = elim (Bool-cases (may_enter self s)) [
  | inl may ↦
      let before : ◌≡◌ {A = Option Section} (some (enter self s)) (some s') =
        ap (λ b. if b then some (enter self s) else none) (sym may) ∙ e in
      let same : enter self s ≡ s' = cc before in
      rw⁻¹ same (others_out self s may, own_depth self s may, others_kept self s may)
  | inr may_not ↦
      let before : ◌≡◌ {A = Option Section} none (some s') =
        ap (λ b. if b then some (enter self s) else none) (sym may_not) ∙ e in
      absurd (cc before)
]

tried_section :
    (self : ℕ) (s : Section)
    → let (ret, s') = try_enter self s in
      ((eqb_ℤ ret (pos 0) ≡ false)
        × ((j : ℕ) → j ≢ self → depth_of s j ≡ 0)
        × (depth_of s' self ≡ suc (depth_of s self))
        × ((j : ℕ) → j ≢ self → depth_of s' j ≡ depth_of s j))
      ⊎ ((eqb_ℤ ret (pos 0) ≡ true)
          × ((i : ℕ) × (i ≢ self) × (0 < depth_of s i))
          × ((j : ℕ) → depth_of s' j ≡ depth_of s j))
tried_section self s = elim (Bool-cases (may_enter self s)) [
  | inl may ↦
      rw may (inl (refl, others_out self s may, own_depth self s may, others_kept self s may))
  | inr may_not ↦ rw may_not (inr (refl, (s.owner, ground arith, ground arith), λ j. refl))
]

left_section :
    (self n : ℕ) (s : Section)
    → depth_of s self ≡ suc n
    → let s' = record s { times = pred s.times } in
      (depth_of s' self ≡ n) × ((j : ℕ) → j ≢ self → depth_of s' j ≡ depth_of s j)
left_section self n s e = (ground arith, λ j differ. ground arith)

abbrev section_laws : SectionLaws sections
section_laws = record {
  depth = λ cs s j. depth_of s j;
  enter_lem = λ self cs s s' e. entered_section self s s' e;
  try_enter_lem = λ self cs s. tried_section self s;
  leave_lem = λ self cs n s e. left_section self n s e;
}

abbrev process : Process sections
process = record { system = record { owner = 0; times = 0 }; printed = [] }

-- Thread 1 has locked the section twice, and thread 2 has tried to.
abbrev nested : Threads sections section_laws 64
nested = record {
  process = record { system = record { owner = 1; times = 2 }; printed = [] };
  held = λ j. if 2 == j then 0 else if 1 == j then 2 else if 1 == j then 1 else 0;
}

nested_reached : Reach sections section_laws 64 process nested
unfolding os_mutex_trylock os_mutex_lock
nested_reached =
    later (later (later start (lock 1 t_value _ refl)) (lock 1 t_value _ refl)) (trylock 2)

mutual_exclusion_nested_example : ◌≡◌ {A = ℕ} 1 1 × ◌≡◌ {A = ℕ} 2 2
mutual_exclusion_nested_example =
    mutual_exclusion_nested sections section_laws 64 process nested 1 1 (λ k. ground arith)
      nested_reached (omega arith) (omega arith)
