-- ===== src/Os/Clock/Laws.antt =====
-- The clocks do not run backwards, and a sleep lasts at least as long as it should.
use feline.Prelude.{
  ℕ, zero, suc, ◌+◌, ◌*◌, ◌≤◌, ◌<◌, ◌≡◌, ◌⊎◌, inl, inr, refl, arith, some, pos, negsuc, pos_part,
  ◌≤ℤ◌, ◌<ℤ◌,
}
use feline.Os.Clock.{
  ClockTime, os_ticks, os_nano_count, Timespec, to_timespec, Slept, completed, interrupted, refused,
  Sleeper, sleep_loop, os_sleep,
}

-- Earlier, as two readings of a clock whose fractions stay below a second.
abbrev pub Earlier : ClockTime → ClockTime → Type 0
Earlier t u = (t.sec < u.sec) ⊎ ((t.sec ≡ u.sec) × (t.fraction < u.fraction))

-- Two readings with fractions below 10^9 nanoseconds and fewer than 9 * 10^9 seconds: the later one has the
-- larger count.
pub os_nano_count_mono :
    (t u : ClockTime)
    → t.fraction < 1000000000
    → u.fraction < 1000000000
    → u.sec < 9000000000
    → Earlier t u
    → os_nano_count t <ℤ os_nano_count u
unfolding os_nano_count
os_nano_count_mono t u ft fu su earlier = ground arith

-- Two readings with fractions below 10^6 microseconds and fewer than 9 * 10^15 seconds: the later one has
-- no smaller count of milliseconds.
pub os_ticks_mono :
    (t u : ClockTime)
    → t.fraction < 1000000
    → u.fraction < 1000000
    → u.sec < 9000000000000000
    → Earlier t u
    → os_ticks (some t) ≤ℤ os_ticks (some u)
unfolding os_ticks
os_ticks_mono t u ft fu su earlier = ground arith

-- A request that `nanosleep` accepts, and its length in nanoseconds.
abbrev pub IsValid : Timespec → Type 0
IsValid t = (pos 0 ≤ℤ t.tv_sec) × (pos 0 ≤ℤ t.tv_nsec) × (t.tv_nsec <ℤ pos 1000000000)

abbrev pub duration : Timespec → ℕ
duration t = pos_part t.tv_sec * 1000000000 + pos_part t.tv_nsec

-- What POSIX says of `nanosleep`. `slept` is the time that has passed asleep, and `pending` the number of
-- signals still to come.
pub record SleepLaws (sl : Sleeper) : Type 0 where
  pub slept : sl.State → ℕ
  pub pending : sl.State → ℕ
  pub on_completed :
      (t : Timespec) (s : sl.State)
      → IsValid t
      → (sl.nanosleep t s).0 ≡ completed
      → slept s + duration t ≤ slept (sl.nanosleep t s).1
  pub on_interrupted :
      (t left : Timespec) (s : sl.State)
      → IsValid t
      → (sl.nanosleep t s).0 ≡ interrupted left
      → IsValid left
        × (slept s + duration t ≤ slept (sl.nanosleep t s).1 + duration left)
        × (pending (sl.nanosleep t s).1 < pending s)
  pub not_refused : (t : Timespec) (s : sl.State) → IsValid t → ¬ ((sl.nanosleep t s).0 ≡ refused)
  pub on_invalid : (t : Timespec) (s : sl.State) → ¬ IsValid t → (sl.nanosleep t s).0 ≡ refused

-- Less than a second below zero, the nanoseconds are negative; further below, the seconds are.
negative-not-IsValid : (n : ℕ) → ¬ IsValid (to_timespec (negsuc n))
unfolding to_timespec
negative-not-IsValid n (lo, lo', hi) = ground arith

Slept-cases : (r : Slept) → (r ≡ completed) ⊎ ((t : Timespec) × (r ≡ interrupted t)) ⊎ (r ≡ refused)
Slept-cases completed = inl refl
Slept-cases (interrupted t) = inr (inl (t, refl))
Slept-cases refused = inr (inr refl)

module _ (sl : Sleeper) (laws : SleepLaws sl) where
  open sl use {State, nanosleep}
  open laws use {slept, pending, on_completed, on_interrupted, not_refused, on_invalid}

  sleep_loop_lem :
      (fuel : ℕ) (t : Timespec) (s : State)
      → IsValid t
      → pending s < fuel
      → (s' : State) × (sleep_loop sl fuel t s ≡ some s') × (slept s + duration t ≤ slept s')
  unfolding sleep_loop
  sleep_loop_lem zero t s valid enough = absurd (omega arith)
  sleep_loop_lem (suc fuel) t s valid enough = elim (Slept-cases (nanosleep t s).0) [
    | inl e ↦ ((nanosleep t s).1, rw (e, sleep_loop) refl, on_completed t s valid e)
    | inr (inl (left, e)) ↦
        let (valid', longer, fewer) = on_interrupted t left s valid e in
        let (s', ends, rest) = sleep_loop_lem fuel left (nanosleep t s).1 valid' (omega arith) in
        (s', rw (e, sleep_loop) ends, omega arith)
    | inr (inr e) ↦ absurd (not_refused t s valid e)
  ]

  to_timespec-IsValid :
      (n : ℕ) → IsValid (to_timespec (pos n)) × (duration (to_timespec (pos n)) ≡ n * 1000000)
  unfolding to_timespec
  to_timespec-IsValid n = (omega arith, omega arith)

  -- With one more round than there are signals to come, `os_sleep` returns, and by then at least the
  -- milliseconds asked for have passed, however often it was interrupted.
  pub os_sleep_long_enough :
      (n fuel : ℕ) (s : State)
      → pending s < fuel
      → (s' : State) × (os_sleep sl fuel (pos n) s ≡ some s') × (slept s + n * 1000000 ≤ slept s')
  unfolding os_sleep
  os_sleep_long_enough n fuel s enough =
      let (valid, length) = to_timespec-IsValid n in
      let (s', ends, longer) = sleep_loop_lem fuel (to_timespec (pos n)) s valid enough in
      (s', ends, omega arith)

  -- A negative number of milliseconds is refused by the first call, and `os_sleep` returns.
  pub os_sleep_negative :
      (n fuel : ℕ) (s : State)
      → os_sleep sl (suc fuel) (negsuc n) s ≡ some (nanosleep (to_timespec (negsuc n)) s).1
  unfolding os_sleep sleep_loop
  os_sleep_negative n fuel s =
      rw (on_invalid (to_timespec (negsuc n)) s (negative-not-IsValid n), sleep_loop) refl
