-- ===== src/Os/Clock.antt =====
-- The clocks of src/os.c on Linux, the date as text, and `os_sleep`. What the clock calls store is an argument; the sleeping
-- call is a parameter with the behaviour that POSIX gives it.
pub mod Laws
use feline.Prelude.{
  ℕ, zero, suc, ◌+◌, ◌-◌, ◌*◌, ◌/◌, ◌%◌, ◌^◌, ◌≤◌, ◌<◌, ◌≡◌, ◌≢◌, Option, none, some, ℤ, List, [],
  ◌∷◌, ◌++◌, pos, negsuc, neg_ℕ,
}
use feline.Cell.{of_word}
use feline.Libc.{print_padded}

-- `struct timeval` and `struct timespec` as the clocks fill them in: seconds and a fraction.
pub record ClockTime : Type 0 where
  pub sec : ℕ
  pub fraction : ℕ

-- The argument is what `gettimeofday` stored, or `none` where it failed.
unfoldable pub os_ticks : Option ClockTime → ℤ
os_ticks none = pos 0
os_ticks (some tv) = of_word ((tv.sec * 1000 + tv.fraction / 1000) % 2 ^ 64)

-- The argument is what `clock_gettime` stored. The sum is one of `uint64_t`.
unfoldable pub os_nano_count : ClockTime → ℤ
os_nano_count t = of_word ((t.sec * 1000000000 + t.fraction) % 2 ^ 64)

-- What is written to the buffer, with its null: `local_text` is what `strftime` makes of the seconds in the local time by
-- "%b %d %T", and the argument is what `timespec_get` stored.
unfoldable pub os_date_time : (ℕ → List ℕ) → ClockTime → List ℕ
os_date_time local_text ts =
    local_text ts.sec ++ (b'.' ∷ (print_padded 3 (ts.fraction / 1000000) ++ (0 ∷ [])))

-- A `struct timespec` as a request to sleep.
pub record Timespec : Type 0 where
  pub tv_sec : ℤ
  pub tv_nsec : ℤ

-- `millis / 1000` rounds towards zero.
unfoldable pub to_timespec : ℤ → Timespec
to_timespec (pos n) =
    let sec = n / 1000 in record { tv_sec = pos sec; tv_nsec = pos ((n - sec * 1000) * 1000000) }
to_timespec (negsuc n) =
    let sec = suc n / 1000 in
    record { tv_sec = neg_ℕ sec; tv_nsec = neg_ℕ ((suc n - sec * 1000) * 1000000) }

-- The outcomes of `nanosleep (&tv, &tv)`: 0; -1 with EINTR and the time left in `tv`; -1 with another error.
pub data Slept : Type 0 where
  completed : Slept
  interrupted : Timespec → Slept
  refused : Slept

pub record Sleeper : Type 1 where
  pub State : Type 0
  pub nanosleep : Timespec → State → Slept × State

module _ (sl : Sleeper) where
  open sl use {State, nanosleep}

  -- The `while` loop, with fuel; `none` means that the fuel ran out.
  unfoldable pub sleep_loop : ℕ → Timespec → State → Option State
  sleep_loop zero tv s = none
  sleep_loop (suc fuel) tv s =
      let (result, s') = nanosleep tv s in
      elim result [
        | completed ↦ some s'
        | interrupted left ↦ sleep_loop fuel left s'
        | refused ↦ some s'
      ]

  unfoldable pub os_sleep : ℕ → ℤ → State → Option State
  os_sleep fuel arg s = sleep_loop fuel (to_timespec arg) s
