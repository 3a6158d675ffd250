-- ===== src/Tests/Os.antt =====
-- src/os.c over a small system: files that cannot be created, one descriptor, and a clock with signals.
use feline.Prelude.{
  ℕ, zero, suc, ◌+◌, ◌*◌, ◌≤◌, ◌<◌, ◌≡◌, refl, sym, ap, subst, ◌∙◌, arith, Bool, true, false, ◌&&◌,
  if◌then◌else◌, Option, none, some, List, [], ◌∷◌, ℤ, pos, negsuc, leb_ℤ, ltb_ℤ, bit_and, ◌==◌,
  leb, ◌^◌, ◌≤◌,
}
use feline.Os.Files.{Posix, Machine, minus_one, Whence, seek_set, seek_cur, seek_end}
use feline.Os.Files.Position.{SeekLaws}
use feline.Os.Clock.{Timespec, Slept, completed, interrupted, refused, Sleeper, os_sleep}
use feline.Os.Clock.Laws.{IsValid, duration, SleepLaws, os_sleep_long_enough}
use feline.Os.Spec.{FileOp, ask_size, ask_position, reposition, answers, calls}
use feline.Os.Spec.Linux.{linux_bodies, linux_view, linux_calls-answers}

record Small : Type 0 where
  files : List ℕ → Option (List ℕ)
  position : ℕ
  size : ℕ

-- What `open` returns: descriptor 3 for a file that is there, and never a new file.
abbrev opened : Option (List ℕ) → Bool → ℤ
opened none creates = minus_one
opened (some c) true = minus_one
opened (some c) false = pos 3

-- The largest offset of the file system.
abbrev largest : ℕ
largest = 2 ^ 44

abbrev seek : ℤ → Whence → Small → ℤ × Small
seek offset seek_cur s = (pos s.position, s)
seek offset seek_end s = (pos s.size, record s { position = s.size })
seek (pos k) seek_set s =
    if leb k largest then (pos k, record s { position = k }) else (minus_one, s)
seek (negsuc k) seek_set s = (minus_one, s)

abbrev small : Posix
small = record {
  System = Small;
  errno = λ s. pos 2;
  stat = λ path s. none;
  open_file =
      λ f flags mode s. (opened (s.files f) (if bit_and flags 0o100 == 0 then false else true), s);
  read = λ fd count s. (pos 1, 65 ∷ [], s);
  write = λ fd bytes s. (pos 1, s);
  close = λ fd s. (pos 0, s);
  lseek = λ fd offset whence s. seek offset whence s;
  ftruncate = λ fd size s. (pos 0, s);
  unlink = λ f s. (pos 0, s);
  rename = λ f g s. (pos 0, s);
  fsync = λ fd s. (pos 0, s);
  chdir = λ f s. (pos 0, s);
}

abbrev in_range : Small → Bool
in_range s = leb s.position largest && leb s.size largest

position_in_range : (s : Small) → in_range s ≡ true → s.position ≤ largest
position_in_range s can = ground arith

size_in_range : (s : Small) → in_range s ≡ true → s.size ≤ largest
size_in_range s can = ground arith

in_range_end : (s : Small) → in_range s ≡ true → in_range (record s { position = s.size }) ≡ true
in_range_end s can = ground arith

seek-in_range :
    (k : ℕ) (s : Small)
    → k ≤ largest
    → in_range s ≡ true
    → let (p, s') = seek (pos k) seek_set s in
      (p ≡ pos k) × (in_range s' ≡ true) × (s'.position ≡ k) × (s'.size ≡ s.size)
seek-in_range k s low can = ground arith

abbrev small_seeks : SeekLaws small
small_seeks = record {
  maximum = largest;
  maximum_fits = omega arith;
  is_seekable = λ fd s. in_range s;
  position = λ fd s. s.position;
  size = λ fd s. s.size;
  position_bounds = λ fd s can. position_in_range s can;
  size_bounds = λ fd s can. size_in_range s can;
  seek_cur_lem = λ fd s can. refl;
  seek_end_lem = λ fd s can. (refl, in_range_end s can, refl);
  seek_set_lem = λ fd k s low can. seek-in_range k s low can;
}

abbrev machine : Machine small
machine = record {
  system = record { files = λ f. some (1 ∷ []); position = 4; size = 9 };
  os_errno_data = pos 0;
}

abbrev questions : List FileOp
questions = ask_size ∷ reposition 6 ∷ ask_position ∷ []

linux_calls-answers_example :
    let (rets, last) = calls (linux_bodies small small_seeks (pos 3)) questions machine in
    (rets, linux_view small small_seeks (pos 3) last)
    ≡ answers questions (record { position = 4; size = 9 })
linux_calls-answers_example =
    linux_calls-answers small small_seeks (pos 3) questions machine (tt, (omega arith, (tt, tt)))
      (omega arith) refl

record Night : Type 0 where
  asleep : ℕ
  signals : ℕ

abbrev accepts : Timespec → Bool
accepts t = leb_ℤ (pos 0) t.tv_sec && (leb_ℤ (pos 0) t.tv_nsec && ltb_ℤ t.tv_nsec (pos 1000000000))

-- A signal interrupts at once; with none left the sleep is as long as asked for.
abbrev doze : Timespec → Night → Slept × Night
doze t s =
    if accepts t
    then (elim s.signals [
      | zero ↦ (completed, record s { asleep = s.asleep + duration t })
      | suc k ↦ (interrupted t, record s { signals = k })
    ])
    else (refused, s)

abbrev night : Sleeper
night = record { State = Night; nanosleep = doze }

accepts_valid : (t : Timespec) → IsValid t → accepts t ≡ true
accepts_valid t valid = ground arith

accepts_invalid : (t : Timespec) → ¬ IsValid t → accepts t ≡ false
accepts_invalid t invalid = ground arith

abbrev left_of : Timespec → Slept → Timespec
left_of t (interrupted left) = left
left_of t _ = t

interrupted-not-completed : (t : Timespec) → ¬ (interrupted t ≡ completed)
interrupted-not-completed t e = cc e

doze-zero :
    (t : Timespec) (a : ℕ)
    → IsValid t
    → doze t (record { asleep = a; signals = 0 })
      ≡ (completed, record { asleep = a + duration t; signals = 0 })
doze-zero t a valid = rw (accepts_valid t valid) refl

doze-suc :
    (t : Timespec) (a k : ℕ)
    → IsValid t
    → doze t (record { asleep = a; signals = suc k })
      ≡ (interrupted t, record { asleep = a; signals = k })
doze-suc t a k valid = rw (accepts_valid t valid) refl

doze-completed_from :
    (t : Timespec) (a k : ℕ)
    → IsValid t
    → (doze t (record { asleep = a; signals = k })).0 ≡ completed
    → a + duration t ≤ (doze t (record { asleep = a; signals = k })).1.asleep
doze-completed_from t a zero valid e = rw (doze-zero t a valid) (omega arith)
doze-completed_from t a (suc k) valid e =
    absurd (
      interrupted-not-completed t
        (sym (ap (λ (r : Slept × Night). r.0) (doze-suc t a k valid)) ∙ e))

doze-interrupted_from :
    (t left : Timespec) (a k : ℕ)
    → IsValid t
    → (doze t (record { asleep = a; signals = k })).0 ≡ interrupted left
    → IsValid left
      × (a + duration t ≤ (doze t (record { asleep = a; signals = k })).1.asleep + duration left)
      × ((doze t (record { asleep = a; signals = k })).1.signals < k)
doze-interrupted_from t left a zero valid e =
    absurd (
      interrupted-not-completed left
        (sym e ∙ ap (λ (r : Slept × Night). r.0) (doze-zero t a valid)))
doze-interrupted_from t left a (suc k) valid e =
    let same : t ≡ left =
      ap (left_of t) (sym (ap (λ (r : Slept × Night). r.0) (doze-suc t a k valid)) ∙ e) in
    rw (doze-suc t a k valid)
      (subst (λ u. IsValid u) same valid, omega (arith, ap (λ u. duration u) same), omega arith)

doze-not_refused_from :
    (t : Timespec) (a k : ℕ)
    → IsValid t
    → ¬ ((doze t (record { asleep = a; signals = k })).0 ≡ refused)
doze-not_refused_from t a zero valid e =
    cc (e, ap (λ (r : Slept × Night). r.0) (doze-zero t a valid))
doze-not_refused_from t a (suc k) valid e =
    cc (e, ap (λ (r : Slept × Night). r.0) (doze-suc t a k valid))

doze-completed :
    (t : Timespec) (s : Night)
    → IsValid t
    → (doze t s).0 ≡ completed
    → s.asleep + duration t ≤ (doze t s).1.asleep
doze-completed t s valid e = doze-completed_from t s.asleep s.signals valid e

doze-interrupted :
    (t left : Timespec) (s : Night)
    → IsValid t
    → (doze t s).0 ≡ interrupted left
    → IsValid left
      × (s.asleep + duration t ≤ (doze t s).1.asleep + duration left)
      × ((doze t s).1.signals < s.signals)
doze-interrupted t left s valid e = doze-interrupted_from t left s.asleep s.signals valid e

doze-not_refused : (t : Timespec) (s : Night) → IsValid t → ¬ ((doze t s).0 ≡ refused)
doze-not_refused t s valid = doze-not_refused_from t s.asleep s.signals valid

doze-invalid : (t : Timespec) (s : Night) → ¬ IsValid t → (doze t s).0 ≡ refused
doze-invalid t s invalid = rw (accepts_invalid t invalid) refl

abbrev night_laws : SleepLaws night
night_laws = record {
  slept = λ s. s.asleep;
  pending = λ s. s.signals;
  on_completed = doze-completed;
  on_interrupted = doze-interrupted;
  not_refused = doze-not_refused;
  on_invalid = doze-invalid;
}

abbrev evening : Night
evening = record { asleep = 0; signals = 2 }

os_sleep_long_enough_example :
    (s' : Night) × (os_sleep night 3 (pos 1500) evening ≡ some s')
    × (0 + 1500 * 1000000 ≤ s'.asleep)
os_sleep_long_enough_example = os_sleep_long_enough night night_laws 1500 3 evening (omega arith)
