-- ===== src/Os/Windows/DateTime/Length.antt =====
-- The length of the text that `os_date_time` of src/os.c writes.
use feline.Prelude.{
  ℕ, zero, suc, ◌+◌, ◌*◌, get_elem?, ◌^◌, ◌≤◌, ◌<◌, ◌≡◌, refl, arith, List, [], ◌∷◌, ◌++◌, length,
  length-append, some,
}
use feline.Libc.{print_padded}
use feline.Libc.Print.{print_padded-length}
use feline.Os.Windows.DateTime.{SystemTime, months, month_name, formatted, os_date_time}

-- The fields after the month.
abbrev pub IsBelow : ℕ → ℕ → SystemTime → Type 0
IsBelow field millis lt =
    (lt.day < field)
    × (lt.hour < field)
    × (lt.minute < field)
    × (lt.second < field)
    × (lt.milliseconds < millis)

-- Names of three letters.
abbrev AreShort : List (List ℕ) → Type 0
AreShort [] = Unit {0}
AreShort (name ∷ names) = (length name ≡ 3) × AreShort names

get_elem?-AreShort :
    (names : List (List ℕ)) (i : ℕ)
    → AreShort names
    → i < length names
    → (name : List ℕ) × (get_elem? names i ≡ some name) × (length name ≡ 3)
get_elem?-AreShort [] i short inside = absurd (omega arith)
get_elem?-AreShort (name ∷ names) zero (e, short) inside = (name, refl, e)
get_elem?-AreShort (name ∷ names) (suc i) (e, short) inside =
    get_elem?-AreShort names i short (omega arith)

month_name-length :
    (month : ℕ)
    → 1 ≤ month
    → month ≤ 12
    → (name : List ℕ) × (month_name month ≡ some name) × (length name ≡ 3)
month_name-length zero lo hi = absurd (omega arith)
month_name-length (suc before) lo hi =
    get_elem?-AreShort months before
      (
        refl,
        (refl, (refl, (refl, (refl, (refl, (refl, (refl, (refl, (refl, (refl, (refl, tt))))))))))),
      )
      (omega arith)

-- The length of a text with one character after it and a second text.
length-joined : (s t : List ℕ) (c : ℕ) → length (s ++ (c ∷ t)) ≡ length s + length t + 1
length-joined s t c = omega (arith, length-append s (c ∷ t))

formatted-length :
    (name : List ℕ) (lt : SystemTime)
    → length (formatted name lt)
      ≡ length name
        + length (print_padded 2 lt.day)
        + length (print_padded 2 lt.hour)
        + length (print_padded 2 lt.minute)
        + length (print_padded 2 lt.second)
        + length (print_padded 3 lt.milliseconds)
        + 5
formatted-length name lt =
    let millis = print_padded 3 lt.milliseconds in
    let second = print_padded 2 lt.second ++ (b'.' ∷ millis) in
    let minute = print_padded 2 lt.minute ++ (b':' ∷ second) in
    let hour = print_padded 2 lt.hour ++ (b':' ∷ minute) in
    let day = print_padded 2 lt.day ++ (b' ' ∷ hour) in
    let whole : length (formatted name lt) ≡ length name + length day + 1 =
      length-joined name day b' ' in
    omega (
      arith,
      whole,
      length-joined (print_padded 2 lt.day) hour b' ',
      length-joined (print_padded 2 lt.hour) minute b':',
      length-joined (print_padded 2 lt.minute) second b':',
      length-joined (print_padded 2 lt.second) millis b'.',
    )

-- For a month from 1 to 12, milliseconds of at most `m` digits, which is 3 or more, and other fields of at most `w`, which
-- is 2 or more, `os_date_time` writes between 20 and 9 + 4 * w + m bytes with the null: always 20 for the fields of a
-- true time, and at most 34 for any fields of 16 bits, where its caller has room for 256.
pub os_date_time-length :
    (w m : ℕ) (lt : SystemTime)
    → 2 ≤ w
    → 3 ≤ m
    → 1 ≤ lt.month
    → lt.month ≤ 12
    → IsBelow (10 ^ w) (10 ^ m) lt
    → (text : List ℕ) × (os_date_time lt ≡ some text)
      × (20 ≤ length text)
      × (length text ≤ 9 + 4 * w + m)
unfolding os_date_time
os_date_time-length w m lt two three lo hi (day, hour, minute, second, millis) =
    let (name, e, named) = month_name-length lt.month lo hi in
    let text = formatted name lt ++ (0 ∷ []) in
    let one : 1 ≤ w = omega arith in
    let (day_lo, day_hi) = print_padded-length 2 w lt.day one day two in
    let (hour_lo, hour_hi) = print_padded-length 2 w lt.hour one hour two in
    let (minute_lo, minute_hi) = print_padded-length 2 w lt.minute one minute two in
    let (second_lo, second_hi) = print_padded-length 2 w lt.second one second two in
    let (millis_lo, millis_hi) =
      print_padded-length 3 m lt.milliseconds (omega arith) millis three in
    let whole = length-joined (formatted name lt) [] 0 in
    let parts = formatted-length name lt in
    (
      text,
      rw (os_date_time, e) refl,
      omega (arith, whole, parts, named),
      omega (arith, whole, parts, named),
    )
