-- ===== src/Os/Windows/DateTime.antt =====
-- The date and the time as text: `os_date_time` of src/os.c on Windows.
pub mod Length
use feline.Prelude.{ℕ, zero, suc, List, [], ◌∷◌, ◌++◌, get_elem?, Option, none, some}
use feline.Libc.{print_padded}

-- A `SYSTEMTIME`, with fields of the type WORD.
pub record SystemTime : Type 0 where
  pub month : ℕ
  pub day : ℕ
  pub hour : ℕ
  pub minute : ℕ
  pub second : ℕ
  pub milliseconds : ℕ

abbrev pub months : List (List ℕ)
months =
    (b'J' ∷ b'a' ∷ b'n' ∷ [])
    ∷ (b'F' ∷ b'e' ∷ b'b' ∷ [])
    ∷ (b'M' ∷ b'a' ∷ b'r' ∷ [])
    ∷ (b'A' ∷ b'p' ∷ b'r' ∷ [])
    ∷ (b'M' ∷ b'a' ∷ b'y' ∷ [])
    ∷ (b'J' ∷ b'u' ∷ b'n' ∷ [])
    ∷ (b'J' ∷ b'u' ∷ b'l' ∷ [])
    ∷ (b'A' ∷ b'u' ∷ b'g' ∷ [])
    ∷ (b'S' ∷ b'e' ∷ b'p' ∷ [])
    ∷ (b'O' ∷ b'c' ∷ b't' ∷ [])
    ∷ (b'N' ∷ b'o' ∷ b'v' ∷ [])
    ∷ (b'D' ∷ b'e' ∷ b'c' ∷ [])
    ∷ []

-- "%s %02d %02d:%02d:%02d.%03d"
abbrev pub formatted : List ℕ → SystemTime → List ℕ
formatted name lt =
    let millis = print_padded 3 lt.milliseconds in
    let second = print_padded 2 lt.second ++ (b'.' ∷ millis) in
    let minute = print_padded 2 lt.minute ++ (b':' ∷ second) in
    let hour = print_padded 2 lt.hour ++ (b':' ∷ minute) in
    let day = print_padded 2 lt.day ++ (b' ' ∷ hour) in name ++ (b' ' ∷ day)

-- `months[lt.wMonth - 1]`: `none` outside the array, also where the difference is negative.
abbrev pub month_name : ℕ → Option (List ℕ)
month_name zero = none
month_name (suc before) = get_elem? months before

-- What is written to the buffer, with its terminating null.
unfoldable pub os_date_time : SystemTime → Option (List ℕ)
os_date_time lt = elim (month_name lt.month) [
  | none ↦ none
  | some name ↦ some (formatted name lt ++ (0 ∷ []))
]
