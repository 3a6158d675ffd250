-- ===== src/Numbers/Decimal.antt =====
-- `c_decimal_to_number`: which texts go to `strtol`, and what comes back.
use feline.Prelude.{
  ℕ, zero, suc, ◌+◌, ◌^◌, ◌≤◌, ◌<◌, ◌≡◌, ◌≢◌, ◌↔◌, ◌⊎◌, refl, ap, sym, ◌∙◌, arith, Bool, true,
  false, not, ◌&&◌, ◌||◌, Bool-cases, inl, inr, ◌==◌, if◌then◌else◌, some, List, [], ◌∷◌, ◌++◌,
  length, length-append, get_elem?, get_or, get_elem?-eq-get_or, ℤ,
}
use feline.Heap.{Heap, Allocator}
use feline.Libc.{no_error, erange, Conversion, strtol}
use feline.Libc.Scan.{
  AreDigits, numeral_value, Sign, unsigned, plus, minus, sign_text, strtol_numeral,
}
use feline.Numbers.{
  Floats, is_digit, loop_rounds, fixnum_or_int64, c_string_to_float, decimal_to_number_from,
  maybe_integer_loop, c_decimal_to_number,
}
use feline.Numbers.Meaning.{Reads, Reads_lem}
use feline.Numbers.Text.{signed_value, clamp_fits, clamp_overflows, length_numeral}

lt-suc-cases : (j i : ℕ) → j < suc i → (j < i) ⊎ (j ≡ i)
lt-suc-cases j i h = omega arith

-- A byte that may stand at index `j` of an integer's text of length `n`.
abbrev pub numeral_byte : ℕ → ℕ → ℕ → Bool
numeral_byte n j c = is_digit c || (j == 0 && not (n == 1) && (c == b'-' || c == b'+'))

loop_step :
    (s : List ℕ) (n i c : ℕ)
    → get_elem? s i ≡ some c
    → maybe_integer_loop s n (suc i)
      ≡ (if numeral_byte n i c then maybe_integer_loop s n i else some false)
unfolding maybe_integer_loop
loop_step s n i c e = ground arith

-- The loop reads inside the text, and finds out whether each of its first `i` bytes may stand there.
pub maybe_integer_loop_lem :
    (s : List ℕ) (n i : ℕ)
    → i ≤ length s
    → (b : Bool) × (maybe_integer_loop s n i ≡ some b)
      × ((b ≡ true) ↔ ((j : ℕ) → j < i → numeral_byte n j (get_or s j 0) ≡ true))
maybe_integer_loop_lem s n zero h =
    (true, unfold maybe_integer_loop in refl, (λ e j lt. absurd (omega arith), λ all. refl))
maybe_integer_loop_lem s n (suc i) h =
    let (b, rest, exact) = maybe_integer_loop_lem s n i (omega arith) in
    let step = loop_step s n i (get_or s i 0) (get_elem?-eq-get_or s i 0 (omega arith)) in
    elim (Bool-cases (numeral_byte n i (get_or s i 0))) [
      | inl good ↦ (
        b,
        step ∙ ap (λ t. if t then maybe_integer_loop s n i else some false) good ∙ rest,
        (
          λ e j lt. elim (lt-suc-cases j i lt) [
            | inl below ↦ exact.0 e j below
            | inr same ↦ rw same good
          ],
          λ all. exact.1 (λ j lt. all j (omega arith)),
        ),
      )
      | inr bad ↦ (
        false,
        step ∙ ap (λ t. if t then maybe_integer_loop s n i else some false) bad,
        (λ e. cc, λ all. sym bad ∙ all i (omega arith)),
      )
    ]

digits-is_digit :
    (ds rest : List ℕ) (j : ℕ)
    → AreDigits 10 ds
    → j < length ds
    → is_digit (get_or (ds ++ rest) j 0) ≡ true
digits-is_digit [] rest j h lt = absurd (omega arith)
digits-is_digit (d ∷ ds) rest zero h lt = ground arith
digits-is_digit (d ∷ ds) rest (suc j) h lt = digits-is_digit ds rest j h.1 (omega arith)

numeral_byte-digit : (n j c : ℕ) → is_digit c ≡ true → numeral_byte n j c ≡ true
numeral_byte-digit n j c h = ground arith

numeral_bytes :
    (g : Sign) (d : ℕ) (ds rest : List ℕ)
    → AreDigits 10 (d ∷ ds)
    → let text = sign_text g ++ d ∷ ds in
      (j : ℕ) → j < length text → numeral_byte (length text) j (get_or (text ++ rest) j 0) ≡ true
numeral_bytes unsigned d ds rest h j lt =
    numeral_byte-digit (suc (length ds)) j (get_or (d ∷ ds ++ rest) j 0)
      (digits-is_digit (d ∷ ds) rest j h lt)
numeral_bytes plus d ds rest h zero lt = ground arith
numeral_bytes plus d ds rest h (suc j) lt =
    numeral_byte-digit (suc (suc (length ds))) (suc j) (get_or (d ∷ ds ++ rest) j 0)
      (digits-is_digit (d ∷ ds) rest j h (omega arith))
numeral_bytes minus d ds rest h zero lt = ground arith
numeral_bytes minus d ds rest h (suc j) lt =
    numeral_byte-digit (suc (suc (length ds))) (suc j) (get_or (d ∷ ds ++ rest) j 0)
      (digits-is_digit (d ∷ ds) rest j h (omega arith))

module _ (fl : Floats) (al : Allocator fl.F) where
  open fl use {F}

  decimal_scanned :
      (s : List ℕ) (n : ℕ) (b : Bool) (h : Heap F)
      → n ≢ 0
      → n < 2 ^ 31
      → maybe_integer_loop s n n ≡ some b
      → c_decimal_to_number fl al s n h ≡ decimal_to_number_from fl al b s n h
  unfolding c_decimal_to_number
  decimal_scanned s n b h full small e =
      let rounds : loop_rounds n ≡ n = ground arith in
      let scanned = ap (maybe_integer_loop s n) rounds ∙ e in rw (scanned, ◌==◌) (ground arith)

  decimal_converted :
      (s : List ℕ) (n : ℕ) (h : Heap F) (v : ℤ)
      → strtol s 10 ≡ record { value = v; end = n; errno = no_error }
      → decimal_to_number_from fl al true s n h ≡ fixnum_or_int64 fl al v h
  unfolding decimal_to_number_from
  decimal_converted s n h v e = rw e (ground arith)

  decimal_overflowed :
      (s : List ℕ) (n : ℕ) (h : Heap F)
      → (strtol s 10).errno ≡ erange
      → decimal_to_number_from fl al true s n h ≡ c_string_to_float fl al s n h
  unfolding decimal_to_number_from
  decimal_overflowed s n h e = rw e refl

  -- A text of 1 to 2^31 - 1 bytes, all inside the buffer: unless each byte is a decimal digit, or is a
  -- sign at the front of two bytes or more, `strtol` is not asked, and the text is read as a float.
  pub c_decimal_to_number-float :
      (s : List ℕ) (n : ℕ) (h : Heap F)
      → n ≢ 0
      → n < 2 ^ 31
      → n ≤ length s
      → ¬ ((j : ℕ) → j < n → numeral_byte n j (get_or s j 0) ≡ true)
      → c_decimal_to_number fl al s n h ≡ c_string_to_float fl al s n h
  unfolding decimal_to_number_from
  c_decimal_to_number-float s n h full small inside odd =
      let (b, e, exact) = maybe_integer_loop_lem s n n inside in
      let plain : b ≡ false = elim (Bool-cases b) [
        | inl yes_ ↦ absurd (odd (exact.0 yes_))
        | inr no_ ↦ no_
      ] in
      decimal_scanned s n b h full small e ∙ ap (λ t. decimal_to_number_from fl al t s n h) plain

  -- A decimal numeral of fewer than 2^31 bytes, NUL-terminated: a number that fits a fixnum comes back
  -- as that fixnum with nothing allocated, another that fits 64 bits as a cell that stands for it, and
  -- the text of a larger one is read as a float. What was on the heap stays there in the first two
  -- cases. A number that fits no fixnum faults where `malloc` is out of memory.
  pub c_decimal_to_number-numeral :
      (g : Sign) (d : ℕ) (ds rest : List ℕ) (h : Heap F)
      → AreDigits 10 (d ∷ ds)
      → length (sign_text g ++ d ∷ ds) < 2 ^ 31
      → let s = sign_text g ++ d ∷ ds ++ 0 ∷ rest in
        let n = length (sign_text g ++ d ∷ ds) in
        Reads fl al h
          (signed_value g (numeral_value 10 0 (d ∷ ds)))
          (c_string_to_float fl al s n h)
          (c_decimal_to_number fl al s n h)
  c_decimal_to_number-numeral g d ds rest h digits small =
      let m = numeral_value 10 0 (d ∷ ds) in
      let v = signed_value g m in
      let s = sign_text g ++ d ∷ ds ++ 0 ∷ rest in
      let n = length (sign_text g ++ d ∷ ds) in
      let end = length (sign_text g) + length (d ∷ ds) in
      let same_end = length_numeral g d ds in
      let read = strtol_numeral 10 g d ds rest (omega arith) (omega arith) digits in
      let room : n ≤ length s =
        omega (arith, length-append {0} (sign_text g ++ d ∷ ds) (0 ∷ rest)) in
      let (b, e, exact) = maybe_integer_loop_lem s n n room in
      let scanned =
        decimal_scanned s n b h (omega (arith, same_end)) small e
        ∙ ap (λ t. decimal_to_number_from fl al t s n h)
            (exact.1 (numeral_bytes g d ds (0 ∷ rest) digits)) in
      Reads_lem fl al h v (c_string_to_float fl al s n h) (c_decimal_to_number fl al s n h)
        (λ fits.
          scanned
          ∙ decimal_converted s n h v (
              read
              ∙ clamp_fits g m end fits
              ∙ ap (λ t. record { value = v; end = t; errno = no_error }) same_end))
        (λ big.
          scanned
          ∙ decimal_overflowed s n h
              (ap (λ (c : Conversion). c.errno) read ∙ clamp_overflows g m end big))
