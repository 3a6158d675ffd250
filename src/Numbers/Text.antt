-- ===== src/Numbers/Text.antt =====
-- Text to integers: what `c_string_to_integer` and `c_decimal_to_number` make of a numeral.
use feline.Prelude.{ℕ, ◌+◌, ◌≤◌, ◌≡◌, ◌≢◌, ap, ◌∙◌, arith, List, ◌∷◌, ◌++◌, length, ℤ, pos, neg_ℕ}
use feline.Cell.{IsInt64, f_value}
use feline.Heap.{Heap, Allocator, done}
use feline.Libc.{no_error, erange, Conversion, clamp, strtol}
use feline.Libc.Scan.{
  AreDigits, numeral_value, Sign, unsigned, plus, minus, sign_text, is_minus, strtol_numeral,
}
use feline.Numbers.{Floats, fixnum_or_int64, c_string_to_integer}
use feline.Numbers.Meaning.{Reads, Reads_lem}

abbrev pub signed_value : Sign → ℕ → ℤ
signed_value minus m = neg_ℕ m
signed_value _ m = pos m

pub clamp_fits :
    (g : Sign) (m end : ℕ)
    → IsInt64 (signed_value g m)
    → clamp (is_minus g) m end ≡ record { value = signed_value g m; end = end; errno = no_error }
clamp_fits unsigned m end h = ground arith
clamp_fits plus m end h = ground arith
clamp_fits minus m end h = ground arith

pub clamp_overflows :
    (g : Sign) (m end : ℕ)
    → ¬ IsInt64 (signed_value g m)
    → (clamp (is_minus g) m end).errno ≡ erange
clamp_overflows unsigned m end h = ground arith
clamp_overflows plus m end h = ground arith
clamp_overflows minus m end h = ground arith

pub length_numeral :
    (g : Sign) (d : ℕ) (ds : List ℕ)
    → length (sign_text g) + length (d ∷ ds) ≡ length (sign_text g ++ d ∷ ds)
length_numeral unsigned d ds = omega arith
length_numeral plus d ds = omega arith
length_numeral minus d ds = omega arith

module _ (fl : Floats) (al : Allocator fl.F) where
  open fl use {F}

  string_to_integer_converted :
      (s : List ℕ) (n base : ℕ) (h : Heap F) (v : ℤ)
      → n ≢ 0
      → strtol s base ≡ record { value = v; end = n; errno = no_error }
      → c_string_to_integer fl al s n base h ≡ fixnum_or_int64 fl al v h
  unfolding c_string_to_integer
  string_to_integer_converted s n base h v full e = rw e (ground arith)

  string_to_integer_refused :
      (s : List ℕ) (n base : ℕ) (h : Heap F)
      → (strtol s base).errno ≡ erange
      → c_string_to_integer fl al s n base h ≡ done f_value h
  unfolding c_string_to_integer
  string_to_integer_refused s n base h e = rw e (ground arith)

  -- A sign and digits of the base, all of the text, in bases 2 to 36: a number that fits a fixnum comes
  -- back as that fixnum with nothing allocated, another that fits 64 bits as a cell that stands for it,
  -- and a larger one as F_VALUE. What was on the heap stays there. A number of 64 bits that fits no fixnum faults where
  -- `malloc` is out of memory.
  pub c_string_to_integer-numeral :
      (base : ℕ) (g : Sign) (d : ℕ) (ds rest : List ℕ) (h : Heap F)
      → 2 ≤ base
      → base ≤ 36
      → AreDigits base (d ∷ ds)
      → let text = sign_text g ++ d ∷ ds in
        Reads fl al h
          (signed_value g (numeral_value base 0 (d ∷ ds)))
          (done f_value h)
          (c_string_to_integer fl al (text ++ 0 ∷ rest) (length text) base h)
  c_string_to_integer-numeral base g d ds rest h lo hi digits =
      let m = numeral_value base 0 (d ∷ ds) in
      let v = signed_value g m in
      let text = sign_text g ++ d ∷ ds in
      let end = length (sign_text g) + length (d ∷ ds) in
      let read = strtol_numeral base g d ds rest lo hi digits in
      let same_end = length_numeral g d ds in
      let full : length text ≢ 0 = omega (arith, same_end) in
      Reads_lem fl al h v (done f_value h)
        (c_string_to_integer fl al (text ++ 0 ∷ rest) (length text) base h)
        (λ fits. string_to_integer_converted (text ++ 0 ∷ rest) (length text) base h v full (
          read
          ∙ clamp_fits g m end fits
          ∙ ap (λ n. record { value = v; end = n; errno = no_error }) same_end))
        (λ big.
          string_to_integer_refused (text ++ 0 ∷ rest) (length text) base h
            (ap (λ (c : Conversion). c.errno) read ∙ clamp_overflows g m end big))
