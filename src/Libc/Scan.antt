-- ===== src/Libc/Scan.antt =====
-- `strtol` on a plain numeral: an optional sign and digits of the base, up to a byte that is no digit.
use feline.Prelude.{
  ℕ, ◌+◌, ◌*◌, ◌≤◌, ◌<◌, ◌≡◌, refl, ap, subst, ◌∙◌, arith, Bool, true, false, List, [], ◌∷◌, ◌++◌,
  length,
}
use feline.Cell.{IsInt64}
use feline.Libc.{
  Conversion, digit_of, scan_digits, skip_space, strtol, clamp, is_space, has_hex_prefix,
  take_prefix, take_sign, checked, convert_unsigned, convert_signed,
}

-- Digits of a base, and the number that they spell behind `acc`.
abbrev pub AreDigits : ℕ → List ℕ → Type 0
AreDigits base [] = Unit {0}
AreDigits base (c ∷ ds) = (digit_of c < base) × AreDigits base ds

abbrev pub numeral_value : ℕ → ℕ → List ℕ → ℕ
numeral_value base acc [] = acc
numeral_value base acc (c ∷ ds) = numeral_value base (acc * base + digit_of c) ds

pub data Sign : Type 0 where
  unsigned plus minus : Sign

abbrev pub sign_text : Sign → List ℕ
sign_text unsigned = []
sign_text plus = b'+' ∷ []
sign_text minus = b'-' ∷ []

abbrev pub is_minus : Sign → Bool
is_minus minus = true
is_minus _ = false

pub scan_digits_lem :
    (base acc : ℕ) (ds rest : List ℕ) (c : ℕ)
    → AreDigits base ds
    → base ≤ digit_of c
    → scan_digits base acc (ds ++ c ∷ rest) ≡ (numeral_value base acc ds, length ds)
unfolding scan_digits
scan_digits_lem base acc [] rest c h stop = ground arith
scan_digits_lem base acc (d ∷ ds) rest c h stop =
    ground (arith, scan_digits_lem base (acc * base + digit_of d) ds rest c h.1 stop)

-- The value of `long`, whatever the text.
clamp-IsInt64 : (negative : Bool) (m end : ℕ) → IsInt64 (clamp negative m end).value
clamp-IsInt64 negative m end = ground arith

checked-IsInt64 :
    (base count : ℕ) (found : Conversion)
    → IsInt64 found.value
    → IsInt64 (checked base count found).value
checked-IsInt64 base count found h = ground arith

convert_unsigned-IsInt64 :
    (base : ℕ) (negative : Bool) (offset : ℕ) (s : List ℕ)
    → IsInt64 (convert_unsigned base negative offset s).value
unfolding convert_unsigned
convert_unsigned-IsInt64 base negative offset s =
    let (used, digits, prefix) = take_prefix base s in
    let (m, count) = scan_digits used 0 digits in
    let end = offset + prefix + count in
    checked-IsInt64 base count (clamp negative m end) (clamp-IsInt64 negative m end)

pub strtol-IsInt64 : (s : List ℕ) (base : ℕ) → IsInt64 (strtol s base).value
unfolding strtol
strtol-IsInt64 s base =
    let (body, spaces) = skip_space s in
    let (negative, rest, signs) = take_sign body in
    convert_unsigned-IsInt64 base negative (spaces + signs) rest

skip_space_none : (c : ℕ) (s : List ℕ) → is_space c ≡ false → skip_space (c ∷ s) ≡ (c ∷ s, 0)
unfolding skip_space
skip_space_none c s h = ground arith

no_hex_prefix : (ds rest : List ℕ) → AreDigits 16 ds → has_hex_prefix (ds ++ 0 ∷ rest) ≡ false
no_hex_prefix [] [] h = refl
no_hex_prefix [] (r ∷ []) h = refl
no_hex_prefix [] (r ∷ r' ∷ rest) h = refl
no_hex_prefix (d ∷ []) [] h = refl
no_hex_prefix (d ∷ []) (r ∷ rest) h = ground arith
no_hex_prefix (d ∷ e ∷ []) rest h = ground arith
no_hex_prefix (d ∷ e ∷ f ∷ ds) rest h = ground arith

take_prefix_lem :
    (base : ℕ) (ds rest : List ℕ)
    → 2 ≤ base
    → AreDigits base ds
    → take_prefix base (ds ++ 0 ∷ rest) ≡ (base, ds ++ 0 ∷ rest, 0)
take_prefix_lem base ds rest h areDigits =
    let hex : base ≡ 16 → has_hex_prefix (ds ++ 0 ∷ rest) ≡ false =
      λ e. no_hex_prefix ds rest (subst (λ b. AreDigits b ds) e areDigits) in
    ground (arith, hex)

take_sign_none :
    (base d : ℕ) (s : List ℕ)
    → base ≤ 36
    → digit_of d < base
    → (take_sign (d ∷ s) ≡ (false, d ∷ s, 0)) × (is_space d ≡ false)
take_sign_none base d s hi h = ground arith

checked_valid :
    (base count : ℕ) (found : Conversion)
    → 2 ≤ base
    → base ≤ 36
    → 0 < count
    → checked base count found ≡ found
checked_valid base count found lo hi some_digit = ground arith

convert_unsigned_lem :
    (base : ℕ) (negative : Bool) (offset d : ℕ) (ds rest : List ℕ)
    → 2 ≤ base
    → base ≤ 36
    → AreDigits base (d ∷ ds)
    → convert_unsigned base negative offset (d ∷ ds ++ 0 ∷ rest)
      ≡ clamp negative (numeral_value base 0 (d ∷ ds)) (offset + length (d ∷ ds))
unfolding convert_unsigned
convert_unsigned_lem base negative offset d ds rest lo hi h =
    rw
      (
        take_prefix_lem base (d ∷ ds) rest lo h,
        scan_digits_lem base 0 (d ∷ ds) rest 0 h (omega arith),
      )
      (checked_valid base (length (d ∷ ds)) _ lo hi (omega arith)
        ∙ ap (clamp negative (numeral_value base 0 (d ∷ ds))) (omega arith))

-- `strtol` in bases 2 to 36 on a sign and one or more digits with a NUL behind them: it reads all of
-- them, and the value is theirs, clamped to `long`.
pub strtol_numeral :
    (base : ℕ) (g : Sign) (d : ℕ) (ds rest : List ℕ)
    → 2 ≤ base
    → base ≤ 36
    → AreDigits base (d ∷ ds)
    → strtol (sign_text g ++ d ∷ ds ++ 0 ∷ rest) base
      ≡ clamp (is_minus g) (numeral_value base 0 (d ∷ ds)) (length (sign_text g) + length (d ∷ ds))
unfolding strtol
strtol_numeral base unsigned d ds rest lo hi h =
    let (no_sign, no_space) = take_sign_none base d (ds ++ 0 ∷ rest) hi h.0 in
    ap (convert_signed base) (skip_space_none d (ds ++ 0 ∷ rest) no_space)
    ∙ ap (λ (t : Bool × List ℕ × ℕ). convert_unsigned base t.0 (0 + t.2) t.1) no_sign
    ∙ convert_unsigned_lem base false 0 d ds rest lo hi h
strtol_numeral base plus d ds rest lo hi h =
    ap (convert_signed base) (skip_space_none b'+' (d ∷ ds ++ 0 ∷ rest) refl)
    ∙ convert_unsigned_lem base false 1 d ds rest lo hi h
strtol_numeral base minus d ds rest lo hi h =
    ap (convert_signed base) (skip_space_none b'-' (d ∷ ds ++ 0 ∷ rest) refl)
    ∙ convert_unsigned_lem base true 1 d ds rest lo hi h
