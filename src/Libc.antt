-- ===== src/Libc.antt =====
-- What src/numbers.c uses of the C library on text: `strtol` and the `%ld` and `%lx` of `snprintf`,
-- as the C standard describes them, for the 64-bit `long` of x86-64 Linux. A text is a list of bytes.
pub mod Scan
pub mod Print
use mathlib.Core.List.{foldl}
use feline.Prelude.{
  ℕ, zero, suc, ◌+◌, ◌-◌, ◌*◌, ◌/◌, ◌%◌, ◌^◌, Bool, true, false, not, ◌&&◌, ◌||◌, ltb, leb, ◌==◌,
  if◌then◌else◌, List, [], ◌∷◌, ◌++◌, length, take, replicate, ℤ, pos, negsuc, neg_ℕ,
}
use feline.Cell.{int64_min, int64_max, to_word}

pub data Errno : Type 0 where
  no_error erange einval : Errno

-- What `strtol` returns, the offset that it stores through `endptr`, and `errno`, set to 0 before.
pub record Conversion : Type 0 where
  pub value : ℤ
  pub end : ℕ
  pub errno : Errno

abbrev pub is_space : ℕ → Bool
is_space c = c == 32 || (leb 9 c && leb c 13)

-- The digit that a byte stands for in bases up to 36; 36 for a byte that stands for none.
abbrev pub digit_of : ℕ → ℕ
digit_of c =
    if leb b'0' c && leb c b'9'
    then c - b'0'
    else if leb b'a' c && leb c b'z'
    then c - b'a' + 10
    else if leb b'A' c && leb c b'Z'
    then c - b'A' + 10
    else 36

-- The digits at the front of a text, read behind the number `acc`, and how many they are.
unfoldable pub scan_digits : ℕ → ℕ → List ℕ → ℕ × ℕ
scan_digits base acc [] = (acc, 0)
scan_digits base acc (c ∷ s) =
    let (value, count) = scan_digits base (acc * base + digit_of c) s in
    if ltb (digit_of c) base then (value, count + 1) else (acc, 0)

-- White space at the front: what is behind it, and how much there is.
unfoldable pub skip_space : List ℕ → List ℕ × ℕ
skip_space [] = ([], 0)
skip_space (c ∷ s) =
    let (rest, count) = skip_space s in if is_space c then (rest, count + 1) else (c ∷ s, 0)

-- An optional sign: whether it is `-`, what is behind it, and its length.
abbrev pub take_sign : List ℕ → Bool × List ℕ × ℕ
take_sign [] = (false, [], 0)
take_sign (c ∷ s) =
    if c == b'-' then (true, s, 1) else if c == b'+' then (false, s, 1) else (false, c ∷ s, 0)

-- `0x` or `0X` before a hexadecimal digit.
abbrev pub has_hex_prefix : List ℕ → Bool
has_hex_prefix (z ∷ x ∷ d ∷ s) = z == b'0' && (x == b'x' || x == b'X') && ltb (digit_of d) 16
has_hex_prefix _ = false

abbrev pub drop_two : List ℕ → List ℕ
drop_two (a ∷ b ∷ s) = s
drop_two _ = []

abbrev pub starts_with_zero : List ℕ → Bool
starts_with_zero (c ∷ s) = c == b'0'
starts_with_zero [] = false

-- The base used, the digits to read in it, and the length of the prefix passed over.
abbrev pub take_prefix : ℕ → List ℕ → ℕ × List ℕ × ℕ
take_prefix base s =
    if (base == 0 || base == 16) && has_hex_prefix s
    then (16, drop_two s, 2)
    else if base == 0
    then (if starts_with_zero s then 8 else 10, s, 0)
    else (base, s, 0)

-- The value with its sign, clamped to `long`.
abbrev pub clamp : Bool → ℕ → ℕ → Conversion
clamp negative m end =
    if negative
    then (if leb m (2 ^ 63)
        then record { value = neg_ℕ m; end = end; errno = no_error }
        else record { value = int64_min; end = end; errno = erange })
    else if ltb m (2 ^ 63)
    then record { value = pos m; end = end; errno = no_error }
    else record { value = int64_max; end = end; errno = erange }

-- A base that is not 0 and not between 2 and 36 is an error, and so is a text with no digit, but the
-- second does not show in `errno`.
abbrev pub checked : ℕ → ℕ → Conversion → Conversion
checked base count found =
    if base == 1 || ltb 36 base
    then record { value = pos 0; end = 0; errno = einval }
    else if count == 0
    then record { value = pos 0; end = 0; errno = no_error }
    else found

-- What follows the sign, which ends at `offset`.
unfoldable pub convert_unsigned : ℕ → Bool → ℕ → List ℕ → Conversion
unfolding scan_digits
convert_unsigned base negative offset unsigned =
    let (used, digits, prefix) = take_prefix base unsigned in
    let (m, count) = scan_digits used 0 digits in
    checked base count (clamp negative m (offset + prefix + count))

unfoldable pub convert_signed : ℕ → List ℕ × ℕ → Conversion
unfolding convert_unsigned
convert_signed base (body, spaces) =
    let (negative, unsigned, signs) = take_sign body in
    convert_unsigned base negative (spaces + signs) unsigned

unfoldable pub strtol : List ℕ → ℕ → Conversion
unfolding skip_space convert_signed
strtol s base = convert_signed base (skip_space s)

-- The byte for a digit, in lower case.
abbrev pub digit_char : ℕ → ℕ
digit_char d = if ltb d 10 then b'0' + d else b'a' + (d - 10)

-- The digits of a number, the last one first put before `out`. One round of fuel for each digit.
unfoldable pub emit_digits : ℕ → ℕ → ℕ → List ℕ → List ℕ
emit_digits zero base n out = out
emit_digits (suc fuel) base n out =
    let rest = emit_digits fuel base (n / base) (digit_char (n % base) ∷ out) in
    if n == 0 then out else rest

-- 64 digits are enough for a 64-bit number in any base.
unfoldable pub print_unsigned : ℕ → ℕ → List ℕ
unfolding emit_digits
print_unsigned base n = if n == 0 then b'0' ∷ [] else emit_digits 64 base n []

-- `%ld`
unfoldable pub print_decimal : ℤ → List ℕ
unfolding print_unsigned
print_decimal (pos n) = print_unsigned 10 n
print_decimal (negsuc n) = b'-' ∷ print_unsigned 10 (suc n)

-- `%0<width>d` of a number that is not negative.
unfoldable pub print_padded : ℕ → ℕ → List ℕ
print_padded width n = let s = print_decimal (pos n) in replicate (width - length s) b'0' ++ s

-- `%lx`: the bit pattern as an unsigned number.
unfoldable pub print_hex : ℤ → List ℕ
unfolding print_unsigned
print_hex n = print_unsigned 16 (to_word n)

-- What `snprintf` leaves in a buffer of `size` bytes, and what it returns: the length of the text.
abbrev pub snprintf : ℕ → List ℕ → List ℕ × ℕ
snprintf zero text = ([], length text)
snprintf (suc room) text = (take room text ++ 0 ∷ [], length text)
