-- ===== src/Cell.antt =====
-- src/feline.h: cells (`int64_t`), fixnum tags, the truth values and the two boxed number types.
-- A cell is the integer that it holds; casts and shifts go through its 64-bit pattern.
pub mod Laws
use feline.Prelude.{
  ℕ, suc, ◌+◌, ◌-◌, ◌*◌, ◌/◌, ◌%◌, ◌^◌, ◌≤◌, Bool, ◌&&◌, ltb, leb, ◌==◌, if◌then◌else◌, ℤ, pos,
  negsuc, leb_ℤ, ◌≤ℤ◌,
}

-- The bit pattern of an `int64_t`, and the `int64_t` of a bit pattern.
abbrev pub to_word : ℤ → ℕ
to_word (pos n) = n % 2 ^ 64
to_word (negsuc n) = 2 ^ 64 - 1 - n % 2 ^ 64

abbrev pub of_word : ℕ → ℤ
of_word w = if ltb w (2 ^ 63) then pos w else negsuc (2 ^ 64 - 1 - w)

-- A number as an `int64_t`.
abbrev pub int64 : ℤ → ℤ
int64 n = of_word (to_word n)

abbrev pub int64_min : ℤ
int64_min = negsuc (2 ^ 63 - 1)

abbrev pub int64_max : ℤ
int64_max = pos (2 ^ 63 - 1)

abbrev pub IsInt64 : ℤ → Type 0
IsInt64 n = (int64_min ≤ℤ n) × (n ≤ℤ int64_max)

abbrev pub t_value : ℤ
t_value = pos 14

abbrev pub f_value : ℤ
f_value = pos 0

abbrev pub typecode_float : ℤ
typecode_float = pos 17

abbrev pub typecode_int64 : ℤ
typecode_int64 = pos 22

-- FIXNUM_TAG_BITS is 1.
abbrev pub most_positive_fixnum : ℤ
most_positive_fixnum = pos 4611686018427387903

abbrev pub most_negative_fixnum : ℤ
most_negative_fixnum = negsuc 4611686018427387903

unfoldable pub make_fixnum : ℤ → ℤ
make_fixnum n = of_word ((to_word n * 2 % 2 ^ 64 + 1) % 2 ^ 64)

-- What the Feline side does with a tagged cell: test the low bit, and shift it out (arithmetically).
abbrev pub is_fixnum : ℤ → Bool
is_fixnum c = to_word c % 2 == 1

abbrev pub fixnum_value : ℤ → ℤ
fixnum_value (pos n) = pos (n / 2)
fixnum_value (negsuc n) = negsuc (n / 2)

abbrev pub IsFixnum : ℤ → Type 0
IsFixnum n = (most_negative_fixnum ≤ℤ n) × (n ≤ℤ most_positive_fixnum)

-- `n >= MOST_NEGATIVE_FIXNUM && n <= MOST_POSITIVE_FIXNUM`
abbrev pub in_fixnum_range : ℤ → Bool
in_fixnum_range n = leb_ℤ most_negative_fixnum n && leb_ℤ n most_positive_fixnum

pub record Int64 : Type 0 where
  pub header : ℤ
  pub n : ℤ

pub record Float (F : Type 0) : Type 0 where
  pub header : ℤ
  pub d : F

-- A conversion to `int`: the low 32 bits as a signed number.
unfoldable pub int32 : ℤ → ℤ
int32 n =
    let low = to_word n % 2 ^ 32 in if ltb low (2 ^ 31) then pos low else negsuc (2 ^ 32 - 1 - low)

abbrev pub IsInt32 : ℤ → Type 0
IsInt32 n = (negsuc (2 ^ 31 - 1) ≤ℤ n) × (n ≤ℤ pos (2 ^ 31 - 1))
