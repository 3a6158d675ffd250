-- ===== src/Tests/Numbers.antt =====
-- src/numbers.c on concrete texts. The floats are stood in for by integers.
use feline.Prelude.{
  codes, ℕ, ◌<◌, ◌≡◌, ◌↔◌, ◌⊎◌, refl, arith, true, [], ◌∷◌, ◌++◌, get_or, ℤ, pos, negsuc, leb_ℤ,
  ltb_ℤ,
}
use feline.Cell.{IsFixnum, make_fixnum, f_value, is_fixnum, fixnum_value, int64_min}
use feline.Cell.Laws.{make_fixnum_exact}
use feline.Heap.{Heap, done, bump_allocator}
use feline.Libc.{no_error, print_decimal, strtol}
use feline.Libc.Scan.{minus, plus}
use feline.Numbers.{
  Floats, c_string_to_float, c_string_to_integer, c_decimal_to_number, c_fixnum_to_base,
  c_float_floor, fixnum_or_int64,
}
use feline.Numbers.Meaning.{integer, Returns, Reads}
use feline.Numbers.Text.{c_string_to_integer-numeral}
use feline.Numbers.Decimal.{numeral_byte, c_decimal_to_number-float, c_decimal_to_number-numeral}
use feline.Numbers.RoundTrip.{c_string_to_integer-c_fixnum_to_base}
use feline.Numbers.Reader.{c_decimal_to_number-c_fixnum_to_base}
use feline.Numbers.Rounding.{Rounds, c_float_floor_lem}

abbrev whole_floats : Floats
whole_floats = record {
  F = ℤ;
  of_int = λ n. n;
  to_int = λ d. d;
  strtod = λ s. record { value = pos 0; end = 0; errno = no_error };
  print_17g = print_decimal;
  pi = pos 3;
  less = ltb_ℤ;
  less_equal = leb_ℤ;
  plus = λ a b. a;
  minus = λ a b. a;
  times = λ a b. a;
  over = λ a b. a;
  negate = λ a. a;
  floor = λ a. a;
  trunc = λ a. a;
  sqrt = λ a. a;
  pow = λ a b. a;
  sin = λ a. a;
}

abbrev empty_heap : Heap ℤ
empty_heap = []

integer_run :
    c_string_to_integer whole_floats bump_allocator (codes "-42" ++ 0 ∷ []) 3 10 empty_heap
    ≡ done (negsuc 82) []
unfolding c_string_to_integer fixnum_or_int64 make_fixnum strtol
integer_run = refl

make_fixnum_exact_example :
    (is_fixnum (make_fixnum (negsuc 4)) ≡ true)
    × ((fixnum_value (make_fixnum (negsuc 4)) ≡ negsuc 4) ↔ IsFixnum (negsuc 4))
make_fixnum_exact_example = make_fixnum_exact (negsuc 4) (omega arith)

c_string_to_integer-numeral_example :
    Reads whole_floats bump_allocator empty_heap
      (negsuc 254)
      (done f_value empty_heap)
      (c_string_to_integer whole_floats bump_allocator (codes "-fF" ++ 0 ∷ []) 3 16 empty_heap)
c_string_to_integer-numeral_example =
    c_string_to_integer-numeral whole_floats bump_allocator 16 minus b'f' (codes "F") [] empty_heap
      (omega arith) (omega arith) (omega arith)

c_decimal_to_number-numeral_example :
    Reads whole_floats bump_allocator empty_heap
      (pos 307)
      (c_string_to_float whole_floats bump_allocator (codes "+307" ++ 0 ∷ []) 4 empty_heap)
      (c_decimal_to_number whole_floats bump_allocator (codes "+307" ++ 0 ∷ []) 4 empty_heap)
c_decimal_to_number-numeral_example =
    c_decimal_to_number-numeral whole_floats bump_allocator plus b'3' (codes "07") [] empty_heap
      (omega arith) (omega arith)

not_numeral : ¬ ((j : ℕ) → j < 3 → numeral_byte 3 j (get_or (codes "1.5") j 0) ≡ true)
not_numeral all = cc (all 1 (omega arith))

c_decimal_to_number-float_example :
    c_decimal_to_number whole_floats bump_allocator (codes "1.5") 3 empty_heap
    ≡ c_string_to_float whole_floats bump_allocator (codes "1.5") 3 empty_heap
c_decimal_to_number-float_example =
    c_decimal_to_number-float whole_floats bump_allocator (codes "1.5") 3 empty_heap (omega arith)
      (omega arith) (omega arith) not_numeral

printed_room : (c_fixnum_to_base (negsuc 6) (pos 10) 32).1 < 32
unfolding c_fixnum_to_base
printed_room = omega arith

c_string_to_integer-c_fixnum_to_base_example :
    let (text, len) = c_fixnum_to_base (negsuc 6) (pos 10) 32 in
    let result = c_string_to_integer whole_floats bump_allocator text len 10 empty_heap in
    Returns whole_floats bump_allocator empty_heap (integer (negsuc 6)) result
    × ((¬ IsFixnum (negsuc 6)) ⊎ (result ≡ done (make_fixnum (negsuc 6)) empty_heap))
c_string_to_integer-c_fixnum_to_base_example =
    c_string_to_integer-c_fixnum_to_base whole_floats bump_allocator (negsuc 6) (pos 10) 32
      empty_heap (omega arith) refl printed_room

c_decimal_to_number-c_fixnum_to_base_example :
    let (text, len) = c_fixnum_to_base (negsuc 6) (pos 10) 32 in
    let result = c_decimal_to_number whole_floats bump_allocator text len empty_heap in
    Returns whole_floats bump_allocator empty_heap (integer (negsuc 6)) result
    × ((¬ IsFixnum (negsuc 6)) ⊎ (result ≡ done (make_fixnum (negsuc 6)) empty_heap))
c_decimal_to_number-c_fixnum_to_base_example =
    c_decimal_to_number-c_fixnum_to_base whole_floats bump_allocator (negsuc 6) (pos 10) 32
      empty_heap (omega arith) refl (omega arith) printed_room

printed_hex_room : (c_fixnum_to_base (negsuc 0) (pos 16) 32).1 < 32
unfolding c_fixnum_to_base
printed_hex_room = omega arith

c_float_floor_lem_example : Rounds whole_floats bump_allocator int64_min 48 empty_heap (
    c_float_floor whole_floats bump_allocator 48
      (record { header = pos 17; d = int64_min })
      empty_heap)
c_float_floor_lem_example =
    c_float_floor_lem whole_floats bump_allocator 48 (record { header = pos 17; d = int64_min })
      empty_heap (omega arith)
