-- ===== src/Numbers/Reader.antt =====
-- The reader of numbers against the printer of integers.
use feline.Prelude.{
  ℕ, ◌^◌, ◌≤◌, ◌<◌, ◌≡◌, ◌⊎◌, ap, arith, false, List, [], ◌∷◌, ◌++◌, length, ℤ, pos, eqb_ℤ,
}
use feline.Cell.{IsInt64, IsFixnum, make_fixnum}
use feline.Heap.{Heap, Allocator, done}
use feline.Libc.{print_decimal}
use feline.Numbers.{Floats, c_decimal_to_number, c_string_to_float, c_fixnum_to_base}
use feline.Numbers.Meaning.{integer, Returns, Reads}
use feline.Numbers.Decimal.{c_decimal_to_number-numeral}
use feline.Numbers.RoundTrip.{
  IsNumeral, print_decimal-IsNumeral, printed_whole, to_base_decimal, exactly,
}

module _ (fl : Floats) (al : Allocator fl.F) where
  open fl use {F}

  decimal_numeral :
      (v : ℤ) (text : List ℕ) (h : Heap F)
      → IsNumeral 10 v text
      → length text < 2 ^ 31
      → Reads fl al h v
          (c_string_to_float fl al (text ++ 0 ∷ []) (length text) h)
          (c_decimal_to_number fl al (text ++ 0 ∷ []) (length text) h)
  decimal_numeral v text h t small =
      rw (t.value, t.spelled)
        (c_decimal_to_number-numeral fl al t.sign t.first t.others [] h t.digits
          (omega (arith, ap length t.spelled)))

  -- A 64-bit integer printed in decimal, into a buffer of at most 2^31 bytes with room for the text and its NUL, is what
  -- `c_decimal_to_number` reads from the buffer: never a float, and the fixnum itself, with nothing allocated, if the
  -- integer fits one; of the others, reading faults where `malloc` is out of memory.
  pub c_decimal_to_number-c_fixnum_to_base :
      (n base : ℤ) (size : ℕ) (h : Heap F)
      → IsInt64 n
      → eqb_ℤ base (pos 16) ≡ false
      → size ≤ 2 ^ 31
      → (c_fixnum_to_base n base size).1 < size
      → let (text, len) = c_fixnum_to_base n base size in
        let result = c_decimal_to_number fl al text len h in
        Returns fl al h (integer n) result × ((¬ IsFixnum n) ⊎ (result ≡ done (make_fixnum n) h))
  c_decimal_to_number-c_fixnum_to_base n base size h fits other bounded room =
      let text = print_decimal n in
      let e = to_base_decimal n base size other in
      let whole = printed_whole size text (c_fixnum_to_base n base size) e room in
      let short : length text < 2 ^ 31 = omega (arith, ap (λ (t : List ℕ × ℕ). t.1) whole) in
      let s = text ++ 0 ∷ [] in
      rw whole (
        exactly fl al n fits h (c_string_to_float fl al s (length text) h)
          (c_decimal_to_number fl al s (length text) h)
          (decimal_numeral n text h (print_decimal-IsNumeral n fits) short))
