-- ===== src/Tests/Values.antt =====
-- src/numbers.c on a heap with one float, which an integer stands in for.
use feline.Prelude.{refl, arith, [], ◌∷◌, ℤ, pos, leb_ℤ, ltb_ℤ}
use feline.Cell.{typecode_float}
use feline.Heap.{Object, float, Heap, bump_allocator}
use feline.Libc.{no_error, print_decimal}
use feline.Numbers.{Floats}
use feline.Numbers.Typed.{combine, divide, apply}
use feline.Numbers.Typed.Value.{IsTyped, IsSound, cons-IsTyped}
use feline.Numbers.Typed.Sound.{apply-IsSound}

abbrev whole_floats : Floats
whole_floats = record {
  F = ℤ;
  of_int = λ n. n;
  to_int = λ d. d;
  strtod = λ s. record { value = pos 0; end = 0; errno = no_error };
  print_17g = print_decimal;
  pi = pos 3;
  less = ltb_ℤ;
  less_equal = leb_ℤ;
  plus = λ a b. a;
  minus = λ a b. a;
  times = λ a b. a;
  over = λ a b. a;
  negate = λ a. a;
  floor = λ a. a;
  trunc = λ a. a;
  sqrt = λ a. a;
  pow = λ a b. a;
  sin = λ a. a;
}

abbrev seven : Object ℤ
seven = float (record { header = typecode_float; d = pos 7 })

abbrev one_float : Heap ℤ
one_float = (32, seven) ∷ []

one_float-IsTyped : IsTyped one_float
one_float-IsTyped =
    cons-IsTyped [] 32 seven refl (refl, omega arith, omega arith) (λ p o e. absurd (cc e))

apply-IsSound_example :
    IsSound whole_floats bump_allocator one_float
      (apply whole_floats bump_allocator (combine divide 32 32) one_float)
apply-IsSound_example =
    apply-IsSound whole_floats bump_allocator (combine divide 32 32) one_float one_float-IsTyped (
      (record { header = typecode_float; d = pos 7 }, refl),
      (record { header = typecode_float; d = pos 7 }, refl),
    )
