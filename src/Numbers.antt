-- ===== src/Numbers.antt =====
-- src/numbers.c (and src/math.c): boxed numbers, conversions between text and numbers, and the
-- operations on floats. A function that allocates takes the heap and returns an `Outcome`; a
-- `Float *` argument is given as the object that it points to, with its address where the code
-- returns the pointer itself.
pub mod Meaning
pub mod Typed
pub mod Text
pub mod Decimal
pub mod RoundTrip
pub mod Reader
pub mod Rounding
use mathlib.Core.Option
use feline.Prelude.{
  ℕ, zero, suc, ◌+◌, ◌-◌, ◌*◌, ◌%◌, ◌^◌, Bool, true, false, not, ◌&&◌, ◌||◌, ltb, leb, ◌==◌,
  if◌then◌else◌, Option, none, some, List, [], ◌∷◌, length, get_elem?, ℤ, pos, negsuc, ltb_ℤ, leb_ℤ,
  eqb_ℤ,
}
use feline.Cell.{
  Int64, Float, t_value, f_value, typecode_float, typecode_int64, make_fixnum, in_fixnum_range,
  int64_min, int64_max,
}
use feline.Heap.{Object, int64, float, Heap, Allocator, Outcome, done, fault}
use feline.Libc.{
  Errno, no_error, erange, einval, Conversion, strtol, print_decimal, print_hex, snprintf,
}

-- What `strtod` returns, the offset that it stores through `endptr`, and `errno`, set to 0 before.
pub record FloatConversion (F : Type 0) : Type 0 where
  pub value : F
  pub end : ℕ
  pub errno : Errno

-- `double`, its arithmetic, and the functions of the C library on it: a parameter, since nothing of it
-- is in the sources.
pub record Floats : Type 1 where
  pub F : Type 0
  pub of_int : ℤ → F
  pub to_int : F → ℤ
  pub strtod : List ℕ → FloatConversion F
  pub print_17g : F → List ℕ
  pub pi : F
  pub less : F → F → Bool
  pub less_equal : F → F → Bool
  pub plus : F → F → F
  pub minus : F → F → F
  pub times : F → F → F
  pub over : F → F → F
  pub negate : F → F
  pub floor : F → F
  pub trunc : F → F
  pub sqrt : F → F
  pub pow : F → F → F
  pub sin : F → F

abbrev pub is_no_error : Errno → Bool
is_no_error no_error = true
is_no_error _ = false

abbrev pub is_erange : Errno → Bool
is_erange erange = true
is_erange _ = false

abbrev pub is_digit : ℕ → Bool
is_digit c = leb b'0' c && leb c b'9'

-- `int i = length`: the low 32 bits as a signed number. The loop makes no round where it is negative.
abbrev pub loop_rounds : ℕ → ℕ
loop_rounds n = let low = n % 2 ^ 32 in if ltb low (2 ^ 31) then low else 0

-- The loop of `c_decimal_to_number`, from `i` down: the final `maybe_integer`, or `none` for a read
-- outside the text.
unfoldable pub maybe_integer_loop : List ℕ → ℕ → ℕ → Option Bool
maybe_integer_loop s n zero = some true
maybe_integer_loop s n (suc i) =
    let rest = maybe_integer_loop s n i in
    elim (get_elem? s i) [
      | none ↦ none
      | some c ↦
          if is_digit c
          then rest
          else if ltb 0 i || n == 1 || (not (c == b'-') && not (c == b'+'))
          then some false
          else rest
    ]

abbrev pub truth : Bool → ℤ
truth b = if b then t_value else f_value

module _ (fl : Floats) (al : Allocator fl.F) where
  open fl use {
    F, of_int, to_int, strtod, print_17g, pi, less, less_equal, plus, minus, times, over, negate,
    floor, trunc, sqrt, pow, sin,
  }

  -- The block is written to whatever `malloc` returned, with no test for NULL.
  box : Object F → Heap F → Outcome F
  box o h = elim (al.malloc h) [ none ↦ fault | some p ↦ done (pos p) ((p, o) ∷ h) ]

  unfoldable pub make_float : F → Heap F → Outcome F
  unfolding box
  make_float d h = box (float (record { header = typecode_float; d = d })) h

  unfoldable pub make_int64 : ℤ → Heap F → Outcome F
  unfolding box
  make_int64 n h = box (int64 (record { header = typecode_int64; n = n })) h

  -- The end of `c_string_to_integer` and of the integer branch of `c_decimal_to_number`.
  unfoldable pub fixnum_or_int64 : ℤ → Heap F → Outcome F
  unfolding make_int64
  fixnum_or_int64 n h = if in_fixnum_range n then done (make_fixnum n) h else make_int64 n h

  unfoldable pub c_raw_int64_to_float : ℤ → Heap F → Outcome F
  unfolding make_float
  c_raw_int64_to_float n h = make_float (of_int n) h

  -- A `uint64_t` argument.
  unfoldable pub c_raw_uint64_to_float : ℕ → Heap F → Outcome F
  unfolding make_float
  c_raw_uint64_to_float n h = make_float (of_int (pos n)) h

  -- What is left in the buffer; the address of the buffer is returned.
  unfoldable pub c_float_to_string : ℕ → Float F → List ℕ
  c_float_to_string size p = (snprintf size (print_17g p.d)).0

  unfoldable pub c_string_to_float : List ℕ → ℕ → Heap F → Outcome F
  c_string_to_float s n h =
      if n == 0
      then done f_value h
      else let r = strtod s in
        if not (is_no_error r.errno) || not (r.end == n)
        then done f_value h
        else make_float r.value h

  unfoldable pub c_string_to_integer : List ℕ → ℕ → ℕ → Heap F → Outcome F
  c_string_to_integer s n base h =
      if n == 0
      then done f_value h
      else let r = strtol s base in
        if not (is_no_error r.errno) || not (r.end == n)
        then done f_value h
        else fixnum_or_int64 r.value h

  -- The part of `c_decimal_to_number` behind the loop.
  unfoldable pub decimal_to_number_from : Bool → List ℕ → ℕ → Heap F → Outcome F
  decimal_to_number_from maybe_integer s n h =
      if maybe_integer
      then (let r = strtol s 10 in
          if is_erange r.errno
          then c_string_to_float s n h
          else if not (is_no_error r.errno) || not (r.end == n)
          then done f_value h
          else fixnum_or_int64 r.value h)
      else c_string_to_float s n h

  unfoldable pub c_decimal_to_number : List ℕ → ℕ → Heap F → Outcome F
  c_decimal_to_number s n h =
      if n == 0 then done f_value h else elim (maybe_integer_loop s n (loop_rounds n)) [
        | none ↦ fault
        | some maybe_integer ↦ decimal_to_number_from maybe_integer s n h
      ]

  unfoldable pub c_pi : Heap F → Outcome F
  unfolding make_float
  c_pi h = make_float pi h

  unfoldable pub c_float_float_lt : Float F → Float F → ℤ
  c_float_float_lt p1 p2 = truth (less p1.d p2.d)

  unfoldable pub c_float_float_le : Float F → Float F → ℤ
  c_float_float_le p1 p2 = truth (less_equal p1.d p2.d)

  unfoldable pub c_float_float_gt : Float F → Float F → ℤ
  c_float_float_gt p1 p2 = truth (less p2.d p1.d)

  unfoldable pub c_float_float_ge : Float F → Float F → ℤ
  c_float_float_ge p1 p2 = truth (less_equal p2.d p1.d)

  unfoldable pub c_float_float_plus : Float F → Float F → Heap F → Outcome F
  unfolding make_float
  c_float_float_plus p1 p2 h = make_float (plus p1.d p2.d) h

  unfoldable pub c_float_float_minus : Float F → Float F → Heap F → Outcome F
  unfolding make_float
  c_float_float_minus p1 p2 h = make_float (minus p1.d p2.d) h

  unfoldable pub c_float_float_multiply : Float F → Float F → Heap F → Outcome F
  unfolding make_float
  c_float_float_multiply p1 p2 h = make_float (times p1.d p2.d) h

  unfoldable pub c_float_float_divide : Float F → Float F → Heap F → Outcome F
  unfolding make_float
  c_float_float_divide p1 p2 h = make_float (over p1.d p2.d) h

  -- `p` is the address of the argument, and `v` what it points to.
  unfoldable pub c_float_floor : ℕ → Float F → Heap F → Outcome F
  unfolding make_int64
  c_float_floor p v h =
      let n = to_int (floor v.d) in
      if in_fixnum_range n
      then done (make_fixnum n) h
      else if ltb_ℤ int64_min n && ltb_ℤ n int64_max
      then make_int64 n h
      else done (pos p) h

  unfoldable pub c_float_truncate : ℕ → Float F → Heap F → Outcome F
  unfolding make_int64
  c_float_truncate p v h =
      let n = to_int (trunc v.d) in
      if in_fixnum_range n
      then done (make_fixnum n) h
      else if ltb_ℤ int64_min n && ltb_ℤ n int64_max
      then make_int64 n h
      else done (pos p) h

  unfoldable pub c_float_negate : Float F → Heap F → Outcome F
  unfolding make_float
  c_float_negate p h = make_float (negate p.d) h

  unfoldable pub c_float_sqrt : Float F → Heap F → Outcome F
  unfolding make_float
  c_float_sqrt p h = make_float (sqrt p.d) h

  unfoldable pub c_float_expt : Float F → Float F → Heap F → Outcome F
  unfolding make_float
  c_float_expt base power h = make_float (pow base.d power.d) h

  -- src/math.c
  unfoldable pub c_float_sin : Float F → Heap F → Outcome F
  unfolding make_float
  c_float_sin p h = make_float (sin p.d) h

-- What is left in the buffer, and the length of the text.
unfoldable pub c_fixnum_to_base : ℤ → ℤ → ℕ → List ℕ × ℕ
unfolding print_hex print_decimal
c_fixnum_to_base n base size =
    if eqb_ℤ base (pos 16) then snprintf size (print_hex n) else snprintf size (print_decimal n)
