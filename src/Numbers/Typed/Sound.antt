-- ===== src/Numbers/Typed/Sound.antt =====
-- Each number function of src/numbers.c and of src/math.c returns a value of the kernel.
use feline.Prelude.{
  ℕ, ◌≤◌, ◌≡◌, ◌==◌, inr, refl, arith, Bool, not, ◌&&◌, ◌||◌, some, List, length, if◌then◌else◌,
  if-Both, ltb_ℤ, ℤ, pos,
}
use feline.Cell.{Float, make_fixnum, in_fixnum_range, int64_min, int64_max}
use feline.Heap.{float, Heap, object_at, Allocator, done}
use feline.Libc.{strtol}
use feline.Numbers.{
  Floats, make_int64, is_no_error, is_erange, loop_rounds, c_raw_int64_to_float,
  c_raw_uint64_to_float, c_string_to_float, c_string_to_integer, decimal_to_number_from,
  c_decimal_to_number, c_pi, c_float_float_lt, c_float_float_le, c_float_float_gt, c_float_float_ge,
  c_float_float_plus, c_float_float_minus, c_float_float_multiply, c_float_float_divide,
  c_float_floor, c_float_truncate, c_float_negate, c_float_sqrt, c_float_expt, c_float_sin,
}
use feline.Numbers.Decimal.{maybe_integer_loop_lem}
use feline.Numbers.Typed.{
  Source, raw_int64, raw_uint64, pi, float_text, integer_text, decimal_text, Unary, floor, truncate,
  negate, sqrt, sin, Binary, lt, le, gt, ge, plus, minus, multiply, divide, expt, Operation, make,
  change, combine, float_at, apply_source, apply_unary, apply_binary, apply,
}
use feline.Numbers.Typed.Value.{
  IsTyped, as_float-some, IsSound, make_float-IsSound, make_int64-IsSound, f_value-IsSound,
  truth-IsSound, fixnum-IsSound, fixnum_or_int64-IsSound,
}

module _ (fl : Floats) (al : Allocator fl.F) where
  open fl use {F}

  string_to_float-IsSound :
      (s : List ℕ) (n : ℕ) (h : Heap F)
      → IsTyped h
      → IsSound fl al h (c_string_to_float fl al s n h)
  unfolding c_string_to_float
  string_to_float-IsSound s n h typed =
      let r = fl.strtod s in
      if-Both (IsSound fl al h) (n == 0) (f_value-IsSound fl al h typed) (
        if-Both (IsSound fl al h) (not (is_no_error r.errno) || not (r.end == n))
          (f_value-IsSound fl al h typed) (make_float-IsSound fl al r.value h typed))

  string_to_integer-IsSound :
      (s : List ℕ) (n base : ℕ) (h : Heap F)
      → IsTyped h
      → IsSound fl al h (c_string_to_integer fl al s n base h)
  unfolding c_string_to_integer
  string_to_integer-IsSound s n base h typed =
      let r = strtol s base in
      if-Both (IsSound fl al h) (n == 0) (f_value-IsSound fl al h typed) (
        if-Both (IsSound fl al h) (not (is_no_error r.errno) || not (r.end == n))
          (f_value-IsSound fl al h typed) (fixnum_or_int64-IsSound fl al r.value h typed))

  decimal_from-IsSound :
      (b : Bool) (s : List ℕ) (n : ℕ) (h : Heap F)
      → IsTyped h
      → IsSound fl al h (decimal_to_number_from fl al b s n h)
  unfolding decimal_to_number_from
  decimal_from-IsSound b s n h typed =
      let r = strtol s 10 in
      if-Both (IsSound fl al h) b
        (if-Both (IsSound fl al h) (is_erange r.errno) (string_to_float-IsSound s n h typed) (
          if-Both (IsSound fl al h) (not (is_no_error r.errno) || not (r.end == n))
            (f_value-IsSound fl al h typed) (fixnum_or_int64-IsSound fl al r.value h typed)))
        (string_to_float-IsSound s n h typed)

  decimal_to_number-IsSound :
      (s : List ℕ) (n : ℕ) (h : Heap F)
      → n ≤ length s
      → IsTyped h
      → IsSound fl al h (c_decimal_to_number fl al s n h)
  unfolding c_decimal_to_number
  decimal_to_number-IsSound s n h inside typed =
      let (b, scanned, exact) = maybe_integer_loop_lem s n (loop_rounds n) (ground arith) in
      rw (c_decimal_to_number, scanned)
        (if-Both (IsSound fl al h) (n == 0) (f_value-IsSound fl al h typed)
          (decimal_from-IsSound b s n h typed))

  rounded-IsSound :
      (n : ℤ) (p : ℕ) (v : Float F) (h : Heap F)
      → object_at h p ≡ some (float v)
      → IsTyped h
      → IsSound fl al h (
          if in_fixnum_range n
          then done (make_fixnum n) h
          else if ltb_ℤ int64_min n && ltb_ℤ n int64_max
          then make_int64 fl al n h
          else done (pos p) h)
  rounded-IsSound n p v h there typed =
      if-Both (IsSound fl al h) (in_fixnum_range n) (fixnum-IsSound fl al n h typed) (
        if-Both (IsSound fl al h) (ltb_ℤ int64_min n && ltb_ℤ n int64_max)
          (make_int64-IsSound fl al n h typed)
          (typed, inr (inr (p, float v, refl, there)), λ q o e. e))

  abbrev pub IsAcceptedSource : Source → Type 0
  IsAcceptedSource (decimal_text s n) = n ≤ length s
  IsAcceptedSource _ = Unit {0}

  -- The arguments that the kernel may give: addresses of floats, and texts that are inside their buffer.
  abbrev pub IsAccepted : Operation → Heap F → Type 0
  IsAccepted (make source) h = IsAcceptedSource source
  IsAccepted (change op p) h = (v : Float F) × (float_at h p ≡ some v)
  IsAccepted (combine op p q) h =
      ((v : Float F) × (float_at h p ≡ some v)) × ((w : Float F) × (float_at h q ≡ some w))

  apply_source-IsSound :
      (source : Source) (h : Heap F)
      → IsAcceptedSource source
      → IsTyped h
      → IsSound fl al h (apply_source fl al source h)
  unfolding apply_source c_raw_int64_to_float c_raw_uint64_to_float c_pi
  apply_source-IsSound (raw_int64 n) h ok typed = make_float-IsSound fl al _ h typed
  apply_source-IsSound (raw_uint64 n) h ok typed = make_float-IsSound fl al _ h typed
  apply_source-IsSound pi h ok typed = make_float-IsSound fl al _ h typed
  apply_source-IsSound (float_text s n) h ok typed = string_to_float-IsSound s n h typed
  apply_source-IsSound (integer_text s n base) h ok typed =
      string_to_integer-IsSound s n base h typed
  apply_source-IsSound (decimal_text s n) h ok typed = decimal_to_number-IsSound s n h ok typed

  apply_unary-IsSound :
      (op : Unary) (p : ℕ) (v : Float F) (h : Heap F)
      → object_at h p ≡ some (float v)
      → IsTyped h
      → IsSound fl al h (apply_unary fl al op p v h)
  unfolding apply_unary c_float_floor c_float_truncate c_float_negate c_float_sqrt c_float_sin
  apply_unary-IsSound floor p v h there typed =
      rounded-IsSound (fl.to_int (fl.floor v.d)) p v h there typed
  apply_unary-IsSound truncate p v h there typed =
      rounded-IsSound (fl.to_int (fl.trunc v.d)) p v h there typed
  apply_unary-IsSound negate p v h there typed = make_float-IsSound fl al _ h typed
  apply_unary-IsSound sqrt p v h there typed = make_float-IsSound fl al _ h typed
  apply_unary-IsSound sin p v h there typed = make_float-IsSound fl al _ h typed

  apply_binary-IsSound :
      (op : Binary) (v w : Float F) (h : Heap F)
      → IsTyped h
      → IsSound fl al h (apply_binary fl al op v w h)
  unfolding apply_binary c_float_float_lt c_float_float_le c_float_float_gt c_float_float_ge
      c_float_float_plus c_float_float_minus c_float_float_multiply c_float_float_divide
      c_float_expt
  apply_binary-IsSound lt v w h typed = truth-IsSound fl al _ h typed
  apply_binary-IsSound le v w h typed = truth-IsSound fl al _ h typed
  apply_binary-IsSound gt v w h typed = truth-IsSound fl al _ h typed
  apply_binary-IsSound ge v w h typed = truth-IsSound fl al _ h typed
  apply_binary-IsSound plus v w h typed = make_float-IsSound fl al _ h typed
  apply_binary-IsSound minus v w h typed = make_float-IsSound fl al _ h typed
  apply_binary-IsSound multiply v w h typed = make_float-IsSound fl al _ h typed
  apply_binary-IsSound divide v w h typed = make_float-IsSound fl al _ h typed
  apply_binary-IsSound expt v w h typed = make_float-IsSound fl al _ h typed

  -- On a heap of typed objects, each number function, given addresses of floats and a text inside its buffer, returns a
  -- truth value, a tagged fixnum or the address of an object, on a heap that is still typed and holds all that was there;
  -- it faults only where `malloc` is out of memory.
  pub apply-IsSound :
      (op : Operation) (h : Heap F)
      → IsTyped h
      → IsAccepted op h
      → IsSound fl al h (apply fl al op h)
  unfolding apply
  apply-IsSound (make source) h typed ok = apply_source-IsSound source h ok typed
  apply-IsSound (change op p) h typed (v, e) =
      rw (apply, e) (apply_unary-IsSound op p v h (as_float-some (object_at h p) v e) typed)
  apply-IsSound (combine op p q) h typed ((v, e), (w, e')) =
      rw (apply, e, e') (apply_binary-IsSound op v w h typed)
