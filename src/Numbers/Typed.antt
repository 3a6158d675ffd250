-- ===== src/Numbers/Typed.antt =====
-- The number functions of src/numbers.c and of src/math.c that return a cell, as the kernel calls them: the address of a
-- float, where one is asked for, stands for the float on the heap.
pub mod Value
pub mod Sound
use feline.Prelude.{ℕ, ◌≡◌, ◌≤◌, Option, none, some, List, length, ℤ}
use feline.Cell.{Float}
use feline.Heap.{Object, int64, float, Heap, object_at, Allocator, Outcome, done, fault}
use feline.Numbers.{
  Floats, c_raw_int64_to_float, c_raw_uint64_to_float, c_string_to_float, c_string_to_integer,
  c_decimal_to_number, c_pi, c_float_float_lt, c_float_float_le, c_float_float_gt, c_float_float_ge,
  c_float_float_plus, c_float_float_minus, c_float_float_multiply, c_float_float_divide,
  c_float_floor, c_float_truncate, c_float_negate, c_float_sqrt, c_float_expt, c_float_sin,
}

-- The functions of no float, of one and of two.
pub data Source : Type 0 where
  raw_int64 : ℤ → Source
  raw_uint64 : ℕ → Source
  pi : Source
  float_text : List ℕ → ℕ → Source
  integer_text : List ℕ → ℕ → ℕ → Source
  decimal_text : List ℕ → ℕ → Source

pub data Unary : Type 0 where
  floor truncate negate sqrt sin : Unary

pub data Binary : Type 0 where
  lt le gt ge plus minus multiply divide expt : Binary

pub data Operation : Type 0 where
  make : Source → Operation
  change : Unary → ℕ → Operation
  combine : Binary → ℕ → ℕ → Operation

abbrev pub as_float : {F : Type 0} → Option (Object F) → Option (Float F)
as_float none = none
as_float (some (int64 o)) = none
as_float (some (float v)) = some v

-- The float at an address, if there is one.
abbrev pub float_at : {F : Type 0} → Heap F → ℕ → Option (Float F)
float_at h p = as_float (object_at h p)

module _ (fl : Floats) (al : Allocator fl.F) where
  open fl use {F}

  unfoldable pub apply_source : Source → Heap F → Outcome F
  apply_source (raw_int64 n) h = c_raw_int64_to_float fl al n h
  apply_source (raw_uint64 n) h = c_raw_uint64_to_float fl al n h
  apply_source pi h = c_pi fl al h
  apply_source (float_text s n) h = c_string_to_float fl al s n h
  apply_source (integer_text s n base) h = c_string_to_integer fl al s n base h
  apply_source (decimal_text s n) h = c_decimal_to_number fl al s n h

  unfoldable pub apply_unary : Unary → ℕ → Float F → Heap F → Outcome F
  apply_unary floor p v h = c_float_floor fl al p v h
  apply_unary truncate p v h = c_float_truncate fl al p v h
  apply_unary negate p v h = c_float_negate fl al v h
  apply_unary sqrt p v h = c_float_sqrt fl al v h
  apply_unary sin p v h = c_float_sin fl al v h

  unfoldable pub apply_binary : Binary → Float F → Float F → Heap F → Outcome F
  apply_binary lt v w h = done (c_float_float_lt fl al v w) h
  apply_binary le v w h = done (c_float_float_le fl al v w) h
  apply_binary gt v w h = done (c_float_float_gt fl al v w) h
  apply_binary ge v w h = done (c_float_float_ge fl al v w) h
  apply_binary plus v w h = c_float_float_plus fl al v w h
  apply_binary minus v w h = c_float_float_minus fl al v w h
  apply_binary multiply v w h = c_float_float_multiply fl al v w h
  apply_binary divide v w h = c_float_float_divide fl al v w h
  apply_binary expt v w h = c_float_expt fl al v w h

  -- `fault` where an argument is no float.
  unfoldable pub apply : Operation → Heap F → Outcome F
  apply (make source) h = apply_source source h
  apply (change op p) h = elim (float_at h p) [ none ↦ fault | some v ↦ apply_unary op p v h ]
  apply (combine op p q) h = elim (float_at h p) [
    | none ↦ fault
    | some v ↦ elim (float_at h q) [ none ↦ fault | some w ↦ apply_binary op v w h ]
  ]
