-- ===== src/Numbers/Rounding.antt =====
-- `c_float_floor` and `c_float_truncate`: an integer where one fits, and otherwise the float itself.
use feline.Prelude.{ℕ, ◌≡◌, ◌⊎◌, arith, inl, inr, negsuc, ◌&&◌, if◌then◌else◌, ℤ, pos, ◌<ℤ◌, ltb_ℤ}
use feline.Cell.{Float, IsInt64, int64_min, int64_max, in_fixnum_range, make_fixnum}
use feline.Heap.{Heap, Allocator, Outcome, done}
use feline.Numbers.{Floats, fixnum_or_int64, make_int64, c_float_floor, c_float_truncate}
use feline.Numbers.Meaning.{integer, Returns, fixnum_or_int64-Returns}

module _ (fl : Floats) (al : Allocator fl.F) where
  open fl use {F, to_int, floor, trunc}

  -- What both functions do with the `int64_t` that the rounded float was converted to.
  rounded : ℤ → ℕ → Heap F → Outcome F
  rounded n p h =
      if in_fixnum_range n
      then done (make_fixnum n) h
      else if ltb_ℤ int64_min n && ltb_ℤ n int64_max
      then make_int64 fl al n h
      else done (pos p) h

  rounded_inside :
      (n : ℤ) (p : ℕ) (h : Heap F)
      → int64_min <ℤ n
      → n <ℤ int64_max
      → rounded n p h ≡ fixnum_or_int64 fl al n h
  unfolding rounded fixnum_or_int64
  rounded_inside n p h lo hi = ground arith

  rounded_limit :
      (n : ℤ) (p : ℕ) (h : Heap F)
      → (n ≡ int64_min) ⊎ (n ≡ int64_max)
      → rounded n p h ≡ done (pos p) h
  unfolding rounded
  rounded_limit n p h limit = ground arith

  abbrev pub Rounds : ℤ → ℕ → Heap F → Outcome F → Type 0
  Rounds n p h result =
      ((int64_min <ℤ n) × (n <ℤ int64_max) × Returns fl al h (integer n) result)
      ⊎ (((n ≡ int64_min) ⊎ (n ≡ int64_max)) × (result ≡ done (pos p) h))

  inside_or_limit :
      (n : ℤ)
      → IsInt64 n
      → ((int64_min <ℤ n) × (n <ℤ int64_max)) ⊎ ((n ≡ int64_min) ⊎ (n ≡ int64_max))
  inside_or_limit (pos n) fits = ground arith
  inside_or_limit (negsuc n) fits = ground arith

  rounded_lem : (n : ℤ) (p : ℕ) (h : Heap F) → IsInt64 n → Rounds n p h (rounded n p h)
  rounded_lem n p h fits = elim (inside_or_limit n fits) [
    | inl (lo, hi) ↦
        inl (lo, hi, rw (rounded_inside n p h lo hi) (fixnum_or_int64-Returns fl al n h fits).0)
    | inr limit ↦ inr (limit, rounded_limit n p h limit)
  ]

  -- For a float whose floor converts to the 64-bit integer `n`: the result stands for `n` unless `n` is
  -- one of the two limits of `int64_t`; at the limits the argument's own pointer comes back, and nothing
  -- is allocated. An `n` that fits no fixnum faults where `malloc` is out of memory.
  pub c_float_floor_lem :
      (p : ℕ) (v : Float F) (h : Heap F)
      → IsInt64 (to_int (floor v.d))
      → Rounds (to_int (floor v.d)) p h (c_float_floor fl al p v h)
  unfolding c_float_floor rounded
  c_float_floor_lem p v h = rounded_lem (to_int (floor v.d)) p h

  -- For a float whose truncation converts to the 64-bit integer `n`: the result stands for `n` unless `n`
  -- is one of the two limits of `int64_t`; at the limits the argument's own pointer comes back, and
  -- nothing is allocated.
  pub c_float_truncate_lem :
      (p : ℕ) (v : Float F) (h : Heap F)
      → IsInt64 (to_int (trunc v.d))
      → Rounds (to_int (trunc v.d)) p h (c_float_truncate fl al p v h)
  unfolding c_float_truncate rounded
  c_float_truncate_lem p v h = rounded_lem (to_int (trunc v.d)) p h
