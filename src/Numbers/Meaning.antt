-- ===== src/Numbers/Meaning.antt =====
-- What a cell returned by src/numbers.c stands for, read the way the callers in primitives.asm read
-- it: F_VALUE for no number, then the fixnum tag, then a pointer to a boxed number.
use feline.Prelude.{
  ℕ, ◌≡◌, ◌⊎◌, ◌∙◌, refl, ap, sym, subst, arith, Bool, true, false, inl, inr, if◌then◌else◌, Option,
  none, some, ◌∷◌, ℤ, pos, negsuc, eqb_ℤ,
}
use feline.Cell.{
  typecode_float, typecode_int64, make_fixnum, in_fixnum_range, is_fixnum, fixnum_value, IsInt64,
  IsFixnum, f_value,
}
use feline.Cell.Laws.{make_fixnum_exact}
use feline.Heap.{
  Object, int64, float, Heap, deref, Allocator, Outcome, done, fault, Extends, Extends-cons,
}
use feline.Numbers.{Floats, box, make_float, make_int64, fixnum_or_int64}

pub data Number (F : Type 0) : Type 0 where
  integer : ℤ → Number F
  real : F → Number F

abbrev pub unbox : {F : Type 0} → Option (Object F) → Option (Number F)
unbox none = none
unbox (some (int64 o)) = if eqb_ℤ o.header typecode_int64 then some (integer o.n) else none
unbox (some (float o)) = if eqb_ℤ o.header typecode_float then some (real o.d) else none

abbrev pub meaning : {F : Type 0} → Heap F → ℤ → Option (Number F)
meaning h c =
    if eqb_ℤ c f_value
    then none
    else if is_fixnum c
    then some (integer (fixnum_value c))
    else unbox (deref h c)

size_cases : (v : ℤ) → (IsFixnum v × IsInt64 v) ⊎ ((¬ IsFixnum v) × IsInt64 v) ⊎ (¬ IsInt64 v)
size_cases (pos n) = ground arith
size_cases (negsuc n) = ground arith

module _ (fl : Floats) (al : Allocator fl.F) where
  open fl use {F}

  -- The outcome is a cell that stands for `v`, on a heap that still holds all that `h` held; and it
  -- is a fault only where `malloc` is out of memory.
  abbrev pub Returns : Heap F → Number F → Outcome F → Type 0
  Returns h v (done c h') = (meaning h' c ≡ some v) × Extends h h'
  Returns h v fault = al.malloc h ≡ none

  -- A pointer from `malloc` is even and not 0, so it is taken for what it is.
  box-Returns :
      (o : Object F) (v : Number F) (h : Heap F)
      → unbox (some o) ≡ some v
      → Returns h v (box fl al o h)
  unfolding box
  box-Returns o v h boxed = from_malloc (al.malloc h) refl
    where
      from_malloc :
          (m : Option ℕ)
          → al.malloc h ≡ m
          → Returns h v (elim m [ none ↦ fault | some p ↦ done (pos p) ((p, o) ∷ h) ])
      from_malloc none e = e
      from_malloc (some p) e = (
        ground (arith, boxed, al.malloc_aligned h e, al.malloc_bounds h e),
        Extends-cons h p o (al.malloc_fresh h e),
      )

  pub make_float-Returns : (d : F) (h : Heap F) → Returns h (real d) (make_float fl al d h)
  unfolding make_float
  make_float-Returns d h = box-Returns _ (real d) h refl

  pub make_int64-Returns : (n : ℤ) (h : Heap F) → Returns h (integer n) (make_int64 fl al n h)
  unfolding make_int64
  make_int64-Returns n h = box-Returns _ (integer n) h refl

  fixnum-Returns :
      (n : ℤ) (h : Heap F)
      → IsInt64 n
      → in_fixnum_range n ≡ true
      → Returns h (integer n) (done (make_fixnum n) h)
  fixnum-Returns n h fits small =
      let (tagged, exact) = make_fixnum_exact n fits in
      let same : fixnum_value (make_fixnum n) ≡ n = exact.1 (ground arith) in
      (ground arith, λ p o e. e)

  fixnum_or_int64_small :
      (n : ℤ) (h : Heap F)
      → in_fixnum_range n ≡ true
      → fixnum_or_int64 fl al n h ≡ done (make_fixnum n) h
  unfolding fixnum_or_int64
  fixnum_or_int64_small n h small =
      ap (λ b. if b then done (make_fixnum n) h else make_int64 fl al n h) small

  fixnum_or_int64_big :
      (n : ℤ) (h : Heap F)
      → in_fixnum_range n ≡ false
      → fixnum_or_int64 fl al n h ≡ make_int64 fl al n h
  unfolding fixnum_or_int64
  fixnum_or_int64_big n h big =
      ap (λ b. if b then done (make_fixnum n) h else make_int64 fl al n h) big

  fixnum_or_int64-Returns_of :
      (n : ℤ) (h : Heap F) (b : Bool)
      → IsInt64 n
      → in_fixnum_range n ≡ b
      → Returns h (integer n) (fixnum_or_int64 fl al n h)
  fixnum_or_int64-Returns_of n h true fits small =
      subst (Returns h (integer n)) (sym (fixnum_or_int64_small n h small))
        (fixnum-Returns n h fits small)
  fixnum_or_int64-Returns_of n h false fits big =
      subst (Returns h (integer n)) (sym (fixnum_or_int64_big n h big)) (make_int64-Returns n h)

  -- For every integer that fits 64 bits, the cell stands for that integer; and no memory is asked for
  -- where a fixnum can hold it.
  pub fixnum_or_int64-Returns :
      (n : ℤ) (h : Heap F)
      → IsInt64 n
      → Returns h (integer n) (fixnum_or_int64 fl al n h)
        × (IsFixnum n → fixnum_or_int64 fl al n h ≡ done (make_fixnum n) h)
  fixnum_or_int64-Returns n h fits = (
    fixnum_or_int64-Returns_of n h _ fits refl,
    λ small. fixnum_or_int64_small n h (ground arith),
  )

  -- The outcome of reading the number `v`, where `other` is done with a number too large for 64 bits:
  -- a fixnum, with nothing allocated; a boxed integer; or `other`.
  abbrev pub Reads : Heap F → ℤ → Outcome F → Outcome F → Type 0
  Reads h v other result =
      (IsFixnum v × (result ≡ done (make_fixnum v) h) × Returns h (integer v) result)
      ⊎ ((¬ IsFixnum v) × IsInt64 v × Returns h (integer v) result)
      ⊎ ((¬ IsInt64 v) × (result ≡ other))

  pub Reads_lem :
      (h : Heap F) (v : ℤ) (other result : Outcome F)
      → (IsInt64 v → result ≡ fixnum_or_int64 fl al v h)
      → (¬ IsInt64 v → result ≡ other)
      → Reads h v other result
  Reads_lem h v other result accepted refused = elim (size_cases v) [
    | inl (small, fits) ↦
        let (returns, direct) = fixnum_or_int64-Returns v h fits in
        inl (small, accepted fits ∙ direct small, rw (accepted fits) returns)
    | inr (inl (big, fits)) ↦
        inr (inl (big, fits, rw (accepted fits) (fixnum_or_int64-Returns v h fits).0))
    | inr (inr huge) ↦ inr (inr (huge, refused huge))
  ]
