-- ===== src/Numbers/Typed/Value.antt =====
-- The types of the values of src/numbers.c: what the kernel may take a cell for.
use feline.Prelude.{
  ℕ, ◌*◌, ◌+◌, ◌%◌, ◌^◌, ◌<◌, ◌≡◌, ◌⊎◌, ◌==◌, ==_iff, inl, inr, refl, sym, ◌∙◌, subst, ap, arith,
  Bool, true, false, Bool-cases, Option, none, some, ◌∷◌, if◌then◌else◌, if-Both, ℤ, pos,
}
use feline.Cell.{
  Float, t_value, f_value, typecode_float, typecode_int64, of_word, to_word, is_fixnum, make_fixnum,
  in_fixnum_range,
}
use feline.Heap.{
  Object, int64, float, Heap, object_at, Allocator, Outcome, done, fault, Extends, Extends-cons,
}
use feline.Numbers.{Floats, truth, box, make_float, make_int64, fixnum_or_int64}
use feline.Numbers.Typed.{as_float}

-- An object has the typecode of its type, at an aligned address that is no fixnum, no truth value and not negative.
abbrev pub HasType : {F : Type 0} → Object F → Type 0
HasType (int64 o) = o.header ≡ typecode_int64
HasType (float o) = o.header ≡ typecode_float

abbrev pub IsPlaced : ℕ → Type 0
IsPlaced p = (p % 16 ≡ 0) × (0 < p) × (p < 2 ^ 63)

abbrev pub IsTyped : {F : Type 0} → Heap F → Type 0
IsTyped {F} h = (p : ℕ) (o : Object F) → object_at h p ≡ some o → HasType o × IsPlaced p

-- A truth value, a tagged fixnum, or the address of an object.
abbrev pub IsValue : {F : Type 0} → Heap F → ℤ → Type 0
IsValue {F} h c =
    ((c ≡ f_value) ⊎ (c ≡ t_value))
    ⊎ ((is_fixnum c ≡ true) ⊎ ((p : ℕ) × (o : Object F) × (c ≡ pos p) × (object_at h p ≡ some o)))

odd-is_fixnum : (x : ℕ) → is_fixnum (of_word ((x * 2 % 2 ^ 64 + 1) % 2 ^ 64)) ≡ true
odd-is_fixnum x = ground arith

make_fixnum-is_fixnum : (n : ℤ) → is_fixnum (make_fixnum n) ≡ true
unfolding make_fixnum
make_fixnum-is_fixnum n = odd-is_fixnum (to_word n)

pub as_float-some :
    {F : Type 0} (o : Option (Object F)) (v : Float F) → as_float o ≡ some v → o ≡ some (float v)
as_float-some none v e = absurd (cc e)
as_float-some (some (int64 o)) v e = absurd (cc e)
as_float-some (some (float w)) v e = ap (λ r. elim r [ none ↦ none | some u ↦ some (float u) ]) e

cons-object_at :
    {F : Type 0} (h : Heap F) (p : ℕ) (o : Object F) → object_at ((p, o) ∷ h) p ≡ some o
cons-object_at h p o = ground arith

pub cons-IsTyped :
    {F : Type 0} (h : Heap F) (p : ℕ) (o : Object F)
    → HasType o
    → IsPlaced p
    → IsTyped h
    → IsTyped ((p, o) ∷ h)
cons-IsTyped h p o has placed typed q r e = elim (Bool-cases (p == q)) [
  | inl same ↦
      let at : p ≡ q = (==_iff p q).0 same in
      let found : some o ≡ some r = ap (λ b. if b then some o else object_at h q) (sym same) ∙ e in
      let it : o ≡ r = cc found in (subst HasType it has, subst IsPlaced at placed)
  | inr other ↦ typed q r (ap (λ b. if b then some o else object_at h q) (sym other) ∙ e)
]

module _ (fl : Floats) (al : Allocator fl.F) where
  open fl use {F}

  -- The outcome is a value on a heap that is typed and holds all that was there; and it is a fault only where `malloc` is
  -- out of memory.
  abbrev pub IsSound : Heap F → Outcome F → Type 0
  IsSound h (done c h') = IsTyped h' × IsValue h' c × Extends h h'
  IsSound h fault = al.malloc h ≡ none

  box-IsSound : (o : Object F) (h : Heap F) → HasType o → IsTyped h → IsSound h (box fl al o h)
  unfolding box
  box-IsSound o h has typed = from_malloc (al.malloc h) refl
    where
      from_malloc :
          (m : Option ℕ)
          → al.malloc h ≡ m
          → IsSound h (elim m [ none ↦ fault | some p ↦ done (pos p) ((p, o) ∷ h) ])
      from_malloc none e = e
      from_malloc (some p) e =
          let (low, high) = al.malloc_bounds h e in
          (
            cons-IsTyped h p o has (al.malloc_aligned h e, low, high) typed,
            inr (inr (p, o, refl, cons-object_at h p o)),
            Extends-cons h p o (al.malloc_fresh h e),
          )

  pub make_float-IsSound : (d : F) (h : Heap F) → IsTyped h → IsSound h (make_float fl al d h)
  unfolding make_float
  make_float-IsSound d h typed = box-IsSound _ h refl typed

  pub make_int64-IsSound : (n : ℤ) (h : Heap F) → IsTyped h → IsSound h (make_int64 fl al n h)
  unfolding make_int64
  make_int64-IsSound n h typed = box-IsSound _ h refl typed

  pub f_value-IsSound : (h : Heap F) → IsTyped h → IsSound h (done f_value h)
  f_value-IsSound h typed = (typed, inl (inl refl), λ p o e. e)

  pub truth-IsSound : (b : Bool) (h : Heap F) → IsTyped h → IsSound h (done (truth b) h)
  truth-IsSound true h typed = (typed, inl (inr refl), λ p o e. e)
  truth-IsSound false h typed = (typed, inl (inl refl), λ p o e. e)

  pub fixnum-IsSound : (n : ℤ) (h : Heap F) → IsTyped h → IsSound h (done (make_fixnum n) h)
  fixnum-IsSound n h typed = (typed, inr (inl (make_fixnum-is_fixnum n)), λ p o e. e)

  pub fixnum_or_int64-IsSound :
      (n : ℤ) (h : Heap F) → IsTyped h → IsSound h (fixnum_or_int64 fl al n h)
  unfolding fixnum_or_int64
  fixnum_or_int64-IsSound n h typed =
      if-Both (IsSound h) (in_fixnum_range n) (fixnum-IsSound n h typed)
        (make_int64-IsSound n h typed)
