-- ===== src/Heap.antt =====
-- The C heap as src/numbers.c uses it: boxed integers and floats at the addresses that `malloc` chose.
-- `malloc` itself is a parameter, with what the C standard promises of it.
use feline.Prelude.{
  ℕ, ◌+◌, ◌*◌, ◌^◌, ◌%◌, ◌<◌, ◌≡◌, Option, none, some, List, [], ◌∷◌, ◌==◌, if◌then◌else◌, ltb, suc,
  refl, arith, ℤ, pos, negsuc,
}
use feline.Cell.{Int64, Float}

pub data Object (F : Type 0) : Type 0 where
  int64 : Int64 → Object F
  float : Float F → Object F

-- The objects in use, with their addresses.
abbrev pub Heap : Type 0 → Type 0
Heap F = List (ℕ × Object F)

abbrev pub object_at : {F : Type 0} → Heap F → ℕ → Option (Object F)
object_at [] p = none
object_at ((q, o) ∷ h) p = if q == p then some o else object_at h p

-- A cell taken for a pointer.
abbrev pub deref : {F : Type 0} → Heap F → ℤ → Option (Object F)
deref h (pos p) = object_at h p
deref h (negsuc n) = none

-- `malloc (sizeof (Float))` and `malloc (sizeof (Int64))`, both of 16 bytes: NULL (`none`), or the address
-- of a new block, aligned for every type, not NULL and in the lower half of the address space.
pub record Allocator (F : Type 0) : Type 0 where
  pub malloc : Heap F → Option ℕ
  pub malloc_aligned : (h : Heap F) {p : ℕ} → malloc h ≡ some p → p % 16 ≡ 0
  pub malloc_bounds : (h : Heap F) {p : ℕ} → malloc h ≡ some p → (0 < p) × (p < 2 ^ 63)
  pub malloc_fresh : (h : Heap F) {p : ℕ} → malloc h ≡ some p → object_at h p ≡ none

-- The result of a function that allocates: the cell that it returns and the heap, or a write through
-- a NULL pointer or a read outside a buffer, which C leaves undefined.
pub data Outcome (F : Type 0) : Type 0 where
  done : ℤ → Heap F → Outcome F
  fault : Outcome F

-- Everything that was on the heap `h` is on `h'` as it was.
abbrev pub Extends : {F : Type 0} → Heap F → Heap F → Type 0
Extends {F} h h' = (p : ℕ) (o : Object F) → object_at h p ≡ some o → object_at h' p ≡ some o

pub Extends-cons :
    {F : Type 0} (h : Heap F) (p : ℕ) (o : Object F) → object_at h p ≡ none → Extends h ((p, o) ∷ h)
Extends-cons h p o fresh q o' e = ground arith

-- Above every address in use.
abbrev pub address_sum : {F : Type 0} → Heap F → ℕ
address_sum [] = 0
address_sum ((q, o) ∷ h) = q + address_sum h

above_all : {F : Type 0} (h : Heap F) (p : ℕ) → address_sum h < p → object_at h p ≡ none
above_all [] p lt = refl
above_all ((q, o) ∷ h) p lt = ground (arith, above_all h p)

-- An allocator that meets the promises: the next free multiple of 16 above all blocks.
abbrev pub bump_malloc : {F : Type 0} → Heap F → Option ℕ
bump_malloc h = let p = 16 * suc (address_sum h) in if ltb p (2 ^ 63) then some p else none

pub bump-aligned : {F : Type 0} (h : Heap F) {p : ℕ} → bump_malloc h ≡ some p → p % 16 ≡ 0
bump-aligned h e = ground arith

pub bump_bounds :
    {F : Type 0} (h : Heap F) {p : ℕ} → bump_malloc h ≡ some p → (0 < p) × (p < 2 ^ 63)
bump_bounds h e = ground arith

pub bump-fresh : {F : Type 0} (h : Heap F) {p : ℕ} → bump_malloc h ≡ some p → object_at h p ≡ none
bump-fresh h {p} e = above_all h p (ground arith)

abbrev pub bump_allocator : {F : Type 0} → Allocator F
bump_allocator = record {
  malloc = bump_malloc;
  malloc_aligned = bump-aligned;
  malloc_bounds = bump_bounds;
  malloc_fresh = bump-fresh;
}
