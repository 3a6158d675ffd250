-- ===== src/Os/Memory/Guard.antt =====
-- The page above the data stack.
use feline.Prelude.{
  ℕ, ◌+◌, ◌^◌, ◌<◌, ◌≤◌, ◌≡◌, ◌≢◌, refl, sym, ap, ◌∙◌, arith, Bool, true, false, none, List, ℤ, pos,
  ◌⊎◌, inl, inr, Bool-cases, ltb, ltb→lt,
}
use feline.Word.{u64}
use feline.Os.Memory.{
  Mapper, map_failed, datastack_size, read_write, os_thread_initialize_datastack, Complaint,
}

-- What POSIX says of a mapping: it lies in the address space of Linux on x86-64 and its bytes can be read and
-- written; after a successful `mprotect` those of its range cannot, and all others are as they were.
pub record MapLaws (System : Type 0) (mp : Mapper System) : Type 0 where
  pub is_accessible : ℕ → System → Bool
  pub mmap_bounds :
      (n : ℕ) (s : System)
      → (mp.mmap none n read_write s).0 ≢ map_failed
      → (mp.mmap none n read_write s).0 + n < 2 ^ 47
  pub mmap_maps :
      (n a : ℕ) (s : System)
      → (mp.mmap none n read_write s).0 ≢ map_failed
      → (mp.mmap none n read_write s).0 ≤ a
      → a < (mp.mmap none n read_write s).0 + n
      → is_accessible a (mp.mmap none n read_write s).1 ≡ true
  pub mprotect_protects :
      (p n a : ℕ) (s : System)
      → (mp.mprotect_none p n s).0 ≡ pos 0
      → p ≤ a
      → a < p + n
      → is_accessible a (mp.mprotect_none p n s).1 ≡ false
  pub mprotect_below :
      (p n a : ℕ) (s : System)
      → a < p
      → is_accessible a (mp.mprotect_none p n s).1 ≡ is_accessible a s

module _ (System : Type 0) (mp : Mapper System) (laws : MapLaws System mp) where
  open mp use {pagesize, mmap, mprotect_none}
  open laws use {is_accessible, mmap_bounds, mmap_maps, mprotect_protects, mprotect_below}

  -- Where the memory is mapped and its last page protected: nothing is printed, the bytes of the 4096 cells
  -- below the address returned can be used, and no byte of the page from there on can.
  pub os_thread_initialize_datastack_lem :
      (printed : List Complaint) (s s1 s2 : System) (p a : ℕ)
      → mmap none (datastack_size + pagesize) read_write s ≡ (p, s1)
      → p ≢ map_failed
      → mprotect_none (p + datastack_size) pagesize s1 ≡ (pos 0, s2)
      → a < datastack_size + pagesize
      → (os_thread_initialize_datastack System mp printed s ≡ (p + datastack_size, printed, s2))
        × ((a < datastack_size) × (is_accessible (p + a) s2 ≡ true)
            ⊎ (datastack_size ≤ a) × (is_accessible (p + a) s2 ≡ false))
  unfolding os_thread_initialize_datastack
  os_thread_initialize_datastack_lem printed s s1 s2 p a mapped good protected inside =
      let n = datastack_size + pagesize in
      let e : (mmap none n read_write s).0 ≡ p = ap (λ (r : ℕ × System). r.0) mapped in
      let e1 : (mmap none n read_write s).1 ≡ s1 = ap (λ (r : ℕ × System). r.1) mapped in
      let ok : (mmap none n read_write s).0 ≢ map_failed = λ bad. good (sym e ∙ bad) in
      let low : p + n < 2 ^ 47 = omega (arith, mmap_bounds n s ok, e) in
      let exact : u64 (p + datastack_size) ≡ p + datastack_size = omega arith in
      let f : (mprotect_none (p + datastack_size) pagesize s1).0 ≡ pos 0 =
        ap (λ (r : ℤ × System). r.0) protected in
      let f1 : (mprotect_none (p + datastack_size) pagesize s1).1 ≡ s2 =
        ap (λ (r : ℤ × System). r.1) protected in
      (
        rw (e, e1, exact, f, f1) refl,
        elim (Bool-cases (ltb a datastack_size)) [
          | inl below ↦
              let usable : is_accessible (p + a) s1 ≡ true =
                rw⁻¹ e1 (mmap_maps n (p + a) s ok (omega (arith, e)) (omega (arith, e))) in
              let under : a < datastack_size = ltb→lt a datastack_size below in
              inl (
                under,
                rw⁻¹ f1 (
                    mprotect_below (p + datastack_size) pagesize (p + a) s1 (omega arith) ∙ usable),
              )
          | inr above ↦
              let over : datastack_size ≤ a = ground arith in
              inr (
                over,
                rw⁻¹ f1 (
                    mprotect_protects (p + datastack_size) pagesize (p + a) s1 f (omega arith)
                      (omega arith)),
              )
        ],
      )
