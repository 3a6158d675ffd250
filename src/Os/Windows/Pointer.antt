-- ===== src/Os/Windows/Pointer.antt =====
-- The file pointer of Windows, 32 bits of it.
use feline.Prelude.{
  ℕ, ◌^◌, ◌-◌, ◌<◌, ◌≤◌, ◌≡◌, refl, ◌∙◌, arith, Bool, true, false, ◌==◌, ℤ, pos, negsuc,
}
use feline.Cell.{int32}
use feline.Cell.Laws.{int32_fits, int32_wraps}
use feline.Os.Windows.{
  Win32, Machine, invalid_pointer, file_begin, file_current, file_end, os_file_size,
  os_file_position, os_reposition_file,
}

-- What Windows documents of SetFilePointer without a high part, on an open file that can be positioned, and of
-- SetEndOfFile. `k` is a new position.
pub record PointerLaws (wn : Win32) : Type 0 where
  pub is_seekable : ℤ → wn.System → Bool
  pub position : ℤ → wn.System → ℕ
  pub size : ℤ → wn.System → ℕ
  pub current_lem :
      (fd : ℤ) (s : wn.System)
      → is_seekable fd s ≡ true
      → position fd s < invalid_pointer
      → wn.set_file_pointer fd (pos 0) file_current s ≡ (position fd s, s)
  pub end_lem :
      (fd : ℤ) (s : wn.System)
      → is_seekable fd s ≡ true
      → size fd s < invalid_pointer
      → let (p, s') = wn.set_file_pointer fd (pos 0) file_end s in
        (p ≡ size fd s)
        × (is_seekable fd s' ≡ true)
        × (position fd s' ≡ size fd s)
        × (size fd s' ≡ size fd s)
  pub begin_lem :
      (fd : ℤ) (k : ℕ) (s : wn.System)
      → is_seekable fd s ≡ true
      → k < 2 ^ 31
      → let (p, s') = wn.set_file_pointer fd (pos k) file_begin s in
        (p ≡ k) × (is_seekable fd s' ≡ true) × (position fd s' ≡ k) × (size fd s' ≡ size fd s)
  pub negative_lem :
      (fd : ℤ) (k : ℕ) (s : wn.System)
      → wn.set_file_pointer fd (negsuc k) file_begin s ≡ (invalid_pointer, s)

module _ (wn : Win32) (laws : PointerLaws wn) where
  open wn use {System, set_file_pointer}
  open laws use {is_seekable, position, size, current_lem, end_lem, begin_lem, negative_lem}

  not_invalid : (n : ℕ) → n < invalid_pointer → (n == invalid_pointer) ≡ false
  not_invalid n h = ground arith

  -- On a file of fewer than 2^32 - 1 bytes, at a position below 2^31: the size is returned, and the file has the
  -- size and the position that it had.
  pub os_file_size_near :
      (fd : ℤ) (m : Machine wn)
      → is_seekable fd m.system ≡ true
      → position fd m.system < 2 ^ 31
      → size fd m.system < invalid_pointer
      → let (ret, m') = os_file_size wn fd m in
        (ret ≡ pos (size fd m.system))
        × (is_seekable fd m'.system ≡ true)
        × (position fd m'.system ≡ position fd m.system)
        × (size fd m'.system ≡ size fd m.system)
  unfolding os_file_size
  os_file_size_near fd m can near small =
      let p = position fd m.system in
      let (e, can2, at2, same2) = end_lem fd m.system can small in
      let s2 = (set_file_pointer fd (pos 0) file_end m.system).1 in
      let (e3, can3, at3, same3) = begin_lem fd p s2 can2 near in
      let fits : int32 (pos p) ≡ pos p = int32_fits (pos p) (omega arith) in
      rw
        (
          current_lem fd m.system can (omega arith),
          not_invalid p (omega arith),
          e,
          not_invalid (size fd m.system) small,
          fits,
        )
        (refl, can3, at3, same3 ∙ same2)

  -- On a seekable file whose size and position are below 2^32 - 1: at a position of 2^31 or more, `os_file_size`
  -- returns the size, but the position is lost, and the file is left at its end.
  pub os_file_size_far :
      (fd : ℤ) (m : Machine wn)
      → is_seekable fd m.system ≡ true
      → 2 ^ 31 ≤ position fd m.system
      → position fd m.system < invalid_pointer
      → size fd m.system < invalid_pointer
      → let (ret, m') = os_file_size wn fd m in
        (ret ≡ pos (size fd m.system)) × (position fd m'.system ≡ size fd m.system)
  unfolding os_file_size
  os_file_size_far fd m can far near small =
      let p = position fd m.system in
      let (e, can2, at2, same2) = end_lem fd m.system can small in
      let s2 = (set_file_pointer fd (pos 0) file_end m.system).1 in
      rw
        (
          current_lem fd m.system can near,
          not_invalid p near,
          e,
          not_invalid (size fd m.system) small,
          int32_wraps p far (omega arith),
          negative_lem fd (2 ^ 32 - 1 - p) s2,
        )
        (refl, at2)

  pub os_file_position_near :
      (fd : ℤ) (m : Machine wn)
      → is_seekable fd m.system ≡ true
      → position fd m.system < 2 ^ 31
      → os_file_position wn fd m ≡ (pos (position fd m.system), m)
  unfolding os_file_position
  os_file_position_near fd m can near =
      rw
        (
          current_lem fd m.system can (omega arith),
          not_invalid (position fd m.system) (omega arith),
        )
        refl

  pub os_reposition_file_near :
      (fd : ℤ) (k : ℕ) (m : Machine wn)
      → is_seekable fd m.system ≡ true
      → k < 2 ^ 31
      → let (ret, m') = os_reposition_file wn fd (pos k) m in
        (ret ≡ pos k)
        × (is_seekable fd m'.system ≡ true)
        × (position fd m'.system ≡ k)
        × (size fd m'.system ≡ size fd m.system)
  unfolding os_reposition_file
  os_reposition_file_near fd k m can near =
      let (e, can', at, same) = begin_lem fd k m.system can near in
      let fits : int32 (pos k) ≡ pos k = int32_fits (pos k) (omega arith) in
      rw (fits, e, not_invalid k (omega arith)) (refl, can', at, same)
