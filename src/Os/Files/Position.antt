-- ===== src/Os/Files/Position.antt =====
-- The file position: `os_file_size` does not move it, and `os_reposition_file` sets it.
use feline.Prelude.{ℕ, ◌^◌, ◌<◌, ◌≤◌, ◌≡◌, refl, ◌∙◌, ap, arith, Bool, true, ℤ, pos}
use feline.Cell.{int64, IsInt32}
use feline.Cell.Laws.{int32_fits}
use feline.Os.Files.{
  Posix, Machine, seek_set, seek_cur, seek_end, os_file_size, os_file_position, os_reposition_file,
}

-- What POSIX says of `lseek` on an open file that can be positioned, of a file system with the largest offset
-- `maximum`, which an `off_t` holds. Of a position beyond it, where `lseek` may fail, nothing is said.
pub record SeekLaws (px : Posix) : Type 0 where
  pub maximum : ℕ
  pub maximum_fits : maximum < 2 ^ 63
  pub is_seekable : ℤ → px.System → Bool
  pub position : ℤ → px.System → ℕ
  pub size : ℤ → px.System → ℕ
  pub position_bounds : (fd : ℤ) (s : px.System) → is_seekable fd s ≡ true → position fd s ≤ maximum
  pub size_bounds : (fd : ℤ) (s : px.System) → is_seekable fd s ≡ true → size fd s ≤ maximum
  pub seek_cur_lem :
      (fd : ℤ) (s : px.System)
      → is_seekable fd s ≡ true
      → px.lseek fd (pos 0) seek_cur s ≡ (pos (position fd s), s)
  pub seek_end_lem :
      (fd : ℤ) (s : px.System)
      → is_seekable fd s ≡ true
      → let (p, s') = px.lseek fd (pos 0) seek_end s in
        (p ≡ pos (size fd s)) × (is_seekable fd s' ≡ true) × (size fd s' ≡ size fd s)
  pub seek_set_lem :
      (fd : ℤ) (k : ℕ) (s : px.System)
      → k ≤ maximum
      → is_seekable fd s ≡ true
      → let (p, s') = px.lseek fd (pos k) seek_set s in
        (p ≡ pos k) × (is_seekable fd s' ≡ true) × (position fd s' ≡ k) × (size fd s' ≡ size fd s)

int64_small : (k : ℕ) → k < 2 ^ 63 → int64 (pos k) ≡ pos k
int64_small k small = ground arith

module _ (px : Posix) (laws : SeekLaws px) where
  open px use {System, lseek}
  open laws use {
    is_seekable, position, size, seek_cur_lem, seek_end_lem, seek_set_lem, maximum, maximum_fits,
    position_bounds,
  }

  -- On a file that can be positioned `os_file_size` returns the size, and afterwards the file has the size
  -- and the position that it had, and can still be positioned.
  pub os_file_size_lem :
      (fd : ℤ) (m : Machine px)
      → IsInt32 fd
      → is_seekable fd m.system ≡ true
      → let (ret, m') = os_file_size px fd m in
        (ret ≡ pos (size fd m.system))
        × (is_seekable fd m'.system ≡ true)
        × (position fd m'.system ≡ position fd m.system)
        × (size fd m'.system ≡ size fd m.system)
  unfolding os_file_size
  os_file_size_lem fd m fits open_ =
      let (e, can, same) = seek_end_lem fd m.system open_ in
      let s2 = (lseek fd (pos 0) seek_end m.system).1 in
      let (e', can', at, same') =
        seek_set_lem fd (position fd m.system) s2 (position_bounds fd m.system open_) can in
      rw (int32_fits fd fits, seek_cur_lem fd m.system open_, e)
        (ground arith, can', at, same' ∙ same)

  -- The position that `os_file_position` returns; nothing changes.
  pub os_file_position_lem :
      (fd : ℤ) (m : Machine px)
      → IsInt32 fd
      → is_seekable fd m.system ≡ true
      → os_file_position px fd m ≡ (pos (position fd m.system), m)
  unfolding os_file_position
  os_file_position_lem fd m fits open_ =
      rw (int32_fits fd fits, seek_cur_lem fd m.system open_) refl

  -- What `os_reposition_file` returns for a position up to the largest, and the file after it.
  pub os_reposition_file_lem :
      (fd : ℤ) (k : ℕ) (m : Machine px)
      → k ≤ maximum
      → IsInt32 fd
      → is_seekable fd m.system ≡ true
      → let (ret, m') = os_reposition_file px fd (pos k) m in
        (ret ≡ pos k)
        × (is_seekable fd m'.system ≡ true)
        × (position fd m'.system ≡ k)
        × (size fd m'.system ≡ size fd m.system)
  unfolding os_reposition_file
  os_reposition_file_lem fd k m low fits open_ =
      let small : k < 2 ^ 63 = omega (arith, maximum_fits) in
      rw (int32_fits fd fits, int64_small k small) (seek_set_lem fd k m.system low open_)

  -- A position up to the largest that was set is the one that `os_file_position` returns, and the result of setting it.
  pub os_file_position-os_reposition_file :
      (fd : ℤ) (k : ℕ) (m : Machine px)
      → k ≤ maximum
      → IsInt32 fd
      → is_seekable fd m.system ≡ true
      → let (ret, m') = os_reposition_file px fd (pos k) m in
        (ret ≡ pos k) × (os_file_position px fd m' ≡ (pos k, m'))
  os_file_position-os_reposition_file fd k m low fits open_ =
      let (e, can, at, same) = os_reposition_file_lem fd k m low fits open_ in
      let m' = (os_reposition_file px fd (pos k) m).1 in
      (e, os_file_position_lem fd m' fits can ∙ ap (λ (n : ℕ). (pos n, m')) at)
