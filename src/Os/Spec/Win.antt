-- ===== src/Os/Spec/Win.antt =====
-- The Windows bodies of src/os.c implement the abstract file, as far as 32 bits go.
use feline.Prelude.{◌^◌, ◌<◌, ◌≡◌, ap, arith, true, List, [], ◌∷◌, ℤ}
use feline.Os.Windows.{
  Win32, Machine, invalid_pointer, os_file_size, os_file_position, os_reposition_file,
}
use feline.Os.Windows.Pointer.{
  PointerLaws, os_file_size_near, os_file_position_near, os_reposition_file_near,
}
use feline.Os.Spec.{
  File, FileOp, ask_size, ask_position, reposition, answer, answers, Bodies, call, calls,
  Implements, AllAllowed, calls-refine, answer_path,
}

module _ (wn : Win32) (laws : PointerLaws wn) where
  open laws use {is_seekable, position, size}

  abbrev pub windows_bodies : ℤ → Bodies (Machine wn)
  windows_bodies fd = record {
    file_size = λ m. os_file_size wn fd m;
    file_position = λ m. os_file_position wn fd m;
    reposition_file = λ k m. os_reposition_file wn fd k m;
  }

  abbrev pub windows_view : ℤ → Machine wn → File
  windows_view fd m = record { position = position fd m.system; size = size fd m.system }

  -- A position that is set stays below 2 ^ 31.
  abbrev pub IsNear : FileOp → Type 0
  IsNear ask_size = Unit
  IsNear ask_position = Unit
  IsNear (reposition k) = k < 2 ^ 31

  abbrev pub AllNear : List FileOp → Type 0
  AllNear [] = Unit
  AllNear (op ∷ ops) = IsNear op × AllNear ops

  abbrev pub InReach : ℤ → Machine wn → Type 0
  InReach fd m =
      (is_seekable fd m.system ≡ true)
      × (position fd m.system < 2 ^ 31)
      × (size fd m.system < invalid_pointer)

  windows_refines :
      (fd : ℤ) (op : FileOp) (m : Machine wn)
      → IsNear op
      → InReach fd m
      → let (ret, m') = call (windows_bodies fd) op m in
        ((ret, windows_view fd m') ≡ answer op (windows_view fd m)) × InReach fd m'
  unfolding call answer
  windows_refines fd ask_size m near (can, low, small) =
      let (e, can', at, same) = os_file_size_near wn laws fd m can low small in
      (answer_path e at same, (can', omega (arith, at), omega (arith, same)))
  windows_refines fd ask_position m near (can, low, small) =
      let e = os_file_position_near wn laws fd m can low in
      let same : (os_file_position wn fd m).1 ≡ m = ap (λ (r : ℤ × Machine wn). r.1) e in
      (ap (λ (r : ℤ × Machine wn). (r.0, windows_view fd r.1)) e, rw same (can, low, small))
  windows_refines fd (reposition k) m near (can, low, small) =
      let (e, can', at, same) = os_reposition_file_near wn laws fd k m can near in
      (answer_path e at same, (can', omega (arith, at), omega (arith, same)))

  windows_implements : (fd : ℤ) → Implements (windows_bodies fd)
  windows_implements fd = record {
    view = windows_view fd;
    IsAllowed = IsNear;
    InOrder = InReach fd;
    refines = λ op m near order. windows_refines fd op m near order;
  }

  all_allowed :
      (fd : ℤ) (ops : List FileOp)
      → AllNear ops
      → AllAllowed (windows_bodies fd) (windows_implements fd) ops
  unfolding windows_implements
  all_allowed fd [] near = tt
  all_allowed fd (op ∷ ops) near = (near.0, all_allowed fd ops near.1)

  -- On Windows, on a file of fewer than 2^32 - 1 bytes whose position is, and is set, below 2^31: no sequence of
  -- questions about its size and its position, and of settings of its position, tells the bodies of src/os.c
  -- from the abstract file; and the file after them is the abstract one.
  pub windows_calls-answers :
      (fd : ℤ) (ops : List FileOp) (m : Machine wn)
      → AllNear ops
      → InReach fd m
      → let (rets, last) = calls (windows_bodies fd) ops m in
        (rets, windows_view fd last) ≡ answers ops (windows_view fd m)
  unfolding windows_implements
  windows_calls-answers fd ops m near order =
      calls-refine (windows_bodies fd) (windows_implements fd) ops m (all_allowed fd ops near) order
