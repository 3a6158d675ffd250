-- ===== src/Os/Spec/Linux.antt =====
-- The Linux bodies of src/os.c implement the abstract file.
use feline.Prelude.{◌≤◌, ◌≡◌, ◌∙◌, ap, true, List, [], ◌∷◌, ℤ}
use feline.Cell.{IsInt32}
use feline.Os.Files.{Posix, Machine, os_file_size, os_file_position, os_reposition_file}
use feline.Os.Files.Position.{
  SeekLaws, os_file_size_lem, os_file_position_lem, os_reposition_file_lem,
}
use feline.Os.Spec.{
  File, FileOp, ask_size, ask_position, reposition, answer, answers, Bodies, call, calls,
  Implements, AllAllowed, calls-refine, answer_path,
}

module _ (px : Posix) (laws : SeekLaws px) where
  open laws use {maximum, is_seekable, position, size}

  abbrev pub linux_bodies : ℤ → Bodies (Machine px)
  linux_bodies fd = record {
    file_size = λ m. os_file_size px fd m;
    file_position = λ m. os_file_position px fd m;
    reposition_file = λ k m. os_reposition_file px fd k m;
  }

  abbrev pub linux_view : ℤ → Machine px → File
  linux_view fd m = record { position = position fd m.system; size = size fd m.system }

  -- A position that is set is one that the file system takes.
  abbrev pub IsTaken : FileOp → Type 0
  IsTaken ask_size = Unit
  IsTaken ask_position = Unit
  IsTaken (reposition k) = k ≤ maximum

  abbrev pub AllTaken : List FileOp → Type 0
  AllTaken [] = Unit
  AllTaken (op ∷ ops) = IsTaken op × AllTaken ops

  linux_refines :
      (fd : ℤ) (op : FileOp) (m : Machine px)
      → IsTaken op
      → IsInt32 fd
      → is_seekable fd m.system ≡ true
      → let (ret, m') = call (linux_bodies fd) op m in
        ((ret, linux_view fd m') ≡ answer op (linux_view fd m)) × (is_seekable fd m'.system ≡ true)
  unfolding call answer
  linux_refines fd ask_size m low fits order =
      let (e, can, at, same) = os_file_size_lem px laws fd m fits order in
      (answer_path e at same, can)
  linux_refines fd ask_position m low fits order =
      let e = os_file_position_lem px laws fd m fits order in
      let same : (os_file_position px fd m).1 ≡ m = ap (λ (r : ℤ × Machine px). r.1) e in
      (
        ap (λ (r : ℤ × Machine px). (r.0, linux_view fd r.1)) e,
        ap (λ (m' : Machine px). is_seekable fd m'.system) same ∙ order,
      )
  linux_refines fd (reposition k) m low fits order =
      let (e, can, at, same) = os_reposition_file_lem px laws fd k m low fits order in
      (answer_path e at same, can)

  linux_implements : (fd : ℤ) → IsInt32 fd → Implements (linux_bodies fd)
  linux_implements fd fits = record {
    view = linux_view fd;
    IsAllowed = IsTaken;
    InOrder = λ m. is_seekable fd m.system ≡ true;
    refines = λ op m allowed order. linux_refines fd op m allowed fits order;
  }

  all_allowed :
      (fd : ℤ) (fits : IsInt32 fd) (ops : List FileOp)
      → AllTaken ops
      → AllAllowed (linux_bodies fd) (linux_implements fd fits) ops
  unfolding linux_implements
  all_allowed fd fits [] low = tt
  all_allowed fd fits (op ∷ ops) low = (low.0, all_allowed fd fits ops low.1)

  -- On Linux, on a file that can be positioned: no sequence of questions about its size and its position, and of
  -- settings of its position up to the largest offset of the file system, tells the bodies of src/os.c from the abstract file; and the file after them is the
  -- abstract one.
  pub linux_calls-answers :
      (fd : ℤ) (ops : List FileOp) (m : Machine px)
      → AllTaken ops
      → IsInt32 fd
      → is_seekable fd m.system ≡ true
      → let (rets, last) = calls (linux_bodies fd) ops m in
        (rets, linux_view fd last) ≡ answers ops (linux_view fd m)
  unfolding linux_implements
  linux_calls-answers fd ops m low fits order =
      calls-refine (linux_bodies fd) (linux_implements fd fits) ops m (all_allowed fd fits ops low)
        order
