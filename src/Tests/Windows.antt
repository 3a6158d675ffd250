-- ===== src/Tests/Windows.antt =====
-- The Windows bodies of src/os.c over one large file.
use feline.Prelude.{
  ℕ, ◌+◌, ◌*◌, ◌≤◌, ◌≡◌, refl, arith, true, none, some, length, List, [], ◌∷◌, ℤ, pos, negsuc,
}
use feline.Os.Windows.{
  Win32, Machine, invalid_pointer, MoveMethod, file_begin, file_current, file_end, os_file_size,
}
use feline.Os.Windows.DateTime.{SystemTime, os_date_time}
use feline.Os.Windows.DateTime.Length.{os_date_time-length}
use feline.Os.Windows.Pointer.{PointerLaws, os_file_size_far}
use feline.Os.Spec.{FileOp, ask_size, ask_position, reposition, answers, calls}
use feline.Os.Spec.Win.{windows_bodies, windows_view, windows_calls-answers}

record Large : Type 0 where
  position : ℕ
  size : ℕ

abbrev move : ℤ → MoveMethod → Large → ℕ × Large
move offset file_current s = (s.position, s)
move offset file_end s = (s.size, record s { position = s.size })
move (pos k) file_begin s = (k, record s { position = k })
move (negsuc k) file_begin s = (invalid_pointer, s)

abbrev large : Win32
large = record {
  System = Large;
  last_error = λ s. pos 6;
  get_file_attributes = λ path s. none;
  create_file = λ f a sh d s. (pos 3, s);
  read_file = λ fd n s. (true, [], s);
  write_file = λ fd bytes s. (true, 0, s);
  close_handle = λ fd s. (pos 1, s);
  set_file_pointer = λ fd offset method s. move offset method s;
  set_end_of_file = λ fd s. (true, record s { size = s.position });
  delete_file = λ f s. (true, s);
  move_file_replacing = λ f g s. (true, s);
  flush_file_buffers = λ fd s. (true, s);
  set_current_directory = λ f s. (pos 1, s);
}

abbrev large_laws : PointerLaws large
large_laws = record {
  is_seekable = λ fd s. true;
  position = λ fd s. s.position;
  size = λ fd s. s.size;
  current_lem = λ fd s can near. refl;
  end_lem = λ fd s can small. (refl, refl, refl, refl);
  begin_lem = λ fd k s can near. (refl, refl, refl, refl);
  negative_lem = λ fd k s. refl;
}

abbrev machine : ℕ → Machine large
machine p = record { system = record { position = p; size = 3000000000 }; os_errno_data = pos 0 }

abbrev questions : List FileOp
questions = ask_size ∷ reposition 6 ∷ ask_position ∷ []

windows_calls-answers_example :
    let (rets, last) = calls (windows_bodies large large_laws (pos 3)) questions (machine 4) in
    (rets, windows_view large large_laws (pos 3) last)
    ≡ answers questions (record { position = 4; size = 3000000000 })
windows_calls-answers_example =
    windows_calls-answers large large_laws (pos 3) questions (machine 4)
      (tt, (omega arith, (tt, tt))) (refl, omega arith, omega arith)

os_file_size_far_example :
    let (ret, m') = os_file_size large (pos 3) (machine 2500000000) in
    (ret ≡ pos 3000000000) × (m'.system.position ≡ 3000000000)
os_file_size_far_example =
    os_file_size_far large large_laws (pos 3) (machine 2500000000) refl (omega arith) (omega arith)
      (omega arith)

abbrev thanksgiving : SystemTime
thanksgiving = record { month = 11; day = 26; hour = 12; minute = 5; second = 59; milliseconds = 7 }

os_date_time-length_example :
    (text : List ℕ) × (os_date_time thanksgiving ≡ some text)
    × (20 ≤ length text)
    × (length text ≤ 9 + 4 * 2 + 3)
os_date_time-length_example =
    os_date_time-length 2 3 thanksgiving (omega arith) (omega arith) (omega arith) (omega arith)
      (omega arith, omega arith, omega arith, omega arith, omega arith)
