-- ===== src/Tests/Console.antt =====
-- The Windows bodies of src/terminal.c over the modes of the console's handles.
use feline.Prelude.{ℕ, ◌==◌, ◌≡◌, ◌≢◌, refl, arith, if◌then◌else◌, Option, none, some, pos}
use feline.Terminal.Windows.{
  Console, StdHandle, std_input_handle, std_output_handle, std_error_handle, Terminal,
}
use feline.Terminal.Windows.Modes.{ModeLaws}

abbrev Modes : Type 0
Modes = ℕ → Option ℕ

abbrev set_mode : ℕ → ℕ → Modes → Modes
set_mode k mode s h = if h == k then some mode else s h

abbrev handle : StdHandle → ℕ
handle std_input_handle = 3
handle std_output_handle = 7
handle std_error_handle = 11

abbrev console : Console
console = record {
  System = Modes;
  get_std_handle = λ std s. handle std;
  get_console_mode = λ h s. s h;
  set_console_mode = set_mode;
  screen_buffer_window =
      λ h s. some (record { left = pos 0; top = pos 0; right = pos 79; bottom = pos 24 });
  set_screen_buffer_size = λ h x y s. s;
  kbhit = λ s. pos 0;
  getch = λ s. (pos 65, s);
  fgetc = λ s. (pos 66, s);
  fgets = λ n s. (none, s);
}

mode_set : (h mode : ℕ) (s : Modes) → set_mode h mode s h ≡ some mode
mode_set h mode s = ground arith

mode_other : (h k mode : ℕ) (s : Modes) → h ≢ k → set_mode k mode s h ≡ s h
mode_other h k mode s differ = ground arith

abbrev console_laws : ModeLaws console
console_laws = record {
  set_lem = λ h mode old s e. mode_set h mode s;
  set_other = mode_other;
  size_keeps = λ h k x y s. refl;
}

-- The usual modes of a console.
abbrev usual : Modes
usual h = if h == 3 then some 503 else if h == 7 then some 3 else none

abbrev terminal : Terminal console
terminal = record {
  system = usual;
  console_input_handle = 0;
  console_output_handle = 0;
  standard_output_handle = 0;
  error_output_handle = 0;
  terminal_rows = pos 0;
  terminal_columns = pos 0;
  line_input_data = pos 0;
}
