-- ===== src/Terminal/Windows.antt =====
-- The Windows bodies of src/terminal.c: the console modes, and the size of the window. Handles are 64-bit words and modes
-- are DWORDs.
pub mod Modes
use feline.Prelude.{
  ℕ, ◌-◌, ◌^◌, Bool, not, if◌then◌else◌, Option, none, some, List, ℤ, pos, negsuc, bit_and, bit_or,
  ◌==◌, ◌-ℤ◌, ◌%◌, ltb,
}
use feline.Cell.{to_word}
use feline.Terminal.{without}

pub data StdHandle : Type 0 where
  std_input_handle std_output_handle std_error_handle : StdHandle

-- A `SMALL_RECT`.
pub record SmallRect : Type 0 where
  pub left : ℤ
  pub top : ℤ
  pub right : ℤ
  pub bottom : ℤ

-- The calls on the console. `fgets` returns the text read, if any.
pub record Console : Type 1 where
  pub System : Type 0
  pub get_std_handle : StdHandle → System → ℕ
  pub get_console_mode : ℕ → System → Option ℕ
  pub set_console_mode : ℕ → ℕ → System → System
  pub screen_buffer_window : ℕ → System → Option SmallRect
  pub set_screen_buffer_size : ℕ → ℤ → ℤ → System → System
  pub kbhit : System → ℤ
  pub getch : System → ℤ × System
  pub fgetc : System → ℤ × System
  pub fgets : ℕ → System → Option (List ℕ) × System

abbrev pub invalid_handle : ℕ
invalid_handle = 2 ^ 64 - 1

abbrev pub enable_processed_input : ℕ
enable_processed_input = 1

abbrev pub enable_line_input : ℕ
enable_line_input = 2

abbrev pub enable_echo_input : ℕ
enable_echo_input = 4

abbrev pub enable_virtual_terminal_processing : ℕ
enable_virtual_terminal_processing = 4

-- A cell as a SHORT.
abbrev pub short : ℤ → ℤ
short n =
    let low = to_word n % 2 ^ 16 in if ltb low (2 ^ 15) then pos low else negsuc (2 ^ 16 - 1 - low)

-- The modes that the program runs in, and those in which it reads a line.
unfoldable pub raw_mode : ℕ → ℕ
raw_mode mode =
    without (without (without mode enable_echo_input) enable_line_input) enable_processed_input

unfoldable pub line_mode : ℕ → ℕ
line_mode mode =
    bit_or (bit_or (bit_or mode enable_echo_input) enable_line_input) enable_processed_input

module _ (t : Console) where
  open t use {
    System, get_std_handle, get_console_mode, set_console_mode, screen_buffer_window,
    set_screen_buffer_size, kbhit, getch, fgetc, fgets,
  }

  -- The system, the file's static variables, and those of the Feline side that the file sets.
  pub record Terminal : Type 0 where
    pub system : System
    pub console_input_handle : ℕ
    pub console_output_handle : ℕ
    pub standard_output_handle : ℕ
    pub error_output_handle : ℕ
    pub terminal_rows : ℤ
    pub terminal_columns : ℤ
    pub line_input_data : ℤ

  unfoldable pub get_terminal_size : Terminal → Terminal
  get_terminal_size w =
      elim (screen_buffer_window (get_std_handle std_output_handle w.system) w.system) [
        | none ↦ w
        | some rect ↦ record w {
          terminal_columns = rect.right -ℤ rect.left;
          terminal_rows = rect.bottom -ℤ rect.top;
        }
      ]

  -- The console that the output goes to, if it does, is made to obey escape sequences.
  unfoldable pub prep_output : Terminal → Terminal
  prep_output w = elim (get_console_mode w.console_output_handle w.system) [
    | none ↦ w
    | some mode ↦ record w {
      system =
          set_console_mode w.console_output_handle (bit_or mode enable_virtual_terminal_processing)
            w.system;
    }
  ]

  -- Standard input is a console with this mode.
  unfoldable pub prep_input : ℕ → Terminal → Terminal
  prep_input mode w =
      let w1 =
        get_terminal_size (record w {
          system = set_console_mode w.console_input_handle (raw_mode mode) w.system;
        }) in
      prep_output (record w1 {
        system =
            set_screen_buffer_size w1.console_input_handle (short w1.terminal_columns)
              (short w1.terminal_rows) w1.system;
        line_input_data = pos 0;
      })

  unfoldable pub prep_terminal : Terminal → Terminal
  prep_terminal w0 =
      let w = record w0 {
        console_input_handle = get_std_handle std_input_handle w0.system;
        console_output_handle = get_std_handle std_output_handle w0.system;
        standard_output_handle = get_std_handle std_output_handle w0.system;
        error_output_handle = get_std_handle std_error_handle w0.system;
      } in
      elim (get_console_mode w.console_input_handle w.system) [
        | none ↦ record w { console_input_handle = invalid_handle; line_input_data = negsuc 0 }
        | some mode ↦ prep_input mode w
      ]

  -- Nothing is done on Windows.
  unfoldable pub deprep_terminal : Terminal → Terminal
  deprep_terminal w = w

  unfoldable pub os_key_avail : Terminal → ℤ
  os_key_avail w = kbhit w.system

  unfoldable pub os_key : Terminal → ℤ × Terminal
  os_key w =
      let (c, system) =
        if not (w.console_input_handle == invalid_handle) then getch w.system else fgetc w.system in
      (c, record w { system = system })

  -- The system that the line is read from.
  unfoldable pub with_line_modes : Terminal → System
  with_line_modes w = elim (get_console_mode w.console_input_handle w.system) [
    | none ↦ w.system
    | some mode ↦ set_console_mode w.console_input_handle (line_mode mode) w.system
  ]

  unfoldable pub os_accept_string : Terminal → Option (List ℕ) × Terminal
  os_accept_string w =
      let (text, system) = fgets 256 (with_line_modes w) in (text, record w { system = system })
