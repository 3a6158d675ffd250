-- ===== src/Terminal/Windows/Modes.antt =====
-- The modes of the Windows console: what the program changes and does not give back.
use feline.Prelude.{◌≡◌, ◌≢◌, ℕ, some, ℤ}
use feline.Terminal.Windows.{
  os_accept_string, Console, Terminal, std_input_handle, std_output_handle, std_error_handle,
}

-- What Windows says of the modes of a console: one that is set is read back, and nothing else that the code
-- does changes it.
pub record ModeLaws (t : Console) : Type 0 where
  pub set_lem :
      (h mode old : ℕ) (s : t.System)
      → t.get_console_mode h s ≡ some old
      → t.get_console_mode h (t.set_console_mode h mode s) ≡ some mode
  pub set_other :
      (h k mode : ℕ) (s : t.System)
      → h ≢ k
      → t.get_console_mode h (t.set_console_mode k mode s) ≡ t.get_console_mode h s
  pub size_keeps :
      (h k : ℕ) (x y : ℤ) (s : t.System)
      → t.get_console_mode h (t.set_screen_buffer_size k x y s) ≡ t.get_console_mode h s

module _ (t : Console) (laws : ModeLaws t) where
  open t use {get_std_handle, get_console_mode, set_console_mode, screen_buffer_window, fgets}
  open laws use {set_lem, set_other, size_keeps}

  abbrev started : Terminal t → Terminal t
  started w = record w {
    console_input_handle = get_std_handle std_input_handle w.system;
    console_output_handle = get_std_handle std_output_handle w.system;
    standard_output_handle = get_std_handle std_output_handle w.system;
    error_output_handle = get_std_handle std_error_handle w.system;
  }

  -- The line that `os_accept_string` returns was read in a state of the system with this mode of the input, and with the
  -- other modes as they were.
  abbrev pub ReadsLine : ℕ → ℕ → Terminal t → Type 0
  ReadsLine h mode w =
      (s : t.System) × (get_console_mode h s ≡ some mode)
      × ((k : ℕ) → k ≢ h → get_console_mode k s ≡ get_console_mode k w.system)
      × (os_accept_string t w ≡ ((fgets 256 s).0, record w { system = (fgets 256 s).1 }))
