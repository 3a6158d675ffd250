-- ===== src/Tests/Terminal.antt =====
-- src/terminal.c on a terminal whose only state is its modes.
use feline.Prelude.{◌≡◌, refl, true, false, none, some, [], ◌∷◌, pos}
use feline.Terminal.{Termios, Tty, Terminal, prep_terminal, deprep_terminal, get_terminal_size}

abbrev console : Tty
console = record {
  System = Termios;
  isatty = λ fd s. true;
  getenv_term = λ s. some (120 ∷ []);
  tcgetattr = λ fd s. s;
  tcsetattr_drain = λ fd tio s. tio;
  tcsetattr_now = λ fd tio s. tio;
  unbuffer_stdin = λ s. s;
  install_sig_winch = λ s. s;
  window_size = λ fd s. some (record { ws_row = 24; ws_col = 80 });
  chars_avail = λ fd s. (pos 0, pos 0);
  fgetc = λ s. (pos 65, s);
  fgets = λ n s. (none, s);
}

abbrev cooked : Termios
cooked = record { c_iflag = 0o2400; c_lflag = 59; rest = [] }

abbrev session : Terminal console
session = record {
  system = cooked;
  tty = pos 0;
  otio = cooked;
  terminal_prepped = false;
  terminal_rows = 0;
  terminal_columns = 0;
  line_input_data = pos 1;
}

-- The size is known once the terminal is prepared, and the modes are given back.
columns_run : (prep_terminal console session).terminal_columns ≡ 80
unfolding prep_terminal get_terminal_size
columns_run = refl

modes_run : (deprep_terminal console (prep_terminal console session)).system ≡ cooked
unfolding prep_terminal deprep_terminal get_terminal_size
modes_run = refl
