-- ===== src/Terminal.antt =====
-- src/terminal.c as it is built for Linux: the modes of the terminal that standard input is, and its size.
pub mod Modes
pub mod Session
pub mod Windows
use feline.Prelude.{
  ℕ, ◌+◌, ◌-◌, ◌*◌, Bool, true, false, ◌&&◌, ◌==◌, if◌then◌else◌, Option, none, some, List, [], ◌∷◌,
  ℤ, pos, negsuc, bit_and, eqb_ℤ, ltb_ℤ,
}

-- What the code reads and changes of a `struct termios`; `rest` is all else.
pub record Termios : Type 0 where
  pub c_iflag : ℕ
  pub c_lflag : ℕ
  pub rest : List ℕ

pub record Winsize : Type 0 where
  pub ws_row : ℕ
  pub ws_col : ℕ

-- The flags of Linux: IXON | IXOFF, and ISIG | ICANON | ECHO.
abbrev pub flow_control : ℕ
flow_control = 0o2000 + 0o10000

abbrev pub line_modes : ℕ
line_modes = 1 + 2 + 8

-- `flags & ~mask`: the bits of the mask that are set are taken away.
abbrev pub without : ℕ → ℕ → ℕ
without flags mask = flags - bit_and flags mask

-- The calls on the terminal. `fgets` returns the text read, if any.
pub record Tty : Type 1 where
  pub System : Type 0
  pub isatty : ℤ → System → Bool
  pub getenv_term : System → Option (List ℕ)
  pub tcgetattr : ℤ → System → Termios
  pub tcsetattr_drain : ℤ → Termios → System → System
  pub tcsetattr_now : ℤ → Termios → System → System
  pub unbuffer_stdin : System → System
  pub install_sig_winch : System → System
  pub window_size : ℤ → System → Option Winsize
  pub chars_avail : ℤ → System → ℤ × ℤ
  pub fgetc : System → ℤ × System
  pub fgets : ℕ → System → Option (List ℕ) × System

-- `!strcmp (s, t)`
abbrev pub same_text : List ℕ → List ℕ → Bool
same_text [] [] = true
same_text (a ∷ s) (b ∷ t) = (a == b) && same_text s t
same_text _ _ = false

-- "dumb"
abbrev pub dumb : List ℕ
dumb = 100 ∷ 117 ∷ 109 ∷ 98 ∷ []

-- `fileno (stdin)`
abbrev pub stdin_fd : ℤ
stdin_fd = pos 0

module _ (t : Tty) where
  open t use {
    System, isatty, getenv_term, tcgetattr, tcsetattr_drain, tcsetattr_now, unbuffer_stdin,
    install_sig_winch, window_size, chars_avail, fgetc, fgets,
  }

  -- The system, the file's static variables, and those of the Feline side that the file sets.
  pub record Terminal : Type 0 where
    pub system : System
    pub tty : ℤ
    pub otio : Termios
    pub terminal_prepped : Bool
    pub terminal_rows : ℕ
    pub terminal_columns : ℕ
    pub line_input_data : ℤ

  unfoldable pub get_terminal_size : Terminal → Terminal
  get_terminal_size w = elim (window_size w.tty w.system) [
    | none ↦ record w { terminal_rows = 0; terminal_columns = 0 }
    | some size ↦ record w { terminal_rows = size.ws_row; terminal_columns = size.ws_col }
  ]

  unfoldable pub sig_winch : Terminal → Terminal
  sig_winch w = get_terminal_size w

  -- The modes that the program runs in.
  unfoldable pub raw_modes : Termios → Termios
  raw_modes tio = record tio {
    c_iflag = without tio.c_iflag flow_control;
    c_lflag = without tio.c_lflag line_modes;
  }

  -- `getenv_term` is `none` where TERM is not set.
  unfoldable pub prep_terminal : Terminal → Terminal
  prep_terminal w0 =
      let w = record w0 { tty = stdin_fd } in
      if isatty w.tty w.system
      then elim (getenv_term w.system) [
        | none ↦ w
        | some term ↦
            if same_text term dumb
            then w
            else let tio = tcgetattr w.tty w.system in
              let s1 = tcsetattr_drain w.tty (raw_modes tio) w.system in
              let s2 = install_sig_winch (unbuffer_stdin s1) in
              let sized = get_terminal_size (record w { otio = tio; system = s2 }) in
              record sized { line_input_data = pos 0; terminal_prepped = true }
      ]
      else w

  unfoldable pub deprep_terminal : Terminal → Terminal
  deprep_terminal w =
      if w.terminal_prepped then record w { system = tcsetattr_now w.tty w.otio w.system } else w

  -- `chars_avail` is the result of FIONREAD, and the number that it stored.
  unfoldable pub os_key_avail : Terminal → ℤ
  os_key_avail w =
      let (status, stored) = chars_avail stdin_fd w.system in
      if eqb_ℤ status (pos 0) then stored else pos 0

  unfoldable pub os_key : Terminal → ℤ × Terminal
  os_key w = let (c, system) = fgetc w.system in (c, record w { system = system })

  unfoldable pub os_accept_string : Terminal → Option (List ℕ) × Terminal
  os_accept_string w0 =
      let w = deprep_terminal w0 in
      let (text, system) = fgets 256 w.system in (text, record w { system = system })
