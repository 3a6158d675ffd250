-- ===== src/Terminal/Session.antt =====
-- A session at the terminal of Linux: what the rest of the program calls of src/terminal.c while it runs, and what it
-- does to the system otherwise.
use feline.Prelude.{◌≡◌, refl, ◌∙◌, Bool, Option-cases, Bool-cases, inl, inr, List, [], ◌∷◌, ℤ}
use feline.Terminal.{
  Termios, Tty, Terminal, get_terminal_size, sig_winch, deprep_terminal, os_key, os_accept_string,
}

module _ (t : Tty) where
  -- `elsewhere` is a change to the system by other code.
  pub data Use : Type 0 where
    resized key line : Use
    elsewhere : (t.System → t.System) → Use

  unfoldable pub use_terminal : Use → Terminal t → Terminal t
  use_terminal resized w = sig_winch t w
  use_terminal key w = (os_key t w).1
  use_terminal line w = (os_accept_string t w).1
  use_terminal (elsewhere change) w = record w { system = change w.system }

  unfoldable pub session : List Use → Terminal t → Terminal t
  session [] w = w
  session (u ∷ us) w = session us (use_terminal u w)

  -- What `deprep_terminal` reads.
  abbrev pub statics : Terminal t → Bool × ℤ × Termios
  statics w = (w.terminal_prepped, w.tty, w.otio)

  pub statics-get_terminal_size : (w : Terminal t) → statics (get_terminal_size t w) ≡ statics w
  unfolding get_terminal_size
  statics-get_terminal_size w = elim (Option-cases (t.window_size w.tty w.system)) [
    | inl e ↦ rw (e, get_terminal_size) refl
    | inr (size, e) ↦ rw (e, get_terminal_size) refl
  ]

  statics-deprep_terminal : (w : Terminal t) → statics (deprep_terminal t w) ≡ statics w
  unfolding deprep_terminal
  statics-deprep_terminal w = elim (Bool-cases w.terminal_prepped) [
    | inl e ↦ rw e refl
    | inr e ↦ rw e refl
  ]

  statics-use_terminal : (u : Use) (w : Terminal t) → statics (use_terminal u w) ≡ statics w
  unfolding use_terminal sig_winch os_key os_accept_string
  statics-use_terminal resized w = statics-get_terminal_size w
  statics-use_terminal key w = refl
  statics-use_terminal line w = statics-deprep_terminal w
  statics-use_terminal (elsewhere change) w = refl

  pub statics-session : (us : List Use) (w : Terminal t) → statics (session us w) ≡ statics w
  unfolding session
  statics-session [] w = refl
  statics-session (u ∷ us) w = statics-session us (use_terminal u w) ∙ statics-use_terminal u w
