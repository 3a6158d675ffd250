-- ===== src/Terminal/Modes.antt =====
-- The modes of the terminal: what the program changes and what it gives back.
use feline.Prelude.{
  ◌≡◌, ◌⊎◌, inl, inr, refl, ◌∙◌, ap, Bool, true, false, not, ◌&&◌, Bool-cases, none, some,
  Option-cases, ℤ,
}
use feline.Terminal.{
  Termios, Tty, same_text, dumb, stdin_fd, Terminal, get_terminal_size, raw_modes, prep_terminal,
  deprep_terminal,
}

-- What POSIX says of the modes: setting them is read back, and nothing else that the code does changes them.
pub record ModeLaws (t : Tty) : Type 0 where
  pub drain_sets :
      (fd : ℤ) (tio : Termios) (s : t.System) → t.tcgetattr fd (t.tcsetattr_drain fd tio s) ≡ tio
  pub now_sets :
      (fd : ℤ) (tio : Termios) (s : t.System) → t.tcgetattr fd (t.tcsetattr_now fd tio s) ≡ tio
  pub unbuffer_keeps :
      (fd : ℤ) (s : t.System) → t.tcgetattr fd (t.unbuffer_stdin s) ≡ t.tcgetattr fd s
  pub winch_keeps :
      (fd : ℤ) (s : t.System) → t.tcgetattr fd (t.install_sig_winch s) ≡ t.tcgetattr fd s

module _ (t : Tty) where
  -- Standard input is a terminal, and TERM is set and is not "dumb".
  abbrev pub is_capable : t.System → Bool
  is_capable s =
      t.isatty stdin_fd s
      && elim (t.getenv_term s) [ none ↦ false | some term ↦ not (same_text term dumb) ]

module _ (t : Tty) (laws : ModeLaws t) where
  open t use {
    System, isatty, getenv_term, tcgetattr, tcsetattr_drain, unbuffer_stdin, install_sig_winch,
    window_size,
  }
  open laws use {drain_sets, now_sets, unbuffer_keeps, winch_keeps}

  abbrev pub modes : Terminal t → Termios
  modes w = tcgetattr stdin_fd w.system

  prepared_modes :
      (tio : Termios) (s : System)
      → tcgetattr stdin_fd (install_sig_winch (unbuffer_stdin (tcsetattr_drain stdin_fd tio s)))
        ≡ tio
  prepared_modes tio s =
      let s1 = tcsetattr_drain stdin_fd tio s in
      winch_keeps stdin_fd (unbuffer_stdin s1)
      ∙ unbuffer_keeps stdin_fd s1
      ∙ drain_sets stdin_fd tio s

  get_terminal_size_frame :
      (w : Terminal t)
      → let w' = get_terminal_size t w in
        (w'.system ≡ w.system) × (w'.tty ≡ w.tty) × (w'.otio ≡ w.otio)
  unfolding get_terminal_size
  get_terminal_size_frame w = elim (Option-cases (window_size w.tty w.system)) [
    | inl e ↦ rw (e, get_terminal_size) (refl, refl, refl)
    | inr (size, e) ↦ rw (e, get_terminal_size) (refl, refl, refl)
  ]

  -- In a program that has not prepared the terminal yet: preparing either leaves the system as it is, and then
  -- so does undoing it; or it puts the terminal into the raw modes, and undoing it afterwards, whatever
  -- the system went through in between, gives the terminal the modes that it had at first.
  pub deprep_terminal-prep_terminal :
      (w : Terminal t) (later : System)
      → w.terminal_prepped ≡ false
      → let w' = prep_terminal t w in
        ((w'.system ≡ w.system) × (deprep_terminal t w' ≡ w'))
        ⊎ ((modes w' ≡ raw_modes t (modes w))
            × (modes (deprep_terminal t (record w' { system = later })) ≡ modes w))
  unfolding prep_terminal deprep_terminal
  deprep_terminal-prep_terminal w later fresh =
      let tio = tcgetattr stdin_fd w.system in
      let s1 = tcsetattr_drain stdin_fd (raw_modes t tio) w.system in
      let s2 = install_sig_winch (unbuffer_stdin s1) in
      let w2 : Terminal t = record w { tty = stdin_fd; otio = tio; system = s2 } in
      let raw = prepared_modes (raw_modes t tio) w.system in
      let (kept, same_tty, same_otio) = get_terminal_size_frame w2 in
      elim (Bool-cases (isatty stdin_fd w.system)) [
        | inr pipe ↦ rw (pipe, fresh) (inl (refl, refl))
        | inl terminal ↦ elim (Option-cases (getenv_term w.system)) [
          | inl unset ↦ rw (terminal, unset, prep_terminal, fresh) (inl (refl, refl))
          | inr (term, found) ↦ elim (Bool-cases (same_text term dumb)) [
            | inl poor ↦ rw (terminal, found, prep_terminal, poor, fresh) (inl (refl, refl))
            | inr capable ↦
                rw (terminal, found, prep_terminal, capable)
                  (inr (
                    ap (λ s. tcgetattr stdin_fd s) kept ∙ raw,
                    ap
                          (λ fd.
                            tcgetattr stdin_fd
                              (t.tcsetattr_now fd (get_terminal_size t w2).otio later))
                          same_tty
                        ∙ now_sets stdin_fd _ later
                        ∙ same_otio,
                  ))
          ]
        ]
      ]

  -- Where standard input is a terminal that can be prepared, preparing it puts it into the raw modes.
  pub modes-prep_terminal :
      (w : Terminal t)
      → ((is_capable t w.system ≡ true) × (modes (prep_terminal t w) ≡ raw_modes t (modes w)))
        ⊎ (is_capable t w.system ≡ false)
  unfolding prep_terminal
  modes-prep_terminal w =
      let tio = tcgetattr stdin_fd w.system in
      let s1 = tcsetattr_drain stdin_fd (raw_modes t tio) w.system in
      let s2 = install_sig_winch (unbuffer_stdin s1) in
      let w2 : Terminal t = record w { tty = stdin_fd; otio = tio; system = s2 } in
      let raw = prepared_modes (raw_modes t tio) w.system in
      let (kept, same_tty, same_otio) = get_terminal_size_frame w2 in
      elim (Bool-cases (isatty stdin_fd w.system)) [
        | inr pipe ↦ rw pipe (inr refl)
        | inl terminal ↦ elim (Option-cases (getenv_term w.system)) [
          | inl unset ↦ rw (terminal, unset) (inr refl)
          | inr (term, found) ↦ elim (Bool-cases (same_text term dumb)) [
            | inl poor ↦ rw (terminal, found, poor) (inr refl)
            | inr capable ↦
                rw (terminal, found, prep_terminal, capable)
                  (inl (refl, ap (λ s. tcgetattr stdin_fd s) kept ∙ raw))
          ]
        ]
      ]
