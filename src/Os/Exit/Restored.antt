-- ===== src/Os/Exit/Restored.antt =====
-- From the start of src/main.c to `os_bye` of src/os.c: what becomes of the terminal's modes.
use feline.Prelude.{
  ◌≡◌, ◌⊎◌, inl, inr, refl, ◌∙◌, ap, Bool, true, false, Bool-cases, ◌==◌, Option-cases, none, List,
  ℕ, ℤ, pos, eqb_ℤ,
}
use feline.Os.Clock.{ClockTime}
use feline.Os.Memory.{Mapper, map_failed, read_write_exec}
use feline.Terminal.{
  Termios, Tty, Terminal, same_text, dumb, stdin_fd, prep_terminal, deprep_terminal,
}
use feline.Terminal.Modes.{ModeLaws, is_capable}
use feline.Terminal.Session.{Use, session, statics, statics-get_terminal_size, statics-session}
use feline.Startup.{
  Process, code_space_size, args, initialize_datastack, initialize_dynamic_code_space,
  reserve_handle_space, initialize_threads, main, exited, going,
}
use feline.Os.Exit.{os_bye}

module _ (t : Tty) (mp : Mapper t.System) where
  statics-prep_terminal :
      (w : Terminal t)
      → w.terminal_prepped ≡ false
      → ((is_capable t w.system ≡ true)
          × (statics t (prep_terminal t w) ≡ (true, stdin_fd, t.tcgetattr stdin_fd w.system)))
        ⊎ ((is_capable t w.system ≡ false) × ((prep_terminal t w).terminal_prepped ≡ false))
  unfolding prep_terminal
  statics-prep_terminal w fresh = elim (Bool-cases (t.isatty stdin_fd w.system)) [
    | inr pipe ↦ rw (pipe, fresh) (inr (refl, refl))
    | inl terminal ↦ elim (Option-cases (t.getenv_term w.system)) [
      | inl unset ↦ rw (terminal, unset, prep_terminal, fresh) (inr (refl, refl))
      | inr (term, found) ↦ elim (Bool-cases (same_text term dumb)) [
        | inl poor ↦ rw (terminal, found, prep_terminal, poor, fresh) (inr (refl, refl))
        | inr capable ↦
            rw (terminal, found, prep_terminal, capable)
              (inl (
                refl,
                ap (λ (q : Bool × ℤ × Termios). (true, q.1, q.2)) (statics-get_terminal_size t _),
              ))
      ]
    ]
  ]

  initialize_threads_terminal :
      (status : ℤ) (w : Process t mp) → (initialize_threads t mp status w).terminal ≡ w.terminal
  unfolding initialize_threads
  initialize_threads_terminal status w = elim (Bool-cases (eqb_ℤ status (pos 0))) [
    | inl good ↦ rw good refl
    | inr bad ↦ rw bad refl
  ]

  main_terminal :
      (now : ClockTime) (status : ℤ) (argc argv : ℕ) (w : Process t mp)
      → (main t mp now status argc argv w
          ≡ exited 1
              (mp.mmap none code_space_size read_write_exec (prep_terminal t w.terminal).system).1)
        ⊎ ((w1 : Process t mp) × (main t mp now status argc argv w ≡ going w1)
            × (statics t w1.terminal ≡ statics t (prep_terminal t w.terminal)))
  unfolding main args initialize_dynamic_code_space reserve_handle_space initialize_datastack
  main_terminal now status argc argv w =
      let p =
        (mp.mmap none code_space_size read_write_exec (prep_terminal t w.terminal).system).0 in
      elim (Bool-cases (p == map_failed)) [
        | inl failed ↦ rw (failed, main) (inl refl)
        | inr mapped ↦
            rw (mapped, main) (inr (_, refl, ap (statics t) (initialize_threads_terminal status _)))
      ]

  statics-main :
      (now : ClockTime) (status : ℤ) (argc argv : ℕ) (w w' : Process t mp)
      → main t mp now status argc argv w ≡ going w'
      → statics t w'.terminal ≡ statics t (prep_terminal t w.terminal)
  statics-main now status argc argv w w' started = elim (main_terminal now status argc argv w) [
    | inl stopped ↦ absurd (cc (stopped, started))
    | inr (w1, e, kept) ↦
        let same : w' ≡ w1 = cc (e, started) in
        ap (λ (q : Process t mp). statics t q.terminal) same ∙ kept
  ]

  -- Where modes that are set are read back: `main` starts on a terminal that is not prepared yet and hands over to
  -- the Feline code, keys and lines are read, the window is resized and other code changes the system, in any order,
  -- and `os_bye` ends the program. It exits with the status 0. If standard input was a terminal that can be
  -- prepared, it has the modes again that it had before the start; otherwise `os_bye` leaves the system as it finds
  -- it.
  pub os_bye-main :
      (laws : ModeLaws t) (now : ClockTime) (status : ℤ) (argc argv : ℕ) (w w' : Process t mp)
      (us : List (Use t))
      → w.terminal.terminal_prepped ≡ false
      → main t mp now status argc argv w ≡ going w'
      → let running = session t us w'.terminal in
        ((os_bye t running).0 ≡ pos 0)
        × (((is_capable t w.terminal.system ≡ true)
              × (t.tcgetattr stdin_fd (os_bye t running).1
                  ≡ t.tcgetattr stdin_fd w.terminal.system))
            ⊎ ((is_capable t w.terminal.system ≡ false) × ((os_bye t running).1 ≡ running.system)))
  unfolding os_bye deprep_terminal
  os_bye-main laws now status argc argv w w' us fresh started =
      let running = session t us w'.terminal in
      let kept : statics t running ≡ statics t (prep_terminal t w.terminal) =
        statics-session t us w'.terminal ∙ statics-main now status argc argv w w' started in
      elim (statics-prep_terminal w.terminal fresh) [
        | inl (capable, prepared) ↦
            let e = kept ∙ prepared in
            let prepped : running.terminal_prepped ≡ true =
              ap (λ (q : Bool × ℤ × Termios). q.0) e in
            let otio = ap (λ (q : Bool × ℤ × Termios). q.2) e in
            let tty = ap (λ (q : Bool × ℤ × Termios). q.1) e in
            (
              refl,
              inl (
                capable,
                rw (prepped, tty) (laws.now_sets stdin_fd running.otio running.system ∙ otio),
              ),
            )
        | inr (poor, unprepared) ↦
            let prepped : running.terminal_prepped ≡ false =
              ap (λ (q : Bool × ℤ × Termios). q.0) kept ∙ unprepared in
            (refl, inr (poor, rw prepped refl))
      ]
