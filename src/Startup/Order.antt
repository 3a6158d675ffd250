-- ===== src/Startup/Order.antt =====
-- What holds when src/main.c hands over to the Feline code.
use feline.Prelude.{
  ℕ, ◌+◌, ◌≡◌, ◌≢◌, ◌⊎◌, inl, inr, refl, arith, ap, Bool-cases, ◌==◌, ==_iff, none, ◌∷◌, ℤ, pos,
  eqb_ℤ,
}
use feline.Word.{u64}
use feline.Os.Clock.{ClockTime}
use feline.Os.Memory.{Mapper, map_failed, read_write_exec}
use feline.Terminal.{Tty, prep_terminal}
use feline.Startup.{
  Process, code_space_size, args, initialize_datastack, initialize_dynamic_code_space,
  reserve_handle_space, initialize_threads, main, exited, going, sigsegv, sigabrt, sigfpe, sigtrap,
}

module _ (t : Tty) (mp : Mapper t.System) where
  initialize_threads_frame :
      (status : ℤ) (w : Process t mp)
      → let w' = initialize_threads t mp status w in
        (w'.code_space ≡ w.code_space)
        × (w'.code_space_free ≡ w.code_space_free)
        × (w'.code_space_limit ≡ w.code_space_limit)
        × (w'.handled ≡ w.handled)
        × (w'.main_argc ≡ w.main_argc)
  unfolding initialize_threads
  initialize_threads_frame status w = elim (Bool-cases (eqb_ℤ status (pos 0))) [
    | inl good ↦ rw good (refl, refl, refl, refl, refl)
    | inr bad ↦ rw bad (refl, refl, refl, refl, refl)
  ]

  -- If the code space cannot be mapped, the program exits with the status 1 before the Feline code runs, and leaves the
  -- system as the call left it. Else the Feline code finds the code space where it was mapped, empty, with its limit 8 MB
  -- above modulo 2 ^ 64, the arguments counted, and handlers for the four signals installed.
  pub main_lem :
      (now : ClockTime) (status : ℤ) (argc argv : ℕ) (w : Process t mp)
      → let (p, s) =
          mp.mmap none code_space_size read_write_exec (prep_terminal t w.terminal).system in
        ((p ≡ map_failed) × (main t mp now status argc argv w ≡ exited 1 s))
        ⊎ ((p ≢ map_failed)
            × ((w' : Process t mp) × (main t mp now status argc argv w ≡ going w')
                × (w'.code_space ≡ p)
                × (w'.code_space_free ≡ p)
                × (w'.code_space_limit ≡ u64 (p + code_space_size))
                × (w'.main_argc ≡ argc)
                × (w'.handled ≡ sigtrap ∷ sigfpe ∷ sigabrt ∷ sigsegv ∷ w.handled)))
  unfolding main args initialize_dynamic_code_space reserve_handle_space initialize_datastack
  main_lem now status argc argv w =
      let p =
        (mp.mmap none code_space_size read_write_exec (prep_terminal t w.terminal).system).0 in
      elim (Bool-cases (p == map_failed)) [
        | inl failed ↦ rw (failed, main) (inl ((==_iff p map_failed).0 failed, refl))
        | inr mapped ↦
            let other : p ≢ map_failed = λ e. ground arith in
            let (a, b, c, d, e) = initialize_threads_frame status _ in
            rw (mapped, main)
              (inr (
                other,
                (_, refl, a, b, c, e, ap (λ l. sigtrap ∷ sigfpe ∷ sigabrt ∷ sigsegv ∷ l) d),
              ))
      ]
