-- ===== src/Startup/Windows/Space.antt =====
-- Where the code space of Windows comes from.
use feline.Prelude.{
  ℕ, zero, suc, ◌+◌, ◌==◌, ==_iff, ◌≡◌, ◌≢◌, ◌⊎◌, inl, inr, refl, ◌∙◌, ap, arith, false, Bool-cases,
  if◌then◌else◌, Option, none, some, List, [], ◌∷◌,
}
use feline.Word.{u64}
use feline.Os.Memory.{read_write_exec}
use feline.Startup.{code_space_size}
use feline.Startup.Windows.{Allocator, Process, try_addresses, initialize_dynamic_code_space}
use feline.Terminal.Windows.{Console}

module _ (t : Console) (al : Allocator t.System) where
  open al use {virtual_alloc}

  -- What the places proposed, one after the other, come to: the first one at which the system finds room, or 0.
  pub data Attempts : List (Option ℕ) → t.System → ℕ → t.System → Type 0 where
    gave_up : (s : t.System) → Attempts [] s 0 s
    failed :
        {place : Option ℕ} {places : List (Option ℕ)} {s s1 s2 : t.System} {p : ℕ}
        → virtual_alloc place code_space_size read_write_exec s ≡ (0, s1)
        → Attempts places s1 p s2
        → Attempts (place ∷ places) s p s2
    found :
        {place : Option ℕ} {places : List (Option ℕ)} {s s1 : t.System} {p : ℕ}
        → p ≢ 0
        → virtual_alloc place code_space_size read_write_exec s ≡ (p, s1)
        → Attempts (place ∷ places) s p s1

  -- Three places from 2 GB up, 1 MB apart, and then any.
  abbrev pub places : List (Option ℕ)
  places = some 0x80000000 ∷ some 0x80100000 ∷ some 0x80200000 ∷ none ∷ []

  abbrev pub spaces : Process t al → ℕ → t.System → Process t al
  spaces w p s = record w {
    terminal = record w.terminal { system = s };
    code_space = p;
    code_space_free = p;
    code_space_limit = u64 (p + code_space_size);
  }

  nonzero : (p : ℕ) → p ≢ 0 → (p == 0) ≡ false
  nonzero p good = ground arith

  -- One round of the loop.
  round_failed :
      (left address : ℕ) (s s1 : t.System)
      → virtual_alloc (some address) code_space_size read_write_exec s ≡ (0, s1)
      → try_addresses t al (suc left) address s ≡ try_addresses t al left (address + 0x100000) s1
  unfolding try_addresses
  round_failed left address s s1 e = rw e refl

  round_found :
      (left address p : ℕ) (s s1 : t.System)
      → p ≢ 0
      → virtual_alloc (some address) code_space_size read_write_exec s ≡ (p, s1)
      → try_addresses t al (suc left) address s ≡ (p, s1)
  unfolding try_addresses
  round_found left address p s s1 good e =
      ap
        (λ (q : ℕ × t.System).
          if q.0 == 0 then try_addresses t al left (address + 0x100000) q.1 else q)
        e
      ∙ ap (λ b. if b then try_addresses t al left (address + 0x100000) s1 else (p, s1))
          (nonzero p good)

  -- The places that the loop proposes.
  abbrev from : ℕ → ℕ → List (Option ℕ)
  from zero address = none ∷ []
  from (suc left) address = some address ∷ from left (address + 0x100000)

  -- The loop, and then the last attempt.
  space : ℕ × t.System → ℕ × t.System
  space q = if q.0 == 0 then virtual_alloc none code_space_size read_write_exec q.1 else q

  try_addresses-Attempts :
      (left address p : ℕ) (s s' : t.System)
      → Attempts (from left address) s p s'
      → space (try_addresses t al left address s) ≡ (p, s')
  unfolding space try_addresses
  try_addresses-Attempts zero address p s s' (failed e (gave_up last)) = e
  try_addresses-Attempts zero address p s s' (found good e) = e
  try_addresses-Attempts (suc left) address p s s' (failed e rest) =
      ap space (round_failed left address s _ e) ∙ try_addresses-Attempts left _ p _ s' rest
  try_addresses-Attempts (suc left) address p s s' (found good e) =
      ap space (round_found left address p s s' good e)
      ∙ ap (λ b. if b then virtual_alloc none code_space_size read_write_exec s' else (p, s'))
          (nonzero p good)

  finish : Process t al → ℕ × t.System → Option (Process t al)
  finish w q = if q.0 == 0 then none else some (spaces w q.0 q.1)

  -- The code space is at the first of the four places where the system finds room for 8 MB, and empty, with its limit
  -- 8 MB above modulo 2 ^ 64; where there is room at none of them, the program exits.
  pub initialize_dynamic_code_space_lem :
      (w : Process t al) (p : ℕ) (s' : t.System)
      → Attempts places w.terminal.system p s'
      → ((p ≡ 0) × (initialize_dynamic_code_space t al w ≡ none))
        ⊎ ((p ≢ 0) × (initialize_dynamic_code_space t al w ≡ some (spaces w p s')))
  unfolding initialize_dynamic_code_space finish space
  initialize_dynamic_code_space_lem w p s' at =
      let done : initialize_dynamic_code_space t al w ≡ finish w (p, s') =
        ap (finish w) (try_addresses-Attempts 3 0x80000000 p w.terminal.system s' at) in
      elim (Bool-cases (p == 0)) [
        | inl nothing ↦ inl (
          (==_iff p 0).0 nothing,
          done ∙ ap (λ b. if b then none else some (spaces w p s')) nothing,
        )
        | inr something ↦ inr (
          (λ e. ground arith),
          done ∙ ap (λ b. if b then none else some (spaces w p s')) something,
        )
      ]
