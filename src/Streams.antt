-- ===== src/Streams.antt =====
-- Reading a stream to its end: what the callers of `os_read_char` of src/os.c and of `c_socket_read_char` of
-- src/socket.c do, file-read-char of src/files.asm and socket-read-char of src/socket.asm: a negative result is the end.
use feline.Prelude.{
  ℕ, zero, suc, ◌<◌, ◌≡◌, refl, arith, Bool-cases, inl, inr, if◌then◌else◌, List, [], ◌∷◌, length,
  Option, none, some, ℤ, negsuc, Bool, pos, ltb_ℤ,
}

-- `test rax, rax` and `js`.
abbrev pub is_end : ℤ → Bool
is_end c = ltb_ℤ c (pos 0)

module _ {S : Type 0} (read_char : S → ℤ × S) where
  -- The characters up to the first negative result, with one round of fuel for each call; `none` means that the fuel ran out.
  unfoldable pub read_to_end : ℕ → S → Option (List ℤ × S)
  read_to_end zero s = none
  read_to_end (suc fuel) s =
      let (c, s1) = read_char s in
      let rest : Option (List ℤ × S) = elim (read_to_end fuel s1) [
        | none ↦ none
        | some (cs, s2) ↦ some (c ∷ cs, s2)
      ] in
      if is_end c then some ([], s1) else rest

-- The characters of the bytes before the first that is read as a negative number.
unfoldable pub before_end : (ℕ → ℤ) → List ℕ → List ℤ
before_end decode [] = []
before_end decode (b ∷ bytes) =
    let rest = before_end decode bytes in if is_end (decode b) then [] else decode b ∷ rest

-- A stream: the bytes to come, each of which is read as a character.
pub record StreamLaws {S : Type 0} (read_char : S → ℤ × S) (decode : ℕ → ℤ) : Type 0 where
  pub to_come : S → List ℕ
  pub at_end : (s : S) → to_come s ≡ [] → (read_char s).0 ≡ negsuc 0
  pub reads :
      (s : S) (b : ℕ) (bytes : List ℕ)
      → to_come s ≡ b ∷ bytes
      → ((read_char s).0 ≡ decode b) × (to_come (read_char s).1 ≡ bytes)

module _ {S : Type 0} (read_char : S → ℤ × S) (decode : ℕ → ℤ)
    (laws : StreamLaws read_char decode) where
  open laws use {to_come, at_end, reads}

  -- With one more round than there are bytes to come, reading ends, with the characters of the bytes before the first
  -- that is read as a negative number.
  pub read_to_end_lem :
      (bytes : List ℕ) (fuel : ℕ) (s : S)
      → to_come s ≡ bytes
      → length bytes < fuel
      → (s' : S) × (read_to_end read_char fuel s ≡ some (before_end decode bytes, s'))
  unfolding read_to_end before_end
  read_to_end_lem bytes zero s e enough = absurd (omega arith)
  read_to_end_lem [] (suc fuel) s e enough = ((read_char s).1, rw (read_to_end, at_end s e) refl)
  read_to_end_lem (b ∷ bytes) (suc fuel) s e enough =
      let (c, next) = reads s b bytes e in
      let (s', rest) = read_to_end_lem bytes fuel (read_char s).1 next (omega arith) in
      elim (Bool-cases (is_end (decode b))) [
        | inl last ↦ ((read_char s).1, rw (read_to_end, before_end, c, last) refl)
        | inr more ↦ (s', rw (read_to_end, before_end, rest, c, more) refl)
      ]
