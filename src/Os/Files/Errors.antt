-- ===== src/Os/Files/Errors.antt =====
-- Opening and reading: what is reported, and what happens to the files.
use feline.Prelude.{
  ℕ, ◌≡◌, ◌≢◌, ◌⊎◌, inl, inr, refl, ◌∙◌, ap, arith, Bool-cases, Option, none, some, List, [], ◌∷◌,
  ℤ, pos, ◌≤ℤ◌, ◌<ℤ◌, ltb_ℤ, leb_ℤ, bit_or,
}
use feline.Cell.{int32}
use feline.Os.Files.{
  Posix, Machine, minus_one, o_wronly, o_append, o_creat, os_open_file, os_file_open_read,
  os_file_open_append, os_read_char, first_byte,
}

abbrev pub or_empty : Option (List ℕ) → List ℕ
or_empty none = []
or_empty (some c) = c

-- What POSIX says of `open` for appending, in terms of the contents of the files by name (`none`: there is
-- no such file).
pub record OpenLaws (px : Posix) : Type 0 where
  pub content : List ℕ → px.System → Option (List ℕ)
  -- Without O_CREAT no file changes, and success means that the file was there.
  pub plain_content :
      (f g : List ℕ) (s : px.System)
      → content g (px.open_file f (bit_or o_wronly o_append) 0 s).1 ≡ content g s
  pub plain_exists :
      (f : List ℕ) (s : px.System)
      → pos 0 ≤ℤ (px.open_file f (bit_or o_wronly o_append) 0 s).0
      → content f s ≢ none
  -- With O_CREAT a file that was missing is there and empty after success; all else stays as it was.
  pub create_content :
      (f : List ℕ) (s : px.System)
      → let (ret, s') = px.open_file f (bit_or (bit_or o_wronly o_append) o_creat) 0o644 s in
        pos 0 ≤ℤ ret → content f s' ≡ some (or_empty (content f s))
  pub create_fails :
      (f : List ℕ) (s : px.System)
      → let (ret, s') = px.open_file f (bit_or (bit_or o_wronly o_append) o_creat) 0o644 s in
        ret <ℤ pos 0 → content f s' ≡ content f s
  pub create_others :
      (f g : List ℕ) (s : px.System)
      → g ≢ f
      → content g (px.open_file f (bit_or (bit_or o_wronly o_append) o_creat) 0o644 s).1
        ≡ content g s

or_empty_exists : (o : Option (List ℕ)) → o ≢ none → o ≡ some (or_empty o)
or_empty_exists none h = absurd (h refl)
or_empty_exists (some c) h = refl

first_byte-bounds : (bytes : List ℕ) → (pos 0 ≤ℤ first_byte bytes) × (first_byte bytes <ℤ pos 256)
first_byte-bounds [] = omega arith
first_byte-bounds (c ∷ s) = omega arith

module _ (px : Posix) where
  open px use {System, errno, open_file, read}

  -- `os_open_file` and `os_file_open_read` agree on O_RDONLY; they return a descriptor and leave
  -- `os_errno_data` alone, or return -1 and set it to the error of the call.
  pub os_file_open_read_lem :
      (filename : List ℕ) (m : Machine px)
      → let (ret, m') = os_file_open_read px filename m in
        (os_open_file px filename 0 m ≡ (ret, m'))
        × (((pos 0 ≤ℤ ret) × (m'.os_errno_data ≡ m.os_errno_data))
            ⊎ ((ret ≡ minus_one) × (m'.os_errno_data ≡ errno m'.system)))
  unfolding os_file_open_read os_open_file
  os_file_open_read_lem filename m =
      let (ret, system) = open_file filename 0 0 m.system in
      elim (Bool-cases (ltb_ℤ ret (pos 0))) [
        | inl failed ↦ rw failed (refl, inr (refl, refl))
        | inr opened ↦ rw opened (refl, inl (ground arith, refl))
      ]

  -- `os_read_char` returns a byte, and the value -1 only where `read` returned nothing.
  pub os_read_char-bounds :
      (fd : ℤ) (m : Machine px)
      → let ret = (os_read_char px fd m).0 in
        let n = int32 (read (int32 fd) 1 m.system).0 in
        ((n ≤ℤ pos 0) × (ret ≡ minus_one)) ⊎ ((pos 0 <ℤ n) × (pos 0 ≤ℤ ret) × (ret <ℤ pos 256))
  unfolding os_read_char
  os_read_char-bounds fd m =
      let (n, bytes, system) = read (int32 fd) 1 m.system in
      elim (Bool-cases (leb_ℤ (int32 n) (pos 0))) [
        | inl none_ ↦ rw none_ (inl (ground arith, refl))
        | inr some_ ↦
            rw some_ (inr (ground arith, (first_byte-bounds bytes).0, (first_byte-bounds bytes).1))
      ]

  module _ (laws : OpenLaws px) where
    open laws use {
      content, plain_content, plain_exists, create_content, create_fails, create_others,
    }

    -- A file opened for appending: on success it is there, with the content that it had, or empty if it was
    -- not there; on failure nothing about it changed, the result is -1 and the error was recorded.
    pub os_file_open_append_lem :
        (f : List ℕ) (m : Machine px)
        → let (ret, m') = os_file_open_append px f m in
          ((pos 0 ≤ℤ ret)
            × (content f m'.system ≡ some (or_empty (content f m.system)))
            × (m'.os_errno_data ≡ m.os_errno_data))
          ⊎ ((ret ≡ minus_one)
              × (content f m'.system ≡ content f m.system)
              × (m'.os_errno_data ≡ errno m'.system))
    unfolding os_file_open_append
    os_file_open_append_lem f m =
        let flags : ℕ = bit_or o_wronly o_append in
        let (ret, system) = open_file f flags 0 m.system in
        let (ret', system') = open_file f (bit_or flags o_creat) 0o644 system in
        let kept = plain_content f f m.system in
        elim (Bool-cases (leb_ℤ (pos 0) ret)) [
          | inl there ↦
              let opened : pos 0 ≤ℤ ret = ground arith in
              rw there (
                inl (
                  opened,
                  kept ∙ or_empty_exists (content f m.system) (plain_exists f m.system opened),
                  refl,
                ))
          | inr missing ↦ elim (Bool-cases (ltb_ℤ ret' (pos 0))) [
            | inl failed ↦
                rw (missing, failed) (inr (refl, create_fails f system (ground arith) ∙ kept, refl))
            | inr made ↦
                let created : pos 0 ≤ℤ ret' = ground arith in
                rw (missing, made)
                  (inl (
                    created,
                    create_content f system created ∙ ap (λ o. some (or_empty o)) kept,
                    refl,
                  ))
          ]
        ]

    -- Opening a file for appending leaves the content of every other file as it was.
    pub os_file_open_append_others :
        (f g : List ℕ) (m : Machine px)
        → g ≢ f
        → content g (os_file_open_append px f m).1.system ≡ content g m.system
    unfolding os_file_open_append
    os_file_open_append_others f g m other =
        let flags : ℕ = bit_or o_wronly o_append in
        let (ret, system) = open_file f flags 0 m.system in
        let (ret', system') = open_file f (bit_or flags o_creat) 0o644 system in
        let kept = plain_content f g m.system in
        elim (Bool-cases (leb_ℤ (pos 0) ret)) [
          | inl there ↦ rw there kept
          | inr missing ↦ elim (Bool-cases (ltb_ℤ ret' (pos 0))) [
            | inl failed ↦ rw (missing, failed) (create_others f g system other ∙ kept)
            | inr made ↦ rw (missing, made) (create_others f g system other ∙ kept)
          ]
        ]
