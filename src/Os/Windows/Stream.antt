-- ===== src/Os/Windows/Stream.antt =====
-- Reading a file with the Windows body of `os_read_char` of src/os.c until it returns a negative number.
use feline.Prelude.{
  ℕ, ◌%◌, ◌<◌, ◌≡◌, refl, ◌∙◌, ap, true, List, [], ◌∷◌, length, some, ℤ, pos, negsuc,
}
use feline.Streams.{read_to_end, read_to_end_lem}
use feline.Os.Files.Stream.{characters, before_end-characters}
use feline.Os.Windows.{Win32, Machine, os_read_char}

module _ (w32 : Win32) (fd : ℤ) where
  open w32 use {System, read_file}

  -- What Windows says of ReadFile for one byte on an open file: at the end it succeeds and stores nothing, before it it
  -- stores the next byte.
  pub record ReadLaws : Type 0 where
    pub content : System → List ℕ
    pub read_end :
        (s : System) → content s ≡ [] → ((read_file fd 1 s).0 ≡ true) × ((read_file fd 1 s).1 ≡ [])
    pub read_next :
        (s : System) (b : ℕ) (bytes : List ℕ)
        → content s ≡ b ∷ bytes
        → ((read_file fd 1 s).0 ≡ true)
          × ((read_file fd 1 s).1 ≡ b ∷ [])
          × (content (read_file fd 1 s).2 ≡ bytes)

  module _ (laws : ReadLaws) where
    open laws use {content, read_end, read_next}

    os_read_char-end :
        (m : Machine w32) → content m.system ≡ [] → (os_read_char w32 fd m).0 ≡ negsuc 0
    unfolding os_read_char
    os_read_char-end m e =
        let (done, nothing) = read_end m.system e in rw (os_read_char, done, nothing) refl

    os_read_char-next :
        (m : Machine w32) (b : ℕ) (bytes : List ℕ)
        → content m.system ≡ b ∷ bytes
        → ((os_read_char w32 fd m).0 ≡ pos (b % 256))
          × (content (os_read_char w32 fd m).1.system ≡ bytes)
    unfolding os_read_char
    os_read_char-next m b bytes e =
        let (done, stored, left) = read_next m.system b bytes e in
        rw (os_read_char, done, stored) (refl, left)

    -- With one more call than a file has bytes to come, whatever they are, reading it until the end returns, and gives all
    -- of them in order.
    pub read_to_end-os_read_char_windows :
        (fuel : ℕ) (m : Machine w32)
        → length (content m.system) < fuel
        → (m' : Machine w32) × (read_to_end (os_read_char w32 fd) fuel m
            ≡ some (characters (content m.system), m'))
    read_to_end-os_read_char_windows fuel m enough =
        let bytes = content m.system in
        let (m', e) =
          read_to_end_lem (os_read_char w32 fd) (λ b. pos (b % 256))
            (record {
              to_come = λ (m1 : Machine w32). content m1.system;
              at_end = os_read_char-end;
              reads = os_read_char-next;
            })
            bytes fuel m refl enough in
        (m', e ∙ ap (λ cs. some (cs, m')) (before_end-characters bytes))
