-- ===== src/Os/Files/Stream.antt =====
-- Reading a file with `os_read_char` of src/os.c until it returns a negative number.
use feline.Prelude.{
  ℕ, ◌%◌, ◌<◌, ◌≡◌, refl, ◌∙◌, ap, arith, List, [], ◌∷◌, length, some, ℤ, pos, negsuc, leb_ℤ, true,
  false,
}
use feline.Cell.{int32}
use feline.Cell.Laws.{int32_fits}
use feline.Streams.{is_end, read_to_end, before_end, read_to_end_lem}
use feline.Os.Files.{Posix, Machine, first_byte, os_read_char}

-- The bytes of a file as the characters that they are read as.
abbrev pub characters : List ℕ → List ℤ
characters [] = []
characters (b ∷ bytes) = pos (b % 256) ∷ characters bytes

-- No byte is read as a negative number.
pub before_end-characters :
    (bytes : List ℕ) → before_end (λ b. pos (b % 256)) bytes ≡ characters bytes
unfolding before_end
before_end-characters [] = refl
before_end-characters (b ∷ bytes) =
    let more : is_end (pos (b % 256)) ≡ false = ground arith in
    rw (before_end, more) (ap (λ cs. pos (b % 256) ∷ cs) (before_end-characters bytes))

module _ (px : Posix) (fd : ℤ) where
  open px use {System, read}

  -- What POSIX says of `read` of one byte on an open file: at the end it returns 0, before it 1 and stores the next.
  pub record ReadLaws : Type 0 where
    pub content : System → List ℕ
    pub read_end : (s : System) → content s ≡ [] → (read (int32 fd) 1 s).0 ≡ pos 0
    pub read_next :
        (s : System) (b : ℕ) (bytes : List ℕ)
        → content s ≡ b ∷ bytes
        → ((read (int32 fd) 1 s).0 ≡ pos 1)
          × ((read (int32 fd) 1 s).1 ≡ b ∷ [])
          × (content (read (int32 fd) 1 s).2 ≡ bytes)

  module _ (laws : ReadLaws) where
    open laws use {content, read_end, read_next}

    os_read_char-end :
        (m : Machine px) → content m.system ≡ [] → (os_read_char px fd m).0 ≡ negsuc 0
    unfolding os_read_char
    os_read_char-end m e =
        let none : leb_ℤ (int32 (read (int32 fd) 1 m.system).0) (pos 0) ≡ true =
          rw (read_end m.system e, int32_fits (pos 0) (omega arith)) refl in
        rw (os_read_char, none) refl

    os_read_char-next :
        (m : Machine px) (b : ℕ) (bytes : List ℕ)
        → content m.system ≡ b ∷ bytes
        → ((os_read_char px fd m).0 ≡ pos (b % 256))
          × (content (os_read_char px fd m).1.system ≡ bytes)
    unfolding os_read_char
    os_read_char-next m b bytes e =
        let (one, stored, left) = read_next m.system b bytes e in
        let some : leb_ℤ (int32 (read (int32 fd) 1 m.system).0) (pos 0) ≡ false =
          rw (one, int32_fits (pos 1) (omega arith)) refl in
        rw (os_read_char, some) (ap first_byte stored, left)

    -- With one more call than a file has bytes to come, whatever they are, reading it until the end returns, and gives all of
    -- them in order.
    pub read_to_end-os_read_char :
        (fuel : ℕ) (m : Machine px)
        → length (content m.system) < fuel
        → (m' : Machine px) × (read_to_end (os_read_char px fd) fuel m
            ≡ some (characters (content m.system), m'))
    read_to_end-os_read_char fuel m enough =
        let bytes = content m.system in
        let (m', e) =
          read_to_end_lem (os_read_char px fd) (λ b. pos (b % 256))
            (record {
              to_come = λ (m1 : Machine px). content m1.system;
              at_end = os_read_char-end;
              reads = os_read_char-next;
            })
            bytes fuel m refl enough in
        (m', e ∙ ap (λ cs. some (cs, m')) (before_end-characters bytes))
