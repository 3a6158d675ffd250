-- ===== src/Socket/Stream.antt =====
-- Reading a connection with `c_socket_read_char` of src/socket.c until it returns a negative number.
use feline.Prelude.{
  ℕ, ◌%◌, ◌<◌, ◌≡◌, refl, ◌∙◌, ap, arith, if◌then◌else◌, List, [], ◌∷◌, length, some, ℤ, pos,
  negsuc, ltb, not, Bool-cases, inl, inr,
}
use feline.Cell.{int32}
use feline.Cell.Laws.{int32_fits}
use feline.Streams.{is_end, read_to_end, before_end, read_to_end_lem}
use feline.Socket.{Network, World, signed_char, c_socket_read_char}

-- The bytes before the first that is no ASCII character.
unfoldable pub before_128 : List ℕ → List ℤ
before_128 [] = []
before_128 (b ∷ bytes) =
    let rest = before_128 bytes in if ltb (b % 256) 128 then pos (b % 256) ∷ rest else []

signed_char-end : (b : ℕ) → is_end (signed_char b) ≡ not (ltb (b % 256) 128)
signed_char-end b = ground arith

before_end-signed_char : (bytes : List ℕ) → before_end signed_char bytes ≡ before_128 bytes
unfolding before_end before_128
before_end-signed_char [] = refl
before_end-signed_char (b ∷ bytes) = elim (Bool-cases (ltb (b % 256) 128)) [
  | inl small ↦
      rw (before_end, before_128, signed_char-end b, small)
        (ap (λ cs. pos (b % 256) ∷ cs) (before_end-signed_char bytes))
  | inr large ↦ rw (before_end, before_128, signed_char-end b, large) refl
]

module _ (nw : Network) (garbage : ℕ) (fd : ℤ) where
  open nw use {Net, recv}

  -- What POSIX says of `recv` of one byte on a connection: at its end it returns 0 and stores nothing, before it 1 and
  -- stores the next byte.
  pub record ReceiveLaws : Type 0 where
    pub incoming : Net → List ℕ
    pub recv_end : (n : Net) → incoming n ≡ [] → (recv (int32 fd) n).0 ≡ pos 0
    pub recv_next :
        (n : Net) (b : ℕ) (bytes : List ℕ)
        → incoming n ≡ b ∷ bytes
        → ((recv (int32 fd) n).0 ≡ pos 1)
          × ((recv (int32 fd) n).1 ≡ some b)
          × (incoming (recv (int32 fd) n).2 ≡ bytes)

  module _ (laws : ReceiveLaws) where
    open laws use {incoming, recv_end, recv_next}

    c_socket_read_char-end :
        (w : World nw) → incoming w.net ≡ [] → (c_socket_read_char nw garbage fd w).0 ≡ negsuc 0
    unfolding c_socket_read_char
    c_socket_read_char-end w e =
        rw (c_socket_read_char, recv_end w.net e, int32_fits (pos 0) (omega arith)) refl

    c_socket_read_char-next :
        (w : World nw) (b : ℕ) (bytes : List ℕ)
        → incoming w.net ≡ b ∷ bytes
        → ((c_socket_read_char nw garbage fd w).0 ≡ signed_char b)
          × (incoming (c_socket_read_char nw garbage fd w).1.net ≡ bytes)
    unfolding c_socket_read_char
    c_socket_read_char-next w b bytes e =
        let (one, stored, left) = recv_next w.net b bytes e in
        rw (c_socket_read_char, one, stored, int32_fits (pos 1) (omega arith)) (refl, left)

    -- With one more call than there are bytes to come, reading a connection until the end returns, but it gives only the
    -- bytes before the first of 128 or more: each such byte comes back negative and is taken for the end.
    pub read_to_end-c_socket_read_char :
        (fuel : ℕ) (w : World nw)
        → length (incoming w.net) < fuel
        → (w' : World nw) × (read_to_end (c_socket_read_char nw garbage fd) fuel w
            ≡ some (before_128 (incoming w.net), w'))
    read_to_end-c_socket_read_char fuel w enough =
        let bytes = incoming w.net in
        let (w', e) =
          read_to_end_lem (c_socket_read_char nw garbage fd) signed_char
            (record {
              to_come = λ (w1 : World nw). incoming w1.net;
              at_end = c_socket_read_char-end;
              reads = c_socket_read_char-next;
            })
            bytes fuel w refl enough in
        (w', e ∙ ap (λ cs. some (cs, w')) (before_end-signed_char bytes))
