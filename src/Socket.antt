-- ===== src/Socket.antt =====
-- src/socket.c as it is built for Linux: TCP clients and servers over the socket calls. What the code prints
-- is kept as a list of messages, the last one first.
pub mod Stream
pub mod Laws
pub mod Windows
use feline.Prelude.{
  ℕ, ◌+◌, ◌*◌, ◌-◌, ◌/◌, ◌%◌, Bool, true, false, if◌then◌else◌, ltb, ltb_ℤ, eqb_ℤ, Option, none,
  some, List, [], ◌∷◌, ℤ, pos, negsuc, ◌==◌,
}
use feline.Cell.{int32}

pub data Message : Type 0 where
  error_looking_up_host unable_to_create_socket unable_to_connect : Message
  unable_to_bind unable_to_listen unable_to_accept : Message
  wsa_startup_error : Message
  wsa_error : ℤ → Message

-- `htons`: the 16-bit port with its bytes swapped.
abbrev pub htons : ℕ → ℕ
htons port = port % 256 * 256 + port / 256 % 256

-- A `struct sockaddr_in` of the family AF_INET.
pub record SockAddr : Type 0 where
  pub sin_port : ℕ
  pub sin_addr : ℕ

-- The calls: each takes the state of the network and returns its result and the state after it. `recv` also
-- returns the byte that it stored, if it stored one.
pub record Network : Type 1 where
  pub Net : Type 0
  pub gethostbyname : List ℕ → Net → Option ℕ × Net
  pub socket : Net → ℤ × Net
  pub connect : ℤ → SockAddr → Net → ℤ × Net
  pub set_reuse_address : ℤ → Net → ℤ × Net
  pub bind : ℤ → SockAddr → Net → ℤ × Net
  pub getsockname : ℤ → Net → ℤ × Net
  pub listen : ℤ → ℕ → Net → ℤ × Net
  pub accept : ℤ → Net → ℤ × Net
  pub recv : ℤ → Net → ℤ × Option ℕ × Net
  pub write : ℤ → List ℕ → Net → ℤ × Net
  pub close : ℤ → Net → ℤ × Net

abbrev pub minus_one : ℤ
minus_one = negsuc 0

-- A `char` of x86-64, which is signed.
abbrev pub signed_char : ℕ → ℤ
signed_char c = let low = c % 256 in if ltb low 128 then pos low else negsuc (255 - low)

module _ (nw : Network) where
  open nw use {
    Net, gethostbyname, socket, connect, set_reuse_address, bind, getsockname, listen, accept, recv,
    write, close,
  }

  pub record World : Type 0 where
    pub net : Net
    pub printed : List Message

  unfoldable pub say : Message → World → World
  say message w = record w { printed = message ∷ w.printed }

  unfoldable pub c_make_socket : List ℕ → ℕ → World → ℤ × World
  unfolding say
  c_make_socket hostname port w =
      let (host, n0) = gethostbyname hostname w.net in
      elim host [
        | none ↦ (minus_one, say error_looking_up_host (record w { net = n0 }))
        | some address ↦
            let (fd, n1) = socket n0 in
            if ltb_ℤ fd (pos 0)
            then (minus_one, say unable_to_create_socket (record w { net = n1 }))
            else let (status, n2) =
                connect fd (record { sin_port = htons port; sin_addr = address }) n1 in
              if eqb_ℤ status (pos 0)
              then (fd, record w { net = n2 })
              else (minus_one, say unable_to_connect (record w { net = n2 }))
      ]

  unfoldable pub c_make_server_socket : ℕ → World → ℤ × World
  unfolding say
  c_make_server_socket port w =
      let (fd, n0) = socket w.net in
      if ltb_ℤ fd (pos 0)
      then (minus_one, say unable_to_create_socket (record w { net = n0 }))
      else let (ignored, n1) = set_reuse_address fd n0 in
        let (status, n2) = bind fd (record { sin_port = htons port; sin_addr = 0 }) n1 in
        if eqb_ℤ status (pos 0)
        then (let (ignored', n3) = getsockname fd n2 in
            let (status', n4) = listen fd 5 n3 in
            if eqb_ℤ status' (pos 0)
            then (fd, record w { net = n4 })
            else (minus_one, say unable_to_listen (record w { net = n4 })))
        else (minus_one, say unable_to_bind (record w { net = n2 }))

  unfoldable pub c_accept_connection : ℤ → World → ℤ × World
  unfolding say
  c_accept_connection fd_listen w =
      let (fd, n) = accept (int32 fd_listen) w.net in
      if ltb_ℤ fd (pos 0)
      then (minus_one, say unable_to_accept (record w { net = n }))
      else (fd, record w { net = n })

  -- `garbage` is what the variable `c` holds where `recv` stores nothing.
  unfoldable pub c_socket_read_char : ℕ → ℤ → World → ℤ × World
  c_socket_read_char garbage fd w =
      let (n, stored, net) = recv (int32 fd) w.net in
      let c : ℕ = elim stored [ none ↦ garbage | some byte ↦ byte ] in
      (if eqb_ℤ (int32 n) (pos 0) then minus_one else signed_char c, record w { net = net })

  unfoldable pub c_socket_write : ℤ → List ℕ → World → ℤ × World
  c_socket_write fd bytes w =
      let (n, net) = write (int32 fd) bytes w.net in (n, record w { net = net })

  -- The byte at the address of the `int`, which is its lowest.
  unfoldable pub c_socket_write_char : ℕ → ℤ → World → ℤ × World
  c_socket_write_char c fd w =
      let (n, net) = write fd ((c % 256) ∷ []) w.net in (n, record w { net = net })

  -- `os_close_file` of src/os.c.
  unfoldable pub c_socket_close : ℤ → World → ℤ × World
  c_socket_close fd w =
      let (ret, net) = close (int32 fd) w.net in
      (if ltb_ℤ ret (pos 0) then minus_one else ret, record w { net = net })
