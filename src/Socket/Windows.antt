-- ===== src/Socket/Windows.antt =====
-- The Windows bodies of src/socket.c. The socket calls are those of the record Network, on the system's 64-bit
-- handles; WSAStartup, WSAGetLastError, `send` and `closesocket` are of Windows alone. The
-- handles of sockets are taken to fit the `int` that the code puts them into.
use feline.Prelude.{
  ℕ, ◌%◌, ◌≡◌, refl, Bool, true, if◌then◌else◌, ltb_ℤ, eqb_ℤ, none, some, List, [], ◌∷◌, ℤ, pos,
  ◌==◌, length,
}
use feline.Cell.{int32, to_word}
use feline.Socket.{
  Message, unable_to_create_socket, unable_to_bind, unable_to_listen, unable_to_accept,
  wsa_startup_error, wsa_error, htons, Network, World, minus_one, signed_char,
  c_make_socket as linux_make_socket,
}

pub record Winsock (nw : Network) : Type 0 where
  pub wsa_startup : nw.Net → ℤ × nw.Net
  pub wsa_get_last_error : nw.Net → ℤ
  pub send : ℤ → List ℕ → nw.Net → ℤ × nw.Net
  pub closesocket : ℤ → nw.Net → ℤ × nw.Net

module _ (nw : Network) (ws : Winsock nw) where
  open nw use {socket, bind, listen, accept, recv}
  open ws use {wsa_startup, wsa_get_last_error, send, closesocket}

  pub record Windows : Type 0 where
    pub world : World nw
    pub winsock_initialized : Bool

  unfoldable pub say : Message → World nw → World nw
  say message w = record w { printed = message ∷ w.printed }

  unfoldable pub initialize_winsock : Windows → Windows
  unfolding say
  initialize_winsock w =
      let (status, net) = wsa_startup w.world.net in
      let after = record w.world { net = net } in
      if w.winsock_initialized
      then w
      else if eqb_ℤ status (pos 0)
      then record { world = after; winsock_initialized = true }
      else record w { world = say wsa_startup_error after }

  -- The rest of the function is the same on both systems.
  unfoldable pub c_make_socket : List ℕ → ℕ → Windows → ℤ × Windows
  c_make_socket hostname port w0 =
      let w = initialize_winsock w0 in
      let (ret, world) = linux_make_socket nw hostname port w.world in
      (ret, record w { world = world })

  unfoldable pub listen_on : ℕ → World nw → ℤ × World nw
  unfolding say
  listen_on port w =
      let (fd, n0) = socket w.net in
      let (status, n1) = bind fd (record { sin_port = htons port; sin_addr = 0 }) n0 in
      let (status', n2) = listen fd 5 n1 in
      if ltb_ℤ fd (pos 0)
      then (minus_one, say unable_to_create_socket (record w { net = n0 }))
      else if eqb_ℤ status (pos 0)
      then (if eqb_ℤ status' (pos 0)
          then (fd, record w { net = n2 })
          else (minus_one, say unable_to_listen (record w { net = n2 })))
      else (minus_one, say unable_to_bind (record w { net = n1 }))

  unfoldable pub c_make_server_socket : ℕ → Windows → ℤ × Windows
  unfolding listen_on
  c_make_server_socket port w0 =
      let w = initialize_winsock w0 in
      let (ret, world) = listen_on port w.world in (ret, record w { world = world })

  unfoldable pub c_accept_connection : ℤ → Windows → ℤ × Windows
  unfolding say
  c_accept_connection fd_listen w =
      let (accepted, net) = accept fd_listen w.world.net in
      let after = record w.world { net = net } in
      if ltb_ℤ (int32 accepted) (pos 0)
      then (minus_one, record w { world = say unable_to_accept after })
      else (int32 accepted, record w { world = after })

  -- `garbage` is what the variable `c` holds where `recv` stores nothing.
  unfoldable pub c_socket_read_char : ℕ → ℤ → Windows → ℤ × Windows
  c_socket_read_char garbage fd w =
      let (n, stored, net) = recv fd w.world.net in
      let c : ℕ = elim stored [ none ↦ garbage | some byte ↦ byte ] in
      (
        if eqb_ℤ (int32 n) (pos 0) then minus_one else signed_char c,
        record w { world = record w.world { net = net } },
      )

  -- The number of bytes, if all are sent.
  unfoldable pub c_socket_write : ℤ → List ℕ → Windows → ℤ × Windows
  unfolding say
  c_socket_write fd bytes w =
      let (n, net) = send fd bytes w.world.net in
      let after = record w.world { net = net } in
      if to_word n == length bytes
      then (pos (length bytes), record w { world = after })
      else (minus_one, record w { world = say (wsa_error (wsa_get_last_error net)) after })

  -- The byte at the address of the `int`, which is its lowest.
  unfoldable pub c_socket_write_char : ℕ → ℤ → Windows → ℤ × Windows
  c_socket_write_char c fd w = c_socket_write fd ((c % 256) ∷ []) w

  unfoldable pub c_socket_close : ℤ → Windows → ℤ × Windows
  c_socket_close fd w =
      let (ret, net) = closesocket fd w.world.net in
      (ret, record w { world = record w.world { net = net } })

  -- Once Winsock is started, it is not started again.
  pub initialize_winsock_twice :
      (w : Windows)
      → (initialize_winsock w).winsock_initialized ≡ true
      → initialize_winsock (initialize_winsock w) ≡ initialize_winsock w
  unfolding initialize_winsock
  initialize_winsock_twice w e = rw e refl
