-- ===== src/Os/Windows/Exit/CleanUp.antt =====
-- Winsock is started once, and given back at the end of the program.
use feline.Prelude.{
  ℕ, suc, ◌≡◌, refl, ◌∙◌, ap, false, Bool-cases, inl, inr, if◌then◌else◌, if-Both, Option-cases,
  List, [], ◌∷◌, ℤ, pos, eqb_ℤ, ltb_ℤ, ◌==◌, length, ◌%◌,
}
use feline.Cell.{int32, to_word}
use feline.Socket.{
  htons, SockAddr, Network, World, say as linux_say, c_make_socket as linux_make_socket,
}
use feline.Socket.Windows.{
  Winsock, Windows, say, initialize_winsock, listen_on, c_make_socket, c_make_server_socket,
  c_accept_connection, c_socket_read_char, c_socket_write, c_socket_write_char, c_socket_close,
}
use feline.Terminal.Windows.{Console, Terminal}
use feline.Os.Windows.Exit.{
  Request, make_socket, make_server_socket, accept_connection, read_char, write, write_char, close,
  answer, session, os_bye,
}

module _ (nw : Network) (ws : Winsock nw) (cleanup : nw.Net → ℤ × nw.Net) where
  open nw use {Net}

  -- What Windows says of Winsock: a WSAStartup that succeeds counts up, WSACleanup counts down, and no other call
  -- changes the count.
  pub record StartLaws : Type 0 where
    pub started : Net → ℕ
    pub startup_counts :
        (n : Net)
        → started (ws.wsa_startup n).1
          ≡ (if eqb_ℤ (ws.wsa_startup n).0 (pos 0) then suc (started n) else started n)
    pub cleanup_counts : (n : Net) (k : ℕ) → started n ≡ suc k → started (cleanup n).1 ≡ k
    pub gethostbyname_keeps : (h : List ℕ) (n : Net) → started (nw.gethostbyname h n).1 ≡ started n
    pub socket_keeps : (n : Net) → started (nw.socket n).1 ≡ started n
    pub connect_keeps :
        (fd : ℤ) (a : SockAddr) (n : Net) → started (nw.connect fd a n).1 ≡ started n
    pub bind_keeps : (fd : ℤ) (a : SockAddr) (n : Net) → started (nw.bind fd a n).1 ≡ started n
    pub listen_keeps : (fd : ℤ) (k : ℕ) (n : Net) → started (nw.listen fd k n).1 ≡ started n
    pub accept_keeps : (fd : ℤ) (n : Net) → started (nw.accept fd n).1 ≡ started n
    pub recv_keeps : (fd : ℤ) (n : Net) → started (nw.recv fd n).2 ≡ started n
    pub send_keeps : (fd : ℤ) (s : List ℕ) (n : Net) → started (ws.send fd s n).1 ≡ started n
    pub closesocket_keeps : (fd : ℤ) (n : Net) → started (ws.closesocket fd n).1 ≡ started n

  module _ (laws : StartLaws) where
    open laws use {
      started, startup_counts, cleanup_counts, gethostbyname_keeps, socket_keeps, connect_keeps,
      bind_keeps, listen_keeps, accept_keeps, recv_keeps, send_keeps, closesocket_keeps,
    }

    -- Winsock has been started once if the flag says so, and not at all otherwise.
    abbrev pub IsCounted : Windows nw ws → Type 0
    IsCounted w = started w.world.net ≡ (if w.winsock_initialized then 1 else 0)

    initialize_winsock-IsCounted :
        (w : Windows nw ws) → IsCounted w → IsCounted (initialize_winsock nw ws w)
    unfolding initialize_winsock say
    initialize_winsock-IsCounted w counted = elim (Bool-cases w.winsock_initialized) [
      | inl e ↦ rw (initialize_winsock, e) (counted ∙ rw e refl)
      | inr e ↦ elim (Bool-cases (eqb_ℤ (ws.wsa_startup w.world.net).0 (pos 0))) [
        | inl good ↦
            let zero : started w.world.net ≡ 0 = counted ∙ rw e refl in
            rw (initialize_winsock, e, good) (startup_counts w.world.net ∙ rw good (ap suc zero))
        | inr bad ↦
            let zero : started w.world.net ≡ 0 = counted ∙ rw e refl in
            rw (initialize_winsock, e, bad) (startup_counts w.world.net ∙ rw bad zero)
      ]
    ]

    make_socket_keeps :
        (hostname : List ℕ) (port : ℕ) (w : World nw)
        → started (linux_make_socket nw hostname port w).1.net ≡ started w.net
    unfolding linux_make_socket linux_say
    make_socket_keeps hostname port w =
        let (host, n0) = nw.gethostbyname hostname w.net in
        let (fd, n1) = nw.socket n0 in
        let P : ℤ × World nw → Type 0 = λ q. started q.1.net ≡ started w.net in
        let looked = gethostbyname_keeps hostname w.net in
        elim (Option-cases host) [
          | inl e ↦ rw (e, linux_make_socket) looked
          | inr (address, e) ↦
              let a : SockAddr = record { sin_port = htons port; sin_addr = address } in
              let made = socket_keeps n0 ∙ looked in
              let tried = connect_keeps fd a n1 ∙ made in
              rw (e, linux_make_socket)
                (if-Both P (ltb_ℤ fd (pos 0)) made
                  (if-Both P (eqb_ℤ (nw.connect fd a n1).0 (pos 0)) tried tried))
        ]

    listen_on_keeps :
        (port : ℕ) (w : World nw) → started (listen_on nw ws port w).1.net ≡ started w.net
    unfolding listen_on say
    listen_on_keeps port w =
        let (fd, n0) = nw.socket w.net in
        let a : SockAddr = record { sin_port = htons port; sin_addr = 0 } in
        let (status, n1) = nw.bind fd a n0 in
        let (status', n2) = nw.listen fd 5 n1 in
        let P : ℤ × World nw → Type 0 = λ q. started q.1.net ≡ started w.net in
        let made = socket_keeps w.net in
        let bound = bind_keeps fd a n0 ∙ made in
        let listens = listen_keeps fd 5 n1 ∙ bound in
        if-Both P (ltb_ℤ fd (pos 0)) made (
          if-Both P (eqb_ℤ status (pos 0)) (if-Both P (eqb_ℤ status' (pos 0)) listens listens)
            bound)

    send-IsCounted :
        (fd : ℤ) (bytes : List ℕ) (w : Windows nw ws)
        → IsCounted w
        → IsCounted (c_socket_write nw ws fd bytes w).1
    unfolding c_socket_write say
    send-IsCounted fd bytes w counted =
        let (n, net) = ws.send fd bytes w.world.net in
        let sent = send_keeps fd bytes w.world.net ∙ counted in
        if-Both (λ (q : ℤ × Windows nw ws). IsCounted q.1) (to_word n == length bytes) sent sent

    answer-IsCounted :
        (r : Request) (w : Windows nw ws) → IsCounted w → IsCounted (answer nw ws r w)
    unfolding answer c_make_socket c_make_server_socket c_accept_connection c_socket_read_char
        c_socket_write_char c_socket_close say
    answer-IsCounted (make_socket hostname port) w counted =
        make_socket_keeps hostname port _ ∙ initialize_winsock-IsCounted w counted
    answer-IsCounted (make_server_socket port) w counted =
        listen_on_keeps port _ ∙ initialize_winsock-IsCounted w counted
    answer-IsCounted (accept_connection fd) w counted =
        let (fd', net) = nw.accept fd w.world.net in
        let accepted = accept_keeps fd w.world.net ∙ counted in
        if-Both (λ (q : ℤ × Windows nw ws). IsCounted q.1) (ltb_ℤ (int32 fd') (pos 0)) accepted
          accepted
    answer-IsCounted (read_char garbage fd) w counted = recv_keeps fd w.world.net ∙ counted
    answer-IsCounted (write fd bytes) w counted = send-IsCounted fd bytes w counted
    answer-IsCounted (write_char c fd) w counted = send-IsCounted fd ((c % 256) ∷ []) w counted
    answer-IsCounted (close fd) w counted = closesocket_keeps fd w.world.net ∙ counted

    session-IsCounted :
        (rs : List Request) (w : Windows nw ws) → IsCounted w → IsCounted (session nw ws rs w)
    unfolding session
    session-IsCounted [] w counted = counted
    session-IsCounted (r ∷ rs) w counted =
        session-IsCounted rs (answer nw ws r w) (answer-IsCounted r w counted)

    -- Where only WSAStartup and WSACleanup change how often Winsock is started: from a start at which it is not
    -- started and the flag says so, after any calls of src/socket.c it is started once or not at all, as the flag
    -- says, and after `os_bye` it is not started.
    pub os_bye-cleans_up :
        (con : Console) (terminal : Terminal con) (rs : List Request) (w : Windows nw ws)
        → w.winsock_initialized ≡ false
        → started w.world.net ≡ 0
        → let w' = session nw ws rs w in
          (started w'.world.net ≡ (if w'.winsock_initialized then 1 else 0))
          × (started (os_bye nw ws con cleanup w' terminal).1 ≡ 0)
    unfolding os_bye
    os_bye-cleans_up con terminal rs w off zero =
        let w' = session nw ws rs w in
        let counted = session-IsCounted rs w (zero ∙ rw off refl) in
        (
          counted,
          elim (Bool-cases w'.winsock_initialized) [
            | inl on ↦ rw on (cleanup_counts w'.world.net 0 (counted ∙ rw on refl))
            | inr off' ↦ rw off' (counted ∙ rw off' refl)
          ],
        )
