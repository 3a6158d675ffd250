-- ===== src/Socket/Laws.antt =====
-- What the socket functions report, and which descriptors they leave open.
use feline.Prelude.{
  ℕ, ◌<◌, ◌≡◌, ◌↔◌, ◌⊎◌, inl, inr, refl, ◌∙◌, sym, ap, arith, Bool, true, false, Bool-cases,
  Option-cases, Option, some, List, ◌∷◌, ℤ, pos, ◌≤ℤ◌, ◌<ℤ◌, ltb_ℤ, eqb_ℤ,
}
use feline.Cell.{int32}
use feline.Cell.Laws.{int32_fits}
use feline.Socket.{
  Message, error_looking_up_host, unable_to_create_socket, unable_to_connect, unable_to_bind,
  unable_to_listen, htons, SockAddr, Network, World, minus_one, signed_char, c_make_socket,
  c_make_server_socket, c_socket_read_char,
}

signed_char-sign :
    (byte : ℕ)
    → byte < 256
    → (signed_char byte <ℤ pos 128) × ((signed_char byte ≡ minus_one) ↔ (byte ≡ 255))
signed_char-sign byte small = ground arith

module _ (nw : Network) where
  open nw use {
    Net, gethostbyname, socket, connect, set_reuse_address, bind, getsockname, listen, recv,
  }

  -- Success, with nothing printed; or -1, with one message more.
  abbrev pub IsReported : World nw → ℤ × World nw → Type 0
  IsReported w (ret, w') =
      ((pos 0 ≤ℤ ret) × (w'.printed ≡ w.printed))
      ⊎ ((ret ≡ minus_one) × ((message : Message) × (w'.printed ≡ message ∷ w.printed)))

  -- Each failure of `c_make_socket` is -1 with a message, and success a descriptor with none.
  pub c_make_socket-IsReported :
      (hostname : List ℕ) (port : ℕ) (w : World nw)
      → IsReported w (c_make_socket nw hostname port w)
  unfolding c_make_socket
  c_make_socket-IsReported hostname port w =
      let n0 = (gethostbyname hostname w.net).1 in
      let (fd, n1) = socket n0 in
      elim (Option-cases (gethostbyname hostname w.net).0) [
        | inl e ↦ rw (e, c_make_socket) (inr (refl, (error_looking_up_host, refl)))
        | inr (address, e) ↦
            let to : SockAddr = record { sin_port = htons port; sin_addr = address } in
            elim (Bool-cases (ltb_ℤ fd (pos 0))) [
              | inl failed ↦
                  rw (e, c_make_socket, failed) (inr (refl, (unable_to_create_socket, refl)))
              | inr made ↦ elim (Bool-cases (eqb_ℤ (connect fd to n1).0 (pos 0))) [
                | inl connected ↦ rw (e, c_make_socket, made, connected) (inl (ground arith, refl))
                | inr unconnected ↦
                    rw (e, c_make_socket, made, unconnected) (inr (refl, (unable_to_connect, refl)))
              ]
            ]
      ]

  -- Each failure of `c_make_server_socket` is -1 with a message, and success a descriptor with none.
  pub c_make_server_socket-IsReported :
      (port : ℕ) (w : World nw) → IsReported w (c_make_server_socket nw port w)
  unfolding c_make_server_socket
  c_make_server_socket-IsReported port w =
      let (fd, n0) = socket w.net in
      let n1 = (set_reuse_address fd n0).1 in
      let (status, n2) = bind fd (record { sin_port = htons port; sin_addr = 0 }) n1 in
      let (status', n4) = listen fd 5 (getsockname fd n2).1 in
      elim (Bool-cases (ltb_ℤ fd (pos 0))) [
        | inl failed ↦ rw failed (inr (refl, (unable_to_create_socket, refl)))
        | inr made ↦ elim (Bool-cases (eqb_ℤ status (pos 0))) [
          | inl bound ↦ elim (Bool-cases (eqb_ℤ status' (pos 0))) [
            | inl listening ↦ rw (made, bound, listening) (inl (ground arith, refl))
            | inr deaf ↦ rw (made, bound, deaf) (inr (refl, (unable_to_listen, refl)))
          ]
          | inr unbound ↦ rw (made, unbound) (inr (refl, (unable_to_bind, refl)))
        ]
      ]

  -- A byte that came in is returned as a signed `char`: never 128 or more, and as -1, the sign of the end
  -- of the stream, exactly when it is 255.
  pub c_socket_read_char-sign :
      (garbage byte : ℕ) (fd : ℤ) (net : Net) (w : World nw)
      → byte < 256
      → recv (int32 fd) w.net ≡ (pos 1, some byte, net)
      → let ret = (c_socket_read_char nw garbage fd w).0 in
        (ret <ℤ pos 128) × ((ret ≡ minus_one) ↔ (byte ≡ 255))
  unfolding c_socket_read_char
  c_socket_read_char-sign garbage byte fd net w small e =
      rw (e, int32_fits (pos 1) (omega arith)) (signed_char-sign byte small)

  -- Descriptors: `socket` opens the one that it returns, and `connect` closes none.
  pub record DescriptorLaws : Type 0 where
    pub is_open : ℤ → Net → Bool
    pub socket_opens : (n : Net) → pos 0 ≤ℤ (socket n).0 → is_open (socket n).0 (socket n).1 ≡ true
    pub connect_keeps :
        (fd other : ℤ) (address : SockAddr) (n : Net)
        → is_open other n ≡ true
        → is_open other (connect fd address n).1 ≡ true

  -- Where the host is found, a socket is made and the connection to it is refused, the caller gets -1 and
  -- the socket is still open: no descriptor is left by which to close it.
  pub c_make_socket-leaks :
      (laws : DescriptorLaws) (hostname : List ℕ) (port address : ℕ) (n0 n1 n2 : Net)
      (fd status : ℤ) (w : World nw)
      → gethostbyname hostname w.net ≡ (some address, n0)
      → socket n0 ≡ (fd, n1)
      → pos 0 ≤ℤ fd
      → connect fd (record { sin_port = htons port; sin_addr = address }) n1 ≡ (status, n2)
      → eqb_ℤ status (pos 0) ≡ false
      → let (ret, w') = c_make_socket nw hostname port w in
        (ret ≡ minus_one) × (laws.is_open fd w'.net ≡ true)
  unfolding c_make_socket
  c_make_socket-leaks laws hostname port address n0 n1 n2 fd status w looked made good tried
        refused =
      let opened : laws.is_open fd n1 ≡ true =
        ap (λ (t : ℤ × Net). laws.is_open t.0 t.1) (sym made)
        ∙ laws.socket_opens n0 (rw made good) in
      let kept : laws.is_open fd n2 ≡ true =
        ap (λ (t : ℤ × Net). laws.is_open fd t.1) (sym tried)
        ∙ laws.connect_keeps fd fd _ n1 opened in
      let nonneg : ltb_ℤ fd (pos 0) ≡ false = ground arith in
      let found : (gethostbyname hostname w.net).0 ≡ some address =
        ap (λ (t : Option ℕ × Net). t.0) looked in
      let gone : (gethostbyname hostname w.net).1 ≡ n0 = ap (λ (t : Option ℕ × Net). t.1) looked in
      rw (c_make_socket, found, gone, made, nonneg, tried, refused) (refl, kept)
