-- ===== src/Tests/Socket.antt =====
-- src/socket.c over a network with one descriptor, on which every connection is refused.
use feline.Prelude.{◌≡◌, refl, arith, Bool, true, false, if◌then◌else◌, some, [], ◌∷◌, pos, eqb_ℤ}
use feline.Socket.{Network, World, minus_one, c_make_socket}
use feline.Socket.Laws.{DescriptorLaws, c_make_socket-leaks}

abbrev refusing : Network
refusing = record {
  Net = Bool;
  gethostbyname = λ name n. (some 7, n);
  socket = λ n. (pos 3, true);
  connect = λ fd address n. (minus_one, n);
  set_reuse_address = λ fd n. (pos 0, n);
  bind = λ fd address n. (pos 0, n);
  getsockname = λ fd n. (pos 0, n);
  listen = λ fd backlog n. (pos 0, n);
  accept = λ fd n. (minus_one, n);
  recv = λ fd n. (pos 1, some 255, n);
  write = λ fd bytes n. (pos 1, n);
  close = λ fd n. (pos 0, false);
}

abbrev quiet : World refusing
quiet = record { net = false; printed = [] }

abbrev refusing_laws : DescriptorLaws refusing
refusing_laws = record {
  is_open = λ fd n. if eqb_ℤ fd (pos 3) then n else false;
  socket_opens = λ n good. refl;
  connect_keeps = λ fd other address n kept. kept;
}

c_make_socket-leaks_example :
    let (ret, w') = c_make_socket refusing (97 ∷ []) 80 quiet in
    (ret ≡ minus_one) × (refusing_laws.is_open (pos 3) w'.net ≡ true)
c_make_socket-leaks_example =
    c_make_socket-leaks refusing refusing_laws (97 ∷ []) 80 7 false true true (pos 3) minus_one
      quiet refl refl (omega arith) refl refl
