-- ===== src/Os/Windows/Exit.antt =====
-- The end of the program on Windows: `os_bye` of src/os.c, after any use of src/socket.c.
pub mod CleanUp
use feline.Prelude.{ℕ, if◌then◌else◌, List, [], ◌∷◌, ℤ, pos}
use feline.Socket.{Network}
use feline.Socket.Windows.{
  Winsock, Windows, c_make_socket, c_make_server_socket, c_accept_connection, c_socket_read_char,
  c_socket_write, c_socket_write_char, c_socket_close,
}
use feline.Terminal.Windows.{Console, Terminal, deprep_terminal}

-- The calls of src/socket.c with their arguments.
pub data Request : Type 0 where
  make_socket : List ℕ → ℕ → Request
  make_server_socket : ℕ → Request
  accept_connection : ℤ → Request
  read_char : ℕ → ℤ → Request
  write : ℤ → List ℕ → Request
  write_char : ℕ → ℤ → Request
  close : ℤ → Request

module _ (nw : Network) (ws : Winsock nw) where
  unfoldable pub answer : Request → Windows nw ws → Windows nw ws
  answer (make_socket hostname port) w = (c_make_socket nw ws hostname port w).1
  answer (make_server_socket port) w = (c_make_server_socket nw ws port w).1
  answer (accept_connection fd) w = (c_accept_connection nw ws fd w).1
  answer (read_char garbage fd) w = (c_socket_read_char nw ws garbage fd w).1
  answer (write fd bytes) w = (c_socket_write nw ws fd bytes w).1
  answer (write_char c fd) w = (c_socket_write_char nw ws c fd w).1
  answer (close fd) w = (c_socket_close nw ws fd w).1

  unfoldable pub session : List Request → Windows nw ws → Windows nw ws
  session [] w = w
  session (r ∷ rs) w = session rs (answer r w)

  -- The exit status, and the network and the console that the program leaves. `cleanup` is WSACleanup.
  unfoldable pub os_bye :
      (con : Console)
      → (nw.Net → ℤ × nw.Net)
      → Windows nw ws
      → Terminal con
      → ℤ × nw.Net × con.System
  os_bye con cleanup w terminal = (
    pos 0,
    if w.winsock_initialized then (cleanup w.world.net).1 else w.world.net,
    (deprep_terminal con terminal).system,
  )
