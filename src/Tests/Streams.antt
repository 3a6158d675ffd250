-- ===== src/Tests/Streams.antt =====
-- Reading a file and a connection to their ends, where the system is no more than the bytes that are left.
use feline.Prelude.{Bool, true, ℕ, ◌≡◌, refl, arith, Option, none, some, List, [], ◌∷◌, ℤ, pos}
use feline.Streams.{read_to_end}
use feline.Os.Files.{Posix, Machine, os_read_char}
use feline.Os.Files.Stream.{ReadLaws}
use feline.Os.Windows.{Win32, Machine as WindowsMachine, os_read_char as windows_read_char}
use feline.Os.Windows.Stream.{ReadLaws as WindowsLaws}
use feline.Os.Spec.Stream.{linux_characters-windows_characters}
use feline.Socket.{Network, World, minus_one, c_socket_read_char}
use feline.Socket.Stream.{ReceiveLaws, before_128, read_to_end-c_socket_read_char}

abbrev next : List ℕ → ℤ × List ℕ × List ℕ
next [] = (pos 0, [], [])
next (b ∷ bytes) = (pos 1, b ∷ [], bytes)

abbrev file : Posix
file = record {
  System = List ℕ;
  errno = λ s. pos 2;
  stat = λ path s. none;
  open_file = λ f flags mode s. (pos 3, s);
  read = λ fd count s. next s;
  write = λ fd bytes s. (pos 1, s);
  close = λ fd s. (pos 0, s);
  lseek = λ fd offset whence s. (pos 0, s);
  ftruncate = λ fd size s. (pos 0, s);
  unlink = λ f s. (pos 0, s);
  rename = λ f g s. (pos 0, s);
  fsync = λ fd s. (pos 0, s);
  chdir = λ f s. (pos 0, s);
}

next_end : (s : List ℕ) → s ≡ [] → (next s).0 ≡ pos 0
next_end s e = rw e refl

next_byte :
    (s : List ℕ) (b : ℕ) (bytes : List ℕ)
    → s ≡ b ∷ bytes
    → ((next s).0 ≡ pos 1) × ((next s).1 ≡ b ∷ []) × ((next s).2 ≡ bytes)
next_byte s b bytes e = rw e (refl, refl, refl)

abbrev file_laws : ReadLaws file (pos 3)
file_laws = record { content = λ s. s; read_end = next_end; read_next = next_byte }

abbrev open_machine : Machine file
open_machine = record { system = 72 ∷ 255 ∷ 10 ∷ []; os_errno_data = pos 0 }

abbrev next_windows : List ℕ → Bool × List ℕ × List ℕ
next_windows [] = (true, [], [])
next_windows (b ∷ bytes) = (true, b ∷ [], bytes)

abbrev windows_file : Win32
windows_file = record {
  System = List ℕ;
  last_error = λ s. pos 2;
  get_file_attributes = λ f s. none;
  create_file = λ f access share disposition s. (pos 4, s);
  read_file = λ fd count s. next_windows s;
  write_file = λ fd bytes s. (true, 1, s);
  close_handle = λ fd s. (pos 1, s);
  set_file_pointer = λ fd offset method s. (0, s);
  set_end_of_file = λ fd s. (true, s);
  delete_file = λ f s. (true, s);
  move_file_replacing = λ f g s. (true, s);
  flush_file_buffers = λ fd s. (true, s);
  set_current_directory = λ f s. (pos 1, s);
}

next_windows_end : (s : List ℕ) → s ≡ [] → ((next_windows s).0 ≡ true) × ((next_windows s).1 ≡ [])
next_windows_end s e = rw e (refl, refl)

next_windows_byte :
    (s : List ℕ) (b : ℕ) (bytes : List ℕ)
    → s ≡ b ∷ bytes
    → ((next_windows s).0 ≡ true) × ((next_windows s).1 ≡ b ∷ []) × ((next_windows s).2 ≡ bytes)
next_windows_byte s b bytes e = rw e (refl, refl, refl)

abbrev windows_laws : WindowsLaws windows_file (pos 4)
windows_laws = record {
  content = λ s. s;
  read_end = next_windows_end;
  read_next = next_windows_byte;
}

abbrev windows_machine : WindowsMachine windows_file
windows_machine = record { system = 72 ∷ 255 ∷ 10 ∷ []; os_errno_data = pos 0 }

linux_characters-windows_characters_example :
    ((m' : Machine file) × (read_to_end (os_read_char file (pos 3)) 4 open_machine
        ≡ some (pos 72 ∷ pos 255 ∷ pos 10 ∷ [], m')))
    × ((w' : WindowsMachine windows_file) × (read_to_end
            (windows_read_char windows_file (pos 4))
            4
            windows_machine
          ≡ some (pos 72 ∷ pos 255 ∷ pos 10 ∷ [], w')))
linux_characters-windows_characters_example =
    linux_characters-windows_characters file windows_file (pos 3) (pos 4) file_laws windows_laws 4
      (72 ∷ 255 ∷ 10 ∷ []) open_machine windows_machine refl refl (omega arith)

abbrev received : List ℕ → ℤ × Option ℕ × List ℕ
received [] = (pos 0, none, [])
received (b ∷ bytes) = (pos 1, some b, bytes)

abbrev line : Network
line = record {
  Net = List ℕ;
  gethostbyname = λ name n. (some 7, n);
  socket = λ n. (pos 3, n);
  connect = λ fd address n. (pos 0, n);
  set_reuse_address = λ fd n. (pos 0, n);
  bind = λ fd address n. (pos 0, n);
  getsockname = λ fd n. (pos 0, n);
  listen = λ fd backlog n. (pos 0, n);
  accept = λ fd n. (minus_one, n);
  recv = λ fd n. received n;
  write = λ fd bytes n. (pos 1, n);
  close = λ fd n. (pos 0, n);
}

received_end : (n : List ℕ) → n ≡ [] → (received n).0 ≡ pos 0
received_end n e = rw e refl

received_byte :
    (n : List ℕ) (b : ℕ) (bytes : List ℕ)
    → n ≡ b ∷ bytes
    → ((received n).0 ≡ pos 1) × ((received n).1 ≡ some b) × ((received n).2 ≡ bytes)
received_byte n b bytes e = rw e (refl, refl, refl)

abbrev line_laws : ReceiveLaws line 0 (pos 3)
line_laws = record { incoming = λ n. n; recv_end = received_end; recv_next = received_byte }

abbrev connected : World line
connected = record { net = 72 ∷ 195 ∷ 169 ∷ []; printed = [] }

read_to_end-c_socket_read_char_example :
    (w' : World line) × (read_to_end (c_socket_read_char line 0 (pos 3)) 4 connected
      ≡ some (before_128 (72 ∷ 195 ∷ 169 ∷ []), w'))
read_to_end-c_socket_read_char_example =
    read_to_end-c_socket_read_char line 0 (pos 3) line_laws 4 connected (omega arith)

-- An e with an accent, in UTF-8, ends the text.
before_128_run : before_128 (72 ∷ 195 ∷ 169 ∷ []) ≡ pos 72 ∷ []
unfolding before_128
before_128_run = refl
