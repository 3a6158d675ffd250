-- ===== src/Tests/Exit.antt =====
-- From the start to the end of the program: on Linux on a terminal whose only state is its modes, and on Windows on a
-- network that counts how often it is started.
use feline.Prelude.{
  ℕ, suc, ◌-◌, ◌^◌, ◌≡◌, ◌⊎◌, refl, arith, true, false, if◌then◌else◌, none, some, List, [], ◌∷◌, ℤ,
  pos,
}
use feline.Os.Clock.{ClockTime}
use feline.Os.Memory.{Mapper, map_failed}
use feline.Os.Exit.{os_bye}
use feline.Os.Exit.Restored.{os_bye-main}
use feline.Terminal.{Termios, Tty}
use feline.Terminal.Modes.{ModeLaws, is_capable}
use feline.Terminal.Session.{Use, key, line, elsewhere, resized, session}
use feline.Startup.Failed.{MapKeeps}
use feline.Startup.{
  Process, args, initialize_datastack, initialize_dynamic_code_space, reserve_handle_space,
  initialize_threads, main, Start, exited, going,
}
use feline.Socket.{Network, minus_one}
use feline.Socket.Windows.{Winsock, Windows}
use feline.Terminal.Windows.{Console, Terminal as WindowsTerminal}
use feline.Os.Windows.Exit.{
  Request, make_socket, make_server_socket, close, session as socket_session, os_bye as windows_bye,
}
use feline.Os.Windows.Exit.CleanUp.{StartLaws, os_bye-cleans_up}

abbrev tty : Tty
tty = record {
  System = Termios;
  isatty = λ fd s. true;
  getenv_term = λ s. some (120 ∷ []);
  tcgetattr = λ fd s. s;
  tcsetattr_drain = λ fd tio s. tio;
  tcsetattr_now = λ fd tio s. tio;
  unbuffer_stdin = λ s. s;
  install_sig_winch = λ s. s;
  window_size = λ fd s. some (record { ws_row = 24; ws_col = 80 });
  chars_avail = λ fd s. (pos 0, pos 0);
  fgetc = λ s. (pos 65, s);
  fgets = λ n s. (none, s);
}

abbrev tty_laws : ModeLaws tty
tty_laws = record {
  drain_sets = λ fd tio s. refl;
  now_sets = λ fd tio s. refl;
  unbuffer_keeps = λ fd s. refl;
  winch_keeps = λ fd s. refl;
}

abbrev mapper : Mapper Termios
mapper = record {
  pagesize = 4096;
  mmap = λ hint n protection s. (2 ^ 20, s);
  mprotect_none = λ p n s. (pos 0, s);
}

abbrev cooked : Termios
cooked = record { c_iflag = 0o2400; c_lflag = 59; rest = [] }

abbrev fresh : Process tty mapper
fresh = record {
  terminal = record {
    system = cooked;
    tty = pos 0;
    otio = record { c_iflag = 0; c_lflag = 0; rest = [] };
    terminal_prepped = false;
    terminal_rows = 0;
    terminal_columns = 0;
    line_input_data = pos 1;
  };
  start_time_raw_nano_count = pos 0;
  main_argc = 0;
  main_argv = 0;
  primordial_sp0 = 0;
  code_space = 0;
  code_space_free = 0;
  code_space_limit = 0;
  handle_space = 0;
  printed = [];
  handled = [];
}

abbrev noon : ClockTime
noon = record { sec = 43200; fraction = 0 }

abbrev or_fresh : Start tty mapper → Process tty mapper
or_fresh (exited code s) = fresh
or_fresh (going w) = w

-- The process when the Feline code starts.
abbrev begun : Process tty mapper
begun = or_fresh (main tty mapper noon (pos 0) 2 4096 fresh)

begun_lem : main tty mapper noon (pos 0) 2 4096 fresh ≡ going begun
unfolding main args initialize_datastack initialize_dynamic_code_space reserve_handle_space
    initialize_threads
begun_lem = refl

abbrev uses : List (Use tty)
uses = key ∷ line ∷ elsewhere (λ s. record s { c_lflag = 7 }) ∷ resized ∷ []

os_bye-main_example :
    let running = session tty uses begun.terminal in
    ((os_bye tty running).0 ≡ pos 0)
    × (((is_capable tty cooked ≡ true) × ((os_bye tty running).1 ≡ cooked))
        ⊎ ((is_capable tty cooked ≡ false) × ((os_bye tty running).1 ≡ running.system)))
os_bye-main_example =
    os_bye-main tty mapper tty_laws noon (pos 0) 2 4096 fresh begun uses refl begun_lem

-- No memory is left.
abbrev full : Mapper Termios
full = record mapper { mmap = λ hint n protection s. (map_failed, s) }

abbrev full_keeps : MapKeeps tty full
full_keeps = record { mmap_keeps = λ fd hint n protection s. refl }

abbrev fresh_full : Process tty full
fresh_full = record {
  terminal = fresh.terminal;
  start_time_raw_nano_count = pos 0;
  main_argc = 0;
  main_argv = 0;
  primordial_sp0 = 0;
  code_space = 0;
  code_space_free = 0;
  code_space_limit = 0;
  handle_space = 0;
  printed = [];
  handled = [];
}

-- The state of the network is how often Winsock is started.
abbrev network : Network
network = record {
  Net = ℕ;
  gethostbyname = λ name n. (some 7, n);
  socket = λ n. (pos 3, n);
  connect = λ fd address n. (pos 0, n);
  set_reuse_address = λ fd n. (pos 0, n);
  bind = λ fd address n. (pos 0, n);
  getsockname = λ fd n. (pos 0, n);
  listen = λ fd backlog n. (pos 0, n);
  accept = λ fd n. (minus_one, n);
  recv = λ fd n. (pos 0, none, n);
  write = λ fd bytes n. (pos 1, n);
  close = λ fd n. (pos 0, n);
}

abbrev winsock : Winsock network
winsock = record {
  wsa_startup = λ n. (pos 0, suc n);
  wsa_get_last_error = λ n. pos 0;
  send = λ fd bytes n. (pos 1, n);
  closesocket = λ fd n. (pos 0, n);
}

abbrev cleanup : ℕ → ℤ × ℕ
cleanup n = (pos 0, n - 1)

abbrev start_laws : StartLaws network winsock cleanup
start_laws = record {
  started = λ n. n;
  startup_counts = λ n. refl;
  cleanup_counts = λ n k e. omega (arith, e);
  gethostbyname_keeps = λ h n. refl;
  socket_keeps = λ n. refl;
  connect_keeps = λ fd a n. refl;
  bind_keeps = λ fd a n. refl;
  listen_keeps = λ fd k n. refl;
  accept_keeps = λ fd n. refl;
  recv_keeps = λ fd n. refl;
  send_keeps = λ fd s n. refl;
  closesocket_keeps = λ fd n. refl;
}

abbrev console : Console
console = record {
  System = ℕ;
  get_std_handle = λ std s. 3;
  get_console_mode = λ h s. some s;
  set_console_mode = λ h mode s. mode;
  screen_buffer_window = λ h s. none;
  set_screen_buffer_size = λ h x y s. s;
  kbhit = λ s. pos 0;
  getch = λ s. (pos 65, s);
  fgetc = λ s. (pos 66, s);
  fgets = λ n s. (none, s);
}

abbrev screen : WindowsTerminal console
screen = record {
  system = 503;
  console_input_handle = 0;
  console_output_handle = 0;
  standard_output_handle = 0;
  error_output_handle = 0;
  terminal_rows = pos 0;
  terminal_columns = pos 0;
  line_input_data = pos 0;
}

abbrev off : Windows network winsock
off = record { world = record { net = 0; printed = [] }; winsock_initialized = false }

abbrev requests : List Request
requests = make_socket (97 ∷ []) 80 ∷ close (pos 3) ∷ make_server_socket 8080 ∷ []

os_bye-cleans_up_example :
    let w' = socket_session network winsock requests off in
    (w'.world.net ≡ (if w'.winsock_initialized then 1 else 0))
    × ((windows_bye network winsock console cleanup w' screen).1 ≡ 0)
os_bye-cleans_up_example =
    os_bye-cleans_up network winsock cleanup start_laws console screen requests off refl refl
