-- ===== src/Lib.antt =====
-- Feline: the C part of the Feline system, which runs below the assembly kernel and the Feline sources.
--
-- The kernel calls the C functions by name, with cells (64-bit integers) as arguments and results. The parts
-- share little state: the numbers allocate boxed objects, the generator, the backtrace and the two front ends
-- keep static variables, and the files, clocks, threads and sockets act on the operating system. A front end also
-- calls back into the Feline code, to report events and to paint.
--
-- The modules and the files that they model, by paths from the root of the repository:
--   Random     src/random.c: the static words `x` and `s` are the record Generator, and each function takes it
--              and returns it changed.
--   Cell       src/feline.h: the tagging of integers and the boxed objects.
--   Libc       the integer conversions of the C library that src/numbers.c calls, strtol and snprintf.
--   Heap       the objects that src/numbers.c allocates; malloc is an abstract allocator.
--   Numbers    src/numbers.c and src/math.c: conversions between texts, floats and integers. Floats are an
--              abstract type with the operations of the C library. Numbers/Typed has the functions as one
--              operation on the heap, with the types of the cells that they return.
--   Backtrace  src/backtrace.c: the saved return stack, over a memory of cells.
--   Os         src/os.c. The Linux bodies: Os/Files the files, Os/Clock the clocks and os_sleep, Os/Memory
--              the data stack, Os/Threads the threads and mutexes, Os/Calls the functions that hand on one
--              call, Os/Exit os_bye. Os/Windows the Windows bodies of the file functions, and below it those
--              of the threads and mutexes (Threads), the clocks (Clock, DateTime), the listing of directories
--              (Find), paths and the console (Paths), executable memory (Executable) and os_bye (Exit).
--              Os/Spec the view of an open file, its position and its size, that both bodies of os_file_size,
--              os_file_position and os_reposition_file keep, and that of a file read to its end.
--              The system calls are a parameter, a record such as Posix, Pthreads, Win32 or WinThreads, and
--              what a proof relies on is a record of laws beside it.
--   Streams    the callers of os_read_char and c_socket_read_char, who read until the result is negative.
--   Socket     src/socket.c, over the record Network of socket calls; Socket/Windows the Windows bodies.
--   Gtkui      src/gtkui.c: the static variables are the record Gtkui, and what the code asks of GTK and cairo
--              is a list of calls. Gtkui/Setup builds the widgets, Gtkui/Keys handles events, Gtkui/Text and
--              Gtkui/Draw draw. Gtkui/Session calls the handlers as the signals come, whatever they are.
--              Rows, columns of text and sizes are natural numbers; the carets are integers.
--   Winui      src/winui.c, in the same way: the static variables are the record Winui, and what the code asks
--              of Windows is a list of calls. Winui/Setup makes the classes, the font and the windows,
--              Winui/Messages has the window procedures, Winui/Loop the message loops, Winui/Text writes and
--              clears, Winui/Clipboard is the clipboard. Winui/Session delivers messages to
--              the three windows. Handles are natural numbers, and NULL is 0.
--   Terminal   src/terminal.c: the terminal's modes, over the record Tty of calls; Terminal/Session what the
--              running program does with them; Terminal/Windows the Windows bodies, over the record Console.
--   Startup    src/main.c: main up to the call of `cold`, and the signal handler; Startup/Windows the Windows bodies,
--              with the exception handler and the Windows data stack of src/os.c.
--   Word       64-bit words and their bitwise operations.
--   Build      src/version.c and src/feline_home.c.
--   Prelude    shared names and lemmas.
-- A file below a module (Numbers/Text, Os/Files/Errors, ...) proves what its name says. Tests has concrete runs.
--
-- Fuel: the loop of os_sleep takes as many rounds as it is interrupted by signals, and one more. The loop of
-- c_save_backtrace has 31 rounds, one for each free cell of its array. The loop of c_decimal_to_number has one
-- round for each byte of the text. The loop of initialize_dynamic_code_space on Windows has the three rounds
-- of the source.
--
-- Threads: a thread calls the functions of Os/Threads one after the other, and the steps of several threads
-- come in any order (Os/Threads/Exclusion, Os/Windows/Threads/Nested); each step is one whole call.
--
-- Composition: Os/Exit/Restored follows the terminal from main of src/main.c, over any use by the running program, to
-- os_bye of src/os.c; Os/Windows/Exit does so with Winsock. The two front ends are followed over whole sessions, in which
-- the Feline code that they call is a parameter that keeps the variables that only the handlers set.
--
-- Not modelled: the bodies of the mutexes that are built only without USE_CRITICAL_SECTION; the assembly kernel and the
-- Feline sources, which are in other languages.
mod Prelude
pub mod Word
pub mod Random
pub mod Cell
pub mod Libc
pub mod Heap
pub mod Numbers
pub mod Backtrace
pub mod Streams
pub mod Build
pub mod Os
pub mod Socket
pub mod Gtkui
pub mod Terminal
pub mod Startup
pub mod Winui
mod Tests
