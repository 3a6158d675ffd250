-- ===== src/Os.antt =====
-- src/os.c: its files on Linux and on Windows, the clocks and sleeping, memory and threads.
pub mod Files
pub mod Clock
pub mod Memory
pub mod Windows
pub mod Spec
pub mod Threads
pub mod Exit
pub mod Calls
