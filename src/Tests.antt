-- ===== src/Tests.antt =====
-- Concrete runs of the model, and each theorem with hypotheses at an input that meets them.
mod Random
mod Numbers
mod Build
mod Values
mod Exit
mod Streams
mod Backtrace
mod Socket
mod Os
mod Gtkui
mod Terminal
mod Startup
mod Winui
mod Threads
mod Windows
mod Sections
mod Console
mod Search
