-- ===== src/Tcp.antt =====
-- The TCP files of toy_src (tcp.h, tcp.c, tcp_data.c, tcp_input.c, tcp_output.c, tcp_sock.c).
pub mod Types
pub mod Core
pub mod Output
pub mod Send
pub mod Data
pub mod Handshake
pub mod Input
pub mod Sock
pub mod Timeouts
pub mod Ticks
pub mod Wire
pub mod Receive
pub mod Frame
pub mod Ends
pub mod Transitions
pub mod Reach
pub mod Sequence
pub mod Deaf
pub mod Reassembly
pub mod Stream
pub mod Dequeue
pub mod Segments
pub mod Forgets
pub mod Passive
pub mod Active
mod Fixtures
mod DataTests
mod TimerTests
mod WireTests
mod Tests
