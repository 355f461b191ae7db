-- ===== src/Stream.antt =====
-- src/stream.rs: the attempts to connect, and the threads' channel. Sockets, TLS and the resolver are
-- parameters; the clock is the instant in the state.
mod Tests
pub mod Connect
pub mod Open
pub mod Deadline
pub mod Receive
pub mod Send
pub mod Head
