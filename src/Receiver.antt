-- ===== src/Receiver.antt =====
-- windows/receiver/main.cpp: the loop that serves a connection.
pub mod Serve
pub mod Submits
pub mod Ordered
pub mod Drained
pub mod Server
mod Tests
