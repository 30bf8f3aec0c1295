-- ===== src/Mtp1.antt =====
-- windows/receiver/Mtp1.h and Mtp1.cpp: the receiver's decoder of single messages and of the stream.
pub mod Types
pub mod Header
pub mod Message
pub mod Stream
pub mod Valid
pub mod Decoded
pub mod FromMac
pub mod Round
pub mod Fragments
pub mod Feed
mod Tests
