-- ===== src/Wire.antt =====
-- protocol/TouchFrame.h and protocol/TouchFrame.c: the MTP1 wire codec of the Mac side.
pub mod Types
pub mod Bytes
pub mod Encode
pub mod Decode
pub mod Layout
pub mod RoundTrip
pub mod Safety
pub mod Ranges
pub mod Inside
mod Tests
