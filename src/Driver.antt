-- ===== src/Driver.antt =====
-- windows/driver/Driver.h, Driver.c and Descriptor.c: the KMDF driver that submits HID reports.
pub mod Types
pub mod Submit
pub mod Control
pub mod Features
pub mod Descriptor
pub mod Hid
pub mod Reports
pub mod Fields
pub mod Layout
pub mod Accepts
pub mod Entries
pub mod Cases
pub mod Reads
pub mod Requests
pub mod Declared
mod Tests
