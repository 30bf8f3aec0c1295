-- ===== src/Agent.antt =====
-- mac/Agent/main.c: the capture callbacks, the queue to the sender thread, and what the sender sends.
pub mod Types
pub mod Queue
pub mod Settings
pub mod Options
pub mod Start
pub mod Capture
pub mod Send
pub mod Fifo
pub mod Enqueue
pub mod Press
pub mod Shown
pub mod Touches
pub mod Order
pub mod Threads
pub mod Landed
pub mod Controls
pub mod Sessions
pub mod Landing
pub mod Steps
pub mod Greeting
pub mod Sending
pub mod Turns
pub mod Runs
pub mod Race
pub mod Overflow
mod Tests
mod RunTests
