-- ===== src/Session.antt =====
-- windows/receiver/TouchSession.h and TouchSession.cpp: the receiver's session.
pub mod Logical
pub mod LogicalBounds
pub mod Types
pub mod Slots
pub mod Frames
pub mod Process
pub mod Reports
pub mod Allocate
pub mod Assign
pub mod Invariant
pub mod Stable
pub mod Leave
pub mod Kept
pub mod Lifecycle
pub mod Errors
pub mod Owners
pub mod Active
pub mod Lifted
pub mod Counts
pub mod Capacity
pub mod Exact
pub mod Reach
pub mod Same
pub mod Walk
pub mod Put
pub mod Erased
pub mod Assigned
pub mod Unordered
mod Tests
