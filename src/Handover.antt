-- ===== src/Handover.antt =====
-- The atomic handover protocol: src/handover.h and src/handover.c.
pub mod Context
pub mod Snapshot
pub mod Steps
pub mod Loading
pub mod Headstones
pub mod Migration
pub mod Switchover
pub mod Outcomes
pub mod Atomicity
pub mod Protocol
pub mod Progress
mod Tests
