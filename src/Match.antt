-- ===== src/Match.antt =====
-- core/match.c and core/match.h: the deterministic match. `State` holds the data, the other
-- modules the operations in the order in which the C file has them.
pub mod State
pub mod Piles
pub mod Setup
pub mod Exchange
pub mod Riders
pub mod Gains
pub mod Hands
pub mod Resolve
pub mod Views
pub mod Kept
pub mod Bounds
pub mod Reach
pub mod Census
mod Tests
