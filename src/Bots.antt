-- ===== src/Bots.antt =====
-- core/policy.c and part of core/client.c: how the bots play and draft.
pub mod Policy
pub mod Accepted
pub mod Best
mod Tests
pub mod Picking
