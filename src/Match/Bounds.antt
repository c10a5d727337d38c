-- ===== src/Match/Bounds.antt =====
-- The ranges of the meters of `DwMatch`: each operation of core/match.c keeps them.
pub mod Casts
pub mod Seats
pub mod Cards
pub mod Rounds
