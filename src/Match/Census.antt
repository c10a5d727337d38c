-- ===== src/Match/Census.antt =====
-- How often a card lies in the hands and piles of a match of core/match.c.
pub mod Count
pub mod Shuffle
pub mod Seats
pub mod Redraw
pub mod Works
pub mod Whole
pub mod Start
pub mod Table
