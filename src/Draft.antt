-- ===== src/Draft.antt =====
-- core/draft.c and core/draft.h: drafting a deck pick by pick, checking a deck that comes from
-- outside, dealing a random legal deck, and reading one from text.
pub mod Building
pub mod Checking
pub mod Dealing
pub mod Shape
pub mod Filling
pub mod Sorting
pub mod Legal
pub mod Random
pub mod Drafted
mod Tests
