-- ===== src/Server.antt =====
-- apps/server/main.c: the match server, as functions on its connections and matches.
pub mod State
pub mod Sending
pub mod Ending
pub mod Pairing
pub mod Queue
pub mod Sessions
pub mod Handling
pub mod Ticking
pub mod Sound
pub mod Ends
pub mod Starts
pub mod Fair
pub mod Rounds
pub mod Starting
pub mod Meeting
pub mod Pairs
pub mod Handled
pub mod Entering
pub mod Messages
pub mod Closing
pub mod Forfeits
pub mod Timing
pub mod Passing
pub mod Expiring
pub mod Marked
pub mod Refusing
pub mod Settling
pub mod Waiting
pub mod Rating
pub mod Run
mod Tests
