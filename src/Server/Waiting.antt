-- ===== src/Server/Waiting.antt =====
-- Who still waits when the pairing of apps/server/main.c is done.
use deadweight.Prelude.{ℕ, ◌≤◌, ◌<◌, ◌≡◌, true}
use deadweight.Server.State.{Board, Server, max_matches, kind_human, kind_bot}
use deadweight.Server.Pairing.{queue_count}

-- What is left in the queue of a mode when nobody can be paired.
pub record IsQuiet (b : Board) (mode : ℕ) : Type 0 where
  pub humans : queue_count b mode kind_human ≤ 1
  pub no_bot : queue_count b mode kind_human ≡ 1 → queue_count b mode kind_bot ≡ 0
  pub bots : queue_count b mode kind_bot ≤ 2

-- Every place of the table of matches is taken.
pub IsCrowded : Board → Type 0
IsCrowded b = (mi : ℕ) → mi < max_matches → (b.matches mi).active ≡ true
