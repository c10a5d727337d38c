-- ===== src/Server/Queue.antt =====
-- apps/server/main.c: `try_pair_mode`, `try_pair_constructed`, `try_pair` and `queued_count`.
use deadweight.Prelude.{
  ℕ, zero, suc, ◌+◌, ◌==◌, Bool, false, not, ◌&&◌, if◌then◌else◌, Option, none, some, leb,
}
use deadweight.Prelude.{ℤ, pos}
use deadweight.Server.State.{
  Board, Server, Env, queued, in_state, mode_card, mode_draft, mode_constructed, kind_human,
  kind_bot, max_conns,
}
use deadweight.Server.Sending.{now_ms}
use deadweight.Server.Pairing.{
  start_match, oldest_queued, nearest_queued, queue_count, Pair, find_token_pair, found, rating_of,
  bot_ready_for_bot,
}

-- Two places, if there are two: the counts that stand before each call say that there are.
abbrev pub paired : Option ℕ → Option ℕ → Option Pair
paired (some i) (some j) = some (record { first = i; second = j })
paired (some i) none = none
paired none j = none

-- Whom a round of `try_pair_mode` puts into a match when no duel waits.
unfoldable pub pair_of_queue : Board → ℕ → Option Pair
unfolding oldest_queued queue_count
pair_of_queue b mode =
    let h1 = oldest_queued b mode kind_human none in
    let b1 = oldest_queued b mode kind_bot none in
    let nh = queue_count b mode kind_human in
    let nb = queue_count b mode kind_bot in
    if leb 2 nh
    then paired h1 (oldest_queued b mode kind_human h1)
    else if nh == 1 && leb 1 nb
    then paired h1 b1
    else if nh == 0 && leb 3 nb
    then paired b1 (oldest_queued b mode kind_bot b1)
    else none

abbrev pub or_pair : Option Pair → Option Pair → Option Pair
or_pair (some p) q = some p
or_pair none q = q

unfoldable pub next_pair : Board → ℕ → Option Pair
unfolding find_token_pair pair_of_queue
next_pair b mode = or_pair (find_token_pair b mode) (pair_of_queue b mode)

-- `rating_of(&conns[i])` for a place that was found.
abbrev pub rating_at : Board → Option ℕ → ℤ
rating_at b none = pos 0
rating_at b (some i) = rating_of (b.conns i)

abbrev pub ready_at : Env → Board → ℕ → Option ℕ → Bool
ready_at env b now none = false
ready_at env b now (some i) = bot_ready_for_bot env (b.conns i) now

-- The same for a round of `try_pair_constructed` at the time `now`.
unfoldable pub pair_by_rating : Env → Board → ℕ → Option Pair
unfolding oldest_queued nearest_queued queue_count
pair_by_rating env b now =
    let mode = mode_constructed in
    let h1 = oldest_queued b mode kind_human none in
    let b1 = oldest_queued b mode kind_bot none in
    let nh = queue_count b mode kind_human in
    let nb = queue_count b mode kind_bot in
    if leb 2 nh
    then paired h1 (nearest_queued b mode kind_human h1 (rating_at b h1))
    else if nh == 1 && leb 1 nb
    then paired h1 (nearest_queued b mode kind_bot none (rating_at b h1))
    else if nh == 0 && leb 3 nb && ready_at env b now b1
    then (let b2 = nearest_queued b mode kind_bot b1 (rating_at b b1) in
        if ready_at env b now b2 then paired b1 b2 else none)
    else none

unfoldable pub next_pair_constructed : Env → Board → ℕ → Option Pair
unfolding find_token_pair pair_by_rating
next_pair_constructed env b now =
    or_pair (find_token_pair b mode_constructed) (pair_by_rating env b now)

-- Whether a round of `try_pair_constructed` reads the clock.
unfoldable pub asks_clock : Board → Bool
unfolding find_token_pair queue_count
asks_clock b =
    not (found (find_token_pair b mode_constructed))
    && queue_count b mode_constructed kind_human == 0
    && leb 3 (queue_count b mode_constructed kind_bot)

-- The server after a round of `try_pair_constructed` has read the clock, if it does.
unfoldable pub clock_asked : Server → Server
unfolding asks_clock
clock_asked s = record s { calls = if asks_clock s.board then s.calls + 1 else s.calls }

module _ (env : Env) where
  -- The body of the loops: `none` is `break`.
  abbrev pub start_pair : Option Pair → ℕ → Server → Option Server
  start_pair none mode s = none
  start_pair (some p) mode s = start_match env p.first p.second mode s

  unfoldable pub pair_once : ℕ → Server → Option Server
  unfolding next_pair
  pair_once mode s = start_pair (next_pair s.board mode) mode s

  unfoldable pub pair_once_constructed : Server → Option Server
  unfolding next_pair_constructed clock_asked
  pair_once_constructed s =
      start_pair (next_pair_constructed env s.board (now_ms env s)) mode_constructed (clock_asked s)

  -- A `for (;;)` loop that ends when its body breaks, with fuel: `pair_loop-settled` of Settling shows
  -- that the number of connections is enough.
  unfoldable pub pair_loop : (Server → Option Server) → ℕ → Server → Server
  pair_loop once zero s = s
  pair_loop once (suc fuel) s = elim (once s) [ none ↦ s | some next ↦ pair_loop once fuel next ]

  unfoldable pub try_pair_mode : ℕ → Server → Server
  unfolding pair_loop pair_once
  try_pair_mode mode s = pair_loop (pair_once mode) max_conns s

  -- The round that breaks has read the clock as well, if it asks for it.
  unfoldable pub try_pair_constructed : Server → Server
  unfolding pair_loop pair_once_constructed clock_asked
  try_pair_constructed s = clock_asked (pair_loop pair_once_constructed max_conns s)

  unfoldable pub try_pair : Server → Server
  unfolding try_pair_mode try_pair_constructed
  try_pair s = try_pair_constructed (try_pair_mode mode_draft (try_pair_mode mode_card s))

unfoldable pub queued_of : Board → ℕ → ℕ → ℕ
queued_of b mode zero = 0
queued_of b mode (suc i) =
    (if in_state (b.conns i).state queued && (b.conns i).mode == mode then 1 else 0)
    + queued_of b mode i

unfoldable pub queued_count : Board → ℕ → ℕ
unfolding queued_of
queued_count b mode = queued_of b mode max_conns
