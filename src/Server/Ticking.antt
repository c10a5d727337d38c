-- ===== src/Server/Ticking.antt =====
-- apps/server/main.c: `expire_timers`, `accept_conns` for one socket, and what the account service answers.
use deadweight.Prelude.{
  ℕ, zero, suc, ◌+◌, ◌-◌, ◌%◌, ◌^◌, ◌==◌, Bool, not, ◌&&◌, ◌||◌, List, if◌then◌else◌, Option, none,
  some, ltb, take,
}
use deadweight.Prelude.{ℤ, pos, negsuc, ◌+ℤ◌, eqb_ℤ}
use deadweight.Match.State.{Side, at, for_seats}
use deadweight.Server.State.{
  Conn, MatchSlot, Board, Server, Env, free, connected, need_auth, verifying, in_state, with_conn,
  with_match, write, err_auth, hello_timeout_ms, max_conns, max_matches, no_conn, no_link,
  kind_human,
}
use deadweight.Server.Sending.{send_error, now_ms}
use deadweight.Server.Ending.{resolve_round, has_text}
use deadweight.Server.Pairing.{first_from, same_text}
use deadweight.Server.Sessions.{lock_in, become_ready}

-- A connection that has not been let in after ten seconds; the difference is one of 64-bit numbers.
unfoldable pub timed_out : ℕ → Conn → Bool
timed_out now c =
    (in_state c.state connected || in_state c.state need_auth || in_state c.state verifying)
    && ltb hello_timeout_ms ((now + (2 ^ 64 - c.connect_ms)) % 2 ^ 64)

unfoldable pub is_due : ℕ → MatchSlot → Bool
is_due now mt = mt.active && not (mt.deadline == 0) && not (ltb now mt.deadline)

-- A seat that has not locked passes.
unfoldable pub pass_seat : Side → MatchSlot → MatchSlot
unfolding lock_in
pass_seat t mt = if (at mt.m.seats t).locked then mt else lock_in t (negsuc 0) mt

unfoldable pub pass_seats : MatchSlot → MatchSlot
unfolding pass_seat for_seats
pass_seats mt = for_seats pass_seat mt

unfoldable pub is_free : Board → ℕ → Bool
is_free b i = in_state (b.conns i).state free

unfoldable pub connect : ℕ → Conn → Conn
connect now c = record no_conn { state = connected; connect_ms = now }

-- What the worker brings back from the service: the outcome of a check, with `rc` 0 for a valid
-- token, -1 for a service that is out of reach, else a refusal.
pub record Verified : Type 0 where
  pub conn : ℕ
  pub gen : ℕ
  pub rc : ℤ
  pub kind : ℕ
  pub player_id : List ℕ
  pub display_name : List ℕ
  pub rating : ℤ
  pub rated_matches : ℤ

unfoldable pub identify : Verified → Conn → Conn
identify r c = record c {
  player_id = take 47 r.player_id;
  rating = r.rating;
  rated_matches = r.rated_matches;
  name = if c.kind == kind_human && has_text r.display_name then take 16 r.display_name else c.name;
}

-- The inner loop of `rating_update`: both seats of a report may be the same player.
unfoldable pub rate : List ℕ → ℤ → Conn → Conn
rate pid rating c =
    if not (in_state c.state free) && has_text c.player_id && same_text c.player_id pid
    then record c { rating = rating; rated_matches = c.rated_matches +ℤ pos 1 }
    else c

unfoldable pub rate_all : List ℕ → ℤ → List ℕ → ℤ → ℕ → Board → Board
unfolding rate
rate_all pid0 r0 pid1 r1 zero b = b
rate_all pid0 r0 pid1 r1 (suc i) b =
    with_conn i (λ c. rate pid1 r1 (rate pid0 r0 c)) (rate_all pid0 r0 pid1 r1 i b)

unfoldable pub rating_update : List ℕ → ℤ → List ℕ → ℤ → Server → Server
unfolding rate_all
rating_update pid0 r0 pid1 r1 s = record s { board = rate_all pid0 r0 pid1 r1 max_conns s.board }

module _ (env : Env) where
  -- The first loop of `expire_timers`.
  unfoldable pub expire_conns : ℕ → ℕ → Server → Server
  unfolding timed_out
  expire_conns now zero s = s
  expire_conns now (suc i) s =
      let before : Server = expire_conns now i s in
      if timed_out now (before.board.conns i) then send_error env i err_auth before else before

  unfoldable pub time_out : ℕ → Server → Server
  unfolding pass_seats
  time_out mi s = resolve_round env mi (record s { board = with_match mi pass_seats s.board })

  -- The second loop of `expire_timers`.
  unfoldable pub expire_matches : ℕ → ℕ → Server → Server
  unfolding is_due time_out
  expire_matches now zero s = s
  expire_matches now (suc i) s =
      let before : Server = expire_matches now i s in
      if is_due now (before.board.matches i) then time_out i before else before

  unfoldable pub expire_timers : Server → Server
  unfolding expire_conns expire_matches
  expire_timers s =
      let now : ℕ = now_ms env s in
      let told : Server = expire_conns now max_conns (record s { calls = s.calls + 1 }) in
      if env.opt_ff then told else expire_matches now max_matches told

  -- A socket that has been accepted takes the lowest free place; if there is none, it is closed.
  abbrev pub accept_at : Option ℕ → Server → Server
  accept_at none s = s
  accept_at (some i) s = record s {
    board = with_conn i (connect (now_ms env s)) s.board;
    links = write s.links i no_link;
    calls = s.calls + 1;
  }

  unfoldable pub accept_conn : Server → Server
  unfolding is_free
  accept_conn s = accept_at (first_from (is_free s.board) 0 max_conns) s

  unfoldable pub verify_done : Verified → Server → Server
  unfolding identify
  verify_done r s =
      let c = s.board.conns r.conn in
      if not (ltb r.conn max_conns)
        || not (in_state c.state verifying)
        || not (c.session_id == r.gen)
      then s
      else if eqb_ℤ r.rc (pos 0)
      then (if c.kind == r.kind
          then become_ready env r.conn (record s { board = with_conn r.conn (identify r) s.board })
          else send_error env r.conn err_auth s)
      else if eqb_ℤ r.rc (negsuc 0) && env.opt_fail_open
      then become_ready env r.conn s
      else send_error env r.conn err_auth s
