-- ===== src/Server/Ending.antt =====
-- apps/server/main.c: `enqueue_job`, `end_match`, `resolve_round`, `leave_match_or_queue` and `conn_close`.
use deadweight.Prelude.{
  ℕ, ◌+◌, ◌==◌, Bool, true, false, not, ◌&&◌, ◌||◌, List, [], ◌∷◌, ◌++◌, if◌then◌else◌, Option,
  none, some, ltb, length, u8,
}
use deadweight.Prelude.{pos}
use deadweight.Match.State.{
  Side, seat0, seat1, other, Two, at, for_seats, Outcome, res_win, end_forfeit,
}
use deadweight.Match.State as Engine
use deadweight.Match.Setup.{begin_round, match_forfeit}
use deadweight.Match.Resolve.{match_resolve, outcome}
use deadweight.Match.Views.{PostView, match_post_view}
use deadweight.Wire.Message.{RoundResult, round_result, match_end}
use deadweight.Server.State.{
  Conn, MatchSlot, Board, Server, Env, Stats, Job, report, free, ready, queued, in_match, drafting,
  in_state, write, with_conn, with_match, mode_draft, mode_constructed, end_server, max_plays,
  no_conn, no_link,
}
use deadweight.Server.Sending.{send_msg, send_round_start}

abbrev pub job_queue : ℕ
job_queue = 256

-- A job is dropped when the queue is full.
unfoldable pub enqueue_job : Job → Server → Server
enqueue_job j s =
    if ltb (length s.jobs) job_queue then record s { jobs = s.jobs ++ (j ∷ []) } else s

abbrev pub has_text : List ℕ → Bool
has_text [] = false
has_text (c ∷ cs) = true

-- A connection leaves the match that it is in.
unfoldable pub release : Conn → Conn
release c = if in_state c.state in_match then record c { state = ready; match = none } else c

unfoldable pub deactivate : MatchSlot → MatchSlot
deactivate mt = record mt { active = false }

-- The counters of `end_match`.
unfoldable pub count_match : MatchSlot → ℕ → Stats → Stats
count_match mt bots st = record st {
  matches = st.matches + 1;
  draft_matches = if mt.mode == mode_draft then st.draft_matches + 1 else st.draft_matches;
  constructed_matches =
      if mt.mode == mode_constructed then st.constructed_matches + 1 else st.constructed_matches;
  bot_bot = if bots == 2 then st.bot_bot + 1 else st.bot_bot;
  human_bot = if bots == 1 then st.human_bot + 1 else st.human_bot;
  human_human = if bots == 2 || bots == 1 then st.human_human else st.human_human + 1;
  forfeits = if mt.m.reason == end_forfeit then st.forfeits + 1 else st.forfeits;
}

unfoldable pub winner_of : Engine.Match → ℕ
winner_of m =
    if m.seats.at0.result == res_win then 0 else if m.seats.at1.result == res_win then 1 else 2

unfoldable pub result_of : Engine.Match → Two Outcome → Side → RoundResult
result_of m o s =
    let you = at o s in
    let opp = at o (other s) in
    let pv : PostView = match_post_view m s in
    record {
      round = u8 (pos m.round);
      card_you = you.card;
      card_opp = opp.card;
      dmg_you = you.dmg_to;
      dmg_opp = opp.dmg_to;
      hull_you = (at m.seats s).hull;
      hull_opp = (at m.seats (other s)).hull;
      eff_you = you.eff;
      eff_opp = opp.eff;
      armor_you = pv.armor_you;
      armor_opp = pv.armor_opp;
      vault_you = pv.vault_you;
      vault_opp = pv.vault_opp;
      heal_you = you.heal;
      heal_opp = opp.heal;
      roll_you = you.roll;
      roll_opp = opp.roll;
      flags_you = you.flags;
      flags_opp = opp.flags;
    }

-- The play log and `dw_match_resolve`.
unfoldable pub resolved : MatchSlot → MatchSlot
resolved mt = record mt {
  m = match_resolve mt.m;
  plays =
      if ltb (length mt.plays) max_plays
      then record { at0 = mt.m.seats.at0.lock_slot; at1 = mt.m.seats.at1.lock_slot } ∷ mt.plays
      else mt.plays;
}

unfoldable pub next_round : MatchSlot → MatchSlot
next_round mt = record mt { m = begin_round mt.m }

-- The match that a connection is in.
unfoldable pub active_match : Board → Conn → Option ℕ
active_match b c = elim c.match [
  | none ↦ none
  | some mi ↦ if in_state c.state in_match && (b.matches mi).active then some mi else none
]

unfoldable pub forfeited : Side → MatchSlot → MatchSlot
forfeited t mt = record mt { m = match_forfeit mt.m t }

-- A connection that waits or drafts is ready again.
unfoldable pub unqueue : Conn → Conn
unqueue c =
    if in_state c.state queued || in_state c.state drafting then record c { state = ready } else c

module _ (env : Env) where
  -- One seat's part of the loop of `end_match`.
  unfoldable pub end_seat : ℕ → Side → Server → Server
  end_seat mi t s =
      let mt = s.board.matches mi in
      let sent : Server =
        send_msg env (at mt.conn t) (match_end mt.id (at mt.m.seats t).result mt.m.reason) s in
      record sent { board = with_conn (at mt.conn t) release sent.board }

  unfoldable pub report_match : ℕ → Server → Server
  unfolding enqueue_job winner_of
  report_match mi s =
      let mt = s.board.matches mi in
      let pid0 = (s.board.conns mt.conn.at0).player_id in
      let pid1 = (s.board.conns mt.conn.at1).player_id in
      if env.opt_iduna && not (mt.m.reason == end_server) && has_text pid0 && has_text pid1
      then enqueue_job
          (report mt.id mt.m.seed mt.m.round mt.m.reason mt.mode (winner_of mt.m)
            (record { at0 = pid0; at1 = pid1 }))
          s
      else s

  unfoldable pub end_match : ℕ → Server → Server
  unfolding end_seat report_match
  end_match mi s =
      let told : Server = for_seats (end_seat mi) s in
      let mt = told.board.matches mi in
      let bots : ℕ = (told.board.conns mt.conn.at0).kind + (told.board.conns mt.conn.at1).kind in
      let reported : Server =
        report_match mi (record told { stats = count_match mt bots told.stats }) in
      record reported { board = with_match mi deactivate reported.board }

  unfoldable pub send_result : ℕ → Two Outcome → Side → Server → Server
  unfolding result_of
  send_result mi o t s =
      let mt = s.board.matches mi in
      send_msg env (at mt.conn t) (round_result (result_of mt.m o t)) s

  unfoldable pub resolve_round : ℕ → Server → Server
  unfolding send_result end_match
  resolve_round mi s =
      let o : Two Outcome = outcome (s.board.matches mi).m in
      let told : Server =
        for_seats (send_result mi o) (record s { board = with_match mi resolved s.board }) in
      if (told.board.matches mi).m.done
      then end_match mi told
      else send_round_start env mi (record told { board = with_match mi next_round told.board })

  abbrev pub forfeit : Option ℕ → Side → Server → Server
  forfeit none t s = s
  forfeit (some mi) t s = end_match mi (record s { board = with_match mi (forfeited t) s.board })

  unfoldable pub leave_match_or_queue : ℕ → Server → Server
  unfolding active_match unqueue
  leave_match_or_queue ci s =
      let c = s.board.conns ci in
      let left : Server = forfeit (active_match s.board c) c.seat s in
      record left { board = with_conn ci unqueue left.board }

  unfoldable pub conn_close : ℕ → Server → Server
  unfolding leave_match_or_queue
  conn_close ci s =
      if in_state (s.board.conns ci).state free
      then s
      else let left : Server = leave_match_or_queue ci s in
        record left {
          board = with_conn ci (λ c. no_conn) left.board;
          links = write left.links ci no_link;
        }
