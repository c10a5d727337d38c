-- ===== src/Server/Handling.antt =====
-- apps/server/main.c: `draft_pick` and `handle_msg`.
use deadweight.Prelude.{
  ℕ, ◌+◌, ◌==◌, not, ◌&&◌, ◌||◌, List, if◌then◌else◌, Option, none, some, ltb, u8, u32,
}
use deadweight.Prelude.{ℤ, pos}
use deadweight.Match.State.{rej_no_match}
use deadweight.Match.Setup.{match_lock, both_locked}
use deadweight.Draft.Building.{Draft, deck_size, Picked, refused, endless, picked}
use deadweight.Draft.Building as Building
use deadweight.Draft.Checking.{deck_valid}
use deadweight.Wire.Message.{
  Msg, hello, queue, play, leave, ping, auth, draft_pick, draft_resume, welcome, queued,
  match_found, round_start, play_ack, play_reject, round_result, match_end, pong, draft_offer,
  draft_done, error, unknown, proto_version,
}
use deadweight.Server.State.{
  Server, Env, connected, ready, need_auth, verifying, drafting, in_state, with_conn, with_match,
  set_state, mode_card, mode_draft, mode_constructed, kind_bot, err_bad_frame, err_bad_proto,
  err_bad_state, rej_wrong_round,
}
use deadweight.Server.Sending.{send_msg, send_error, send_offer}
use deadweight.Server.Ending.{active_match, resolve_round, leave_match_or_queue, has_text}
use deadweight.Server.Sessions.{
  greet, keep_token, draw_offer, lock_in, become_ready, start_verify, start_draft, enter_queue,
  award_deck,
}

module _ (env : Env) where
  unfoldable pub drafted : ℕ → Draft → Server → Server
  drafted ci d s =
      let counted : Server = record s { stats = record s.stats { drafts = s.stats.drafts + 1 } } in
      enter_queue env ci (award_deck env ci d.deck counted)

  -- What `draft_pick` does with the result of `dw_draft_pick`; `none` stands for an offer that the
  -- fuel's rolls do not find.
  abbrev pub after_pick : ℕ → Picked → Server → Option Server
  after_pick ci refused s = some (send_offer env ci s)
  after_pick ci endless s = none
  after_pick ci (picked d) s =
      let next : Server = record s { board = with_conn ci (draw_offer d) s.board } in
      some (if Building.draft_done d then drafted ci d next else send_offer env ci next)

  unfoldable pub handle_pick : ℕ → ℕ → ℕ → Server → Option Server
  unfolding drafted
  handle_pick ci index mult s =
      if in_state (s.board.conns ci).state drafting
      then after_pick ci (Building.draft_pick env.rolls (s.board.conns ci).draft index mult) s
      else some (send_error env ci err_bad_state s)

  unfoldable pub handle_hello : ℕ → ℕ → ℕ → ℕ → List ℕ → List ℕ → Server → Server
  handle_hello ci proto mode kind name token s =
      if not (in_state (s.board.conns ci).state connected)
      then send_error env ci err_bad_state s
      else if not (proto == proto_version)
      then send_error env ci err_bad_proto s
      else if not (mode == mode_card || mode == mode_draft || mode == mode_constructed)
      then send_error env ci err_bad_state s
      else if ltb kind_bot kind
      then send_error env ci err_bad_frame s
      else (let greeted : Server = record s {
        board = with_conn ci (greet s.next_session name kind mode) s.board;
        next_session = u32 (s.next_session + 1);
      } in
          if env.opt_noauth
          then become_ready env ci greeted
          else if has_text token
          then start_verify env ci token greeted
          else record greeted { board = with_conn ci (set_state need_auth) greeted.board })

  unfoldable pub handle_auth : ℕ → List ℕ → Server → Server
  handle_auth ci token s =
      let c = s.board.conns ci in
      if in_state c.state need_auth
      then start_verify env ci token s
      else if in_state c.state ready && env.opt_noauth
      then s
      else send_error env ci err_bad_state s

  unfoldable pub handle_queue : ℕ → ℕ → Option (List ℕ) → Server → Option Server
  handle_queue ci same_deck match_token s =
      if not (in_state (s.board.conns ci).state ready)
      then some (send_error env ci err_bad_state s)
      else (let stashed : Server = record s {
        board = with_conn ci (keep_token match_token) s.board;
      } in
          let c = s.board.conns ci in
          if c.mode == mode_constructed
          then some (
              if c.deck_n == deck_size
              then enter_queue env ci stashed
              else send_error env ci err_bad_state stashed)
          else if c.mode == mode_draft && not (not (same_deck == 0) && c.deck_n == deck_size)
          then start_draft env ci stashed
          else some (enter_queue env ci stashed))

  unfoldable pub handle_resume : ℕ → List ℤ → Server → Server
  handle_resume ci cards s =
      let c = s.board.conns ci in
      if not (in_state c.state ready) || not (c.mode == mode_draft || c.mode == mode_constructed)
      then send_error env ci err_bad_state s
      else if deck_valid cards
      then award_deck env ci cards s
      else send_error env ci err_bad_frame s

  -- A play in a match: each branch is a `return`.
  unfoldable pub play_in : ℕ → ℕ → ℕ → ℕ → ℤ → Server → Server
  unfolding lock_in
  play_in ci mi match_id round slot s =
      let mt = s.board.matches mi in
      let seat = (s.board.conns ci).seat in
      let rc : ℕ = (match_lock mt.m seat slot).1 in
      let locked : Server = record s { board = with_match mi (lock_in seat slot) s.board } in
      let acked : Server = send_msg env ci (play_ack mt.id (u8 (pos mt.m.round))) locked in
      if not (match_id == mt.id)
      then send_msg env ci (play_reject match_id round rej_no_match) s
      else if not (round == mt.m.round)
      then send_msg env ci (play_reject match_id round rej_wrong_round) s
      else if not (rc == 0)
      then send_msg env ci (play_reject match_id round (u8 (pos rc))) locked
      else if both_locked (acked.board.matches mi).m
      then resolve_round env mi acked
      else acked

  abbrev pub play_where : Option ℕ → ℕ → ℕ → ℕ → ℤ → Server → Server
  play_where none ci match_id round slot s =
      send_msg env ci (play_reject match_id round rej_no_match) s
  play_where (some mi) ci match_id round slot s = play_in ci mi match_id round slot s

  unfoldable pub handle_play : ℕ → ℕ → ℕ → ℤ → Server → Server
  unfolding play_in
  handle_play ci match_id round slot s =
      play_where (active_match s.board (s.board.conns ci)) ci match_id round slot s

  unfoldable pub handle_leave : ℕ → Server → Server
  handle_leave ci s =
      let c = s.board.conns ci in
      if in_state c.state connected || in_state c.state need_auth || in_state c.state verifying
      then send_error env ci err_bad_state s
      else leave_match_or_queue env ci s

  -- `none` only where a draft's offer takes more rolls than the fuel has.
  unfoldable pub handle_msg : ℕ → Msg → Server → Option Server
  unfolding handle_pick handle_hello handle_auth handle_queue handle_resume handle_play handle_leave
  handle_msg ci (ping nonce) s = some (send_msg env ci (pong nonce) s)
  handle_msg ci (hello proto mode kind name token) s =
      some (handle_hello ci proto mode kind name token s)
  handle_msg ci (auth token) s = some (handle_auth ci token s)
  handle_msg ci (queue same_deck match_token) s = handle_queue ci same_deck match_token s
  handle_msg ci (draft_pick index mult) s = handle_pick ci index mult s
  handle_msg ci (draft_resume cards) s = some (handle_resume ci cards s)
  handle_msg ci (play match_id round slot) s = some (handle_play ci match_id round slot s)
  handle_msg ci leave s = some (handle_leave ci s)
  handle_msg ci (welcome session_id flags) s = some (send_error env ci err_bad_state s)
  handle_msg ci (queued waiting) s = some (send_error env ci err_bad_state s)
  handle_msg ci (match_found match_id seed seat opp_name opp_kind) s =
      some (send_error env ci err_bad_state s)
  handle_msg ci (round_start r) s = some (send_error env ci err_bad_state s)
  handle_msg ci (play_ack match_id round) s = some (send_error env ci err_bad_state s)
  handle_msg ci (play_reject match_id round reason) s = some (send_error env ci err_bad_state s)
  handle_msg ci (round_result r) s = some (send_error env ci err_bad_state s)
  handle_msg ci (match_end match_id result reason) s = some (send_error env ci err_bad_state s)
  handle_msg ci (pong nonce) s = some (send_error env ci err_bad_state s)
  handle_msg ci (draft_offer pick_no total card0 card1 left1 left2 left3) s =
      some (send_error env ci err_bad_state s)
  handle_msg ci (draft_done deck_id cards) s = some (send_error env ci err_bad_state s)
  handle_msg ci (error code) s = some (send_error env ci err_bad_state s)
  handle_msg ci (unknown type) s = some (send_error env ci err_bad_state s)
