-- ===== src/Server/Messages.antt =====
-- `handle_msg` of apps/server/main.c keeps the tables, whatever a client sends.
use deadweight.Prelude.{
  ℕ, ◌==◌, ◌≡◌, refl, sym, ap, ◌∙◌, subst, arith, Bool, true, false, Bool-cases, Option-cases, inl,
  inr, not, ◌&&◌, ◌||◌, List, if◌then◌else◌, Option, none, some, u8,
}
use deadweight.Prelude.{ℤ, pos}
use deadweight.Match.State.{Side, rej_no_match}
use deadweight.Match.Setup.{match_lock, both_locked}
use deadweight.Match.Reach.{lock}
use deadweight.Draft.Building.{deck_size}
use deadweight.Wire.Message.{
  Msg, hello, queue, play, leave, ping, auth, draft_pick, draft_resume, welcome, queued,
  match_found, round_start, play_ack, play_reject, round_result, match_end, pong, draft_offer,
  draft_done, error, unknown,
}
use deadweight.Server.State as State
use deadweight.Server.State.{
  Conn, ConnState, MatchSlot, connected, ready, in_match, need_auth, verifying, drafting, in_state,
  Board, Server, Env, with_conn, with_match, set_state, err_auth, err_bad_state, err_bad_proto,
  err_bad_frame, kind_bot, mode_card, mode_draft, mode_constructed, rej_wrong_round,
}
use deadweight.Server.Sending.{send_msg, send_msg-board, send_error}
use deadweight.Server.Pairing.{with_decks}
use deadweight.Server.Ending.{
  active_match, forfeit, forfeited, unqueue, leave_match_or_queue, resolve_round,
}
use deadweight.Server.Sessions.{keep_token, lock_in, enter_queue}
use deadweight.Server.Handling.{
  handle_hello, handle_auth, handle_queue, handle_resume, play_in, play_where, handle_play,
  handle_leave, handle_msg,
}
use deadweight.Server.Sound.{playing, with_match-Sound, with_conn_same}
use deadweight.Server.Fair.{IsGame, IsFair, match_there, end_match-IsFair}
use deadweight.Server.Rounds.{resolve_round-IsFair}
use deadweight.Server.Handled.{
  IsTidy, tidy, if-IsTidy, conn_there, send_msg-IsFair, send_error-IsFair, idle-IsFair,
  enter_queue-IsFair, start_draft-IsFair,
}
use deadweight.Server.Entering.{
  refused_with, handle_pick-IsFair, handle_hello-IsFair, handle_auth-IsFair, handle_resume-IsFair,
}

-- What comes of a handler that may hang keeps the tables.
abbrev Keeps : Option Server → Type 0
Keeps o = (after : Server) → o ≡ some after → IsFair after.board

some-Keeps : (s : Server) → IsFair s.board → Keeps (some s)
some-Keeps s fair after e =
    let same : s ≡ after = cc e in subst (λ (s : Server). IsFair s.board) same fair

if-Keeps :
    (p : Bool) (s t : Option Server)
    → (p ≡ true → Keeps s)
    → (p ≡ false → Keeps t)
    → Keeps (if p then s else t)
if-Keeps true s t a b = a refl
if-Keeps false s t a b = b refl

pub active_match-runs :
    (b : Board) (c : Conn) (mi : ℕ) → active_match b c ≡ some mi → (b.matches mi).active ≡ true
unfolding active_match
active_match-runs b c mi e = elim (Option-cases c.match) [
  | inl n ↦ absurd (cc (rw (n, active_match) at e))
  | inr (mj, h) ↦ elim (Bool-cases (playing c && (b.matches mj).active)) [
    | inl y ↦
        let same : mj ≡ mi = cc (rw y at (rw (h, active_match) at e)) in
        rw (sym same) (ground (arith, y))
    | inr n ↦ absurd (cc (rw n at (rw (h, active_match) at e)))
  ]
]

pub lock-IsGame : (t : Side) (slot : ℤ) (mt : MatchSlot) → IsGame mt → IsGame (lock_in t slot mt)
unfolding lock_in
lock-IsGame t slot mt g = record { legal = g.legal; reached = lock t slot g.reached }

keep_token-same :
    (token : Option (List ℕ)) (c : Conn)
    → ((keep_token token c).state ≡ c.state)
      × ((keep_token token c).deck ≡ c.deck)
      × ((keep_token token c).deck_n ≡ c.deck_n)
      × ((keep_token token c).mode ≡ c.mode)
unfolding keep_token
keep_token-same none c = (refl, refl, refl, refl)
keep_token-same (some token) c = (refl, refl, refl, refl)

module _ (env : Env) where
  play_in-IsFair :
      (ci mi match_id round : ℕ) (slot : ℤ) (s : Server)
      → IsFair s.board
      → (s.board.matches mi).active ≡ true
      → IsFair (play_in env ci mi match_id round slot s).board
  unfolding play_in lock_in
  play_in-IsFair ci mi match_id round slot s fair run =
      let mt = s.board.matches mi in
      let seat = (s.board.conns ci).seat in
      let rc : ℕ = (match_lock mt.m seat slot).1 in
      let locked : Server = record s { board = with_match mi (lock_in seat slot) s.board } in
      let locked-IsFair : IsFair locked.board =
        with_match-Sound s.board mi (lock_in seat slot) fair refl refl
          λ h. lock-IsGame seat slot mt (fair.games mi h) in
      let ack : Msg = play_ack mt.id (u8 (pos mt.m.round)) in
      let acked : Server = send_msg env ci ack locked in
      let there = send_msg-board env ci ack locked in
      let answer : (reason : ℕ) (t : Server)
          → IsFair t.board
          → IsTidy (send_msg env ci (play_reject match_id round reason) t) =
        λ reason t h.
          tidy (send_msg env ci (play_reject match_id round reason) t)
            (send_msg-IsFair env ci _ t h) in
      let done : IsTidy (play_in env ci mi match_id round slot s) =
        if-IsTidy {p = not (match_id == mt.id)} (λ e. answer rej_no_match s fair)
          λ e.
            if-IsTidy {p = not (round == mt.m.round)} (λ e. answer rej_wrong_round s fair)
              λ e.
                if-IsTidy {p = not (rc == 0)} (λ e. answer (u8 (pos rc)) locked locked-IsFair)
                  λ e.
                    if-IsTidy {p = both_locked (acked.board.matches mi).m}
                      (λ both. tidy (resolve_round env mi acked) (
                        resolve_round-IsFair env mi (lock_in seat slot) s.board acked there fair run
                          refl run (lock-IsGame seat slot mt (fair.games mi run))
                          (sym (
                              ap (λ (b : Board). both_locked (b.matches mi).m) there
                              ∙ ap (λ (m : MatchSlot). both_locked m.m)
                                  (match_there mi (lock_in seat slot) s.board))
                            ∙ both)))
                      λ e. tidy acked (send_msg-IsFair env ci ack locked locked-IsFair) in
      done.fair

  play_where-IsFair :
      (place : Option ℕ) (ci match_id round : ℕ) (slot : ℤ) (s : Server)
      → IsFair s.board
      → ((mi : ℕ) → place ≡ some mi → (s.board.matches mi).active ≡ true)
      → IsFair (play_where env place ci match_id round slot s).board
  play_where-IsFair none ci match_id round slot s fair run = send_msg-IsFair env ci _ s fair
  play_where-IsFair (some mi) ci match_id round slot s fair run =
      play_in-IsFair ci mi match_id round slot s fair (run mi refl)

  handle_queue-IsFair :
      (ci same_deck : ℕ) (match_token : Option (List ℕ)) (s : Server)
      → IsFair s.board
      → Keeps (handle_queue env ci same_deck match_token s)
  unfolding handle_queue with_decks
  handle_queue-IsFair ci same_deck match_token s fair =
      if-Keeps (not (in_state (s.board.conns ci).state ready)) _ _
        (λ e. some-Keeps _ (send_error-IsFair env ci err_bad_state s fair))
        λ h.
          let c : Conn = s.board.conns ci in
          let (state, deck, deck_n, mode) = keep_token-same match_token c in
          let out : playing c ≡ false = ground (arith, h) in
          let stashed : Server = record s {
            board = with_conn ci (keep_token match_token) s.board;
          } in
          let kept : IsFair stashed.board =
            idle-IsFair env ci (keep_token match_token) s.board fair out deck deck_n
              (rw state (ground (arith, h))) in
          let there = conn_there ci (keep_token match_token) s.board in
          let still : playing (stashed.board.conns ci) ≡ false =
            ap (λ (c : Conn). playing c) there
            ∙ ap (λ (st : ConnState). in_state st in_match) state
            ∙ out in
          let same_mode : (stashed.board.conns ci).mode ≡ c.mode =
            ap (λ (c : Conn). c.mode) there ∙ mode in
          let same_n : (stashed.board.conns ci).deck_n ≡ c.deck_n =
            ap (λ (c : Conn). c.deck_n) there ∙ deck_n in
          let enters : ((with_decks c.mode ≡ true) → (c.deck_n == deck_size) ≡ true)
              → Keeps (some (enter_queue env ci stashed)) =
            λ ok.
              some-Keeps (enter_queue env ci stashed)
                (enter_queue-IsFair env ci stashed kept still (rw (same_mode, same_n) ok)) in
          if-Keeps (c.mode == mode_constructed) _ _
            (λ m. some-Keeps _ (elim (Bool-cases (c.deck_n == deck_size)) [
              | inl y ↦
                  rw y
                    (enter_queue-IsFair env ci stashed kept still (rw (same_mode, same_n) λ d. y))
              | inr n ↦ rw n (send_error-IsFair env ci err_bad_state stashed kept)
            ]))
            λ m.
              if-Keeps (c.mode == mode_draft && not (not (same_deck == 0) && c.deck_n == deck_size))
                _ _ (λ d. λ after e. start_draft-IsFair env ci stashed after kept still e)
                λ n. enters λ d. ground (arith, m, n, d)

  forfeit-IsFair :
      (place : Option ℕ) (t : Side) (s : Server)
      → IsFair s.board
      → ((mi : ℕ) → place ≡ some mi → (s.board.matches mi).active ≡ true)
      → IsFair (forfeit env place t s).board
  unfolding forfeited
  forfeit-IsFair none t s fair run = fair
  forfeit-IsFair (some mi) t s fair run =
      end_match-IsFair env mi (forfeited t) s.board
        (record s { board = with_match mi (forfeited t) s.board }) refl fair (run mi refl) refl

  pub leave-IsFair :
      (ci : ℕ) (s : Server) → IsFair s.board → IsFair (leave_match_or_queue env ci s).board
  unfolding leave_match_or_queue unqueue
  leave-IsFair ci s fair =
      let c : Conn = s.board.conns ci in
      let left : Server = forfeit env (active_match s.board c) c.seat s in
      let left-IsFair : IsFair left.board =
        forfeit-IsFair (active_match s.board c) c.seat s fair (active_match-runs s.board c) in
      let d : Conn = left.board.conns ci in
      elim (Bool-cases (in_state d.state State.queued || in_state d.state drafting)) [
        | inl y ↦
            idle-IsFair env ci unqueue left.board left-IsFair (ground (arith, y)) (rw y refl)
              (rw y refl) (rw y refl)
        | inr n ↦
            subst (λ (b : Board). IsFair b) (sym (with_conn_same ci unqueue left.board (rw n refl)))
              left-IsFair
      ]

  handle_leave-IsFair :
      (ci : ℕ) (s : Server) → IsFair s.board → IsFair (handle_leave env ci s).board
  unfolding handle_leave
  handle_leave-IsFair ci s fair =
      let c : Conn = s.board.conns ci in
      let done : IsTidy (handle_leave env ci s) =
        if-IsTidy
          {p = in_state c.state connected
            || in_state c.state need_auth
            || in_state c.state verifying}
          (λ e. refused_with env ci err_bad_state s fair)
          λ e. tidy (leave_match_or_queue env ci s) (leave-IsFair ci s fair) in
      done.fair

  bad_state-Keeps :
      (ci : ℕ) (s : Server) → IsFair s.board → Keeps (some (send_error env ci err_bad_state s))
  bad_state-Keeps ci s fair =
      some-Keeps (send_error env ci err_bad_state s) (send_error-IsFair env ci err_bad_state s fair)

  -- Whatever message a connection sends in whatever state, the tables agree afterwards: the players of a
  -- running match are in it and nowhere else, whoever is in a match has a seat there, the match is in a state
  -- that the engine reaches from two legal decks, and the decks and drafts of the others are sound.
  pub handle_msg-IsFair :
      (ci : ℕ) (m : Msg) (s after : Server)
      → IsFair s.board
      → handle_msg env ci m s ≡ some after
      → IsFair after.board
  unfolding handle_msg handle_play
  handle_msg-IsFair ci (ping nonce) s after fair e =
      some-Keeps (send_msg env ci (pong nonce) s) (send_msg-IsFair env ci (pong nonce) s fair) after
        e
  handle_msg-IsFair ci (hello proto mode kind name token) s after fair e =
      some-Keeps (handle_hello env ci proto mode kind name token s)
        (handle_hello-IsFair env ci proto mode kind name token s fair) after e
  handle_msg-IsFair ci (auth token) s after fair e =
      some-Keeps (handle_auth env ci token s) (handle_auth-IsFair env ci token s fair) after e
  handle_msg-IsFair ci (queue same_deck match_token) s after fair e =
      handle_queue-IsFair ci same_deck match_token s fair after e
  handle_msg-IsFair ci (draft_pick index mult) s after fair e =
      handle_pick-IsFair env ci index mult s after fair e
  handle_msg-IsFair ci (draft_resume cards) s after fair e =
      some-Keeps (handle_resume env ci cards s) (handle_resume-IsFair env ci cards s fair) after e
  handle_msg-IsFair ci (play match_id round slot) s after fair e =
      some-Keeps (handle_play env ci match_id round slot s)
        (play_where-IsFair (active_match s.board (s.board.conns ci)) ci match_id round slot s fair
          (active_match-runs s.board (s.board.conns ci)))
        after e
  handle_msg-IsFair ci leave s after fair e =
      some-Keeps (handle_leave env ci s) (handle_leave-IsFair ci s fair) after e
  handle_msg-IsFair ci (welcome session_id flags) s after fair e = bad_state-Keeps ci s fair after e
  handle_msg-IsFair ci (queued waiting) s after fair e = bad_state-Keeps ci s fair after e
  handle_msg-IsFair ci (match_found match_id seed seat opp_name opp_kind) s after fair e =
      bad_state-Keeps ci s fair after e
  handle_msg-IsFair ci (round_start r) s after fair e = bad_state-Keeps ci s fair after e
  handle_msg-IsFair ci (play_ack match_id round) s after fair e = bad_state-Keeps ci s fair after e
  handle_msg-IsFair ci (play_reject match_id round reason) s after fair e =
      bad_state-Keeps ci s fair after e
  handle_msg-IsFair ci (round_result r) s after fair e = bad_state-Keeps ci s fair after e
  handle_msg-IsFair ci (match_end match_id result reason) s after fair e =
      bad_state-Keeps ci s fair after e
  handle_msg-IsFair ci (pong nonce) s after fair e = bad_state-Keeps ci s fair after e
  handle_msg-IsFair ci (draft_offer pick_no total card0 card1 left1 left2 left3) s after fair e =
      bad_state-Keeps ci s fair after e
  handle_msg-IsFair ci (draft_done deck_id cards) s after fair e = bad_state-Keeps ci s fair after e
  handle_msg-IsFair ci (error code) s after fair e = bad_state-Keeps ci s fair after e
  handle_msg-IsFair ci (unknown type) s after fair e = bad_state-Keeps ci s fair after e
