-- ===== src/Server/Run.antt =====
-- The main loop of apps/server/main.c as a relation: what may happen to the server, in any order.
use deadweight.Prelude.{
  List, drop, ℕ, ◌==◌, ◌≡◌, refl, ap, ◌∙◌, arith, true, false, not, ◌&&◌, ◌||◌, ltb, Option, none,
  some,
}
use deadweight.Prelude.{ℤ, pos, negsuc, eqb_ℤ}
use deadweight.Match.State.{Side, at}
use deadweight.Match.Reach.{IsPlayable}
use deadweight.Match.Reach.Invariant.{Reach-IsPlayable}
use deadweight.Wire.Message.{Msg}
use deadweight.Server.State.{
  Conn, Server, Env, in_state, with_conn, no_conn, max_conns, err_bad_frame, err_auth, verifying,
}
use deadweight.Server.Sending.{flush_conn, send_error}
use deadweight.Server.Ending.{conn_close}
use deadweight.Server.Pairing.{first_from}
use deadweight.Server.Queue.{try_pair_constructed}
use deadweight.Server.Sessions.{become_ready}
use deadweight.Server.Handling.{handle_msg}
use deadweight.Server.Ticking.{
  expire_timers, accept_conn, accept_at, is_free, connect, Verified, verify_done, rating_update,
  identify,
}
use deadweight.Server.Starting.{first_from-ok}
use deadweight.Server.Sound.{playing, with_conn-Sound}
use deadweight.Server.Fair.{IsFair}
use deadweight.Server.Pairs.{try_pair_constructed-IsFair}
use deadweight.Server.Handled.{
  IsTidy, tidy, if-IsTidy, send_error-IsFair, become_ready-IsFair, idle-IsFair, conn_there,
}
use deadweight.Server.Messages.{handle_msg-IsFair}
use deadweight.Server.Rating.{rating_update-IsFair}
use deadweight.Server.Closing.{conn_close-IsFair}
use deadweight.Server.Timing.{expire_timers-IsFair}

-- A server that starts: no connections and no matches, and the counters from 1.
pub record IsFresh (s : Server) : Type 0 where
  pub no_conns : (ci : ℕ) → s.board.conns ci ≡ no_conn
  pub no_matches : (mi : ℕ) → (s.board.matches mi).active ≡ false

-- What the loop of `main` does, in any order; `verified` and `rated` are answers of the account service, and in `taken`
-- its thread takes a job off the queue.
pub data Run (env : Env) : Server → Type 0 where
  booted : (s : Server) → IsFresh s → Run env s
  accepted : {s : Server} → Run env s → Run env (accept_conn env s)
  received :
      {s after : Server} (ci : ℕ) (m : Msg)
      → Run env s
      → handle_msg env ci m s ≡ some after
      → Run env after
  malformed : {s : Server} (ci : ℕ) → Run env s → Run env (send_error env ci err_bad_frame s)
  flushed : {s : Server} (ci : ℕ) → Run env s → Run env (flush_conn env ci s)
  closed : {s : Server} (ci : ℕ) → Run env s → Run env (conn_close env ci s)
  verified : {s : Server} (r : Verified) → Run env s → Run env (verify_done env r s)
  rated :
      {s : Server} (pid0 : List ℕ) (r0 : ℤ) (pid1 : List ℕ) (r1 : ℤ)
      → Run env s
      → Run env (rating_update pid0 r0 pid1 r1 s)
  taken : {s : Server} → Run env s → Run env (record s { jobs = drop 1 s.jobs })
  ticked : {s : Server} → Run env s → Run env (expire_timers env s)
  paced : {s : Server} → Run env s → Run env (try_pair_constructed env s)

fresh-IsFair : (s : Server) → IsFresh s → IsFair s.board
fresh-IsFair s f = record {
  players = λ mi h t. absurd (cc (h, f.no_matches mi));
  places = λ ci h. absurd (cc (h, ap (λ (c : Conn). playing c) (f.no_conns ci)));
  games = λ mi h. absurd (cc (h, f.no_matches mi));
  guests = λ ci.
      rw (f.no_conns ci)
        (record { deck_legal = λ h. cc h; deck_ready = λ h. cc h; draft_begun = λ h. cc h });
}

verify_done-IsFair :
    (env : Env) (r : Verified) (s : Server) → IsFair s.board → IsFair (verify_done env r s).board
unfolding verify_done identify
verify_done-IsFair env r s fair =
    let c : Conn = s.board.conns r.conn in
    let named : Server = record s { board = with_conn r.conn (identify r) s.board } in
    let refused_by : IsTidy (send_error env r.conn err_auth s) =
      tidy (send_error env r.conn err_auth s) (send_error-IsFair env r.conn err_auth s fair) in
    let done : IsTidy (verify_done env r s) =
      if-IsTidy
        {p = not (ltb r.conn max_conns)
          || not (in_state c.state verifying)
          || not (c.session_id == r.gen)}
        (λ e. tidy s fair)
        λ h.
          let out : playing c ≡ false = ground (arith, h) in
          let named-IsFair : IsFair named.board =
            idle-IsFair env r.conn (identify r) s.board fair out refl refl (ground (arith, h)) in
          let still : playing (named.board.conns r.conn) ≡ false =
            ap (λ (c : Conn). playing c) (conn_there r.conn (identify r) s.board) ∙ out in
          if-IsTidy {p = eqb_ℤ r.rc (pos 0)}
            (λ e.
              if-IsTidy {p = c.kind == r.kind}
                (λ k.
                  tidy (become_ready env r.conn named)
                    (become_ready-IsFair env r.conn named named-IsFair still))
                λ k. refused_by)
            λ e.
              if-IsTidy {p = eqb_ℤ r.rc (negsuc 0) && env.opt_fail_open}
                (λ k. tidy (become_ready env r.conn s) (become_ready-IsFair env r.conn s fair out))
                λ k. refused_by in
    done.fair

accept_at-IsFair :
    (env : Env) (place : Option ℕ) (s : Server)
    → IsFair s.board
    → ((ci : ℕ) → place ≡ some ci → playing (s.board.conns ci) ≡ false)
    → IsFair (accept_at env place s).board
unfolding connect
accept_at-IsFair env none s fair out = fair
accept_at-IsFair env (some ci) s fair out =
    with_conn-Sound s.board ci (connect (env.now s.calls)) fair (out ci refl) refl
      (record { deck_legal = λ h. cc h; deck_ready = λ h. cc h; draft_begun = λ h. cc h })

-- In every state that the server gets into, whatever its clients send, in whatever order, and however the
-- sockets and the clock behave, the tables agree.
pub Run-IsFair : {env : Env} {s : Server} → Run env s → IsFair s.board
unfolding accept_conn is_free flush_conn
Run-IsFair (booted s f) = fresh-IsFair s f
Run-IsFair {env} (accepted {s} r) =
    accept_at-IsFair env (first_from (is_free s.board) 0 max_conns) s (Run-IsFair r)
      λ ci e. ground (arith, first_from-ok (is_free s.board) 0 max_conns ci e)
Run-IsFair {env} (received {s} {after} ci m r e) =
    handle_msg-IsFair env ci m s after (Run-IsFair r) e
Run-IsFair {env} (malformed {s} ci r) = send_error-IsFair env ci err_bad_frame s (Run-IsFair r)
Run-IsFair {env} (flushed {s} ci r) = Run-IsFair r
Run-IsFair {env} (closed {s} ci r) = (conn_close-IsFair env ci s (Run-IsFair r)).0
Run-IsFair {env} (verified {s} r run) = verify_done-IsFair env r s (Run-IsFair run)
Run-IsFair {env} (rated {s} pid0 r0 pid1 r1 r) =
    rating_update-IsFair pid0 r0 pid1 r1 s (Run-IsFair r)
Run-IsFair {env} (taken {s} r) = Run-IsFair r
Run-IsFair {env} (ticked {s} r) = expire_timers-IsFair env s (Run-IsFair r)
Run-IsFair {env} (paced {s} r) = try_pair_constructed-IsFair env s (Run-IsFair r)

-- Whatever the clients send, in whatever order, every running match of the server has both its players, each in
-- that match, at that seat, and each only there; and it is in an open round, in range, by the rules.
pub Run-plays :
    {env : Env} {s : Server} (mi : ℕ)
    → Run env s
    → (s.board.matches mi).active ≡ true
    → ((t : Side)
        → ((s.board.conns (at (s.board.matches mi).conn t)).match ≡ some mi)
          × ((s.board.conns (at (s.board.matches mi).conn t)).seat ≡ t))
      × IsPlayable (s.board.matches mi).m
Run-plays mi r h =
    let fair = Run-IsFair r in
    (
      λ t. ((fair.players mi h t).place, (fair.players mi h t).side),
      Reach-IsPlayable (fair.games mi h).reached,
    )
