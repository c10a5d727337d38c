-- ===== src/Server/Forfeits.antt =====
-- What becomes of the match and the opponent of a connection that closes in apps/server/main.c.
use deadweight.Prelude.{
  ℕ, ◌==◌, ◌≡◌, refl, sym, ap, ◌∙◌, subst, arith, true, false, Bool-cases, inl, inr, Option, some,
  none,
}
use deadweight.Match.State.{Side, seat0, seat1, other, at, res_win, res_loss, end_forfeit}
use deadweight.Match.Setup.{match_forfeit}
use deadweight.Match.Reach.Invariant.{Reach-IsPlayable}
use deadweight.Server.State.{
  Conn, free, ready, in_state, MatchSlot, Board, Server, Env, with_conn, with_match, no_conn,
}
use deadweight.Server.Ending.{
  active_match, forfeited, release, deactivate, unqueue, leave_match_or_queue, conn_close, forfeit,
}
use deadweight.Server.Sound.{playing, with_conn_at}
use deadweight.Server.Ends.{ended, ended_match, seat-released}
use deadweight.Server.Fair.{IsFair, end_match-board}
use deadweight.Server.Closing.{Playing-active_match, conn_close-IsFair}

-- A match that a seat has lost by leaving, in the round that it was in.
pub record Forfeited (old : MatchSlot) (t : Side) (new : MatchSlot) : Type 0 where
  pub over : new.active ≡ false
  pub done : new.m.done ≡ true
  pub reason : new.m.reason ≡ end_forfeit
  pub lost : (at new.m.seats t).result ≡ res_loss
  pub won : (at new.m.seats (other t)).result ≡ res_win
  pub round : new.m.round ≡ old.m.round

forfeited-Forfeited :
    (t : Side) (mt : MatchSlot) → mt.m.done ≡ false → Forfeited mt t (deactivate (forfeited t mt))
unfolding forfeited match_forfeit deactivate other
forfeited-Forfeited seat0 mt open_round = record {
  over = refl;
  done = rw open_round refl;
  reason = rw open_round refl;
  lost = rw open_round refl;
  won = rw open_round refl;
  round = rw open_round refl;
}
forfeited-Forfeited seat1 mt open_round = record {
  over = refl;
  done = rw open_round refl;
  reason = rw open_round refl;
  lost = rw open_round refl;
  won = rw open_round refl;
  round = rw open_round refl;
}

apart_seats : (t : Side) → ¬ (t ≡ other t)
unfolding other
apart_seats seat0 h = cc h
apart_seats seat1 h = cc h

other_conn :
    (ci cj : ℕ) (f : Conn → Conn) (b : Board)
    → (cj == ci) ≡ false
    → (with_conn ci f b).conns cj ≡ b.conns cj
other_conn ci cj f b apart = with_conn_at b ci f cj ∙ rw apart refl

released : (c : Conn) → playing c ≡ true → ((release c).state ≡ ready) × ((release c).match ≡ none)
unfolding release
released c plays = (rw plays refl, rw plays refl)

kept_match :
    (ci mi : ℕ) (b : Board)
    → (with_conn ci (λ c. no_conn) (with_conn ci unqueue b)).matches mi ≡ b.matches mi
unfolding with_conn
kept_match ci mi b = refl

-- The seats of a match are taken by different connections.
opponent_apart :
    (b : Board) (mi ci : ℕ)
    → IsFair b
    → (b.matches mi).active ≡ true
    → (at (b.matches mi).conn (other (b.conns ci).seat) == ci) ≡ false
opponent_apart b mi ci fair run =
    let co = at (b.matches mi).conn (other (b.conns ci).seat) in
    elim (Bool-cases (co == ci)) [
      | inl y ↦
          let same : co ≡ ci = ground (arith, y) in
          let side = (fair.players mi run (other (b.conns ci).seat)).side in
          absurd (
            apart_seats (b.conns ci).seat
              (subst (λ (i : ℕ). (b.conns i).seat ≡ other (b.conns ci).seat) same side))
      | inr n ↦ n
    ]

module _ (env : Env) where
  -- The tables after a connection in a match has closed.
  close-board :
      (ci mi : ℕ) (s : Server)
      → in_state (s.board.conns ci).state free ≡ false
      → active_match s.board (s.board.conns ci) ≡ some mi
      → (conn_close env ci s).board
        ≡ with_conn ci
            (λ c. no_conn)
            (with_conn ci unqueue
              (ended mi (with_match mi (forfeited (s.board.conns ci).seat) s.board)))
  unfolding conn_close leave_match_or_queue
  close-board ci mi s there seated = rw there (
      ap (λ (b : Board). with_conn ci (λ c. no_conn) (with_conn ci unqueue b))
        (ap (λ (place : Option ℕ). (forfeit env place (s.board.conns ci).seat s).board) seated
          ∙ end_match-board env mi _))

  -- A connection that plays in a match and closes leaves tables that agree and its place free. Its match
  -- is over: its seat has lost by forfeit and the other has won, and the opponent is ready for another
  -- match.
  pub conn_close-forfeits :
      (ci mi : ℕ) (s : Server)
      → IsFair s.board
      → playing (s.board.conns ci) ≡ true
      → (s.board.conns ci).match ≡ some mi
      → IsFair (conn_close env ci s).board
        × (in_state ((conn_close env ci s).board.conns ci).state free ≡ true)
        × Forfeited
            (s.board.matches mi)
            (s.board.conns ci).seat
            ((conn_close env ci s).board.matches mi)
        × (((conn_close env ci s).board.conns
              (at (s.board.matches mi).conn (other (s.board.conns ci).seat))).state
            ≡ ready)
        × (((conn_close env ci s).board.conns
              (at (s.board.matches mi).conn (other (s.board.conns ci).seat))).match
            ≡ none)
  conn_close-forfeits ci mi s fair plays place =
      let b : Board = s.board in
      let t : Side = (b.conns ci).seat in
      let co : ℕ = at (b.matches mi).conn (other t) in
      let p = fair.places ci plays in
      let same : p.mi ≡ mi = cc (p.place, place) in
      let run : (b.matches mi).active ≡ true =
        subst (λ (i : ℕ). (b.matches i).active ≡ true) same p.running in
      let seated : active_match b (b.conns ci) ≡ some mi =
        Playing-active_match b ci p plays ∙ ap (λ (i : ℕ). some i) same in
      let there : in_state (b.conns ci).state free ≡ false = ground (arith, plays) in
      let after = close-board ci mi s there seated in
      let lost : (conn_close env ci s).board.matches mi ≡ deactivate (forfeited t (b.matches mi)) =
        ap (λ (b : Board). b.matches mi) after
        ∙ kept_match ci mi _
        ∙ ended_match mi (forfeited t) b in
      let apart : (co == ci) ≡ false = opponent_apart b mi ci fair run in
      let back : (conn_close env ci s).board.conns co ≡ release (b.conns co) =
        ap (λ (b : Board). b.conns co) after
        ∙ other_conn ci co (λ c. no_conn) _ apart
        ∙ other_conn ci co unqueue _ apart
        ∙ seat-released b mi (forfeited t) (other t) (unfold forfeited in refl) in
      let out = released (b.conns co) (fair.players mi run (other t)).in_play in
      let closed = conn_close-IsFair env ci s fair in
      (
        closed.0,
        closed.1,
        subst (λ (mt : MatchSlot). Forfeited (b.matches mi) t mt) (sym lost)
            (forfeited-Forfeited t (b.matches mi)
              (Reach-IsPlayable (fair.games mi run).reached).open_round),
        ap (λ (c : Conn). c.state) back ∙ out.0,
        ap (λ (c : Conn). c.match) back ∙ out.1,
      )
