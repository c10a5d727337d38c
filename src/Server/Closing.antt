-- ===== src/Server/Closing.antt =====
-- The end of a connection of apps/server/main.c keeps the tables: it leaves no match behind.
use deadweight.Prelude.{
  ℕ, ◌≡◌, refl, ap, ◌∙◌, subst, arith, true, false, Bool-cases, Option-cases, inl, inr, ◌&&◌, ◌||◌,
  Option, none, some,
}
use deadweight.Match.State.{Side, at}
use deadweight.Server.State.{
  Conn, free, queued, drafting, in_state, Board, Server, Env, with_match, no_conn,
}
use deadweight.Server.Ending.{
  active_match, forfeit, forfeited, unqueue, leave_match_or_queue, conn_close,
}
use deadweight.Server.Sound.{playing, Playing, with_conn-Sound}
use deadweight.Server.Ends.{ended, seat-idle}
use deadweight.Server.Fair.{IsGuest, IsFair, end_match-board}
use deadweight.Server.Handled.{conn_there}
use deadweight.Server.Messages.{leave-IsFair}

blank-IsGuest : IsGuest no_conn
blank-IsGuest = record { deck_legal = λ h. cc h; deck_ready = λ h. cc h; draft_begun = λ h. cc h }

active_match-plays :
    (b : Board) (c : Conn) (mi : ℕ)
    → active_match b c ≡ some mi
    → (playing c ≡ true) × (c.match ≡ some mi)
unfolding active_match
active_match-plays b c mi e = elim (Option-cases c.match) [
  | inl n ↦ absurd (cc (rw (n, active_match) at e))
  | inr (mj, h) ↦ elim (Bool-cases (playing c && (b.matches mj).active)) [
    | inl y ↦
        let same : mj ≡ mi = cc (rw y at (rw (h, active_match) at e)) in
        (ground (arith, y), h ∙ ap (λ (i : ℕ). some i) same)
    | inr n ↦ absurd (cc (rw n at (rw (h, active_match) at e)))
  ]
]

pub Playing-active_match :
    (b : Board) (ci : ℕ) (p : Playing b ci)
    → playing (b.conns ci) ≡ true
    → active_match b (b.conns ci) ≡ some p.mi
unfolding active_match
Playing-active_match b ci p h = rw (p.place, active_match, h, p.running) refl

module _ (env : Env) where
  left-idle :
      (place : Option ℕ) (ci : ℕ) (s : Server)
      → IsFair s.board
      → active_match s.board (s.board.conns ci) ≡ place
      → playing ((forfeit env place (s.board.conns ci).seat s).board.conns ci) ≡ false
  left-idle none ci s fair e = elim (Bool-cases (playing (s.board.conns ci))) [
    | inl y ↦ absurd (cc (Playing-active_match s.board ci (fair.places ci y) y, e))
    | inr n ↦ n
  ]
  left-idle (some mi) ci s fair e =
      let t : Side = (s.board.conns ci).seat in
      let (plays, place) = active_match-plays s.board (s.board.conns ci) mi e in
      let p = fair.places ci plays in
      let same : p.mi ≡ mi = cc (p.place, place) in
      let own : at (s.board.matches mi).conn t ≡ ci =
        subst (λ (i : ℕ). at (s.board.matches i).conn t ≡ ci) same p.own_seat in
      let there =
        end_match-board env mi (record s { board = with_match mi (forfeited t) s.board }) in
      ap (λ (b : Board). playing (b.conns ci)) there
      ∙ subst
          (λ (i : ℕ). playing ((ended mi (with_match mi (forfeited t) s.board)).conns i) ≡ false)
          own (seat-idle s.board mi (forfeited t) t (unfold forfeited in refl))

  -- Whoever leaves does not play any more.
  leave-idle :
      (ci : ℕ) (s : Server)
      → IsFair s.board
      → playing ((leave_match_or_queue env ci s).board.conns ci) ≡ false
  unfolding leave_match_or_queue unqueue
  leave-idle ci s fair =
      let left : Server =
        forfeit env (active_match s.board (s.board.conns ci)) (s.board.conns ci).seat s in
      let out = left-idle (active_match s.board (s.board.conns ci)) ci s fair refl in
      ap (λ (c : Conn). playing c) (conn_there ci unqueue left.board)
      ∙ elim (Bool-cases (
          in_state (left.board.conns ci).state queued
          || in_state (left.board.conns ci).state drafting)) [
            | inl y ↦ rw y refl
            | inr n ↦ rw n out
          ]

  -- A connection that closes, in whatever state it is, leaves its place free and tables that agree.
  pub conn_close-IsFair :
      (ci : ℕ) (s : Server)
      → IsFair s.board
      → IsFair (conn_close env ci s).board
        × (in_state ((conn_close env ci s).board.conns ci).state free ≡ true)
  unfolding conn_close
  conn_close-IsFair ci s fair =
      let left : Board = (leave_match_or_queue env ci s).board in
      elim (Bool-cases (in_state (s.board.conns ci).state free)) [
        | inl y ↦ (rw y fair, rw y y)
        | inr n ↦ (
          rw n (
              with_conn-Sound left ci (λ c. no_conn) (leave-IsFair env ci s fair)
                (leave-idle ci s fair) refl blank-IsGuest),
          rw n (ap (λ (c : Conn). in_state c.state free) (conn_there ci (λ c. no_conn) left)),
        )
      ]
