-- ===== src/Server/Starting.antt =====
-- The start of a match in apps/server/main.c: it seats two queued players and begins a game from legal decks.
use deadweight.Prelude.{
  ℕ, ◌+◌, ◌==◌, ◌≡◌, ◌≢◌, refl, sym, ap, ◌∙◌, subst, arith, Bool, true, false, Bool-cases, inl, inr,
  if◌then◌else◌, Option, none, some, suc, zero, u32,
}
use deadweight.Match.State.{Side, seat0, seat1, Two, at, for_seats}
use deadweight.Match.Setup.{match_init}
use deadweight.Match.Reach.{start}
use deadweight.Draft.Checking.{deck_valid}
use deadweight.Server.State.{
  Conn, queued, in_state, MatchSlot, Board, Server, Env, write, with_conn, with_match, max_matches,
}
use deadweight.Server.Sending.{
  send_msg-board, set_deadline, send_round_start-board, next_seed, seeded,
}
use deadweight.Server.Ending.{next_round}
use deadweight.Server.Pairing.{
  with_decks, first_from, is_idle, new_match, enter_match, seat_player, start_in, start_found,
  start_match,
}
use deadweight.Server.Sound.{playing, with_conn_at, with_match_twice}
use deadweight.Server.Starts.{Enters, started-Sound}
use deadweight.Server.Fair.{match_there, IsGame, IsGuest, IsFair}

-- Two connections that wait in the queue of a mode.
pub record BothQueued (b : Board) (mode x y : ℕ) : Type 0 where
  pub first : in_state (b.conns x).state queued ≡ true
  pub first_mode : (b.conns x).mode ≡ mode
  pub second : in_state (b.conns y).state queued ≡ true
  pub second_mode : (b.conns y).mode ≡ mode
  pub apart : x ≢ y

pub queued-idle : (c : Conn) → in_state c.state queued ≡ true → playing c ≡ false
queued-idle c h = ground arith

legal_deck :
    (c : Conn) (mode : ℕ)
    → IsGuest c
    → in_state c.state queued ≡ true
    → c.mode ≡ mode
    → with_decks mode ≡ true
    → deck_valid c.deck ≡ true
legal_deck c mode g q e h = g.deck_legal (g.deck_ready q (rw e h))

-- The match that is made, once its first round has begun.
new-IsGame :
    (id seed x y mode d : ℕ) (b : Board)
    → ((ci : ℕ) → IsGuest (b.conns ci))
    → BothQueued b mode x y
    → IsGame (set_deadline d (next_round (new_match id seed x y mode b)))
unfolding new_match next_round match_init
new-IsGame id seed x y mode d b guests q = elim (Bool-cases (with_decks mode)) [
  | inl w ↦ record {
    legal = λ h t. elim t as (λ t. deck_valid (at (new_match id seed x y mode b).deck t) ≡ true) [
      | seat0 ↦ rw w (legal_deck (b.conns x) mode (guests x) q.first q.first_mode w)
      | seat1 ↦ rw w (legal_deck (b.conns y) mode (guests y) q.second q.second_mode w)
    ];
    reached = rw w (start seed);
  }
  | inr n ↦ record { legal = λ h. absurd (cc (h, n)); reached = rw n (start seed) }
]

enter-IsGuest : (mi : ℕ) (t : Side) (c : Conn) → IsGuest c → IsGuest (enter_match mi t c)
unfolding enter_match
enter-IsGuest mi t c g = record {
  deck_legal = g.deck_legal;
  deck_ready = λ h. cc h;
  draft_begun = λ h. cc h;
}

-- The tables after the start.
abbrev pub seated_board : ℕ → ℕ → ℕ → (MatchSlot → MatchSlot) → Board → Board
seated_board mi x y f b =
    with_conn y (enter_match mi seat1) (with_conn x (enter_match mi seat0) (with_match mi f b))

seated-Enters :
    (mi x y : ℕ) (mt : MatchSlot) (g : MatchSlot → MatchSlot) (b : Board)
    → x ≢ y
    → (g mt).conn ≡ record { at0 = x; at1 = y }
    → (g mt).active ≡ true
    → Enters b (with_match mi g (seated_board mi x y (λ old. mt) b)) mi x y
unfolding with_match with_conn write enter_match
seated-Enters mi x y mt g b apart seats runs =
    let same : (mi == mi) ≡ true = ground arith in
    let same_x : (x == x) ≡ true = ground arith in
    let same_y : (y == y) ≡ true = ground arith in
    let xy : (x == y) ≡ false = ground (arith, apart) in
    record {
      seats = rw same seats;
      runs = rw same runs;
      rest = λ mj n. rw n refl;
      first = record {
        in_play = rw (xy, same_x) refl;
        place = rw (xy, same_x) refl;
        side = rw (xy, same_x) refl;
      };
      second = record { in_play = rw same_y refl; place = rw same_y refl; side = rw same_y refl };
      others = λ ci n m. rw (n, m) refl;
    }

either-IsGuest :
    (p : Bool) (f : Conn → Conn) (c : Conn)
    → IsGuest c
    → IsGuest (f c)
    → IsGuest (if p then f c else c)
either-IsGuest true f c g h = h
either-IsGuest false f c g h = g

seated-IsGuest :
    (mi x y : ℕ) (b : Board)
    → ((ci : ℕ) → IsGuest (b.conns ci))
    → (ci : ℕ)
    → IsGuest ((with_conn y (enter_match mi seat1) (with_conn x (enter_match mi seat0) b)).conns ci)
seated-IsGuest mi x y b guests ci =
    let inner : IsGuest (if ci == x then enter_match mi seat0 (b.conns ci) else b.conns ci) =
      either-IsGuest (ci == x) (enter_match mi seat0) (b.conns ci) (guests ci)
        (enter-IsGuest mi seat0 (b.conns ci) (guests ci)) in
    rw
      (
        with_conn_at (with_conn x (enter_match mi seat0) b) y (enter_match mi seat1) ci,
        with_conn_at b x (enter_match mi seat0) ci,
      )
      (either-IsGuest (ci == y) (enter_match mi seat1) _ inner (enter-IsGuest mi seat1 _ inner))

seated-guests :
    (mi x y : ℕ) (f g : MatchSlot → MatchSlot) (b : Board)
    → ((ci : ℕ) → IsGuest (b.conns ci))
    → (ci : ℕ) → IsGuest ((with_match mi g (seated_board mi x y f b)).conns ci)
unfolding with_match
seated-guests mi x y f g b guests = seated-IsGuest mi x y (with_match mi f b) guests

module _ (env : Env) where
  seat_player-board :
      (mi : ℕ) (t : Side) (s : Server)
      → (seat_player env mi t s).board
        ≡ with_conn (at (s.board.matches mi).conn t) (enter_match mi t) s.board
  unfolding seat_player
  seat_player-board mi t s = send_msg-board env _ _ _

  seated-board :
      (mi x y : ℕ) (mt : MatchSlot) (b : Board) (s : Server)
      → mt.conn ≡ record { at0 = x; at1 = y }
      → s.board ≡ with_match mi (λ old. mt) b
      → (for_seats (seat_player env mi) s).board ≡ seated_board mi x y (λ old. mt) b
  unfolding for_seats with_conn
  seated-board mi x y mt b s seats e =
      let conn0 : (s.board.matches mi).conn ≡ record { at0 = x; at1 = y } =
        ap (λ (b : Board). (b.matches mi).conn) e
        ∙ ap (λ (m : MatchSlot). m.conn) (match_there mi (λ old. mt) b)
        ∙ seats in
      let one : Server = seat_player env mi seat0 s in
      let first : one.board ≡ with_conn x (enter_match mi seat0) s.board =
        seat_player-board mi seat0 s
        ∙ ap (λ (seats : Two ℕ). with_conn seats.at0 (enter_match mi seat0) s.board) conn0 in
      let conn1 : (one.board.matches mi).conn ≡ record { at0 = x; at1 = y } =
        ap (λ (b : Board). (b.matches mi).conn) first ∙ conn0 in
      seat_player-board mi seat1 one
      ∙ ap (λ (seats : Two ℕ). with_conn seats.at1 (enter_match mi seat1) one.board) conn1
      ∙ ap (λ (b : Board). with_conn y (enter_match mi seat1) b) first
      ∙ ap
          (λ (b : Board). with_conn y (enter_match mi seat1) (with_conn x (enter_match mi seat0) b))
          e

  -- The tables after `start_in`.
  pub start_in-board :
      (mi x y mode : ℕ) (s : Server)
      → (d : ℕ) × ((start_in env mi x y mode s).board
          ≡ with_match mi
              (λ mt. set_deadline d (next_round mt))
              (seated_board mi x y
                (λ old. new_match s.next_match (next_seed env s) x y mode s.board)
                s.board))
  unfolding start_in seeded new_match
  start_in-board mi x y mode s =
      let mt : MatchSlot = new_match s.next_match (next_seed env s) x y mode s.board in
      let made : Server = record (seeded env s) {
        board = with_match mi (λ old. mt) s.board;
        next_match = u32 (s.next_match + 1);
      } in
      let seated = seated-board mi x y mt s.board made refl refl in
      let (d, sent) = send_round_start-board env mi (record (for_seats (seat_player env mi) made) {
        board = with_match mi next_round (for_seats (seat_player env mi) made).board;
      }) in
      (
        d,
        sent
            ∙ ap (λ (b : Board). with_match mi (set_deadline d) (with_match mi next_round b)) seated
            ∙ with_match_twice mi next_round (set_deadline d)
                (seated_board mi x y (λ old. mt) s.board),
      )

  start_in-IsFair :
      (mi x y mode : ℕ) (s : Server)
      → IsFair s.board
      → (s.board.matches mi).active ≡ false
      → BothQueued s.board mode x y
      → IsFair (start_in env mi x y mode s).board
  unfolding next_round new_match with_conn
  start_in-IsFair mi x y mode s fair idle q =
      let mt : MatchSlot = new_match s.next_match (next_seed env s) x y mode s.board in
      let (d, last) = start_in-board mi x y mode s in
      let g : MatchSlot → MatchSlot = λ mt. set_deadline d (next_round mt) in
      subst (λ (b : Board). IsFair b) (sym last)
        (started-Sound s.board (with_match mi g (seated_board mi x y (λ old. mt) s.board)) mi x y
          fair idle (queued-idle (s.board.conns x) q.first) (queued-idle (s.board.conns y) q.second)
          q.apart (seated-Enters mi x y mt g s.board q.apart refl refl)
          (subst IsGame
            (sym (
              match_there mi g (seated_board mi x y (λ old. mt) s.board)
              ∙ ap g (match_there mi (λ old. mt) s.board)))
            (new-IsGame s.next_match (next_seed env s) x y mode d s.board fair.guests q))
          (seated-guests mi x y (λ old. mt) g s.board fair.guests))

pub first_from-ok : (ok : ℕ → Bool) (i n j : ℕ) → first_from ok i n ≡ some j → ok j ≡ true
unfolding first_from
first_from-ok ok i zero j e = absurd (cc e)
first_from-ok ok i (suc n) j e = elim (Bool-cases (ok i)) [
  | inl y ↦ let same : i ≡ j = cc (rw y at e) in rw (sym same) y
  | inr m ↦ first_from-ok ok (suc i) n j (rw m at e)
]

module _ (env : Env) where
  start_found-IsFair :
      (place : Option ℕ) (x y mode : ℕ) (s after : Server)
      → IsFair s.board
      → ((mi : ℕ) → place ≡ some mi → (s.board.matches mi).active ≡ false)
      → BothQueued s.board mode x y
      → start_found env place x y mode s ≡ some after
      → IsFair after.board
  start_found-IsFair none x y mode s after fair idle q e = absurd (cc e)
  start_found-IsFair (some mi) x y mode s after fair idle q e =
      let same : start_in env mi x y mode s ≡ after = cc e in
      subst (λ (s : Server). IsFair s.board) same
        (start_in-IsFair env mi x y mode s fair (idle mi refl) q)

  pub start_match-IsFair :
      (x y mode : ℕ) (s after : Server)
      → IsFair s.board
      → BothQueued s.board mode x y
      → start_match env x y mode s ≡ some after
      → IsFair after.board
  unfolding start_match is_idle
  start_match-IsFair x y mode s after fair q e =
      start_found-IsFair (first_from (is_idle s.board) 0 max_matches) x y mode s after fair
        (λ mi h. ground (arith, first_from-ok (is_idle s.board) 0 max_matches mi h)) q e
