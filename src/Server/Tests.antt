-- ===== src/Server/Tests.antt =====
-- A server with two humans, and the theorems on it.
use deadweight.Prelude.{
  ℕ, ◌+◌, ◌==◌, ◌≡◌, refl, sym, subst, arith, Bool-cases, inl, inr, none, true, false, List, [],
  ◌∷◌, if◌then◌else◌, some, replicate,
}
use deadweight.Match.State.{Side, seat0, seat1, at, other}
use deadweight.Match.Setup.{match_init, match_init_decks, begin_round}
use deadweight.Match.Reach.{start}
use deadweight.Wire.Message.{hello, leave}
use deadweight.Server.State.{
  Conn, MatchSlot, Board, Server, Env, wrote, free, connected, ready, queued, drafting, in_match,
  in_state, no_conn, no_link, mode_card,
}
use deadweight.Server.Ending.{conn_close}
use deadweight.Server.Pairing.{
  find_token_pair, token_pair_from, duels, oldest_queued, queue_count, count_of, oldest_of, waits,
  older,
}
use deadweight.Server.Queue.{next_pair, pair_of_queue}
use deadweight.Server.Handling.{handle_msg, handle_hello, handle_leave}
use deadweight.Server.Ticking.{accept_conn, expire_timers}
use deadweight.Server.Fair.{IsFair, IsGame, IsGuest}
use deadweight.Server.Meeting.{Meet, next_pair-Meet}
use deadweight.Server.Messages.{handle_msg-IsFair}
use deadweight.Server.Pairing.{with_decks}
use deadweight.Server.Sound.{Sits, Playing, playing}
use deadweight.Server.Forfeits.{Forfeited, conn_close-forfeits}
use deadweight.Server.Rounds.{Advanced}
use deadweight.Server.Passing.{both_passed}
use deadweight.Server.Expiring.{expire_timers-resolves, expire_timers-waits}
use deadweight.Server.Refusing.{expire_timers-closes}
use deadweight.Server.Run.{IsFresh, Run, booted, accepted, received, closed, ticked, Run-IsFair}

-- A clock that counts the calls, and sockets that take every byte.
abbrev env : Env
env = record {
  now = λ n. 1000 + n;
  dw_send = λ n bytes. wrote 4096;
  rolls = 100;
  opt_ff = false;
  opt_noauth = true;
  opt_iduna = false;
  opt_fail_open = false;
  opt_round_ms = 40000;
  opt_bot_wait_ms = 45000;
}

abbrev no_match : MatchSlot
no_match = record {
  active = false;
  id = 0;
  m = match_init 0;
  conn = record { at0 = 0; at1 = 0 };
  deadline = 0;
  plays = [];
  mode = 0;
  deck_id = record { at0 = 0; at1 = 0 };
  deck = record { at0 = []; at1 = [] };
}

abbrev boot : Server
boot = record {
  board = record { conns = λ i. no_conn; matches = λ i. no_match };
  links = λ i. no_link;
  jobs = [];
  stats = record {
    drafts = 0;
    draft_matches = 0;
    constructed_matches = 0;
    matches = 0;
    bot_bot = 0;
    human_bot = 0;
    human_human = 0;
    forfeits = 0;
  };
  next_session = 1;
  next_match = 1;
  next_deck = 1;
  seed_state = 0x9E3779B9;
  queue_seq = 0;
  calls = 0;
}

boot-IsFresh : IsFresh boot
boot-IsFresh = record { no_conns = λ ci. refl; no_matches = λ mi. refl }

abbrev ann : List ℕ
ann = 65 ∷ 110 ∷ 110 ∷ replicate 14 0

-- A connection is accepted, says HELLO, the timers tick, and it goes away.
abbrev greeted : Server
greeted = handle_hello env 0 3 mode_card 0 ann [] (accept_conn env boot)

greeted-Run : Run env greeted
unfolding handle_msg
greeted-Run = received 0 (hello 3 mode_card 0 ann []) (accepted (booted boot boot-IsFresh)) refl

Run-IsFair_example : IsFair (conn_close env 0 (expire_timers env greeted)).board
Run-IsFair_example = Run-IsFair (closed 0 (ticked greeted-Run))

handle_msg-IsFair_example : IsFair (handle_leave env 0 greeted).board
unfolding handle_msg
handle_msg-IsFair_example =
    handle_msg-IsFair env 0 leave greeted (handle_leave env 0 greeted) (Run-IsFair greeted-Run) refl

-- Two humans wait, at places 3 and 5; the second has waited longer.
abbrev waiting : Board
waiting = record {
  conns = λ i.
      if i == 3
      then record no_conn { state = queued; queued_seq = 8 }
      else if i == 5
      then record no_conn { state = queued; queued_seq = 2 }
      else no_conn;
  matches = λ i. no_match;
}

waiting_pair : next_pair waiting mode_card ≡ some (record { first = 5; second = 3 })
unfolding next_pair find_token_pair token_pair_from duels pair_of_queue oldest_queued queue_count
    count_of oldest_of waits older
waiting_pair = refl

next_pair-Meet_example : Meet waiting mode_card 5 3
next_pair-Meet_example =
    next_pair-Meet waiting mode_card (record { first = 5; second = 3 }) waiting_pair

abbrev crowd : Server
crowd = record boot { board = waiting }

-- A match between the connections 5 and 3, whose time is up.
abbrev board_of_two : Board
board_of_two = record {
  conns = λ i.
      if i == 3
      then record no_conn { state = in_match; match = some 0; seat = seat1 }
      else if i == 5
      then record no_conn { state = in_match; match = some 0; seat = seat0 }
      else no_conn;
  matches = λ mi.
      if mi == 0
      then record no_match {
        active = true;
        m = begin_round (match_init_decks 7 none none);
        conn = record { at0 = 5; at1 = 3 };
        deadline = 1000;
      }
      else no_match;
}

seat-Sits : (t : Side) → Sits (board_of_two.conns (at (board_of_two.matches 0).conn t)) 0 t
seat-Sits seat0 = record { in_play = refl; place = refl; side = refl }
seat-Sits seat1 = record { in_play = refl; place = refl; side = refl }

only_match : (mi : ℕ) → (board_of_two.matches mi).active ≡ true → mi ≡ 0
only_match mi h = elim (Bool-cases (mi == 0)) [
  | inl y ↦ ground (arith, y)
  | inr n ↦ absurd (cc (rw n at h))
]

-- What holds of the three kinds of connection holds of all.
all_conns :
    (P : ℕ → Conn → Type 0)
    → P 3 (board_of_two.conns 3)
    → P 5 (board_of_two.conns 5)
    → ((i : ℕ) → P i no_conn)
    → (i : ℕ) → P i (board_of_two.conns i)
all_conns P third fifth rest i = elim (Bool-cases (i == 3)) [
  | inl y ↦
      let here : i ≡ 3 = ground (arith, y) in
      subst (λ (i : ℕ). P i (board_of_two.conns i)) (sym here) third
  | inr n ↦ elim (Bool-cases (i == 5)) [
    | inl y ↦
        let here : i ≡ 5 = ground (arith, y) in
        subst (λ (i : ℕ). P i (board_of_two.conns i)) (sym here) fifth
    | inr m ↦ rw (n, m) (rest i)
  ]
]

undecked-IsGuest :
    (c : Conn)
    → c.deck_n ≡ 0
    → in_state c.state queued ≡ false
    → in_state c.state drafting ≡ false
    → IsGuest c
undecked-IsGuest c empty waits_not drafts_not = record {
  deck_legal = λ h. absurd (ground (arith, h, empty));
  deck_ready = λ h. absurd (cc (h, waits_not));
  draft_begun = λ h. absurd (cc (h, drafts_not));
}

two-IsFair : IsFair board_of_two
unfolding with_decks
two-IsFair = record {
  players = λ mi h t.
      subst (λ (i : ℕ). Sits (board_of_two.conns (at (board_of_two.matches i).conn t)) i t)
        (sym (only_match mi h)) (seat-Sits t);
  places =
      all_conns (λ i c. playing c ≡ true → Playing board_of_two i)
        (λ h. record { mi = 0; place = refl; running = refl; own_seat = refl })
        (λ h. record { mi = 0; place = refl; running = refl; own_seat = refl })
        (λ i h. absurd (cc h));
  games = λ mi h.
      subst (λ (i : ℕ). IsGame (board_of_two.matches i)) (sym (only_match mi h))
        (record { legal = λ h t. absurd (cc h); reached = start 7 });
  guests =
      all_conns (λ i c. IsGuest c) (undecked-IsGuest _ refl refl refl)
        (undecked-IsGuest _ refl refl refl) (λ i. undecked-IsGuest _ refl refl refl);
}

abbrev duel : Server
duel = record boot { board = board_of_two }

conn_close-forfeits_example :
    IsFair (conn_close env 5 duel).board
    × (in_state ((conn_close env 5 duel).board.conns 5).state free ≡ true)
    × Forfeited (board_of_two.matches 0) seat0 ((conn_close env 5 duel).board.matches 0)
    × (((conn_close env 5 duel).board.conns 3).state ≡ ready)
    × (((conn_close env 5 duel).board.conns 3).match ≡ none)
unfolding other
conn_close-forfeits_example = conn_close-forfeits env 5 0 duel two-IsFair refl refl

expire_timers-resolves_example :
    IsFair (expire_timers env duel).board
    × Advanced (both_passed (board_of_two.matches 0).m) ((expire_timers env duel).board.matches 0)
expire_timers-resolves_example =
    expire_timers-resolves env 0 duel two-IsFair refl (omega arith) refl (omega arith) (omega arith)

expire_timers-waits_example : (expire_timers env duel).board.matches 1 ≡ no_match
expire_timers-waits_example = expire_timers-waits env 1 duel (inl refl)

-- A connection that was made long ago and has said nothing.
abbrev silent : Server
silent = record boot {
  board = record {
    conns = λ i. if i == 2 then record no_conn { state = connected; connect_ms = 500 } else no_conn;
    matches = λ mi. no_match;
  };
  calls = 20000;
}

expire_timers-closes_example : ((expire_timers env silent).links 2).closing ≡ true
expire_timers-closes_example =
    expire_timers-closes env 2 silent (omega arith) (inl refl) (omega arith) (omega arith)
