-- ===== src/Server/Pairing.antt =====
-- apps/server/main.c: `start_match`, the searches in the queue and the pairing of players.
use deadweight.Prelude.{
  ℕ, zero, suc, ◌+◌, ◌-◌, ◌%◌, ◌^◌, ◌==◌, Bool, true, false, not, ◌&&◌, ◌||◌, List, [], ◌∷◌,
  if◌then◌else◌, Option, none, some, ltb, leb, u32, replicate,
}
use deadweight.Prelude.{ℤ, pos, ◌-ℤ◌, ltb_ℤ, eqb_ℤ}
use deadweight.Match.State.{Side, other, at, for_seats}
use deadweight.Match.Setup.{match_init, match_init_decks}
use deadweight.Wire.Message.{match_found}
use deadweight.Server.State.{
  Conn, MatchSlot, Board, Server, Env, queued, in_match, in_state, with_conn, with_match,
  mode_draft, mode_constructed, max_conns, max_matches, default_rating, placement_matches,
  placement_wait_ms,
}
use deadweight.Server.Sending.{send_msg, send_round_start, next_seed, seeded}
use deadweight.Server.Ending.{has_text, next_round}

-- The loop for a free place among the first `n`, from the lowest.
unfoldable pub first_from : (ℕ → Bool) → ℕ → ℕ → Option ℕ
first_from ok i zero = none
first_from ok i (suc n) = let rest = first_from ok (suc i) n in if ok i then some i else rest

unfoldable pub is_idle : Board → ℕ → Bool
is_idle b i = not (b.matches i).active

unfoldable pub with_decks : ℕ → Bool
with_decks mode = mode == mode_draft || mode == mode_constructed

-- The match of two connections, set up.
unfoldable pub new_match : ℕ → ℕ → ℕ → ℕ → ℕ → Board → MatchSlot
unfolding with_decks
new_match id seed a b mode bd =
    let c0 = bd.conns a in
    let c1 = bd.conns b in
    record {
      active = true;
      id = id;
      m =
          if with_decks mode
          then match_init_decks seed (some c0.deck) (some c1.deck)
          else match_init seed;
      conn = record { at0 = a; at1 = b };
      deadline = 0;
      plays = [];
      mode = mode;
      deck_id =
          if with_decks mode
          then record { at0 = c0.deck_id; at1 = c1.deck_id }
          else record { at0 = 0; at1 = 0 };
      deck =
          if with_decks mode
          then record { at0 = c0.deck; at1 = c1.deck }
          else record { at0 = replicate 23 (pos 0); at1 = replicate 23 (pos 0) };
    }

unfoldable pub enter_match : ℕ → Side → Conn → Conn
enter_match mi t c = record c { state = in_match; match = some mi; seat = t }

module _ (env : Env) where
  -- One seat's part of the loop of `start_match`.
  unfoldable pub seat_player : ℕ → Side → Server → Server
  seat_player mi t s =
      let mt = s.board.matches mi in
      let opp = s.board.conns (at mt.conn (other t)) in
      let seated : Server = record s {
        board = with_conn (at mt.conn t) (enter_match mi t) s.board;
      } in
      let side_no : ℕ = at (record { at0 = 0; at1 = 1 }) t in
      send_msg env (at mt.conn t) (match_found mt.id mt.m.seed side_no opp.name opp.kind) seated

  -- `start_match` in a free place of the table.
  unfoldable pub start_in : ℕ → ℕ → ℕ → ℕ → Server → Server
  unfolding new_match seat_player
  start_in mi a b mode s =
      let made : Server = record (seeded env s) {
        board =
            with_match mi (λ mt. new_match s.next_match (next_seed env s) a b mode s.board) s.board;
        next_match = u32 (s.next_match + 1);
      } in
      let seated : Server = for_seats (seat_player mi) made in
      send_round_start env mi (record seated { board = with_match mi next_round seated.board })

  abbrev pub start_found : Option ℕ → ℕ → ℕ → ℕ → Server → Option Server
  start_found none a b mode s = none
  start_found (some mi) a b mode s = some (start_in mi a b mode s)

  -- `none` when every match is taken, and then nothing changes.
  unfoldable pub start_match : ℕ → ℕ → ℕ → Server → Option Server
  unfolding is_idle
  start_match a b mode s = start_found (first_from (is_idle s.board) 0 max_matches) a b mode s

-- A connection in a queue for anyone: with a duel's token it waits for its partner.
unfoldable pub waits : Board → ℕ → ℕ → ℕ → Bool
waits b mode kind i =
    let c = b.conns i in
    in_state c.state queued && c.kind == kind && c.mode == mode && not (has_text c.match_token)

unfoldable pub older : Board → ℕ → Option ℕ → Bool
older b i none = true
older b i (some best) = ltb (b.conns i).queued_seq (b.conns best).queued_seq

abbrev pub is_place : Option ℕ → ℕ → Bool
is_place none i = false
is_place (some j) i = i == j

-- The loop of `oldest_queued` over the first `n` connections; `skip` is `none` for -1.
unfoldable pub oldest_of : Board → ℕ → ℕ → Option ℕ → ℕ → Option ℕ
unfolding waits older
oldest_of b mode kind skip zero = none
oldest_of b mode kind skip (suc i) =
    let best = oldest_of b mode kind skip i in
    if waits b mode kind i && not (is_place skip i) && older b i best then some i else best

unfoldable pub oldest_queued : Board → ℕ → ℕ → Option ℕ → Option ℕ
oldest_queued b mode kind skip = oldest_of b mode kind skip max_conns

unfoldable pub count_of : Board → ℕ → ℕ → ℕ → ℕ
unfolding waits
count_of b mode kind zero = 0
count_of b mode kind (suc i) = (if waits b mode kind i then 1 else 0) + count_of b mode kind i

-- `*count`, which does not leave out `skip`.
unfoldable pub queue_count : Board → ℕ → ℕ → ℕ
queue_count b mode kind = count_of b mode kind max_conns

abbrev pub same_text : List ℕ → List ℕ → Bool
same_text [] [] = true
same_text [] (d ∷ ds) = false
same_text (c ∷ cs) [] = false
same_text (c ∷ cs) (d ∷ ds) = c == d && same_text cs ds

unfoldable pub duels : Board → ℕ → ℕ → Bool
duels b mode i =
    let c = b.conns i in in_state c.state queued && c.mode == mode && has_text c.match_token

-- The inner loop of `find_token_pair`.
unfoldable pub is_partner : Board → ℕ → ℕ → ℕ → Bool
unfolding duels
is_partner b mode i j = duels b mode j && same_text (b.conns i).match_token (b.conns j).match_token

pub record Pair : Type 0 where
  pub first : ℕ
  pub second : ℕ

abbrev pub found : Option Pair → Bool
found none = false
found (some p) = true

abbrev pub pair_up : ℕ → Option ℕ → Option Pair → Option Pair
pair_up i (some j) rest = some (record { first = i; second = j })
pair_up i none rest = rest

-- The outer loop, from place `i` on with `n` places to go.
unfoldable pub token_pair_from : Board → ℕ → ℕ → ℕ → Option Pair
unfolding duels is_partner first_from
token_pair_from b mode i zero = none
token_pair_from b mode i (suc n) =
    let rest = token_pair_from b mode (suc i) n in
    if duels b mode i then pair_up i (first_from (is_partner b mode i) (suc i) n) rest else rest

unfoldable pub find_token_pair : Board → ℕ → Option Pair
find_token_pair b mode = token_pair_from b mode 0 max_conns

unfoldable pub rating_of : Conn → ℤ
rating_of c = if ltb_ℤ (pos 0) c.rating then c.rating else default_rating

unfoldable pub distance : ℤ → ℤ → ℤ
distance a b = let d = a -ℤ b in if ltb_ℤ d (pos 0) then b -ℤ a else d

unfoldable pub nearer : Board → ℤ → ℕ → Option ℕ → Bool
unfolding rating_of distance
nearer b target i none = true
nearer b target i (some best) =
    let d = distance (rating_of (b.conns i)) target in
    let bd = distance (rating_of (b.conns best)) target in
    ltb_ℤ d bd || (eqb_ℤ d bd && ltb (b.conns i).queued_seq (b.conns best).queued_seq)

-- The loop of `nearest_queued`; `bd` is the distance of `best`.
unfoldable pub nearest_of : Board → ℕ → ℕ → Option ℕ → ℤ → ℕ → Option ℕ
unfolding waits nearer
nearest_of b mode kind skip target zero = none
nearest_of b mode kind skip target (suc i) =
    let best = nearest_of b mode kind skip target i in
    if waits b mode kind i && not (is_place skip i) && nearer b target i best then some i else best

unfoldable pub nearest_queued : Board → ℕ → ℕ → Option ℕ → ℤ → Option ℕ
nearest_queued b mode kind skip target = nearest_of b mode kind skip target max_conns

-- `now - b->queued_at` is a difference of 64-bit numbers.
unfoldable pub bot_ready_for_bot : Env → Conn → ℕ → Bool
bot_ready_for_bot env c now =
    let need : ℕ =
      if ltb_ℤ c.rated_matches placement_matches && leb placement_wait_ms env.opt_bot_wait_ms
      then placement_wait_ms
      else env.opt_bot_wait_ms in
    leb need ((now + (2 ^ 64 - c.queued_at)) % 2 ^ 64)
