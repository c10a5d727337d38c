-- ===== src/Server/Sessions.antt =====
-- apps/server/main.c: the handling of a client's messages.
use deadweight.Prelude.{
  ℕ, ◌+◌, ◌%◌, ◌==◌, Bool, true, not, ◌&&◌, ◌||◌, List, [], ◌∷◌, if◌then◌else◌, Option, none, some,
  ltb, leb, u32, length,
}
use deadweight.Prelude.{ℤ}
use deadweight.Match.State.{Side, at}
use deadweight.Match.Setup.{match_lock}
use deadweight.Draft.Building.{Draft, draft_init, deck_size}
use deadweight.Wire.Message.{Msg, welcome}
use deadweight.Wire.Message as Wire
use deadweight.Wire.Writer.{cstr}
use deadweight.Server.State.{
  Conn, ConnState, Link, MatchSlot, Board, Server, Env, Stats, Job, verify, free, connected, ready,
  in_match, need_auth, verifying, drafting, in_state, with_conn, with_match, set_state, mode_card,
  mode_draft, mode_constructed, kind_bot, err_auth, err_bad_frame, err_bad_proto, err_bad_state,
  rej_wrong_round, write,
}
use deadweight.Server.State as State
use deadweight.Server.Sending.{send_msg, send_error, send_offer, next_seed, seeded, now_ms}
use deadweight.Server.Ending.{enqueue_job, has_text, job_queue}
use deadweight.Server.Queue.{try_pair, queued_count}

abbrev is_between : ℕ → ℕ → ℕ → Bool
is_between lo hi c = leb lo c && leb c hi

abbrev is_alnum : ℕ → Bool
is_alnum c = is_between 65 90 c || is_between 97 122 c || is_between 48 57 c

abbrev pub token_char : ℕ → Bool
token_char c = is_alnum c || c == 46 || c == 45 || c == 95

abbrev pub all_chars : (ℕ → Bool) → List ℕ → Bool
all_chars ok [] = true
all_chars ok (c ∷ cs) = ok c && all_chars ok cs

unfoldable pub token_ok : List ℕ → Bool
token_ok t = has_text t && all_chars token_char t

abbrev pub name_char : ℕ → Bool
name_char c = is_alnum c || c == 95 || c == 45

-- The loop over the name of a HELLO, up to its NUL.
unfoldable pub clean_name : List ℕ → List ℕ
clean_name [] = []
clean_name (c ∷ cs) =
    let rest = clean_name cs in
    if c == 0 then c ∷ cs else (if ltb c 32 || c == 34 || c == 92 || c == 127 then 95 else c) ∷ rest

unfoldable pub greet : ℕ → List ℕ → ℕ → ℕ → Conn → Conn
unfolding clean_name
greet session name kind mode c = record c {
  session_id = session;
  name = clean_name name;
  kind = kind;
  mode = mode;
}

unfoldable pub enqueued : ℕ → ℕ → Conn → Conn
enqueued seq at c = record c { state = State.queued; queued_seq = seq; queued_at = at }

unfoldable pub keep_token : Option (List ℕ) → Conn → Conn
unfolding cstr
keep_token none c = record c { match_token = [] }
keep_token (some token) c = record c { match_token = cstr 32 token }

unfoldable pub give_deck : List ℤ → ℕ → Conn → Conn
give_deck cards id c = record c { deck = cards; deck_n = deck_size; deck_id = id }

unfoldable pub draw_offer : Draft → Conn → Conn
draw_offer d c = record c { draft = d }

unfoldable pub lock_in : Side → ℤ → MatchSlot → MatchSlot
lock_in t slot mt = record mt { m = (match_lock mt.m t slot).0 }

unfoldable pub welcome_flags : Env → ℕ
welcome_flags env = (if env.opt_ff then 1 else 0) + (if env.opt_noauth then 0 else 2)

module _ (env : Env) where
  unfoldable pub become_ready : ℕ → Server → Server
  unfolding welcome_flags
  become_ready ci s =
      send_msg env ci (welcome (s.board.conns ci).session_id (welcome_flags env))
        (record s { board = with_conn ci (set_state ready) s.board })

  -- A job that the full queue does not take ends the connection.
  unfoldable pub ask_account : ℕ → Job → Server → Server
  unfolding enqueue_job
  ask_account ci j s =
      let asked : Server = record s { board = with_conn ci (set_state verifying) s.board } in
      if ltb (length s.jobs) job_queue
      then enqueue_job j asked
      else send_error env ci err_auth asked

  unfoldable pub start_verify : ℕ → List ℕ → Server → Server
  unfolding token_ok ask_account
  start_verify ci token s =
      let c = s.board.conns ci in
      let name : List ℕ = cstr 16 c.name in
      if not (token_ok token) || (c.kind == kind_bot && not (all_chars name_char name))
      then send_error env ci err_auth s
      else ask_account ci
          (verify ci c.session_id (c.mode == mode_constructed) token
            (if c.kind == kind_bot then name else []))
          s

  abbrev pub begin_draft : ℕ → Option Draft → Server → Option Server
  begin_draft ci none s = none
  begin_draft ci (some d) s = some (
      send_offer env ci
        (record s { board = with_conn ci (λ c. set_state drafting (draw_offer d c)) s.board }))

  -- `none` stands for an offer that the fuel's rolls do not find.
  unfoldable pub start_draft : ℕ → Server → Option Server
  start_draft ci s = begin_draft ci (draft_init env.rolls (next_seed env s)) (seeded env s)

  unfoldable pub enter_queue : ℕ → Server → Server
  enter_queue ci s =
      let seq : ℕ = s.queue_seq + 1 in
      let waiting : Server = record s {
        board = with_conn ci (enqueued seq (now_ms env s)) s.board;
        queue_seq = seq;
        calls = s.calls + 1;
      } in
      let n : ℕ = queued_count waiting.board (waiting.board.conns ci).mode in
      try_pair env (send_msg env ci (Wire.queued (n % 65536)) waiting)

  -- A finished deck, and DRAFT_DONE.
  unfoldable pub award_deck : ℕ → List ℤ → Server → Server
  unfolding give_deck
  award_deck ci cards s = send_msg env ci (Wire.draft_done s.next_deck cards) (record s {
    board = with_conn ci (give_deck cards s.next_deck) s.board;
    next_deck = u32 (s.next_deck + 1);
  })
