-- ===== src/Server/State.antt =====
-- apps/server/main.c: `Conn`, `Match` and the server's globals.
use deadweight.Prelude.{ℕ, ◌==◌, Bool, false, List, [], if◌then◌else◌, Option, none, replicate}
use deadweight.Prelude.{ℤ, pos}
use deadweight.Match.State.{Side, seat0, Two}
use deadweight.Match.State as Engine
use deadweight.Draft.Building.{Draft}

abbrev pub max_plays : ℕ
max_plays = 128

abbrev pub max_conns : ℕ
max_conns = 512

abbrev pub max_matches : ℕ
max_matches = 256

abbrev pub in_buf : ℕ
in_buf = 2048

abbrev pub out_buf : ℕ
out_buf = 8192

abbrev pub hello_timeout_ms : ℕ
hello_timeout_ms = 10000

abbrev pub default_rating : ℤ
default_rating = pos 1500

abbrev pub placement_matches : ℤ
placement_matches = pos 30

abbrev pub placement_wait_ms : ℕ
placement_wait_ms = 1500

-- core/protocol.h: the modes, the kinds of player, the errors and the flags of a WELCOME.
abbrev pub mode_card : ℕ
mode_card = 0

abbrev pub mode_draft : ℕ
mode_draft = 2

abbrev pub mode_constructed : ℕ
mode_constructed = 3

abbrev pub kind_human : ℕ
kind_human = 0

abbrev pub kind_bot : ℕ
kind_bot = 1

abbrev pub err_bad_proto : ℕ
err_bad_proto = 1

abbrev pub err_auth : ℕ
err_auth = 2

abbrev pub err_bad_frame : ℕ
err_bad_frame = 3

abbrev pub err_bad_state : ℕ
err_bad_state = 4

abbrev pub rej_wrong_round : ℕ
rej_wrong_round = 3

abbrev pub end_server : ℕ
end_server = 3

pub data ConnState : Type 0 where
  free connected ready queued in_match need_auth verifying drafting : ConnState

-- The tests `c->state == S_…`, by the numbers of the `enum`.
abbrev pub state_no : ConnState → ℕ
state_no free = 0
state_no connected = 1
state_no ready = 2
state_no queued = 3
state_no in_match = 4
state_no need_auth = 5
state_no verifying = 6
state_no drafting = 7

abbrev pub in_state : ConnState → ConnState → Bool
in_state a b = state_no a == state_no b

-- `Conn` without its buffers. `match_token` is the C string, `[]` when there is none; `match` is
-- `none` for -1; `deck` is the whole array of 23.
pub record Conn : Type 0 where
  pub state : ConnState
  pub session_id : ℕ
  pub name : List ℕ
  pub kind : ℕ
  pub mode : ℕ
  pub player_id : List ℕ
  pub match_token : List ℕ
  pub match : Option ℕ
  pub seat : Side
  pub queued_seq : ℕ
  pub connect_ms : ℕ
  pub draft : Draft
  pub deck : List ℤ
  pub deck_n : ℕ
  pub deck_id : ℕ
  pub rating : ℤ
  pub rated_matches : ℤ
  pub queued_at : ℕ

-- The buffers of a `Conn`, up to `in_n` and `out_n`, and `close_after_flush`.
pub record Link : Type 0 where
  pub inbox : List ℕ
  pub out : List ℕ
  pub closing : Bool

-- `Match` of the server: a match of the engine with the connections at its seats. `plays` are the
-- slots of the rounds, the last first.
pub record MatchSlot : Type 0 where
  pub active : Bool
  pub id : ℕ
  pub m : Engine.Match
  pub conn : Two ℕ
  pub deadline : ℕ
  pub plays : List (Two ℤ)
  pub mode : ℕ
  pub deck_id : Two ℕ
  pub deck : Two (List ℤ)

-- The arrays `conns` and `matches`.
pub record Board : Type 0 where
  pub conns : ℕ → Conn
  pub matches : ℕ → MatchSlot

-- A job for the thread that talks to the account service.
pub data Job : Type 0 where
  verify : (conn gen : ℕ) (want_rating : Bool) (token name : List ℕ) → Job
  report : (match_id seed rounds reason mode winner : ℕ) (seat_pid : Two (List ℕ)) → Job

pub record Stats : Type 0 where
  pub drafts : ℕ
  pub draft_matches : ℕ
  pub constructed_matches : ℕ
  pub matches : ℕ
  pub bot_bot : ℕ
  pub human_bot : ℕ
  pub human_human : ℕ
  pub forfeits : ℕ

-- What `dw_send` makes of the bytes that it is handed.
pub data Sent : Type 0 where
  wrote : ℕ → Sent
  would_block failed : Sent

-- The platform and the options of the command line. `now` and `dw_send` stand for the clock and the
-- sockets: their first argument counts the calls. `rolls` is the fuel of a draft's offers.
pub record Env : Type 0 where
  pub now : ℕ → ℕ
  pub dw_send : ℕ → List ℕ → Sent
  pub rolls : ℕ
  pub opt_ff : Bool
  pub opt_noauth : Bool
  pub opt_iduna : Bool
  pub opt_fail_open : Bool
  pub opt_round_ms : ℕ
  pub opt_bot_wait_ms : ℕ

pub record Server : Type 0 where
  pub board : Board
  pub links : ℕ → Link
  pub jobs : List Job
  pub stats : Stats
  pub next_session : ℕ
  pub next_match : ℕ
  pub next_deck : ℕ
  pub seed_state : ℕ
  pub queue_seq : ℕ
  pub calls : ℕ

-- An array with one place written.
unfoldable pub write {ℓ} : {A : Type ℓ} → (ℕ → A) → ℕ → A → ℕ → A
write f i a j = if j == i then a else f j

unfoldable pub with_conn : ℕ → (Conn → Conn) → Board → Board
with_conn ci f b = record b { conns = write b.conns ci (f (b.conns ci)) }

unfoldable pub with_match : ℕ → (MatchSlot → MatchSlot) → Board → Board
with_match mi f b = record b { matches = write b.matches mi (f (b.matches mi)) }

unfoldable pub set_state : ConnState → Conn → Conn
set_state st c = record c { state = st }

abbrev pub no_draft : Draft
no_draft = record {
  rng = 0;
  pick_no = 0;
  left1 = 0;
  left2 = 0;
  left3 = 0;
  offer0 = pos 0;
  offer1 = pos 0;
  used = λ c. false;
  deck = [];
}

-- A `Conn` after `memset`, with no match.
abbrev pub no_conn : Conn
no_conn = record {
  state = free;
  session_id = 0;
  name = [];
  kind = 0;
  mode = 0;
  player_id = [];
  match_token = [];
  match = none;
  seat = seat0;
  queued_seq = 0;
  connect_ms = 0;
  draft = no_draft;
  deck = replicate 23 (pos 0);
  deck_n = 0;
  deck_id = 0;
  rating = pos 0;
  rated_matches = pos 0;
  queued_at = 0;
}

abbrev pub no_link : Link
no_link = record { inbox = []; out = []; closing = false }
