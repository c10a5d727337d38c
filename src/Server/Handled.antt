-- ===== src/Server/Handled.antt =====
-- The handlers of apps/server/main.c keep the tables, whatever a client sends.
use deadweight.Prelude.{
  ℕ, ◌+◌, ◌==◌, ◌≡◌, refl, sym, ◌∙◌, subst, arith, Bool, true, false, Bool-cases, inl, inr, not,
  ◌&&◌, ◌||◌, List, [], length, if◌then◌else◌, Option, none, some, ltb,
}
use deadweight.Prelude.{ℤ}
use deadweight.Draft.Building.{Draft, deck_size, draft_init}
use deadweight.Draft.Checking.{deck_valid}
use deadweight.Draft.Drafted.{Drafting, begun}
use deadweight.Wire.Message.{Msg}
use deadweight.Wire.Writer.{cstr}
use deadweight.Server.State.{
  Conn, ready, queued, verifying, drafting, in_state, Board, Server, Env, Job, verify, with_conn,
  set_state, err_auth, kind_bot, mode_constructed,
}
use deadweight.Server.Sending.{
  send_msg, send_msg-board, send_error, send_error-board, send_offer, send_offer-board, next_seed,
  seeded, now_ms,
}
use deadweight.Server.Pairing.{with_decks}
use deadweight.Server.Ending.{enqueue_job}
use deadweight.Server.Sessions.{
  enqueued, give_deck, draw_offer, become_ready, ask_account, start_verify, begin_draft,
  start_draft, enter_queue, award_deck, token_ok, all_chars, name_char,
}
use deadweight.Server.Sound.{playing, with_conn-Sound, with_conn_at}
use deadweight.Server.Fair.{IsGuest, IsFair}
use deadweight.Server.Pairs.{try_pair-IsFair}

-- A connection that neither plays, waits nor drafts.
abbrev pub IsIdle : Conn → Type 0
IsIdle c = (playing c || in_state c.state queued || in_state c.state drafting) ≡ false

-- A connection that has no deck yet, or a legal one, may be in any state but these.
idle-IsGuest :
    (c d : Conn) → IsGuest c → d.deck ≡ c.deck → d.deck_n ≡ c.deck_n → IsIdle d → IsGuest d
idle-IsGuest c d g deck deck_n idle = record {
  deck_legal = λ h. rw deck (g.deck_legal (rw (sym deck_n) h));
  deck_ready = λ h. ground (arith, h, idle);
  draft_begun = λ h. absurd (ground (arith, h, idle));
}

-- A server whose tables agree.
pub record IsTidy (s : Server) : Type 0 where
  pub fair : IsFair s.board

pub tidy : (s : Server) → IsFair s.board → IsTidy s
tidy s h = record { fair = h }

pub if-IsTidy :
    {p : Bool} {s t : Server}
    → (p ≡ true → IsTidy s)
    → (p ≡ false → IsTidy t)
    → IsTidy (if p then s else t)
if-IsTidy {p = true} a b = a refl
if-IsTidy {p = false} a b = b refl

pub conn_there :
    (ci : ℕ) (f : Conn → Conn) (b : Board) → (with_conn ci f b).conns ci ≡ f (b.conns ci)
conn_there ci f b =
    with_conn_at b ci f ci ∙ (let same : (ci == ci) ≡ true = ground arith in rw same refl)

module _ (env : Env) where
  pub send_msg-IsFair :
      (ci : ℕ) (m : Msg) (s : Server) → IsFair s.board → IsFair (send_msg env ci m s).board
  send_msg-IsFair ci m s fair =
      subst (λ (b : Board). IsFair b) (sym (send_msg-board env ci m s)) fair

  pub send_error-IsFair :
      (ci code : ℕ) (s : Server) → IsFair s.board → IsFair (send_error env ci code s).board
  send_error-IsFair ci code s fair =
      subst (λ (b : Board). IsFair b) (sym (send_error-board env ci code s)) fair

  pub send_offer-IsFair :
      (ci : ℕ) (s : Server) → IsFair s.board → IsFair (send_offer env ci s).board
  send_offer-IsFair ci s fair =
      subst (λ (b : Board). IsFair b) (sym (send_offer-board env ci s)) fair

  -- A change that leaves the deck and ends in a state without a match, a queue or a draft.
  pub idle-IsFair :
      (ci : ℕ) (f : Conn → Conn) (b : Board)
      → IsFair b
      → playing (b.conns ci) ≡ false
      → (f (b.conns ci)).deck ≡ (b.conns ci).deck
      → (f (b.conns ci)).deck_n ≡ (b.conns ci).deck_n
      → IsIdle (f (b.conns ci))
      → IsFair (with_conn ci f b)
  idle-IsFair ci f b fair out deck deck_n idle =
      with_conn-Sound b ci f fair out (ground (arith, idle))
        (idle-IsGuest (b.conns ci) (f (b.conns ci)) (fair.guests ci) deck deck_n idle)

  pub become_ready-IsFair :
      (ci : ℕ) (s : Server)
      → IsFair s.board
      → playing (s.board.conns ci) ≡ false
      → IsFair (become_ready env ci s).board
  unfolding become_ready set_state
  become_ready-IsFair ci s fair out =
      send_msg-IsFair ci _ _ (idle-IsFair ci (set_state ready) s.board fair out refl refl refl)

  ask_account-IsFair :
      (ci : ℕ) (j : Job) (s : Server)
      → IsFair s.board
      → playing (s.board.conns ci) ≡ false
      → IsFair (ask_account env ci j s).board
  unfolding ask_account set_state enqueue_job
  ask_account-IsFair ci j s fair out =
      let asked = idle-IsFair ci (set_state verifying) s.board fair out refl refl refl in
      elim (Bool-cases (ltb (length s.jobs) 256)) [
        | inl y ↦ rw y asked
        | inr n ↦ rw n (send_error-IsFair ci err_auth _ asked)
      ]

  pub start_verify-IsFair :
      (ci : ℕ) (token : List ℕ) (s : Server)
      → IsFair s.board
      → playing (s.board.conns ci) ≡ false
      → IsFair (start_verify env ci token s).board
  unfolding start_verify
  start_verify-IsFair ci token s fair out =
      let done : IsTidy (start_verify env ci token s) =
        if-IsTidy
          {p = not (token_ok token)
            || ((s.board.conns ci).kind == kind_bot
                && not (all_chars name_char (cstr 16 (s.board.conns ci).name)))}
          (λ e. tidy (send_error env ci err_auth s) (send_error-IsFair ci err_auth s fair))
          (λ e. tidy (ask_account env ci _ s) (
            ask_account-IsFair ci
              (verify ci (s.board.conns ci).session_id ((s.board.conns ci).mode == mode_constructed)
                token
                (if (s.board.conns ci).kind == kind_bot
                  then cstr 16 (s.board.conns ci).name
                  else []))
              s fair out)) in
      done.fair

  pub enter_queue-IsFair :
      (ci : ℕ) (s : Server)
      → IsFair s.board
      → playing (s.board.conns ci) ≡ false
      → (with_decks (s.board.conns ci).mode ≡ true
          → ((s.board.conns ci).deck_n == deck_size) ≡ true)
      → IsFair (enter_queue env ci s).board
  unfolding enter_queue enqueued
  enter_queue-IsFair ci s fair out deck = try_pair-IsFair env _ (
      send_msg-IsFair ci _ _ (
        with_conn-Sound s.board ci (enqueued (s.queue_seq + 1) (now_ms env s)) fair out refl
          (record {
            deck_legal = (fair.guests ci).deck_legal;
            deck_ready = λ h. deck;
            draft_begun = λ h. cc h;
          })))

  pub award_deck-there :
      (ci : ℕ) (cards : List ℤ) (s : Server)
      → (award_deck env ci cards s).board ≡ with_conn ci (give_deck cards s.next_deck) s.board
  unfolding award_deck
  award_deck-there ci cards s = send_msg-board env ci _ _

  pub award_deck-IsFair :
      (ci : ℕ) (cards : List ℤ) (s : Server)
      → IsFair s.board
      → playing (s.board.conns ci) ≡ false
      → deck_valid cards ≡ true
      → IsFair (award_deck env ci cards s).board
  unfolding give_deck
  award_deck-IsFair ci cards s fair out valid =
      subst (λ (b : Board). IsFair b) (sym (award_deck-there ci cards s))
        (with_conn-Sound s.board ci (give_deck cards s.next_deck) fair out out (record {
          deck_legal = λ h. valid;
          deck_ready = λ h k. refl;
          draft_begun = (fair.guests ci).draft_begun;
        }))

  begin_draft-IsFair :
      (ci : ℕ) (seed : ℕ) (start : Option Draft) (s after : Server)
      → ((d : Draft) → start ≡ some d → Drafting seed d)
      → IsFair s.board
      → playing (s.board.conns ci) ≡ false
      → begin_draft env ci start s ≡ some after
      → IsFair after.board
  unfolding set_state draw_offer
  begin_draft-IsFair ci seed none s after drafts fair out e = absurd (cc e)
  begin_draft-IsFair ci seed (some d) s after drafts fair out e =
      let f : Conn → Conn = λ c. set_state drafting (draw_offer d c) in
      let same : send_offer env ci (record s { board = with_conn ci f s.board }) ≡ after = cc e in
      subst (λ (s : Server). IsFair s.board) same
        (send_offer-IsFair ci _ (
          with_conn-Sound s.board ci f fair out refl (record {
            deck_legal = (fair.guests ci).deck_legal;
            deck_ready = λ h. cc h;
            draft_begun = λ h. (seed, drafts d refl);
          })))

  pub start_draft-IsFair :
      (ci : ℕ) (s after : Server)
      → IsFair s.board
      → playing (s.board.conns ci) ≡ false
      → start_draft env ci s ≡ some after
      → IsFair after.board
  unfolding start_draft seeded
  start_draft-IsFair ci s after fair out e =
      begin_draft-IsFair ci (next_seed env s) (draft_init env.rolls (next_seed env s))
        (seeded env s) after (λ d h. begun env.rolls d h) fair out e
