-- ===== src/Server/Fair.antt =====
-- What the running matches and the connections of apps/server/main.c satisfy, and that the end of a match keeps it.
use deadweight.Prelude.{
  ℕ, ◌==◌, ◌≡◌, refl, sym, ap, ◌∙◌, subst, arith, true, false, Bool-cases, inl, inr, List,
  if◌then◌else◌, Option, none, some,
}
use deadweight.Prelude.{ℤ}
use deadweight.Match.State.{Side, seat0, seat1, at, for_seats}
use deadweight.Match.Setup.{both_locked}
use deadweight.Match.Resolve.{match_resolve}
use deadweight.Match.Reach.{Reach, next}
use deadweight.Draft.Building.{deck_size}
use deadweight.Draft.Checking.{deck_valid}
use deadweight.Draft.Drafted.{Drafting}
use deadweight.Server.State.{
  Conn, queued, drafting, in_state, MatchSlot, Board, Server, Env, Job, write, with_conn,
  with_match,
}
use deadweight.Server.Sending.{send_msg-board, set_deadline}
use deadweight.Server.Ending.{
  release, deactivate, enqueue_job, report_match, end_seat, end_match, resolved, next_round,
}
use deadweight.Server.Pairing.{with_decks}
use deadweight.Server.Sound.{Sound, playing}
use deadweight.Server.Ends.{ended, ended-Sound}

abbrev pub deck_of : MatchSlot → Side → Option (List ℤ)
deck_of mt t = if with_decks mt.mode then some (at mt.deck t) else none

-- A running match: it is in a state that the engine reaches from its decks, and these are legal.
pub record IsGame (mt : MatchSlot) : Type 0 where
  pub legal : with_decks mt.mode ≡ true → (t : Side) → deck_valid (at mt.deck t) ≡ true
  pub reached : Reach (deck_of mt seat0) (deck_of mt seat1) mt.m

-- A connection: its deck, if it has one, is legal; it has one where it waits for a match of decks; its
-- draft is one that picks lead to.
pub record IsGuest (c : Conn) : Type 0 where
  pub deck_legal : (c.deck_n == deck_size) ≡ true → deck_valid c.deck ≡ true
  pub deck_ready :
      in_state c.state queued ≡ true → with_decks c.mode ≡ true → (c.deck_n == deck_size) ≡ true
  pub draft_begun : in_state c.state drafting ≡ true → (seed : ℕ) × Drafting seed c.draft

abbrev pub IsFair : Board → Type 0
IsFair b = Sound IsGame IsGuest b

pub release-IsGuest : (c : Conn) → IsGuest c → IsGuest (release c)
unfolding release
release-IsGuest c g = elim (Bool-cases (playing c)) [
  | inl y ↦
      rw y (record { deck_legal = g.deck_legal; deck_ready = λ h. cc h; draft_begun = λ h. cc h })
  | inr n ↦ rw n g
]

enqueue_job-board : (j : Job) (s : Server) → (enqueue_job j s).board ≡ s.board
unfolding enqueue_job
enqueue_job-board j s = ground arith

pub match_there :
    (mi : ℕ) (f : MatchSlot → MatchSlot) (b : Board)
    → (with_match mi f b).matches mi ≡ f (b.matches mi)
unfolding with_match write
match_there mi f b = let same : (mi == mi) ≡ true = ground arith in rw same refl

pub next-IsGame :
    (d : ℕ) (mt : MatchSlot)
    → IsGame mt
    → both_locked mt.m ≡ true
    → (match_resolve mt.m).done ≡ false
    → IsGame (set_deadline d (next_round (resolved mt)))
unfolding next_round resolved
next-IsGame d mt game locked open_round = record {
  legal = game.legal;
  reached = next game.reached locked open_round;
}

module _ (env : Env) where
  end_seat-board :
      (mi : ℕ) (t : Side) (s : Server)
      → (end_seat env mi t s).board ≡ with_conn (at (s.board.matches mi).conn t) release s.board
  unfolding end_seat
  end_seat-board mi t s =
      ap (λ (b : Board). with_conn (at (s.board.matches mi).conn t) release b)
        (send_msg-board env _ _ s)

  report_match-board : (mi : ℕ) (s : Server) → (report_match env mi s).board ≡ s.board
  unfolding report_match enqueue_job
  report_match-board mi s = ground arith

  pub end_match-board : (mi : ℕ) (s : Server) → (end_match env mi s).board ≡ ended mi s.board
  unfolding end_match ended for_seats with_conn
  end_match-board mi s =
      let first = end_seat-board mi seat0 s in
      let second = end_seat-board mi seat1 (end_seat env mi seat0 s) in
      ap (λ (b : Board). with_match mi deactivate b)
        (report_match-board mi _
          ∙ second
          ∙ ap (λ (b : Board). with_conn (at (b.matches mi).conn seat1) release b) first)

  -- A running match may end in any state.
  pub end_match-IsFair :
      (mi : ℕ) (f : MatchSlot → MatchSlot) (b : Board) (s : Server)
      → s.board ≡ with_match mi f b
      → IsFair b
      → (b.matches mi).active ≡ true
      → (f (b.matches mi)).conn ≡ (b.matches mi).conn
      → IsFair (end_match env mi s).board
  end_match-IsFair mi f b s e fair run same_conn =
      subst (λ (b : Board). IsFair b)
        (sym (end_match-board mi s ∙ ap (λ (b : Board). ended mi b) e))
        (ended-Sound b mi f release-IsGuest fair run same_conn)
