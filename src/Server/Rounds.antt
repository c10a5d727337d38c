-- ===== src/Server/Rounds.antt =====
-- What the end of a round, `resolve_round` of apps/server/main.c, does to the tables.
use deadweight.Prelude.{ℕ, ◌==◌, ◌≡◌, sym, ap, ◌∙◌, subst, true, false, Bool-cases, inl, inr, ◌⊎◌}
use deadweight.Match.State.{Side, Two, for_seats, Outcome}
use deadweight.Match.State as Engine
use deadweight.Match.Setup.{begin_round, both_locked}
use deadweight.Match.Resolve.{match_resolve, outcome}
use deadweight.Server.State.{MatchSlot, Board, Server, Env, with_match}
use deadweight.Server.Sending.{
  send_msg-board, for_seats-board, set_deadline, send_round_start, send_round_start-board,
}
use deadweight.Server.Ending.{deactivate, send_result, resolved, next_round, resolve_round}
use deadweight.Server.Sound.{with_match-Sound, with_match_twice, write_elsewhere}
use deadweight.Server.Ends.{ended, ended-Sound, after_match, ended_match}
use deadweight.Server.Fair.{
  IsGame, IsFair, match_there, next-IsGame, release-IsGuest, end_match-board,
}

-- A round of the match `m` has resolved: the match is over and its place free, or its next round has
-- begun.
abbrev pub Advanced : Engine.Match → MatchSlot → Type 0
Advanced m new =
    (((match_resolve m).done ≡ true) × (new.active ≡ false) × (new.m ≡ match_resolve m))
    ⊎ (((match_resolve m).done ≡ false)
        × (new.active ≡ true)
        × (new.m ≡ begin_round (match_resolve m)))

module _ (env : Env) where
  told-board :
      (mi : ℕ) (o : Two Outcome) (s : Server) → (for_seats (send_result env mi o) s).board ≡ s.board
  unfolding send_result
  told-board mi o s = for_seats-board env (send_result env mi o) (λ t s. send_msg-board env _ _ s) s

  -- The match ends, or the next round begins with a new deadline.
  resolve_round-board :
      (mi : ℕ) (f : MatchSlot → MatchSlot) (b : Board) (s : Server)
      → s.board ≡ with_match mi f b
      → (((match_resolve (f (b.matches mi)).m).done ≡ true)
          × ((resolve_round env mi s).board ≡ ended mi (with_match mi (λ mt. resolved (f mt)) b)))
        ⊎ (((match_resolve (f (b.matches mi)).m).done ≡ false)
            × (d : ℕ) × ((resolve_round env mi s).board
                ≡ with_match mi (λ mt. set_deadline d (next_round (resolved (f mt)))) b))
  unfolding resolve_round resolved next_round
  resolve_round-board mi f b s e =
      let o : Two Outcome = outcome (s.board.matches mi).m in
      let start : Server = record s { board = with_match mi resolved s.board } in
      let told : Server = for_seats (send_result env mi o) start in
      let after : told.board ≡ with_match mi (λ mt. resolved (f mt)) b =
        told-board mi o start
        ∙ ap (λ (b : Board). with_match mi resolved b) e
        ∙ with_match_twice mi f resolved b in
      let here : told.board.matches mi ≡ resolved (f (b.matches mi)) =
        ap (λ (b : Board). b.matches mi) after ∙ match_there mi (λ mt. resolved (f mt)) b in
      let over : (match_resolve (f (b.matches mi)).m).done ≡ (told.board.matches mi).m.done =
        sym (ap (λ (mt : MatchSlot). mt.m.done) here) in
      elim (Bool-cases (told.board.matches mi).m.done) [
        | inl y ↦
            inl
              (over ∙ y, rw y (end_match-board env mi told ∙ ap (λ (b : Board). ended mi b) after))
        | inr n ↦
            let (d, sent) =
              send_round_start-board env mi
                (record told { board = with_match mi next_round told.board }) in
            let last : (send_round_start env mi
                  (record told { board = with_match mi next_round told.board })).board
                ≡ with_match mi (λ mt. set_deadline d (next_round (resolved (f mt)))) b =
              sent
              ∙ ap (λ (b : Board). with_match mi (set_deadline d) (with_match mi next_round b))
                  after
              ∙ ap (λ (b : Board). with_match mi (set_deadline d) b)
                  (with_match_twice mi (λ mt. resolved (f mt)) next_round b)
              ∙ with_match_twice mi (λ mt. next_round (resolved (f mt))) (set_deadline d) b in
            inr (over ∙ n, d, rw n last)
      ]

  -- A round in which both seats have locked keeps the tables.
  pub resolve_round-IsFair :
      (mi : ℕ) (f : MatchSlot → MatchSlot) (b : Board) (s : Server)
      → s.board ≡ with_match mi f b
      → IsFair b
      → (b.matches mi).active ≡ true
      → (f (b.matches mi)).conn ≡ (b.matches mi).conn
      → (f (b.matches mi)).active ≡ true
      → IsGame (f (b.matches mi))
      → both_locked (f (b.matches mi)).m ≡ true
      → IsFair (resolve_round env mi s).board
  unfolding resolved next_round
  resolve_round-IsFair mi f b s e fair run same_conn same_run game locked =
      elim (resolve_round-board mi f b s e) [
        | inl (over, there) ↦
            subst (λ (b : Board). IsFair b) (sym there)
              (ended-Sound b mi (λ mt. resolved (f mt)) release-IsGuest fair run same_conn)
        | inr (open_round, d, there) ↦
            subst (λ (b : Board). IsFair b) (sym there)
              (with_match-Sound b mi (λ mt. set_deadline d (next_round (resolved (f mt)))) fair
                (same_run ∙ sym run) same_conn
                (λ h. next-IsGame d (f (b.matches mi)) game locked open_round))
      ]

  -- It resolves that match.
  pub resolve_round-Advanced :
      (mi : ℕ) (f : MatchSlot → MatchSlot) (b : Board) (s : Server)
      → s.board ≡ with_match mi f b
      → (f (b.matches mi)).active ≡ true
      → Advanced (f (b.matches mi)).m ((resolve_round env mi s).board.matches mi)
  unfolding resolved next_round deactivate
  resolve_round-Advanced mi f b s e run = elim (resolve_round-board mi f b s e) [
    | inl (over, there) ↦
        let here : (resolve_round env mi s).board.matches mi
            ≡ deactivate (resolved (f (b.matches mi))) =
          ap (λ (b : Board). b.matches mi) there ∙ ended_match mi (λ mt. resolved (f mt)) b in
        inl (over, ap (λ (mt : MatchSlot). mt.active) here, ap (λ (mt : MatchSlot). mt.m) here)
    | inr (open_round, d, there) ↦
        let here : (resolve_round env mi s).board.matches mi
            ≡ set_deadline d (next_round (resolved (f (b.matches mi)))) =
          ap (λ (b : Board). b.matches mi) there ∙ match_there mi _ b in
        inr (
          open_round,
          ap (λ (mt : MatchSlot). mt.active) here ∙ run,
          ap (λ (mt : MatchSlot). mt.m) here,
        )
  ]

  -- It changes no other match.
  pub resolve_round-elsewhere :
      (mi mj : ℕ) (f : MatchSlot → MatchSlot) (b : Board) (s : Server)
      → s.board ≡ with_match mi f b
      → (mj == mi) ≡ false
      → (resolve_round env mi s).board.matches mj ≡ b.matches mj
  unfolding with_match
  resolve_round-elsewhere mi mj f b s e apart = elim (resolve_round-board mi f b s e) [
    | inl (over, there) ↦
        ap (λ (b : Board). b.matches mj) there ∙ after_match b mi (λ mt. resolved (f mt)) mj apart
    | inr (open_round, d, there) ↦
        ap (λ (b : Board). b.matches mj) there
        ∙ write_elsewhere b.matches mi (set_deadline d (next_round (resolved (f (b.matches mi)))))
            mj apart
  ]
