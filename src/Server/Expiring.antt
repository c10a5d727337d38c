-- ===== src/Server/Expiring.antt =====
-- What the timers of apps/server/main.c do to a match whose time is up, and to the others.
use deadweight.Prelude.{
  ℕ, ◌+◌, ◌==◌, ◌≤◌, ◌<◌, ◌≡◌, ◌≢◌, ◌⊎◌, refl, sym, ap, ◌∙◌, subst, arith, true, false, Bool-cases,
  inl, inr, suc, zero,
}
use deadweight.Match.State.{Side, seat0, seat1, at, put, for_seats, Seat}
use deadweight.Match.State as Engine
use deadweight.Server.State.{
  MatchSlot, Board, Server, Env, with_match, max_conns, max_matches, err_auth,
}
use deadweight.Server.Sending.{send_error-board}
use deadweight.Server.Ticking.{
  timed_out, is_due, pass_seat, pass_seats, expire_conns, time_out, expire_matches, expire_timers,
}
use deadweight.Server.Fair.{IsFair}
use deadweight.Server.Rounds.{Advanced, resolve_round-Advanced, resolve_round-elsewhere}
use deadweight.Server.Timing.{pass_seat-same, expire_matches-IsFair, expire_timers-IsFair}
use deadweight.Server.Passing.{both_passed, pass_seats-passed, take_then, take_else}

due_if :
    (now : ℕ) (mt : MatchSlot)
    → mt.active ≡ true
    → mt.deadline ≢ 0
    → mt.deadline ≤ now
    → is_due now mt ≡ true
unfolding is_due
due_if now mt run set_to reached = ground (arith, run, set_to, reached)

waits_if :
    (now : ℕ) (mt : MatchSlot)
    → (mt.active ≡ false) ⊎ (mt.deadline ≡ 0) ⊎ (now < mt.deadline)
    → is_due now mt ≡ false
unfolding is_due
waits_if now mt early = ground (arith, early)

module _ (env : Env) where
  time_out-Advanced :
      (mi : ℕ) (s : Server)
      → IsFair s.board
      → (s.board.matches mi).active ≡ true
      → Advanced (both_passed (s.board.matches mi).m) ((time_out env mi s).board.matches mi)
  unfolding time_out pass_seats for_seats
  time_out-Advanced mi s fair run =
      let mt = s.board.matches mi in
      let one = pass_seat-same seat0 mt in
      let two = pass_seat-same seat1 (pass_seat seat0 mt) in
      subst (λ (m : Engine.Match). Advanced m ((time_out env mi s).board.matches mi))
        (pass_seats-passed mt (fair.games mi run))
        (resolve_round-Advanced env mi pass_seats s.board
          (record s { board = with_match mi pass_seats s.board }) refl (two.1 ∙ one.1 ∙ run))

  time_out-elsewhere :
      (mi mj : ℕ) (s : Server)
      → (mj == mi) ≡ false
      → (time_out env mi s).board.matches mj ≡ s.board.matches mj
  unfolding time_out
  time_out-elsewhere mi mj s apart =
      resolve_round-elsewhere env mi mj pass_seats s.board
        (record s { board = with_match mi pass_seats s.board }) refl apart

  pub expire_conns-board : (now n : ℕ) (s : Server) → (expire_conns env now n s).board ≡ s.board
  unfolding expire_conns
  expire_conns-board now zero s = refl
  expire_conns-board now (suc i) s =
      let rest = expire_conns-board now i s in
      elim (Bool-cases (timed_out now ((expire_conns env now i s).board.conns i))) [
        | inl y ↦ rw y (send_error-board env i err_auth _ ∙ rest)
        | inr n ↦ rw n rest
      ]

  -- A step of the loop over the matches changes one of them at most.
  step-elsewhere :
      (now i mj : ℕ) (s : Server)
      → (mj == i) ≡ false
      → (expire_matches env now (suc i) s).board.matches mj
        ≡ (expire_matches env now i s).board.matches mj
  unfolding expire_matches
  step-elsewhere now i mj s apart =
      elim (Bool-cases (is_due now ((expire_matches env now i s).board.matches i))) [
        | inl y ↦ rw y (time_out-elsewhere i mj (expire_matches env now i s) apart)
        | inr n ↦ rw n refl
      ]

  expire_matches-beyond :
      (now n mj : ℕ) (s : Server)
      → n ≤ mj
      → (expire_matches env now n s).board.matches mj ≡ s.board.matches mj
  unfolding expire_matches
  expire_matches-beyond now zero mj s le = refl
  expire_matches-beyond now (suc i) mj s le =
      step-elsewhere now i mj s (ground (arith, le))
      ∙ expire_matches-beyond now i mj s (omega (arith, le))

  last-Advanced :
      (now i : ℕ) (s : Server)
      → IsFair s.board
      → is_due now (s.board.matches i) ≡ true
      → Advanced
          (both_passed (s.board.matches i).m)
          ((expire_matches env now (suc i) s).board.matches i)
  unfolding expire_matches is_due
  last-Advanced now i s fair due =
      let before : Server = expire_matches env now i s in
      let same : before.board.matches i ≡ s.board.matches i =
        expire_matches-beyond now i i s (omega arith) in
      let due_here : is_due now (before.board.matches i) ≡ true =
        ap (λ (mt : MatchSlot). is_due now mt) same ∙ due in
      let here : Advanced (both_passed (before.board.matches i).m)
          ((time_out env i before).board.matches i) =
        time_out-Advanced i before (expire_matches-IsFair env now i s fair)
          (ground (arith, due_here)) in
      rw due_here (
        subst
          (λ (mt : MatchSlot).
            Advanced (both_passed mt.m) ((time_out env i before).board.matches i))
          same here)

  expire_matches-Advanced :
      (now n mi : ℕ) (s : Server)
      → IsFair s.board
      → mi < n
      → is_due now (s.board.matches mi) ≡ true
      → Advanced
          (both_passed (s.board.matches mi).m)
          ((expire_matches env now n s).board.matches mi)
  expire_matches-Advanced now zero mi s fair lt due = absurd (omega (arith, lt))
  expire_matches-Advanced now (suc i) mi s fair lt due = elim (Bool-cases (mi == i)) [
    | inl y ↦
        let here : mi ≡ i = ground (arith, y) in
        let due_here : is_due now (s.board.matches i) ≡ true =
          subst (λ (j : ℕ). is_due now (s.board.matches j) ≡ true) here due in
        subst
          (λ (j : ℕ).
            Advanced (both_passed (s.board.matches j).m)
              ((expire_matches env now (suc i) s).board.matches j))
          (sym here) (last-Advanced now i s fair due_here)
    | inr n ↦
        subst (λ (mt : MatchSlot). Advanced (both_passed (s.board.matches mi).m) mt)
          (sym (step-elsewhere now i mi s n))
          (expire_matches-Advanced now i mi s fair (ground (arith, lt, n)) due)
  ]

  expire_matches-waits :
      (now n mi : ℕ) (s : Server)
      → is_due now (s.board.matches mi) ≡ false
      → (expire_matches env now n s).board.matches mi ≡ s.board.matches mi
  unfolding expire_matches
  expire_matches-waits now zero mi s waits = refl
  expire_matches-waits now (suc i) mi s waits =
      let before : Server = expire_matches env now i s in
      let rest = expire_matches-waits now i mi s waits in
      elim (Bool-cases (mi == i)) [
        | inl y ↦
            let here : mi ≡ i = ground (arith, y) in
            let still : is_due now (before.board.matches i) ≡ false =
              subst (λ (j : ℕ). is_due now (before.board.matches j) ≡ false) here
                (ap (λ (mt : MatchSlot). is_due now mt) rest ∙ waits) in
            rw still rest
        | inr n ↦ step-elsewhere now i mi s n ∙ rest
      ]

  -- The first loop, with the clock that has been read.
  abbrev after_conns : Server → Server
  after_conns s = expire_conns env (env.now s.calls) max_conns (record s { calls = s.calls + 1 })

  after_conns-board : (s : Server) → (after_conns s).board ≡ s.board
  after_conns-board s =
      expire_conns-board (env.now s.calls) max_conns (record s { calls = s.calls + 1 })

  expire_timers-timed :
      (s : Server)
      → env.opt_ff ≡ false
      → expire_timers env s ≡ expire_matches env (env.now s.calls) max_matches (after_conns s)
  unfolding expire_timers
  expire_timers-timed s timed = take_else env.opt_ff _ _ timed

  expire_timers-untimed : (s : Server) → env.opt_ff ≡ true → expire_timers env s ≡ after_conns s
  unfolding expire_timers
  expire_timers-untimed s untimed = take_then env.opt_ff _ _ untimed

  -- When the clock has reached the deadline of a running match, and rounds have a limit of time, the
  -- timers let each seat that has not locked pass and resolve the round: the match is over, or its next
  -- round has begun. The tables agree afterwards.
  pub expire_timers-resolves :
      (mi : ℕ) (s : Server)
      → IsFair s.board
      → env.opt_ff ≡ false
      → mi < max_matches
      → (s.board.matches mi).active ≡ true
      → (s.board.matches mi).deadline ≢ 0
      → (s.board.matches mi).deadline ≤ env.now s.calls
      → IsFair (expire_timers env s).board
        × Advanced (both_passed (s.board.matches mi).m) ((expire_timers env s).board.matches mi)
  expire_timers-resolves mi s fair timed lt run set_to reached =
      let due = due_if (env.now s.calls) (s.board.matches mi) run set_to reached in
      let told : Server = after_conns s in
      let here : Advanced (both_passed (told.board.matches mi).m)
          ((expire_matches env (env.now s.calls) max_matches told).board.matches mi) =
        expire_matches-Advanced (env.now s.calls) max_matches mi told
          (subst (λ (b : Board). IsFair b) (sym (after_conns-board s)) fair) lt
          (ap (λ (b : Board). is_due (env.now s.calls) (b.matches mi)) (after_conns-board s)
            ∙ due) in
      (
        expire_timers-IsFair env s fair,
        subst (λ (sv : Server). Advanced (both_passed (s.board.matches mi).m) (sv.board.matches mi))
            (sym (expire_timers-timed s timed))
            (subst
              (λ (b : Board).
                Advanced (both_passed (b.matches mi).m)
                  ((expire_matches env (env.now s.calls) max_matches told).board.matches mi))
              (after_conns-board s) here),
      )

  -- The timers leave a match as it is that does not run, has no deadline, or whose deadline the clock has
  -- not reached.
  pub expire_timers-waits :
      (mi : ℕ) (s : Server)
      → ((s.board.matches mi).active ≡ false)
        ⊎ ((s.board.matches mi).deadline ≡ 0)
        ⊎ (env.now s.calls < (s.board.matches mi).deadline)
      → (expire_timers env s).board.matches mi ≡ s.board.matches mi
  expire_timers-waits mi s early =
      let waits = waits_if (env.now s.calls) (s.board.matches mi) early in
      let same : (after_conns s).board.matches mi ≡ s.board.matches mi =
        ap (λ (b : Board). b.matches mi) (after_conns-board s) in
      elim (Bool-cases env.opt_ff) [
        | inl y ↦ ap (λ (sv : Server). sv.board.matches mi) (expire_timers-untimed s y) ∙ same
        | inr n ↦
            ap (λ (sv : Server). sv.board.matches mi) (expire_timers-timed s n)
            ∙ expire_matches-waits (env.now s.calls) max_matches mi (after_conns s)
                (ap (λ (mt : MatchSlot). is_due (env.now s.calls) mt) same ∙ waits)
            ∙ same
      ]
