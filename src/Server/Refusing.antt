-- ===== src/Server/Refusing.antt =====
-- The timers of apps/server/main.c refuse a connection that has not been let in within ten seconds.
use deadweight.Prelude.{
  ℕ, ◌+◌, ◌==◌, ◌≤◌, ◌<◌, ◌≡◌, ◌⊎◌, sym, ap, ◌∙◌, subst, arith, true, Bool-cases, inl, inr, suc,
  zero, ◌^◌, ◌-◌, ◌%◌,
}
use deadweight.Server.State.{
  Conn, ConnState, Server, Env, Board, connected, need_auth, verifying, max_conns, max_matches,
  err_auth, with_match,
}
use deadweight.Server.Ticking.{
  pass_seats, timed_out, is_due, expire_conns, time_out, expire_matches, expire_timers,
}
use deadweight.Server.Passing.{take_then}
use deadweight.Server.Expiring.{expire_conns-board}
use deadweight.Server.Marked.{Closing, if-Closing, send_error-Closing, resolve_round-Closing}

-- The states before the account service has answered.
abbrev pub NotLetIn : ConnState → Type 0
NotLetIn st = (st ≡ connected) ⊎ (st ≡ need_auth) ⊎ (st ≡ verifying)

-- The difference of two times of 64 bits.
elapsed :
    (now then_ms : ℕ)
    → then_ms ≤ now
    → now < 2 ^ 64
    → (now + (2 ^ 64 - then_ms)) % 2 ^ 64 ≡ now - then_ms
elapsed now then_ms le fits = omega (arith, le, fits)

late-timed_out :
    (now : ℕ) (c : Conn)
    → NotLetIn c.state
    → c.connect_ms + 10000 < now
    → now < 2 ^ 64
    → timed_out now c ≡ true
unfolding timed_out
late-timed_out now c state late fits =
    ground (arith, state, late, elapsed now c.connect_ms (omega (arith, late)) fits)

module _ (env : Env) where
  time_out-Closing : (mi cj : ℕ) (s : Server) → Closing cj s → Closing cj (time_out env mi s)
  unfolding time_out
  time_out-Closing mi cj s h =
      resolve_round-Closing env mi cj (record s { board = with_match mi pass_seats s.board }) h

  expire_matches-Closing :
      (now n cj : ℕ) (s : Server) → Closing cj s → Closing cj (expire_matches env now n s)
  unfolding expire_matches
  expire_matches-Closing now zero cj s h = h
  expire_matches-Closing now (suc i) cj s h =
      let before : Server = expire_matches env now i s in
      let kept = expire_matches-Closing now i cj s h in
      if-Closing cj (is_due now (before.board.matches i)) _ before
        (time_out-Closing i cj before kept) kept

  expire_conns-Closing :
      (now n cj : ℕ) (s : Server)
      → cj < n
      → timed_out now (s.board.conns cj) ≡ true
      → Closing cj (expire_conns env now n s)
  unfolding expire_conns
  expire_conns-Closing now zero cj s lt late = absurd (omega (arith, lt))
  expire_conns-Closing now (suc i) cj s lt late =
      let before : Server = expire_conns env now i s in
      elim (Bool-cases (cj == i)) [
        | inl y ↦
            let here : cj ≡ i = ground (arith, y) in
            let late_here : timed_out now (before.board.conns i) ≡ true =
              ap (λ (b : Board). timed_out now (b.conns i)) (expire_conns-board env now i s)
              ∙ subst (λ (j : ℕ). timed_out now (s.board.conns j) ≡ true) here late in
            subst (λ (sv : Server). Closing cj sv)
              (sym (take_then (timed_out now (before.board.conns i)) _ before late_here))
              (send_error-Closing env i cj err_auth before (inl y))
        | inr n ↦
            let kept = expire_conns-Closing now i cj s (ground (arith, lt, n)) late in
            if-Closing cj (timed_out now (before.board.conns i)) _ before
              (send_error-Closing env i cj err_auth before (inr kept)) kept
      ]

  -- A connection that has not been let in more than ten seconds after it was made is marked by the timers to be closed,
  -- whatever matches resolve after that; the clock fits 64 bits.
  pub expire_timers-closes :
      (ci : ℕ) (s : Server)
      → ci < max_conns
      → NotLetIn (s.board.conns ci).state
      → (s.board.conns ci).connect_ms + 10000 < env.now s.calls
      → env.now s.calls < 2 ^ 64
      → ((expire_timers env s).links ci).closing ≡ true
  unfolding expire_timers
  expire_timers-closes ci s lt state late fits =
      let told : Server =
        expire_conns env (env.now s.calls) max_conns (record s { calls = s.calls + 1 }) in
      let kept =
        expire_conns-Closing (env.now s.calls) max_conns ci (record s { calls = s.calls + 1 }) lt
          (late-timed_out (env.now s.calls) (s.board.conns ci) state late fits) in
      if-Closing ci env.opt_ff told _ kept
        (expire_matches-Closing (env.now s.calls) max_matches ci told kept)
