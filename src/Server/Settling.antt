-- ===== src/Server/Settling.antt =====
-- The loops of the pairing of apps/server/main.c come to an end: each round takes a player out of the queue.
use deadweight.Prelude.{
  ℕ, zero, suc, ◌==◌, ◌≤◌, ◌<◌, ◌≡◌, refl, sym, ◌∙◌, subst, arith, Bool, true, false, Bool-cases,
  Option-cases, inl, inr, ◌&&◌, if◌then◌else◌, Option, none, some,
}
use deadweight.Match.State.{seat0, seat1}
use deadweight.Server.State.{
  MatchSlot, Board, Server, Env, queued, in_state, with_conn, with_match, max_conns, max_matches,
  mode_constructed,
}
use deadweight.Server.Sending.{now_ms, next_seed, set_deadline}
use deadweight.Server.Ending.{next_round}
use deadweight.Server.Pairing.{
  Pair, enter_match, start_in, start_found, start_match, first_from, is_idle, new_match,
}
use deadweight.Server.Queue.{
  queued_of, queued_count, next_pair, next_pair_constructed, start_pair, pair_once,
  pair_once_constructed, pair_loop, try_pair_mode, try_pair_constructed, clock_asked,
}
use deadweight.Server.Sound.{with_conn_at}
use deadweight.Server.Starting.{seated_board, start_in-board}
use deadweight.Server.Meeting.{Meet, next_pair-Meet, next_pair_constructed-Meet}

in_queue : Board → ℕ → ℕ → Bool
in_queue b mode i = in_state (b.conns i).state queued && (b.conns i).mode == mode

-- Every connection of a queue was in it before.
record Shrinks (b after : Board) (mode x : ℕ) : Type 0 where
  old : (i : ℕ) → in_queue after mode i ≡ true → in_queue b mode i ≡ true
  before : in_queue b mode x ≡ true
  gone : in_queue after mode x ≡ false
  placed : x < max_conns

no_more :
    (b after : Board) (mode x n : ℕ)
    → Shrinks b after mode x
    → queued_of after mode n ≤ queued_of b mode n
unfolding queued_of in_queue
no_more b after mode x zero s = omega arith
no_more b after mode x (suc n) s =
    let rest = no_more b after mode x n s in
    let now = s.old n in
    elim (Bool-cases (in_queue after mode n)) [
      | inl y ↦ rw (y, now y) (omega (arith, rest))
      | inr m ↦ rw m (elim (Bool-cases (in_queue b mode n)) [
        | inl y ↦ rw y (omega (arith, rest))
        | inr k ↦ rw k (omega (arith, rest))
      ])
    ]

fewer :
    (b after : Board) (mode x n : ℕ)
    → Shrinks b after mode x
    → x < n
    → queued_of after mode n < queued_of b mode n
unfolding queued_of in_queue
fewer b after mode x zero s lt = absurd (omega (arith, lt))
fewer b after mode x (suc n) s lt = elim (Bool-cases (x == n)) [
  | inl y ↦
      let here : x ≡ n = ground (arith, y) in
      let before : in_queue b mode n ≡ true =
        subst (λ (i : ℕ). in_queue b mode i ≡ true) here s.before in
      let gone : in_queue after mode n ≡ false =
        subst (λ (i : ℕ). in_queue after mode i ≡ false) here s.gone in
      rw (before, gone) (omega (arith, no_more b after mode x n s))
  | inr k ↦
      let rest = fewer b after mode x n s (ground (arith, k, lt)) in
      elim (Bool-cases (in_queue after mode n)) [
        | inl y ↦ rw (y, s.old n y) (omega (arith, rest))
        | inr m ↦ rw m (elim (Bool-cases (in_queue b mode n)) [
          | inl y ↦ rw y (omega (arith, rest))
          | inr k ↦ rw k (omega (arith, rest))
        ])
      ]
]

seated_conn :
    (mi x y : ℕ) (f g : MatchSlot → MatchSlot) (b : Board) (i : ℕ)
    → (with_match mi g (seated_board mi x y f b)).conns i ≡ (
        if i == y
        then enter_match mi seat1 (if i == x then enter_match mi seat0 (b.conns i) else b.conns i)
        else if i == x
        then enter_match mi seat0 (b.conns i)
        else b.conns i)
unfolding with_match
seated_conn mi x y f g b i =
    with_conn_at (with_conn x (enter_match mi seat0) (with_match mi f b)) y (enter_match mi seat1) i
    ∙ rw (with_conn_at (with_match mi f b) x (enter_match mi seat0) i) refl

seated-Shrinks :
    (mi x y mode : ℕ) (f g : MatchSlot → MatchSlot) (b : Board)
    → Meet b mode x y
    → Shrinks b (with_match mi g (seated_board mi x y f b)) mode x
unfolding in_queue enter_match
seated-Shrinks mi x y mode f g b m = record {
  old = λ i h. elim (Bool-cases (i == y)) [
    | inl p ↦ absurd (cc (rw (seated_conn mi x y f g b i, p) at h))
    | inr p ↦ elim (Bool-cases (i == x)) [
      | inl q ↦ absurd (cc (rw (seated_conn mi x y f g b i, p, q) at h))
      | inr q ↦ rw (seated_conn mi x y f g b i, p, q) at h
    ]
  ];
  before = ground (arith, m.both.first, m.both.first_mode);
  gone =
      let same : (x == x) ≡ true = ground arith in
      let apart : (x == y) ≡ false = ground (arith, m.both.apart) in
      rw (seated_conn mi x y f g b x, apart, same) refl;
  placed = m.in_table;
}

queued_of-le : (b : Board) (mode n : ℕ) → queued_of b mode n ≤ n
unfolding queued_of
queued_of-le b mode zero = omega arith
queued_of-le b mode (suc n) =
    let rest = queued_of-le b mode n in
    elim (Bool-cases (in_state (b.conns n).state queued && (b.conns n).mode == mode)) [
      | inl y ↦ rw y (omega (arith, rest))
      | inr k ↦ rw k (omega (arith, rest))
    ]

module _ (env : Env) where
  start_in-fewer :
      (mi x y mode : ℕ) (s : Server)
      → Meet s.board mode x y
      → queued_count (start_in env mi x y mode s).board mode < queued_count s.board mode
  unfolding queued_count
  start_in-fewer mi x y mode s m =
      let (d, there) = start_in-board env mi x y mode s in
      let g : MatchSlot → MatchSlot = λ mt. set_deadline d (next_round mt) in
      let mt : MatchSlot = new_match s.next_match (next_seed env s) x y mode s.board in
      let shrinks = seated-Shrinks mi x y mode (λ old. mt) g s.board m in
      subst (λ (b : Board). queued_of b mode max_conns < queued_of s.board mode max_conns)
        (sym there)
        (fewer s.board (with_match mi g (seated_board mi x y (λ old. mt) s.board)) mode x max_conns
          shrinks m.in_table)

  start_found-fewer :
      (place : Option ℕ) (x y mode : ℕ) (s after : Server)
      → Meet s.board mode x y
      → start_found env place x y mode s ≡ some after
      → queued_count after.board mode < queued_count s.board mode
  start_found-fewer none x y mode s after m e = absurd (cc e)
  start_found-fewer (some mi) x y mode s after m e =
      let same : start_in env mi x y mode s ≡ after = cc e in
      subst (λ (t : Server). queued_count t.board mode < queued_count s.board mode) same
        (start_in-fewer mi x y mode s m)

  start_pair-fewer :
      (pair : Option Pair) (mode : ℕ) (s after : Server)
      → ((p : Pair) → pair ≡ some p → Meet s.board mode p.first p.second)
      → start_pair env pair mode s ≡ some after
      → queued_count after.board mode < queued_count s.board mode
  unfolding start_match
  start_pair-fewer none mode s after meets e = absurd (cc e)
  start_pair-fewer (some p) mode s after meets e =
      start_found-fewer (first_from (is_idle s.board) 0 max_matches) p.first p.second mode s after
        (meets p refl) e

  -- A loop whose rounds each take a player out of a queue ends by itself, not by its fuel.
  pair_loop-settled :
      (once : Server → Option Server) (mode n : ℕ) (s : Server)
      → ((s after : Server)
          → once s ≡ some after
          → queued_count after.board mode < queued_count s.board mode)
      → queued_count s.board mode ≤ n
      → once (pair_loop env once n s) ≡ none
  unfolding pair_loop
  pair_loop-settled once mode zero s lower le = elim (Option-cases (once s)) [
    | inl e ↦ e
    | inr (after, e) ↦ let h = lower s after e in absurd (omega (arith, h, le))
  ]
  pair_loop-settled once mode (suc n) s lower le = elim (Option-cases (once s)) [
    | inl e ↦ rw (e, pair_loop) e
    | inr (after, e) ↦
        let h = lower s after e in
        rw (e, pair_loop) (pair_loop-settled once mode n after lower (omega (arith, h, le)))
  ]

  pub try_pair_mode-settled :
      (mode : ℕ) (s : Server) → pair_once env mode (try_pair_mode env mode s) ≡ none
  unfolding try_pair_mode pair_once queued_count
  try_pair_mode-settled mode s =
      pair_loop-settled (pair_once env mode) mode max_conns s
        (λ s after e.
          start_pair-fewer (next_pair s.board mode) mode s after (next_pair-Meet s.board mode) e)
        (queued_of-le s.board mode max_conns)

  try_pair_constructed-settled :
      (s : Server)
      → pair_once_constructed env (pair_loop env (pair_once_constructed env) max_conns s) ≡ none
  unfolding try_pair_constructed pair_once_constructed clock_asked queued_count
  try_pair_constructed-settled s =
      pair_loop-settled (pair_once_constructed env) mode_constructed max_conns s
        (λ s after e.
          start_pair-fewer (next_pair_constructed env s.board (now_ms env s)) mode_constructed
            (clock_asked s) after (next_pair_constructed-Meet env s.board (now_ms env s)) e)
        (queued_of-le s.board mode_constructed max_conns)
