-- ===== src/Server/Pairs.antt =====
-- The pairing of apps/server/main.c keeps the tables.
use deadweight.Prelude.{ℕ, ◌≡◌, refl, Option-cases, inl, inr, Option, none, some, suc, zero}
use deadweight.Server.State.{Server, Env, max_conns, mode_constructed, mode_card, mode_draft}
use deadweight.Server.Sending.{now_ms}
use deadweight.Server.Pairing.{Pair}
use deadweight.Server.Queue.{
  next_pair, next_pair_constructed, start_pair, pair_once, pair_once_constructed, pair_loop,
  try_pair_mode, try_pair_constructed, try_pair, clock_asked,
}
use deadweight.Server.Starting.{start_match-IsFair}
use deadweight.Server.Meeting.{Meet, next_pair-Meet, next_pair_constructed-Meet}
use deadweight.Server.Fair.{IsFair}

module _ (env : Env) where
  start_pair-IsFair :
      (pair : Option Pair) (mode : ℕ) (s after : Server)
      → IsFair s.board
      → ((p : Pair) → pair ≡ some p → Meet s.board mode p.first p.second)
      → start_pair env pair mode s ≡ some after
      → IsFair after.board
  start_pair-IsFair none mode s after fair meets e = absurd (cc e)
  start_pair-IsFair (some p) mode s after fair meets e =
      start_match-IsFair env p.first p.second mode s after fair (meets p refl).both e

  pair_loop-IsFair :
      (once : Server → Option Server) (n : ℕ) (s : Server)
      → ((s after : Server) → IsFair s.board → once s ≡ some after → IsFair after.board)
      → IsFair s.board
      → IsFair (pair_loop env once n s).board
  unfolding pair_loop
  pair_loop-IsFair once zero s keeps fair = fair
  pair_loop-IsFair once (suc n) s keeps fair = elim (Option-cases (once s)) [
    | inl e ↦ rw (e, pair_loop) fair
    | inr (after, e) ↦
        rw (e, pair_loop) (pair_loop-IsFair once n after keeps (keeps s after fair e))
  ]

  try_pair_mode-IsFair :
      (mode : ℕ) (s : Server) → IsFair s.board → IsFair (try_pair_mode env mode s).board
  unfolding try_pair_mode pair_once
  try_pair_mode-IsFair mode s fair =
      pair_loop-IsFair (pair_once env mode) max_conns s
        (λ s after fair e.
          start_pair-IsFair (next_pair s.board mode) mode s after fair (next_pair-Meet s.board mode)
            e)
        fair

  pub try_pair_constructed-IsFair :
      (s : Server) → IsFair s.board → IsFair (try_pair_constructed env s).board
  unfolding try_pair_constructed pair_once_constructed clock_asked
  try_pair_constructed-IsFair s fair =
      pair_loop-IsFair (pair_once_constructed env) max_conns s
        (λ s after fair e.
          start_pair-IsFair (next_pair_constructed env s.board (now_ms env s)) mode_constructed
            (clock_asked s) after fair (next_pair_constructed-Meet env s.board (now_ms env s)) e)
        fair

  pub try_pair-IsFair : (s : Server) → IsFair s.board → IsFair (try_pair env s).board
  unfolding try_pair
  try_pair-IsFair s fair =
      try_pair_constructed-IsFair _
        (try_pair_mode-IsFair mode_draft _ (try_pair_mode-IsFair mode_card s fair))
