-- ===== src/Server/Sending.antt =====
-- apps/server/main.c: `flush_conn`, `send_msg`, `send_error`, `send_round_start`, `send_offer` and `next_seed`.
use deadweight.Prelude.{
  ℕ, zero, suc, ◌+◌, ◌%◌, ◌≡◌, refl, ap, ◌∙◌, arith, Bool-cases, inl, inr, true, List, [], ◌∷◌,
  ◌++◌, if◌then◌else◌, Option, none, some, ltb, length, drop, bit_xor, u32, u8, xs,
}
use deadweight.Prelude.{pos}
use deadweight.Match.State.{Side, seat0, seat1, at, for_seats}
use deadweight.Match.Views.{View, match_view}
use deadweight.Draft.Building.{draft_picks}
use deadweight.Wire.Message.{Msg, RoundStart, round_start, draft_offer, error, max_frame_len}
use deadweight.Wire.Encode.{encode}
use deadweight.Server.State.{
  Link, MatchSlot, Board, Server, Env, wrote, would_block, failed, free, in_state, out_buf, write,
  with_match,
}

-- The failing branch of `flush_conn`.
unfoldable pub broken : Link → Link
broken l = record l { out = []; closing = true }

unfoldable pub closed : ℕ → Server → Server
closed ci s = record s { links = write s.links ci (record (s.links ci) { closing = true }) }

unfoldable pub round_start_of : View → ℕ → RoundStart
round_start_of v deadline_ms = record {
  round = u8 (pos v.round);
  hull_you = v.hull_you;
  hull_opp = v.hull_opp;
  energy_you = v.energy_you;
  energy_opp = v.energy_opp;
  hand = v.hand;
  opp_hand_size = v.opp_hand_size;
  deadline_ms = deadline_ms;
  armor_you = v.armor_you;
  armor_opp = v.armor_opp;
  vault_you = v.vault_you;
  vault_opp = v.vault_opp;
  lock_mask = v.lock_mask;
  status_you = v.status_you;
  status_opp = v.status_opp;
}

abbrev pub set_deadline : ℕ → MatchSlot → MatchSlot
set_deadline d mt = record mt { deadline = d }

module _ (env : Env) where
  abbrev pub now_ms : Server → ℕ
  now_ms s = env.now s.calls

  unfoldable pub next_seed : Server → ℕ
  next_seed s = bit_xor (xs s.seed_state) (u32 (now_ms s))

  -- The state after `next_seed`.
  unfoldable pub seeded : Server → Server
  seeded s = record s { seed_state = xs s.seed_state; calls = s.calls + 1 }

  -- The loop of `flush_conn`; each round but the last takes bytes off, so there are no more rounds
  -- than bytes.
  unfoldable pub flush_loop : ℕ → ℕ → Link → Link × ℕ
  unfolding broken
  flush_loop zero calls l = (l, calls)
  flush_loop (suc rounds) calls l = elim l.out [
    | [] ↦ (l, calls)
    | b ∷ bs ↦ elim (env.dw_send calls l.out) [
      | wrote zero ↦ (broken l, calls + 1)
      | wrote (suc n) ↦ flush_loop rounds (calls + 1) (record l { out = drop (suc n) l.out })
      | would_block ↦ (l, calls + 1)
      | failed ↦ (broken l, calls + 1)
    ]
  ]

  unfoldable pub flush_conn : ℕ → Server → Server
  flush_conn ci s =
      let flushed : Link × ℕ = flush_loop (length (s.links ci).out) s.calls (s.links ci) in
      record s { links = write s.links ci flushed.0; calls = flushed.1 }

  -- The bytes of a message behind those that wait, or a slow reader is dropped.
  unfoldable pub put_out : ℕ → List ℕ → Server → Server
  unfolding broken flush_conn
  put_out ci bytes s =
      if ltb out_buf (length (s.links ci).out + length bytes)
      then record s { links = write s.links ci (broken (s.links ci)) }
      else flush_conn ci (record s {
        links = write s.links ci (record (s.links ci) { out = (s.links ci).out ++ bytes });
      })

  -- `send_msg` with what `dw_encode` returned.
  abbrev pub deliver : ℕ → Option (List ℕ) → Server → Server
  deliver ci none s = s
  deliver ci (some bytes) s =
      if in_state (s.board.conns ci).state free then s else put_out ci bytes s

  unfoldable pub send_msg : ℕ → Msg → Server → Server
  send_msg ci m s = deliver ci (encode m (max_frame_len + 2)) s

  unfoldable pub send_error : ℕ → ℕ → Server → Server
  unfolding send_msg closed
  send_error ci code s = closed ci (send_msg ci (error code) s)

  -- One seat's message of `send_round_start`.
  unfoldable pub send_start : ℕ → Side → Server → Server
  unfolding send_msg round_start_of
  send_start mi s sv =
      let mt = sv.board.matches mi in
      send_msg (at mt.conn s)
        (round_start
          (round_start_of (match_view mt.m s) (if env.opt_ff then 0 else env.opt_round_ms % 65536)))
        sv

  unfoldable pub send_round_start : ℕ → Server → Server
  unfolding send_start
  send_round_start mi sv =
      let sent : Server = for_seats (send_start mi) sv in
      record sent {
        board =
            with_match mi (set_deadline (if env.opt_ff then 0 else now_ms sent + env.opt_round_ms))
              sent.board;
        calls = if env.opt_ff then sent.calls else sent.calls + 1;
      }

  unfoldable pub send_offer : ℕ → Server → Server
  unfolding send_msg
  send_offer ci s =
      let d = (s.board.conns ci).draft in
      send_msg ci (draft_offer d.pick_no draft_picks d.offer0 d.offer1 d.left1 d.left2 d.left3) s

  -- Sending a message changes no connection and no match: it only fills buffers.
  pub put_out-board : (ci : ℕ) (bytes : List ℕ) (s : Server) → (put_out ci bytes s).board ≡ s.board
  unfolding put_out flush_conn
  put_out-board ci bytes s = ground arith

  deliver-board : (ci : ℕ) (b : Option (List ℕ)) (s : Server) → (deliver ci b s).board ≡ s.board
  deliver-board ci none s = refl
  deliver-board ci (some bytes) s = elim (Bool-cases (in_state (s.board.conns ci).state free)) [
    | inl y ↦ rw y refl
    | inr n ↦ rw n (put_out-board ci bytes s)
  ]

  pub send_msg-board : (ci : ℕ) (m : Msg) (s : Server) → (send_msg ci m s).board ≡ s.board
  unfolding send_msg
  send_msg-board ci m s = deliver-board ci (encode m (max_frame_len + 2)) s

  pub send_error-board : (ci code : ℕ) (s : Server) → (send_error ci code s).board ≡ s.board
  unfolding send_error closed
  send_error-board ci code s = send_msg-board ci (error code) s

  pub send_offer-board : (ci : ℕ) (s : Server) → (send_offer ci s).board ≡ s.board
  unfolding send_offer
  send_offer-board ci s = send_msg-board ci _ s

  -- So does a message to each seat of a match.
  pub for_seats-board :
      (body : Side → Server → Server)
      → ((t : Side) (s : Server) → (body t s).board ≡ s.board)
      → (s : Server) → (for_seats body s).board ≡ s.board
  unfolding for_seats
  for_seats-board body h s = h seat1 (body seat0 s) ∙ h seat0 s

  send_start-board : (mi : ℕ) (t : Side) (s : Server) → (send_start mi t s).board ≡ s.board
  unfolding send_start
  send_start-board mi t s = send_msg-board _ _ s

  pub send_round_start-board :
      (mi : ℕ) (s : Server)
      → (d : ℕ) × ((send_round_start mi s).board ≡ with_match mi (set_deadline d) s.board)
  unfolding send_round_start
  send_round_start-board mi s = (
    (if env.opt_ff then 0 else now_ms (for_seats (send_start mi) s) + env.opt_round_ms),
    ap
        (λ (b : Board).
          with_match mi
            (set_deadline
              (if env.opt_ff then 0 else now_ms (for_seats (send_start mi) s) + env.opt_round_ms))
            b)
        (for_seats-board (send_start mi) (send_start-board mi) s),
  )
