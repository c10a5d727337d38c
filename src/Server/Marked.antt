-- ===== src/Server/Marked.antt =====
-- A connection of apps/server/main.c that is marked to be closed stays so, whatever is sent.
use deadweight.Prelude.{
  ℕ, ◌+◌, ◌==◌, ◌≡◌, ◌⊎◌, refl, ap, subst, arith, Bool, true, false, Bool-cases, inl, inr,
  if◌then◌else◌, suc, zero, List, [], ◌∷◌, ◌++◌, Option, none, some, length, drop, ltb,
}
use deadweight.Match.State.{Side, seat0, seat1, Two, Outcome, for_seats}
use deadweight.Match.Resolve.{outcome}
use deadweight.Wire.Message.{Msg, error, max_frame_len}
use deadweight.Wire.Encode.{encode}
use deadweight.Server.State.{
  Link, Server, Env, Sent, wrote, would_block, failed, write, free, in_state, out_buf, with_match,
}
use deadweight.Server.Sound.{write_there}
use deadweight.Server.Sending.{
  broken, closed, flush_loop, flush_conn, put_out, deliver, send_msg, send_error, send_start,
  send_round_start,
}
use deadweight.Server.Ending.{
  enqueue_job, count_match, end_seat, report_match, end_match, send_result, resolved, next_round,
  resolve_round,
}

-- The connection is closed once its last bytes have gone out.
abbrev pub Closing : ℕ → Server → Type 0
Closing cj s = (s.links cj).closing ≡ true

pub if-Closing :
    (cj : ℕ) (p : Bool) (s t : Server)
    → Closing cj s
    → Closing cj t
    → Closing cj (if p then s else t)
if-Closing cj true s t a b = a
if-Closing cj false s t a b = b

write-Closing :
    (links : ℕ → Link) (ci cj : ℕ) (l : Link)
    → (links cj).closing ≡ true
    → ((links ci).closing ≡ true → l.closing ≡ true)
    → (write links ci l cj).closing ≡ true
unfolding write
write-Closing links ci cj l h keeps = elim (Bool-cases (cj == ci)) [
  | inl y ↦
      let same : cj ≡ ci = ground (arith, y) in
      rw y (keeps (subst (λ (i : ℕ). (links i).closing ≡ true) same h))
  | inr n ↦ rw n h
]

waiting-Closing :
    (out : List ℕ) (l : Link) (calls : ℕ) (more : Link × ℕ)
    → l.closing ≡ true
    → more.0.closing ≡ true
    → (elim out as (λ x. Link × ℕ) [ [] ↦ (l, calls) | b ∷ bs ↦ more ]).0.closing ≡ true
waiting-Closing [] l calls more h k = h
waiting-Closing (b ∷ bs) l calls more h k = k

sent-Closing :
    (r : Sent) (l : Link) (calls : ℕ) (next : ℕ → Link × ℕ)
    → l.closing ≡ true
    → ((k : ℕ) → (next k).0.closing ≡ true)
    → (elim r as (λ x. Link × ℕ) [
      | wrote zero ↦ (broken l, calls + 1)
      | wrote (suc k) ↦ next k
      | would_block ↦ (l, calls + 1)
      | failed ↦ (broken l, calls + 1)
    ]).0.closing
      ≡ true
unfolding broken
sent-Closing (wrote zero) l calls next h keeps = refl
sent-Closing (wrote (suc k)) l calls next h keeps = keeps k
sent-Closing would_block l calls next h keeps = h
sent-Closing failed l calls next h keeps = refl

module _ (env : Env) where
  flush_loop-Closing :
      (n calls : ℕ) (l : Link) → l.closing ≡ true → (flush_loop env n calls l).0.closing ≡ true
  unfolding flush_loop broken
  flush_loop-Closing zero calls l h = h
  flush_loop-Closing (suc n) calls l h = waiting-Closing l.out l calls _ h (
      sent-Closing (env.dw_send calls l.out) l calls
        (λ k. flush_loop env n (calls + 1) (record l { out = drop (suc k) l.out })) h
        (λ k. flush_loop-Closing n (calls + 1) (record l { out = drop (suc k) l.out }) h))

  flush_conn-Closing : (ci cj : ℕ) (s : Server) → Closing cj s → Closing cj (flush_conn env ci s)
  unfolding flush_conn
  flush_conn-Closing ci cj s h =
      write-Closing s.links ci cj _ h
        (λ e. flush_loop-Closing (length (s.links ci).out) s.calls (s.links ci) e)

  put_out-Closing :
      (ci cj : ℕ) (bytes : List ℕ) (s : Server) → Closing cj s → Closing cj (put_out env ci bytes s)
  unfolding put_out broken
  put_out-Closing ci cj bytes s h =
      if-Closing cj (ltb out_buf (length (s.links ci).out + length bytes)) _ _
        (write-Closing s.links ci cj _ h (λ e. refl))
        (flush_conn-Closing ci cj
          (record s {
            links = write s.links ci (record (s.links ci) { out = (s.links ci).out ++ bytes });
          })
          (write-Closing s.links ci cj _ h (λ e. e)))

  deliver-Closing :
      (ci cj : ℕ) (bytes : Option (List ℕ)) (s : Server)
      → Closing cj s
      → Closing cj (deliver env ci bytes s)
  deliver-Closing ci cj none s h = h
  deliver-Closing ci cj (some bytes) s h =
      if-Closing cj (in_state (s.board.conns ci).state free) _ _ h (put_out-Closing ci cj bytes s h)

  send_msg-Closing :
      (ci cj : ℕ) (m : Msg) (s : Server) → Closing cj s → Closing cj (send_msg env ci m s)
  unfolding send_msg
  send_msg-Closing ci cj m s h = deliver-Closing ci cj (encode m (max_frame_len + 2)) s h

  -- An ERROR closes the connection that it goes to, and opens no other.
  pub send_error-Closing :
      (ci cj code : ℕ) (s : Server)
      → ((cj == ci) ≡ true) ⊎ Closing cj s
      → Closing cj (send_error env ci code s)
  unfolding send_error closed
  send_error-Closing ci cj code s (inl y) =
      let sent : Server = send_msg env ci (error code) s in
      ap (λ (l : Link). l.closing)
        (write_there sent.links ci (record (sent.links ci) { closing = true }) cj y)
  send_error-Closing ci cj code s (inr h) =
      write-Closing _ ci cj _ (send_msg-Closing ci cj _ s h) (λ e. refl)

  seats-Closing :
      (body : Side → Server → Server) (cj : ℕ)
      → ((t : Side) (s : Server) → Closing cj s → Closing cj (body t s))
      → (s : Server) → Closing cj s
      → Closing cj (for_seats body s)
  unfolding for_seats
  seats-Closing body cj keeps s h = keeps seat1 (body seat0 s) (keeps seat0 s h)

  report_match-Closing :
      (mi cj : ℕ) (s : Server) → Closing cj s → Closing cj (report_match env mi s)
  unfolding report_match enqueue_job
  report_match-Closing mi cj s h = ground (arith, h)

  end_match-Closing : (mi cj : ℕ) (s : Server) → Closing cj s → Closing cj (end_match env mi s)
  unfolding end_match end_seat
  end_match-Closing mi cj s h =
      let told : Server = for_seats (end_seat env mi) s in
      let mt = told.board.matches mi in
      let bots : ℕ = (told.board.conns mt.conn.at0).kind + (told.board.conns mt.conn.at1).kind in
      report_match-Closing mi cj (record told { stats = count_match mt bots told.stats })
        (seats-Closing (end_seat env mi) cj (λ t s h. send_msg-Closing _ cj _ s h) s h)

  start_round-Closing :
      (mi cj : ℕ) (s : Server) → Closing cj s → Closing cj (send_round_start env mi s)
  unfolding send_round_start send_start
  start_round-Closing mi cj s h =
      seats-Closing (send_start env mi) cj (λ t s h. send_msg-Closing _ cj _ s h) s h

  pub resolve_round-Closing :
      (mi cj : ℕ) (s : Server) → Closing cj s → Closing cj (resolve_round env mi s)
  unfolding resolve_round send_result
  resolve_round-Closing mi cj s h =
      let o : Two Outcome = outcome (s.board.matches mi).m in
      let told : Server =
        for_seats (send_result env mi o) (record s { board = with_match mi resolved s.board }) in
      let kept : Closing cj told =
        seats-Closing (send_result env mi o) cj (λ t s h. send_msg-Closing _ cj _ s h) _ h in
      if-Closing cj (told.board.matches mi).m.done _ _ (end_match-Closing mi cj told kept) (
        start_round-Closing mi cj (record told { board = with_match mi next_round told.board })
          kept)
