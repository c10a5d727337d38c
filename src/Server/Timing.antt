-- ===== src/Server/Timing.antt =====
-- The timers of apps/server/main.c keep the tables.
use deadweight.Prelude.{
  ℕ, ◌+◌, ◌≡◌, refl, ◌∙◌, arith, Bool, true, false, Bool-cases, inl, inr, if◌then◌else◌, suc, zero,
}
use deadweight.Prelude.{negsuc}
use deadweight.Match.State.{Side, seat0, seat1, other, at, put, for_seats}
use deadweight.Match.State as Engine
use deadweight.Match.Setup.{match_lock, slot_verdict, both_locked}
use deadweight.Match.Reach.{IsPlayable}
use deadweight.Match.Reach.Invariant.{Reach-IsPlayable}
use deadweight.Server.State.{MatchSlot, Server, Env, with_match, max_conns, max_matches, err_auth}
use deadweight.Server.Sessions.{lock_in}
use deadweight.Server.Sending.{send_error}
use deadweight.Server.Ticking.{
  timed_out, is_due, pass_seat, pass_seats, expire_conns, time_out, expire_matches, expire_timers,
}
use deadweight.Server.Fair.{IsGame, IsFair}
use deadweight.Server.Rounds.{resolve_round-IsFair}
use deadweight.Server.Handled.{IsTidy, tidy, if-IsTidy, send_error-IsFair}
use deadweight.Server.Messages.{lock-IsGame}

pass_seat-IsGame : (t : Side) (mt : MatchSlot) → IsGame mt → IsGame (pass_seat t mt)
unfolding pass_seat
pass_seat-IsGame t mt g = elim (Bool-cases (at mt.m.seats t).locked) [
  | inl y ↦ rw y g
  | inr n ↦ rw n (lock-IsGame t (negsuc 0) mt g)
]

-- An open round accepts a pass from either seat.
pass-locks :
    (m : Engine.Match)
    → IsPlayable m
    → (m.seats.at0.locked ≡ false → (match_lock m seat0 (negsuc 0)).0.seats.at0.locked ≡ true)
      × (m.seats.at1.locked ≡ false → (match_lock m seat1 (negsuc 0)).0.seats.at1.locked ≡ true)
      × ((match_lock m seat1 (negsuc 0)).0.seats.at0.locked ≡ m.seats.at0.locked)
unfolding match_lock slot_verdict
pass-locks m p = (
  λ h. ground (arith, h, p.open_round, p.first),
  λ h. ground (arith, h, p.open_round, p.first),
  ground (arith, p.open_round),
)

either_slot :
    (P : MatchSlot → Type 0) (p : Bool) (x y : MatchSlot)
    → (p ≡ true → P x)
    → (p ≡ false → P y)
    → P (if p then x else y)
either_slot P true x y a b = a refl
either_slot P false x y a b = b refl

pass_seat-locked :
    (mt : MatchSlot)
    → IsGame mt
    → ((pass_seat seat0 mt).m.seats.at0.locked ≡ true)
      × ((pass_seat seat1 mt).m.seats.at1.locked ≡ true)
      × ((pass_seat seat1 mt).m.seats.at0.locked ≡ mt.m.seats.at0.locked)
unfolding pass_seat lock_in
pass_seat-locked mt g =
    let (first, second, kept) = pass-locks mt.m (Reach-IsPlayable g.reached) in
    (
      either_slot (λ x. x.m.seats.at0.locked ≡ true) mt.m.seats.at0.locked mt
          (lock_in seat0 (negsuc 0) mt) (λ y. y) first,
      either_slot (λ x. x.m.seats.at1.locked ≡ true) mt.m.seats.at1.locked mt
          (lock_in seat1 (negsuc 0) mt) (λ y. y) second,
      either_slot (λ x. x.m.seats.at0.locked ≡ mt.m.seats.at0.locked) mt.m.seats.at1.locked mt
          (lock_in seat1 (negsuc 0) mt) (λ y. refl) (λ n. kept),
    )

pass_seats-locked : (mt : MatchSlot) → IsGame mt → both_locked (pass_seats mt).m ≡ true
unfolding pass_seats for_seats both_locked
pass_seats-locked mt g =
    let one = pass_seat-locked mt g in
    let two = pass_seat-locked (pass_seat seat0 mt) (pass_seat-IsGame seat0 mt g) in
    ground (arith, one.0, two.1, two.2)

pub pass_seat-same :
    (t : Side) (mt : MatchSlot)
    → ((pass_seat t mt).conn ≡ mt.conn) × ((pass_seat t mt).active ≡ mt.active)
unfolding pass_seat lock_in
pass_seat-same t mt = elim (Bool-cases (at mt.m.seats t).locked) [
  | inl y ↦ rw y (refl, refl)
  | inr n ↦ rw n (refl, refl)
]

module _ (env : Env) where
  pub time_out-IsFair :
      (mi : ℕ) (s : Server)
      → IsFair s.board
      → (s.board.matches mi).active ≡ true
      → IsFair (time_out env mi s).board
  unfolding time_out pass_seats for_seats
  time_out-IsFair mi s fair run =
      let mt = s.board.matches mi in
      let one = pass_seat-same seat0 mt in
      let two = pass_seat-same seat1 (pass_seat seat0 mt) in
      let game = fair.games mi run in
      resolve_round-IsFair env mi pass_seats s.board
        (record s { board = with_match mi pass_seats s.board }) refl fair run (two.0 ∙ one.0)
        (two.1 ∙ one.1 ∙ run)
        (pass_seat-IsGame seat1 (pass_seat seat0 mt) (pass_seat-IsGame seat0 mt game))
        (pass_seats-locked mt game)

  pub expire_conns-IsFair :
      (now n : ℕ) (s : Server) → IsFair s.board → IsFair (expire_conns env now n s).board
  unfolding expire_conns
  expire_conns-IsFair now zero s fair = fair
  expire_conns-IsFair now (suc i) s fair =
      let before : Server = expire_conns env now i s in
      let kept = expire_conns-IsFair now i s fair in
      let done : IsTidy (expire_conns env now (suc i) s) =
        if-IsTidy {p = timed_out now (before.board.conns i)}
          (λ e.
            tidy (send_error env i err_auth before) (send_error-IsFair env i err_auth before kept))
          λ e. tidy before kept in
      done.fair

  pub expire_matches-IsFair :
      (now n : ℕ) (s : Server) → IsFair s.board → IsFair (expire_matches env now n s).board
  unfolding expire_matches is_due
  expire_matches-IsFair now zero s fair = fair
  expire_matches-IsFair now (suc i) s fair =
      let before : Server = expire_matches env now i s in
      let kept = expire_matches-IsFair now i s fair in
      let done : IsTidy (expire_matches env now (suc i) s) =
        if-IsTidy {p = is_due now (before.board.matches i)}
          (λ e. tidy (time_out env i before) (time_out-IsFair i before kept (ground (arith, e))))
          λ e. tidy before kept in
      done.fair

  pub expire_timers-IsFair : (s : Server) → IsFair s.board → IsFair (expire_timers env s).board
  unfolding expire_timers
  expire_timers-IsFair s fair =
      let now : ℕ = env.now s.calls in
      let told : Server = expire_conns env now max_conns (record s { calls = s.calls + 1 }) in
      let kept = expire_conns-IsFair now max_conns (record s { calls = s.calls + 1 }) fair in
      let done : IsTidy (expire_timers env s) =
        if-IsTidy {p = env.opt_ff} (λ e. tidy told kept)
          λ e.
            tidy (expire_matches env now max_matches told)
              (expire_matches-IsFair now max_matches told kept) in
      done.fair
