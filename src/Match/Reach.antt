-- ===== src/Match/Reach.antt =====
-- The states that a match of core/match.c goes through as apps/server/main.c drives it: it is set
-- up and its first round begins, the seats lock actions, and once both are locked the round
-- resolves and, unless the match is over, the next one begins.
pub mod Locking
pub mod Ending
pub mod Length
pub mod Invariant
use deadweight.Prelude.{
  ℕ, suc, ◌+◌, ◌≤◌, ◌<◌, ◌≡◌, refl, arith, Bool, true, false, ◌&&◌, ◌||◌, if◌then◌else◌, Bool-cases,
  inl, inr, ltb, ◌==◌, List, Option,
}
use deadweight.Prelude.{ℤ, pos, negsuc, ◌≤ℤ◌, ◌+ℤ◌, ltb_ℤ, leb_ℤ, eqb_ℤ, i8, i8_fits}
use deadweight.Cards.Rules.{is_legal_play, max_rounds, match_decided, bankrupt}
use deadweight.Match.State.{Side, seat0, seat1, other, Two, at, put, both, Seat, Match, dw_hand}
use deadweight.Match.Setup.{
  hand_at, bit_at, slot_verdict, match_lock, begin_seat, begin_round, both_locked, init_seat,
  match_init_decks,
}
use deadweight.Match.Exchange.{declared, pay}
use deadweight.Match.Riders.{Sums, Work}
use deadweight.Match.Resolve.{
  Plan, plan, start_work, meters, cards, work_of, loses, finish, match_resolve,
}
use deadweight.Match.Kept.{Each, attack-Each, meters-Each, put-Each}
use deadweight.Match.Bounds.Seats.{InRange, InRange-Kept}
use deadweight.Match.Bounds.Cards.{cards-InRange, draw_slots-InRange}
use deadweight.Match.Bounds.Rounds.{Affordable, pay-InRange, begin_seat-InRange}

pub data Reach (deck0 deck1 : Option (List ℤ)) : Match → Type 0 where
  start : (seed : ℕ) → Reach deck0 deck1 (begin_round (match_init_decks seed deck0 deck1))
  lock :
      {m : Match} (s : Side) (slot : ℤ)
      → Reach deck0 deck1 m
      → Reach deck0 deck1 (match_lock m s slot).0
  next :
      {m : Match}
      → Reach deck0 deck1 m
      → both_locked m ≡ true
      → (match_resolve m).done ≡ false
      → Reach deck0 deck1 (begin_round (match_resolve m))

-- What holds of a match while a round is open.
pub record IsPlayable (m : Match) : Type 0 where
  pub in_range : Each (λ s p. InRange p) m.seats
  pub affordable : Each (λ s p. Affordable p) m.seats
  pub open_round : m.done ≡ false
  pub first : 1 ≤ m.round
  pub last : m.round ≤ 100
