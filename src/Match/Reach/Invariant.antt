-- ===== src/Match/Reach/Invariant.antt =====
-- Every state that a match reaches is playable, so the meters are always in range.
use deadweight.Prelude.{
  ℕ, ◌+◌, ◌≤◌, ◌<◌, ◌≡◌, refl, sym, ◌∙◌, ap, subst, arith, Bool, true, false, List, Option,
}
use deadweight.Prelude.{ℤ, pos, negsuc}
use deadweight.Match.State.{Side, seat0, seat1, Two, Seat, Match}
use deadweight.Match.Setup.{match_lock, begin_seat, begin_round, init_seat, match_init_decks}
use deadweight.Match.Exchange.{declared}
use deadweight.Match.Resolve.{Plan, start_work, work_of, match_resolve}
use deadweight.Match.Kept.{Each, attack-Each, meters-Each, put-Each}
use deadweight.Match.Bounds.Seats.{InRange, InRange-Kept}
use deadweight.Match.Bounds.Cards.{cards-InRange, draw_slots-InRange}
use deadweight.Match.Bounds.Rounds.{Affordable, pay-InRange, begin_seat-InRange}
use deadweight.Match.Reach.{Reach, start, lock, next, IsPlayable}
use deadweight.Match.Reach.Locking.{locked_seat-Affordable, locked_seat-InRange, lock_cases}
use deadweight.Match.Reach.Ending.{finish-InRange, finish_open}

init_seat-InRange : (seed : ℕ) (s : Side) (dk : Option (List ℤ)) → InRange (init_seat seed s dk)
unfolding init_seat
init_seat-InRange seed s dk = draw_slots-InRange 4 0 _ (record {
  hull = omega arith;
  hull_start = omega arith;
  hull_prev = omega arith;
  vault = omega arith;
  next_e = omega arith;
  energy = unfold deadweight.Prelude.u8 in omega arith;
  armor = omega arith;
})

begin_seat-Affordable : (p : Seat) → Affordable (begin_seat p)
unfolding begin_seat declared
begin_seat-Affordable p h = cc

begin_round-Each :
    (m : Match) → Each (λ s p. InRange p) m.seats → Each (λ s p. InRange p) (begin_round m).seats
unfolding begin_round
begin_round-Each m e seat0 = begin_seat-InRange _ (e seat0)
begin_round-Each m e seat1 = begin_seat-InRange _ (e seat1)

begin_round-Affordable : (m : Match) → Each (λ s p. Affordable p) (begin_round m).seats
unfolding begin_round
begin_round-Affordable m seat0 = begin_seat-Affordable _
begin_round-Affordable m seat1 = begin_seat-Affordable _

begin_round-IsPlayable :
    (m : Match)
    → Each (λ s p. InRange p) m.seats
    → m.done ≡ false
    → m.round < 100
    → IsPlayable (begin_round m)
begin_round-IsPlayable m e d r = record {
  in_range = begin_round-Each m e;
  affordable = begin_round-Affordable m;
  open_round = unfold begin_round in d;
  first = unfold begin_round in omega arith;
  last = unfold begin_round in omega arith;
}

start-IsPlayable :
    (seed : ℕ) (deck0 deck1 : Option (List ℤ))
    → IsPlayable (begin_round (match_init_decks seed deck0 deck1))
start-IsPlayable seed deck0 deck1 =
    begin_round-IsPlayable (match_init_decks seed deck0 deck1) (ranges)
      (unfold match_init_decks in refl) (unfold match_init_decks in omega arith)
  where
    ranges : Each (λ s p. InRange p) (match_init_decks seed deck0 deck1).seats
    ranges seat0 = unfold match_init_decks in init_seat-InRange seed seat0 deck0
    ranges seat1 = unfold match_init_decks in init_seat-InRange seed seat1 deck1

start_work-Each :
    (seats : Two Seat) (pl : Plan)
    → Each (λ s p. Affordable p) seats
    → Each (λ s p. InRange p) seats
    → Each (λ s p. InRange p) (start_work seats pl).seats
unfolding start_work
start_work-Each seats pl ok e seat0 = pay-InRange _ (ok seat0) (e seat0)
start_work-Each seats pl ok e seat1 = pay-InRange _ (ok seat1) (e seat1)

pub work_of-InRange :
    (seats : Two Seat) (round : ℕ)
    → Each (λ s p. Affordable p) seats
    → Each (λ s p. InRange p) seats
    → Each (λ s p. InRange p) (work_of seats round).seats
unfolding work_of
work_of-InRange seats round ok e = cards-InRange _ _ _ (
    meters-Each (λ s p. InRange p) InRange-Kept _ _ _
      (attack-Each (λ s p. InRange p) InRange-Kept _ _ _ (start_work-Each seats _ ok e)))

-- Resolving a playable match, whatever was locked, leaves every meter of both seats in its range.
pub resolve-InRange : (m : Match) → IsPlayable m → Each (λ s p. InRange p) (match_resolve m).seats
unfolding match_resolve
resolve-InRange m v = finish-InRange _ (work_of-InRange m.seats m.round v.affordable v.in_range)

lock-IsPlayable :
    (m : Match) (s : Side) (slot : ℤ) → IsPlayable m → IsPlayable (match_lock m s slot).0
lock-IsPlayable m s slot v = lock_cases IsPlayable m s slot v λ h. record {
  in_range =
      put-Each (λ s p. InRange p) m.seats s _ (locked_seat-InRange _ slot (v.in_range s))
        v.in_range;
  affordable =
      put-Each (λ s p. Affordable p) m.seats s _ (locked_seat-Affordable _ slot h) v.affordable;
  open_round = v.open_round;
  first = v.first;
  last = v.last;
}

next-IsPlayable :
    (m : Match)
    → IsPlayable m
    → (match_resolve m).done ≡ false
    → IsPlayable (begin_round (match_resolve m))
next-IsPlayable m v d =
    begin_round-IsPlayable (match_resolve m) (resolve-InRange m v) d (below_last d)
  where
    below_last : (match_resolve m).done ≡ false → (match_resolve m).round < 100
    below_last =
        unfold match_resolve in
        λ h. subst (λ (x : Match). x.round < 100) (sym (finish_open _ h).0) (finish_open _ h).1

-- Every state that a match reaches is playable: the meters are in range, a declared card can be paid
-- for, and the match is not over, in a round from 1 to 100.
pub Reach-IsPlayable :
    {deck0 deck1 : Option (List ℤ)} {m : Match} → Reach deck0 deck1 m → IsPlayable m
Reach-IsPlayable {deck0} {deck1} (start seed) = start-IsPlayable seed deck0 deck1
Reach-IsPlayable (lock s slot r) = lock-IsPlayable _ s slot (Reach-IsPlayable r)
Reach-IsPlayable (next r b d) = next-IsPlayable _ (Reach-IsPlayable r) d
