-- ===== src/Match/Census/Whole.antt =====
-- Through setup, rounds and locks of core/match.c: the table always holds the two decks.
use deadweight.Prelude.{ℕ, ◌≡◌, refl, ◌∙◌, arith, Bool}
use deadweight.Match.State.{Side, seat0, seat1, Two, at, Seat, Match}
use deadweight.Match.Exchange.{declared, pay}
use deadweight.Match.Riders.{Sums, add_hull, struck}
use deadweight.Match.Gains.{
  heal_seat, armor_up, convert_energy, add_energy, add_next_e, add_vault, clear_debts, gain_own,
  drain_other, lifeline_seat, regen_seat, burn_seat, tick_seat, burn_status, own_status,
}
use deadweight.Match.Resolve.{Plan, plan, start_work, work_of, finish, match_resolve}
use deadweight.Match.Kept.{Each, Kept, attack-Each, meters-Each}
use deadweight.Match.Census.Seats.{IsFull}
use deadweight.Match.Census.Redraw.{Conserves-IsFull}
use deadweight.Match.Census.Works.{total, AreFull, Moved, Moved-trans, cards-Moved, same_seat}

-- A seat with the cards of another, and the same slot locked.
pub record SameCards (q p : Seat) : Type 0 where
  pub hand : p.hand ≡ q.hand
  pub draw : p.draw ≡ q.draw
  pub discard : p.discard ≡ q.discard
  pub slot : p.lock_slot ≡ q.lock_slot

gain_own_cards : (q p : Seat) (a : Sums) → SameCards q p → SameCards q (gain_own a p)
unfolding gain_own clear_debts add_vault add_next_e add_energy convert_energy armor_up heal_seat
    add_hull
gain_own_cards q p a h = ground arith

tick_cards : (q p : Seat) (b : Bool) → SameCards q p → SameCards q (tick_seat b p)
unfolding tick_seat lifeline_seat burn_seat regen_seat add_hull
tick_cards q p b h = ground arith

-- The steps on the meters move no card.
SameCards-Kept : (t : Two Seat) → Kept (λ s p. SameCards (at t s) p)
unfolding add_hull struck drain_other add_vault add_next_e add_energy lifeline_seat burn_status
    own_status
SameCards-Kept t = record {
  hull = λ s p n h. ground arith;
  struck_by = λ s p n b h. ground arith;
  own = λ s p a h. gain_own_cards _ p a h;
  drained = λ s p a h. ground arith;
  levelled = λ s p n h. ground arith;
  rewound = λ s p h. ground arith;
  lifted = λ s p b h. ground arith;
  ticked = λ s p b h. tick_cards _ p b h;
  burnt = λ s p a h. ground arith;
  marked = λ s p a h. ground arith;
}

-- The same hand and piles.
abbrev pub SameBoard : Seat → Seat → Type 0
SameBoard q p = (p.hand ≡ q.hand) × (p.draw ≡ q.draw) × (p.discard ≡ q.discard)

-- A change of both seats that leaves their cards.
pub unmoved_board : (t u : Two Seat) → Each (λ s p. SameBoard (at t s) p) u → AreFull t → Moved t u
unfolding total
unmoved_board t u h f =
    let c0 = same_seat t.at0 u.at0 (h seat0).0 (h seat0).1 (h seat0).2 in
    let c1 = same_seat t.at1 u.at1 (h seat1).0 (h seat1).1 (h seat1).2 in
    record {
      totals = λ x. omega (arith, c0.same_cards x, c1.same_cards x);
      full = λ s. elim s as (λ s. IsFull (at u s)) [
        | seat0 ↦ Conserves-IsFull _ _ c0 (f seat0)
        | seat1 ↦ Conserves-IsFull _ _ c1 (f seat1)
      ];
    }

unmoved : (t u : Two Seat) → Each (λ s p. SameCards (at t s) p) u → AreFull t → Moved t u
unmoved t u h = unmoved_board t u (λ s. ((h s).hand, (h s).draw, (h s).discard))

pay_cards : (p : Seat) → SameCards p (pay p)
unfolding pay
pay_cards p = record { hand = refl; draw = refl; discard = refl; slot = refl }

start_work_cards :
    (t : Two Seat) (pl : Plan) → Each (λ s p. SameCards (at t s) p) (start_work t pl).seats
unfolding start_work
start_work_cards t pl seat0 = pay_cards _
start_work_cards t pl seat1 = pay_cards _

same_declared : (q p : Seat) → SameCards q p → declared q ≡ declared p
unfolding declared
same_declared q p h = rw (h.hand, h.slot)

plan-declared : (t : Two Seat) (round : ℕ) (s : Side) → at (plan t round).decl s ≡ declared (at t s)
unfolding plan
plan-declared t round seat0 = refl
plan-declared t round seat1 = refl

-- A round, from the locked cards to the hands of the next one, loses no card.
pub work_of-Moved : (t : Two Seat) (round : ℕ) → AreFull t → Moved t (work_of t round).seats
unfolding work_of
work_of-Moved t round f =
    let P : Side → Seat → Type 0 = λ s p. SameCards (at t s) p in
    let hit =
      attack-Each P (SameCards-Kept t) _ _ (start_work t (plan t round))
        (start_work_cards t (plan t round)) in
    let done = meters-Each P (SameCards-Kept t) (plan t round) _ _ hit in
    let still = unmoved t _ done f in
    Moved-trans _ _ _ still (
      cards-Moved (plan t round) _ _ (λ s. plan-declared t round s ∙ same_declared _ _ (done s))
        still.full)

finish_cards : (m : Match) → Each (λ s p. SameCards (at m.seats s) p) (finish m).seats
unfolding finish
finish_cards m seat0 = ground arith
finish_cards m seat1 = ground arith

-- Resolving a round whose hands are full keeps every card on the table as often as before, and both
-- hands full.
pub resolve-Moved : (m : Match) → AreFull m.seats → Moved m.seats (match_resolve m).seats
unfolding match_resolve
resolve-Moved m f =
    let one = work_of-Moved m.seats m.round f in
    Moved-trans _ _ _ one (unmoved _ _ (finish_cards _) one.full)
