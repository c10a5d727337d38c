-- ===== src/Match/Bounds/Cards.antt =====
-- The steps of core/match.c that move cards leave the meters in range.
use deadweight.Prelude.{ℕ, zero, suc, arith, Bool-cases, inl, inr, List, get_or}
use deadweight.Prelude.{ℤ, pos, leb_ℤ, pos_part}
use deadweight.Match.State.{Side, other, Two, at, both, no_card, dw_hand, Seat}
use deadweight.Match.Piles.{reshuffle, draw_card, to_discard, draw_into, draw_slots}
use deadweight.Match.Riders.{Sums, Work}
use deadweight.Match.Resolve.{Plan, cards}
use deadweight.Match.Hands.{
  replace_slot, refill, discard_slots, redraw_seat, redraws, differ, swap_hands, random_slot,
  advance, discard_one, discard_loop, lock_one, lock_loop, hand_attacks,
}
use deadweight.Match.Kept.{Each, on_seat-Each, for_seats-Each}
use deadweight.Match.Bounds.Seats.{InRange}

abbrev InRanges : Two Seat → Type 0
InRanges = Each (λ s p. InRange p)

set_hand-InRange : (p : Seat) (h : List ℤ) → InRange p → InRange (record p { hand = h })
set_hand-InRange p h r = ground arith

reshuffle-InRange : (p : Seat) → InRange p → InRange (reshuffle p)
unfolding reshuffle
reshuffle-InRange p r = ground arith

pub draw_into-InRange : (slot : ℕ) (p : Seat) → InRange p → InRange (draw_into slot p)
unfolding draw_into draw_card
draw_into-InRange slot p r = ground (arith, reshuffle-InRange p r)

to_discard-InRange : (p : Seat) (c : ℤ) → InRange p → InRange (to_discard p c)
unfolding to_discard
to_discard-InRange p c r = ground arith

replace-InRange : (slot : ℕ) (c : ℤ) (p : Seat) → InRange p → InRange (replace_slot slot c p)
unfolding replace_slot
replace-InRange slot c p r = draw_into-InRange slot _ (to_discard-InRange p c r)

refill-InRange : (c : ℤ) (p : Seat) → InRange p → InRange (refill c p)
unfolding refill
refill-InRange c p r = elim (Bool-cases (leb_ℤ (pos 0) c)) [
  | inl z ↦ rw z (replace-InRange (pos_part p.lock_slot) c p r)
  | inr z ↦ rw z r
]

discard_slots-InRange : (n i : ℕ) (p : Seat) → InRange p → InRange (discard_slots n i p)
unfolding discard_slots
discard_slots-InRange zero i p r = r
discard_slots-InRange (suc n) i p r =
    discard_slots-InRange n (suc i) _ (set_hand-InRange _ _ (to_discard-InRange p _ r))

pub draw_slots-InRange : (n i : ℕ) (p : Seat) → InRange p → InRange (draw_slots n i p)
unfolding draw_slots
draw_slots-InRange zero i p r = r
draw_slots-InRange (suc n) i p r = draw_slots-InRange n (suc i) _ (draw_into-InRange i p r)

redraw-InRange : (p : Seat) → InRange p → InRange (redraw_seat p)
unfolding redraw_seat
redraw-InRange p r = draw_slots-InRange dw_hand 0 _ (discard_slots-InRange dw_hand 0 p r)

redraws-InRange : (a : Two Sums) (w : Work) → InRanges w.seats → InRanges (redraws a w).seats
unfolding redraws
redraws-InRange a w e =
    for_seats-Each (λ s p. InRange p) _ w
      (λ s v h. elim (Bool-cases (at a s).redraw) [
        | inl z ↦ rw z (on_seat-Each (λ s p. InRange p) s _ _ v (λ p q. redraw-InRange p q) h)
        | inr z ↦ rw z h
      ])
      e

swap-InRange : (a : Two Sums) (w : Work) → InRanges w.seats → InRanges (swap_hands a w).seats
unfolding swap_hands
swap-InRange a w e Side.seat0 = elim (Bool-cases (differ a.at0.swap a.at1.swap)) [
  | inl z ↦ rw z (set_hand-InRange _ _ (e Side.seat0))
  | inr z ↦ rw z (e Side.seat0)
]
swap-InRange a w e Side.seat1 = elim (Bool-cases (differ a.at0.swap a.at1.swap)) [
  | inl z ↦ rw z (set_hand-InRange _ _ (e Side.seat1))
  | inr z ↦ rw z (e Side.seat1)
]

set_rfx-InRange : (p : Seat) (n : ℕ) → InRange p → InRange (record p { rfx = n })
set_rfx-InRange p n r = ground arith

set_next_lock-InRange : (p : Seat) (n : ℕ) → InRange p → InRange (record p { next_lock = n })
set_next_lock-InRange p n r = ground arith

advance-InRange : (s : Side) (w : Work) → InRanges w.seats → InRanges (advance s w).seats
unfolding advance
advance-InRange s w e = on_seat-Each (λ s p. InRange p) s _ _ w (λ p q. set_rfx-InRange p _ q) e

discard_one-InRange : (s : Side) (w : Work) → InRanges w.seats → InRanges (discard_one s w).seats
unfolding discard_one
discard_one-InRange s w e =
    elim (Bool-cases
      (leb_ℤ (pos 0) (get_or (at w.seats (other s)).hand (random_slot s w) no_card))) [
        | inl z ↦ rw z (
            on_seat-Each (λ s p. InRange p) s _ _ _ (λ p q. q)
              (on_seat-Each (λ s p. InRange p) (other s) _ _ _ (λ p q. replace-InRange _ _ p q)
                (advance-InRange s w e)))
        | inr z ↦ rw z (advance-InRange s w e)
      ]

discard_loop-InRange :
    (n : ℕ) (s : Side) (w : Work) → InRanges w.seats → InRanges (discard_loop n s w).seats
unfolding discard_loop
discard_loop-InRange zero s w e = e
discard_loop-InRange (suc n) s w e = discard_loop-InRange n s _ (discard_one-InRange s w e)

lock_one-InRange : (s : Side) (w : Work) → InRanges w.seats → InRanges (lock_one s w).seats
unfolding lock_one
lock_one-InRange s w e =
    on_seat-Each (λ s p. InRange p) s _ _ _ (λ p q. q)
      (on_seat-Each (λ s p. InRange p) (other s) _ _ _ (λ p q. set_next_lock-InRange p _ q)
        (advance-InRange s w e))

lock_loop-InRange :
    (n : ℕ) (s : Side) (w : Work) → InRanges w.seats → InRanges (lock_loop n s w).seats
unfolding lock_loop
lock_loop-InRange zero s w e = e
lock_loop-InRange (suc n) s w e = lock_loop-InRange n s _ (lock_one-InRange s w e)

attacks-InRange : (a : Two Sums) (w : Work) → InRanges w.seats → InRanges (hand_attacks a w).seats
unfolding hand_attacks
attacks-InRange a w e =
    for_seats-Each (λ s p. InRange p) _ w
      (λ s v h. lock_loop-InRange _ s _ (discard_loop-InRange _ s v h)) e

refills-InRange :
    (decl : Two ℤ) (w : Work)
    → InRanges w.seats
    → InRanges (both (λ s. refill (at decl s) (at w.seats s)))
refills-InRange decl w e Side.seat0 = refill-InRange decl.at0 _ (e Side.seat0)
refills-InRange decl w e Side.seat1 = refill-InRange decl.at1 _ (e Side.seat1)

pub cards-InRange :
    (pl : Plan) (a : Two Sums) (w : Work) → InRanges w.seats → InRanges (cards pl a w).seats
unfolding cards
cards-InRange pl a w e =
    attacks-InRange a _ (swap-InRange a _ (redraws-InRange a _ (refills-InRange pl.decl w e)))
