-- ===== src/Match/Census/Works.antt =====
-- Step 6 of `dw_match_resolve` of core/match.c, on both seats: refills, redraws, swapped hands,
-- forced discards and locks lose no card and leave no empty slot.
use deadweight.Prelude.{
  ℕ, zero, suc, ◌+◌, ◌^◌, u8, bit_or, ◌<◌, ◌≡◌, refl, sym, ◌∙◌, ap, arith, true, length, get_or,
  Bool-cases, inl, inr,
}
use deadweight.Prelude.{ℤ, pos, pos_part, leb_ℤ}
use deadweight.Match.State.{
  Side, seat0, seat1, other, Two, at, put, for_seats, both, no_card, dw_hand, Seat,
}
use deadweight.Match.Setup.{hand_at}
use deadweight.Match.Exchange.{declared}
use deadweight.Match.Riders.{Sums, Tally, Work, on_seat}
use deadweight.Match.Hands.{
  replace_slot, refill, redraw_seat, redraws, differ, swap_hands, random_slot, advance, discard_one,
  discard_loop, free_slot, lock_one, lock_loop, hand_attacks,
}
use deadweight.Match.Resolve.{Plan, cards}
use deadweight.Match.Kept.{Each, put-Each}
use deadweight.Match.Census.Count.{get_or_in_range}
use deadweight.Match.Census.Seats.{held, in_piles, piles, IsFull}
use deadweight.Match.Census.Redraw.{
  Conserves, Conserves-IsFull, replace-Conserves, redraw-Conserves,
}

-- How often a card lies on the whole table.
unfoldable pub total : ℤ → Two Seat → ℕ
total x t = held x t.at0 + held x t.at1

abbrev pub AreFull : Two Seat → Type 0
AreFull = Each (λ s p. IsFull p)

-- A change of the table that keeps every card on it, and both seats full.
pub record Moved (t u : Two Seat) : Type 0 where
  pub totals : (x : ℤ) → total x u ≡ total x t
  pub full : AreFull u

Moved-refl : (t : Two Seat) → AreFull t → Moved t t
Moved-refl t f = record { totals = λ x. refl; full = f }

pub Moved-trans : (t u v : Two Seat) → Moved t u → Moved u v → Moved t v
Moved-trans t u v a b = record { totals = λ x. b.totals x ∙ a.totals x; full = b.full }

put-Moved :
    (t : Two Seat) (s : Side) (p : Seat) → AreFull t → Conserves (at t s) p → Moved t (put t s p)
unfolding total
put-Moved t seat0 p f c = record {
  totals = λ x. omega (arith, c.same_cards x);
  full = put-Each (λ s p. IsFull p) t seat0 p (Conserves-IsFull _ p c (f seat0)) f;
}
put-Moved t seat1 p f c = record {
  totals = λ x. omega (arith, c.same_cards x);
  full = put-Each (λ s p. IsFull p) t seat1 p (Conserves-IsFull _ p c (f seat1)) f;
}

on_seat-Moved :
    (s : Side) (f : Seat → Seat) (g : Tally → Tally) (w : Work)
    → Conserves (at w.seats s) (f (at w.seats s))
    → AreFull w.seats
    → Moved w.seats (on_seat s f g w).seats
unfolding on_seat
on_seat-Moved s f g w c full = put-Moved w.seats s _ full c

for_seats-Moved :
    (body : Side → Work → Work) (w : Work)
    → ((s : Side) (v : Work) → AreFull v.seats → Moved v.seats (body s v).seats)
    → AreFull w.seats
    → Moved w.seats (for_seats body w).seats
unfolding for_seats
for_seats-Moved body w step f =
    let first = step seat0 w f in Moved-trans _ _ _ first (step seat1 (body seat0 w) first.full)

pub same_seat :
    (p q : Seat) → q.hand ≡ p.hand → q.draw ≡ p.draw → q.discard ≡ p.discard → Conserves p q
same_seat p q h d e = record {
  same_cards = λ x. unfold held in_piles in ground arith;
  same_piles = unfold piles in ground arith;
  same_hand = ap length h;
}

declared_real :
    (p : Seat)
    → leb_ℤ (pos 0) (declared p) ≡ true
    → declared p ≡ get_or p.hand (pos_part p.lock_slot) no_card
unfolding declared hand_at
declared_real p h = ground arith

-- The played card goes to the discard pile, and its slot refills.
pub refill-Conserves : (p : Seat) → IsFull p → Conserves p (refill (declared p) p)
unfolding refill
refill-Conserves p f = elim (Bool-cases (leb_ℤ (pos 0) (declared p))) [
  | inr z ↦ rw z (same_seat p p refl refl refl)
  | inl z ↦ rw z (
      rw (declared_real p z) (
        replace-Conserves (pos_part p.lock_slot) p f (
          omega (
            arith,
            f.hand_length,
            get_or_in_range p.hand (pos_part p.lock_slot) (rw (declared_real p z) at z),
          ))))
]

redraws-Moved : (a : Two Sums) (w : Work) → AreFull w.seats → Moved w.seats (redraws a w).seats
unfolding redraws
redraws-Moved a w = for_seats-Moved _ w (λ s v f. elim (Bool-cases (at a s).redraw) [
  | inl z ↦ rw z (on_seat-Moved s redraw_seat _ v (redraw-Conserves _ (f s)) f)
  | inr z ↦ rw z (Moved-refl _ f)
])

swapped-IsFull : (p q : Seat) → IsFull p → IsFull q → IsFull (record p { hand = q.hand })
unfolding held piles in_piles
swapped-IsFull p q f g = record {
  hand_length = g.hand_length;
  no_gap = λ n. omega (arith, f.no_gap n, g.no_gap n);
  room = f.room;
}

swap-Moved : (a : Two Sums) (w : Work) → AreFull w.seats → Moved w.seats (swap_hands a w).seats
unfolding swap_hands total held
swap-Moved a w f = elim (Bool-cases (differ a.at0.swap a.at1.swap)) [
  | inr z ↦ rw z (Moved-refl _ f)
  | inl z ↦ rw z (record { totals = λ x. unfold in_piles in omega arith; full = full })
]
  where
    full : AreFull (record {
      at0 = record (w.seats.at0) { hand = w.seats.at1.hand };
      at1 = record (w.seats.at1) { hand = w.seats.at0.hand };
    })
    full seat0 = swapped-IsFull _ _ (f seat0) (f seat1)
    full seat1 = swapped-IsFull _ _ (f seat1) (f seat0)

advance-Moved : (s : Side) (w : Work) → AreFull w.seats → Moved w.seats (advance s w).seats
unfolding advance
advance-Moved s w f = on_seat-Moved s _ _ w (same_seat _ _ refl refl refl) f

-- Advancing one seat's stream leaves the other seat as it is.
advance-other : (s : Side) (w : Work) → at (advance s w).seats (other s) ≡ at w.seats (other s)
unfolding advance on_seat other
advance-other seat0 w = refl
advance-other seat1 w = refl

taken-Moved :
    (s : Side) (slot : ℕ) (w : Work)
    → slot < 4
    → AreFull w.seats
    → Moved w.seats
        (on_seat s (replace_slot slot (get_or (at w.seats s).hand slot no_card)) (λ t. t) w).seats
taken-Moved s slot w lt f = on_seat-Moved s _ _ w (replace-Conserves slot (at w.seats s) (f s) lt) f

slot-lt : (s : Side) (w : Work) → random_slot s w < 4
unfolding random_slot
slot-lt s w = omega arith

discard_one-Moved : (s : Side) (w : Work) → AreFull w.seats → Moved w.seats (discard_one s w).seats
unfolding discard_one
discard_one-Moved s w f =
    elim (Bool-cases
      (leb_ℤ (pos 0) (get_or (at w.seats (other s)).hand (random_slot s w) no_card))) [
        | inr z ↦ rw z (advance-Moved s w f)
        | inl z ↦ rw z (
            Moved-trans _ _ _ moved
              (on_seat-Moved s (λ p. p) _ _ (same_seat _ _ refl refl refl) moved.full))
      ]
  where
    moved :
        Moved w.seats
          (on_seat
            (other s)
            (replace_slot
              (random_slot s w)
              (get_or (at w.seats (other s)).hand (random_slot s w) no_card))
            (λ t. t)
            (advance s w)).seats
    moved = Moved-trans _ _ _ (advance-Moved s w f) (
        rw (sym (advance-other s w)) (
          taken-Moved (other s) (random_slot s w) (advance s w) (slot-lt s w)
            (advance-Moved s w f).full))

discard_loop-Moved :
    (n : ℕ) (s : Side) (w : Work) → AreFull w.seats → Moved w.seats (discard_loop n s w).seats
unfolding discard_loop
discard_loop-Moved zero s w f = Moved-refl _ f
discard_loop-Moved (suc n) s w f =
    let one = discard_one-Moved s w f in
    Moved-trans _ _ _ one (discard_loop-Moved n s (discard_one s w) one.full)

lock_one-Moved : (s : Side) (w : Work) → AreFull w.seats → Moved w.seats (lock_one s w).seats
unfolding lock_one
lock_one-Moved s w f =
    let one = advance-Moved s w f in
    let two =
      on_seat-Moved (other s)
        (λ p. record p {
          next_lock = u8 (
              pos (
                bit_or (at w.seats (other s)).next_lock
                  (2 ^ free_slot dw_hand (at w.seats (other s)).next_lock (random_slot s w))));
        })
        (λ t. t) (advance s w) (same_seat _ _ refl refl refl) one.full in
    Moved-trans _ _ _ one
      (Moved-trans _ _ _ two (on_seat-Moved s (λ p. p) _ _ (same_seat _ _ refl refl refl) two.full))

lock_loop-Moved :
    (n : ℕ) (s : Side) (w : Work) → AreFull w.seats → Moved w.seats (lock_loop n s w).seats
unfolding lock_loop
lock_loop-Moved zero s w f = Moved-refl _ f
lock_loop-Moved (suc n) s w f =
    let one = lock_one-Moved s w f in
    Moved-trans _ _ _ one (lock_loop-Moved n s (lock_one s w) one.full)

attacks-Moved : (a : Two Sums) (w : Work) → AreFull w.seats → Moved w.seats (hand_attacks a w).seats
unfolding hand_attacks
attacks-Moved a w = for_seats-Moved _ w λ s v f.
    let one = discard_loop-Moved (pos_part (at a s).discard) s v f in
    Moved-trans _ _ _ one (lock_loop-Moved _ s _ one.full)

refills-Moved :
    (decl : Two ℤ) (w : Work)
    → ((s : Side) → at decl s ≡ declared (at w.seats s))
    → AreFull w.seats
    → Moved w.seats (both (λ s. refill (at decl s) (at w.seats s)))
unfolding total
refills-Moved decl w same f =
    let c0 : Conserves w.seats.at0 (refill decl.at0 w.seats.at0) =
      rw (same seat0) (refill-Conserves _ (f seat0)) in
    let c1 : Conserves w.seats.at1 (refill decl.at1 w.seats.at1) =
      rw (same seat1) (refill-Conserves _ (f seat1)) in
    record {
      totals = λ x. omega (arith, c0.same_cards x, c1.same_cards x);
      full = λ s. elim s as (λ s. IsFull (at (both (λ s. refill (at decl s) (at w.seats s))) s)) [
        | seat0 ↦ Conserves-IsFull _ _ c0 (f seat0)
        | seat1 ↦ Conserves-IsFull _ _ c1 (f seat1)
      ];
    }

-- All of step 6.
pub cards-Moved :
    (pl : Plan) (a : Two Sums) (w : Work)
    → ((s : Side) → at pl.decl s ≡ declared (at w.seats s))
    → AreFull w.seats
    → Moved w.seats (cards pl a w).seats
unfolding cards
cards-Moved pl a w same f =
    let one = refills-Moved pl.decl w same f in
    let two = redraws-Moved a _ one.full in
    let three = swap-Moved a _ two.full in
    Moved-trans _ _ _ one
      (Moved-trans _ _ _ two (Moved-trans _ _ _ three (attacks-Moved a _ three.full)))
