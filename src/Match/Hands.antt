-- ===== src/Match/Hands.antt =====
-- core/match.c: step 6 of `dw_match_resolve`, what happens to the cards.
use deadweight.Prelude.{
  ℕ, zero, suc, ◌+◌, ◌^◌, ◌%◌, Bool, true, false, ltb, if◌then◌else◌, get_or, set, u8, xs, bit_or,
}
use deadweight.Prelude.{ℤ, pos, pos_part, leb_ℤ}
use deadweight.Match.State.{Side, other, Two, at, for_seats, no_card, dw_hand, Seat}
use deadweight.Match.Piles.{to_discard, draw_into, draw_slots}
use deadweight.Match.Setup.{bit_at}
use deadweight.Match.Riders.{Sums, Work, flag, on_seat}

abbrev pub fx_locked_opp : ℕ
fx_locked_opp = 8

abbrev pub fx_swapped : ℕ
fx_swapped = 16

abbrev pub fx_discarded_opp : ℕ
fx_discarded_opp = 32

abbrev pub fx_redrew : ℕ
fx_redrew = 64

-- A card leaves slot `slot` for the discard pile, and the slot refills.
unfoldable pub replace_slot : ℕ → ℤ → Seat → Seat
replace_slot slot card p = draw_into slot (to_discard p card)

-- The played card; `decl` is the card that was declared before the round resolved.
unfoldable pub refill : ℤ → Seat → Seat
refill decl p = if leb_ℤ (pos 0) decl then replace_slot (pos_part p.lock_slot) decl p else p

-- The whole hand goes, then four cards are drawn: slots `i` to `i + n - 1`.
unfoldable pub discard_slots : ℕ → ℕ → Seat → Seat
discard_slots zero i p = p
discard_slots (suc n) i p =
    let q = to_discard p (get_or p.hand i no_card) in
    discard_slots n (suc i) (record q { hand = set q.hand i no_card })

unfoldable pub redraw_seat : Seat → Seat
redraw_seat p = draw_slots dw_hand 0 (discard_slots dw_hand 0 p)

unfoldable pub redraws : Two Sums → Work → Work
redraws a =
    for_seats λ s w. if (at a s).redraw then on_seat s redraw_seat (λ t. flag t fx_redrew) w else w

-- The hands change sides if just one seat swaps.
unfoldable pub differ : Bool → Bool → Bool
differ true b = if b then false else true
differ false b = b

unfoldable pub swap_hands : Two Sums → Work → Work
swap_hands a w =
    if differ a.at0.swap a.at1.swap
    then record {
      seats = record {
        at0 = record (w.seats.at0) { hand = w.seats.at1.hand };
        at1 = record (w.seats.at1) { hand = w.seats.at0.hand };
      };
      tally = record { at0 = flag w.tally.at0 fx_swapped; at1 = flag w.tally.at1 fx_swapped };
    }
    else w

-- The seat's next random slot, from its own stream.
unfoldable pub random_slot : Side → Work → ℕ
random_slot s w = xs (at w.seats s).rfx % dw_hand

unfoldable pub advance : Side → Work → Work
advance s w = on_seat s (λ p. record p { rfx = xs p.rfx }) (λ t. t) w

-- One card of the opponent's hand, at a random slot.
unfoldable pub discard_one : Side → Work → Work
discard_one s w =
    let slot = random_slot s w in
    let theirs = at w.seats (other s) in
    let card = get_or theirs.hand slot no_card in
    let v = advance s w in
    if leb_ℤ (pos 0) card
    then on_seat s (λ p. p) (λ t. flag t fx_discarded_opp)
        (on_seat (other s) (replace_slot slot card) (λ t. t) v)
    else v

unfoldable pub discard_loop : ℕ → Side → Work → Work
discard_loop zero s w = w
discard_loop (suc n) s w = discard_loop n s (discard_one s w)

-- From `slot` on, the first of four slots that is not locked yet.
unfoldable pub free_slot : ℕ → ℕ → ℕ → ℕ
free_slot zero mask slot = slot
free_slot (suc tries) mask slot =
    if bit_at mask (pos slot) then free_slot tries mask ((slot + 1) % dw_hand) else slot

unfoldable pub lock_one : Side → Work → Work
lock_one s w =
    let mask = (at w.seats (other s)).next_lock in
    let slot = free_slot dw_hand mask (random_slot s w) in
    on_seat s (λ p. p) (λ t. flag t fx_locked_opp)
      (on_seat (other s) (λ p. record p { next_lock = u8 (pos (bit_or mask (2 ^ slot))) }) (λ t. t)
        (advance s w))

unfoldable pub lock_loop : ℕ → Side → Work → Work
lock_loop zero s w = w
lock_loop (suc n) s w = lock_loop n s (lock_one s w)

abbrev at_most_hand : ℕ → ℕ
at_most_hand n = if ltb n dw_hand then n else dw_hand

unfoldable pub hand_attacks : Two Sums → Work → Work
hand_attacks a = for_seats λ s w.
    lock_loop (at_most_hand (pos_part (at a s).lock)) s
      (discard_loop (pos_part (at a s).discard) s w)
