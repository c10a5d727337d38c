-- ===== src/Match/Setup.antt =====
-- core/match.c: setting a match up, starting a round, locking an action and forfeiting.
use deadweight.Prelude.{
  ℕ, zero, suc, ◌+◌, ◌*◌, ◌/◌, ◌%◌, List, [], ◌∷◌, Bool, true, false, ◌&&◌, ◌||◌, ltb, ◌==◌,
  if◌then◌else◌, Option, none, some, get_or, take, replicate, xs, u8, i8, u32, bit_xor,
}
use deadweight.Prelude.{ℤ, pos, negsuc, ◌+ℤ◌, ltb_ℤ, leb_ℤ}
use deadweight.Cards.Rules.{
  start_hull, start_energy, start_vault, hand_size, num_cards, energy_cap, round_start_energy,
  round_start_vault, is_legal_play,
}
use deadweight.Match.State.{
  Side, seat0, seat1, other, at, put, both, no_card, dw_hand, dw_deck, Seat, Match, clampi,
  rej_illegal_card, rej_bad_slot, rej_already_locked, rej_no_match, res_loss, res_win, end_forfeit,
}
use deadweight.Match.Piles.{shuffle_pile, draw_slots}

-- The whole catalog: `(int8_t)i` for `i` below `num_cards()`.
abbrev pub count_up : ℕ → ℕ → List ℤ
count_up zero i = []
count_up (suc n) i = pos i ∷ count_up n (suc i)

unfoldable pub deck_cards : Option (List ℤ) → List ℤ
deck_cards none = count_up num_cards 0
deck_cards (some dk) = take dw_deck dk

-- `seed * mul ^ (s + 1) * mix`, never 0, since xorshift does not leave 0.
stream_seed : ℕ → ℕ → ℕ → Side → ℕ
stream_seed seed mul mix s =
    let r : ℕ = bit_xor (u32 (seed * mul)) (u32 ((at (record { at0 = 1; at1 = 2 }) s) * mix)) in
    if r == 0 then 1 else r

unfoldable pub init_seat : ℕ → Side → Option (List ℤ) → Seat
unfolding stream_seed deck_cards
init_seat seed s dk =
    let shuffled =
      shuffle_pile (xs (xs (xs (xs (stream_seed seed 2654435761 0x9E3779B9 s))))) (deck_cards dk) in
    draw_slots hand_size 0 (record {
      rng = shuffled.stream;
      rfx = xs (xs (xs (stream_seed seed 2246822519 0xC2B2AE3D s)));
      hull = start_hull;
      energy = u8 start_energy;
      armor = 0;
      vault = start_vault;
      hull_start = start_hull;
      hull_prev = start_hull;
      burn_amt = 0;
      burn_left = 0;
      regen_amt = 0;
      regen_left = 0;
      hidden = 0;
      lock_mask = 0;
      next_lock = 0;
      next_e = pos 0;
      roll = 0;
      hand = replicate dw_hand (pos 0);
      draw = shuffled.pile;
      discard = [];
      locked = false;
      lock_slot = no_card;
      result = 0;
    })

-- A seat with no deck of its own (`none`, the C's NULL) plays the whole catalog.
unfoldable pub match_init_decks : ℕ → Option (List ℤ) → Option (List ℤ) → Match
match_init_decks seed deck0 deck1 = record {
  seed = seed;
  seats = record { at0 = init_seat seed seat0 deck0; at1 = init_seat seed seat1 deck1 };
  round = 0;
  done = false;
  reason = 0;
}

unfoldable pub match_init : ℕ → Match
match_init seed = match_init_decks seed none none

unfoldable pub begin_seat : Seat → Seat
begin_seat p = record p {
  hull_prev = p.hull_start;
  hull_start = p.hull;
  energy =
      u8 (clampi (round_start_energy (pos p.energy) +ℤ p.next_e) (pos 0) (energy_cap (pos 99)));
  next_e = pos 0;
  vault = i8 (clampi (round_start_vault p.vault) (negsuc 99) (pos 99));
  lock_mask = p.next_lock;
  next_lock = 0;
  rfx = xs p.rfx;
  roll = u8 (pos (xs p.rfx % 100));
  locked = false;
  lock_slot = negsuc 0;
}

unfoldable pub begin_round : Match → Match
begin_round m = record m { round = m.round + 1; seats = both (λ s. begin_seat (at m.seats s)) }

-- `m->hand[seat][slot]`
unfoldable pub hand_at : List ℤ → ℤ → ℤ
hand_at hand (pos i) = get_or hand i no_card
hand_at hand (negsuc i) = no_card

-- `(mask >> slot) & 1`
unfoldable pub bit_at : ℕ → ℤ → Bool
bit_at mask (pos zero) = mask % 2 == 1
bit_at mask (pos (suc i)) = bit_at (mask / 2) (pos i)
bit_at mask (negsuc i) = false

-- The reason for which a seat's choice of a slot is refused, or 0.
unfoldable pub slot_verdict : Seat → ℤ → ℕ
slot_verdict p slot =
    if ltb_ℤ slot (negsuc 0) || leb_ℤ (pos dw_hand) slot
    then rej_bad_slot
    else if leb_ℤ (pos 0) slot
    then if ltb_ℤ (hand_at p.hand slot) (pos 0)
      then rej_bad_slot
      else if bit_at p.lock_mask slot
      then rej_illegal_card
      else if is_legal_play (hand_at p.hand slot) (pos p.energy) p.vault
      then 0
      else rej_illegal_card
    else 0

-- Locking returns the match as it is then, and 0 or a reason of rejection.
unfoldable pub match_lock : Match → Side → ℤ → Match × ℕ
match_lock m seat slot =
    if m.done || ltb m.round 1
    then (m, rej_no_match)
    else if (at m.seats seat).locked
    then (m, rej_already_locked)
    else if slot_verdict (at m.seats seat) slot == 0
    then (
      record m {
        seats = put m.seats seat (record (at m.seats seat) { locked = true; lock_slot = i8 slot });
      },
      0,
    )
    else (m, slot_verdict (at m.seats seat) slot)

unfoldable pub both_locked : Match → Bool
both_locked m = m.seats.at0.locked && m.seats.at1.locked

unfoldable pub match_forfeit : Match → Side → Match
unfolding other
match_forfeit m loser = if m.done then m else record m {
  done = true;
  reason = end_forfeit;
  seats =
      put (put m.seats loser (record (at m.seats loser) { result = res_loss })) (other loser)
        (record (at m.seats (other loser)) { result = res_win });
}
