-- ===== src/Match/Tests.antt =====
-- Concrete matches of core/match.c at which the theorems about it are applied.
use deadweight.Prelude.{ℕ, ◌≤◌, ◌≡◌, ◌≢◌, ◌↔◌, refl, arith, List, [], ◌∷◌, true, false, none, ◌⊎◌}
use deadweight.Prelude.{ℤ, pos, negsuc, ◌≤ℤ◌, ◌+ℤ◌, ◌-ℤ◌, ◌*ℤ◌, ◌/ℤ◌, u8, i8, xs}
use deadweight.Cards.Catalog.{
  card_kind, card_keyword, card_cost, card_tier, card_power, card_credit, card_fx_a, card_fx_b,
}
use deadweight.Cards.Choose.{choose, fx}
use deadweight.Cards.Cost.{cost_lo, cost_mid, cost_hi, cost_top, cost_n1, cost_n2}
use deadweight.Cards.Digits.{pow3, kind_chunk, pow6, kw_chunk}
use deadweight.Cards.EffectA.{base_fx, fxa_lo, fxa_mid, fxa_hi, fxa_top, fxa_n1, fxa_n2}
use deadweight.Cards.EffectB.{fxb_lo, fxb_mid, fxb_hi, fxb_top, fxb_n1, fxb_n2}
use deadweight.Cards.Effects.{
  fx_ch, fx_nn, fx_pp, fx_m, fx_aa, fx_phase, fx_cond_ok, fx_scale, fx_amount,
}
use deadweight.Cards.Power.{power_lo, power_mid, power_hi, power_top, power_n1, power_n2}
use deadweight.Cards.Rules.{
  energy_cap, kind_beats, is_legal_play, damage_dealt, round_start_energy, round_start_vault,
  energy_after_play, round_winner_by_hull, round_winner, match_decided, bankrupt, card_substitute,
}
use deadweight.Match.State.{
  other, for_seats, clampi, seat0, seat1, at, Seat, Match, res_win, end_rounds, end_hull, no_card,
}
use deadweight.Match.Piles.{
  swap_at, shuffle_from, shuffle_pile, top, under, reshuffle, draw_card, to_discard, draw_into,
  draw_slots,
}
use deadweight.Match.Setup.{
  deck_cards, init_seat, match_init_decks, begin_seat, begin_round, hand_at, bit_at, slot_verdict,
  match_lock, both_locked,
}
use deadweight.Match.Exchange.{
  declared, original, pay, fxamt, triggers, cancelled, copies, effective, add_rider, countered,
  bypass_word, pass_a, rider_word, pass_b, raw_out, dealt_by,
}
use deadweight.Match.Riders.{
  add_sum, sum_word, collect, add_hull, on_seat, soak_of, struck, attack, hurt_seat, direct_damage,
}
use deadweight.Match.Gains.{
  is_set, can_heal, heal_of, heal_seat, armor_up, convert_energy, add_energy, add_next_e, add_vault,
  clear_debts, gain_own, drain_other, gains, mean_hull, equalize_hulls, rewinds, rewind_hulls,
  held_up, lifeline_seat, lifelines, regen_of, regen_seat, burn_seat, tick_seat, tick_tally, tick,
  burn_status, own_status, statuses,
}
use deadweight.Match.Hands.{
  replace_slot, refill, discard_slots, redraw_seat, redraws, differ, swap_hands, random_slot,
  advance, discard_one, discard_loop, free_slot, lock_one, lock_loop, hand_attacks,
}
use deadweight.Match.Resolve.{
  plan, first_flags, start_work, meters, cards, work_of, loses, finish, match_resolve,
}
use deadweight.Match.Kept.{Each}
use deadweight.Match.Bounds.Seats.{InRange}
use deadweight.Match.Reach.{Reach, start, lock, next, IsPlayable}
use deadweight.Match.Reach.Locking.{Allowed, lock_accepts_iff, lock_rejected}
use deadweight.Match.Reach.Ending.{
  IsOut, ZeroSum, Beats, finish_results, finish_done_iff, finish_reason,
}
use deadweight.Match.Reach.Length.{Reach-at_most_100}
use deadweight.Match.Reach.Invariant.{resolve-InRange, Reach-IsPlayable}
use deadweight.Match.Views.{
  hidden_u8, hidden_i8, status_bits, hand_count, match_view, match_post_view,
}
use deadweight.Match.Views.Hidden.{view-hides, view_stand_in_iff}
use deadweight.Match.Census.Count.{count}
use deadweight.Match.Census.Shuffle.{count-shuffle}
use deadweight.Match.Census.Redraw.{Conserves, redraw-Conserves}
use deadweight.Match.Census.Works.{AreFull, Moved}
use deadweight.Match.Census.Whole.{resolve-Moved}
use deadweight.Match.Census.Start.{catalog-IsDeck}
use deadweight.Match.Census.Table.{HoldsDecks, Reach-HoldsDecks}

-- A match of two whole catalogs, its first round open.
abbrev opened : Match
opened = begin_round (match_init_decks 42 none none)

-- Seat 0 plays its second card and seat 1 its first.
abbrev one_locked : Match
one_locked = (match_lock opened seat0 (pos 0)).0

abbrev two_locked : Match
two_locked = (match_lock one_locked seat1 (pos 0)).0

abbrev second_round : Match
second_round = begin_round (match_resolve two_locked)

round_played : (both_locked two_locked ≡ true) × ((match_resolve two_locked).done ≡ false)
unfolding card_kind card_keyword card_cost card_tier card_power card_credit card_fx_a card_fx_b
    choose fx cost_lo cost_mid cost_hi cost_top cost_n1 cost_n2 pow3 kind_chunk pow6 kw_chunk
    base_fx fxa_lo fxa_mid fxa_hi fxa_top fxa_n1 fxa_n2 fxb_lo fxb_mid fxb_hi fxb_top fxb_n1 fxb_n2
    fx_ch fx_nn fx_pp fx_m fx_aa fx_phase fx_cond_ok fx_scale fx_amount power_lo power_mid power_hi
    power_top power_n1 power_n2 energy_cap kind_beats is_legal_play damage_dealt round_start_energy
    round_start_vault energy_after_play round_winner_by_hull round_winner match_decided bankrupt
    card_substitute other for_seats clampi swap_at shuffle_from shuffle_pile top under reshuffle
    draw_card to_discard draw_into draw_slots deck_cards init_seat match_init_decks begin_seat
    begin_round hand_at bit_at slot_verdict match_lock both_locked declared original pay fxamt
    triggers cancelled copies effective add_rider countered bypass_word pass_a rider_word pass_b
    raw_out dealt_by add_sum sum_word collect add_hull on_seat soak_of struck attack hurt_seat
    direct_damage is_set can_heal heal_of heal_seat armor_up convert_energy add_energy add_next_e
    add_vault clear_debts gain_own drain_other gains mean_hull equalize_hulls rewinds rewind_hulls
    held_up lifeline_seat lifelines regen_of regen_seat burn_seat tick_seat tick_tally tick
    burn_status own_status statuses replace_slot refill discard_slots redraw_seat redraws differ
    swap_hands random_slot advance discard_one discard_loop free_slot lock_one lock_loop
    hand_attacks plan first_flags start_work meters cards work_of loses finish match_resolve ◌+ℤ◌
    ◌-ℤ◌ ◌*ℤ◌ ◌/ℤ◌ u8 i8 xs
round_played = (refl, refl)

two_locked-Reach : Reach none none two_locked
two_locked-Reach = lock seat1 (pos 0) (lock seat0 (pos 0) (start 42))

second_round-Reach : Reach none none second_round
second_round-Reach = next two_locked-Reach round_played.0 round_played.1

Reach-HoldsDecks_example : HoldsDecks none none second_round.seats
Reach-HoldsDecks_example = Reach-HoldsDecks catalog-IsDeck catalog-IsDeck second_round-Reach

Reach-IsPlayable_example : IsPlayable second_round
Reach-IsPlayable_example = Reach-IsPlayable second_round-Reach

Reach-at_most_100_example :
    (1 ≤ second_round.round)
    × (second_round.round ≤ 100)
    × (second_round.round ≡ 100 → (match_resolve second_round).done ≡ true)
Reach-at_most_100_example = Reach-at_most_100 second_round-Reach

resolve-InRange_example : Each (λ s p. InRange p) (match_resolve two_locked).seats
resolve-InRange_example = resolve-InRange two_locked (Reach-IsPlayable two_locked-Reach)

two_locked-AreFull : AreFull two_locked.seats
two_locked-AreFull = (Reach-HoldsDecks catalog-IsDeck catalog-IsDeck two_locked-Reach).full

resolve-Moved_example : Moved two_locked.seats (match_resolve two_locked).seats
resolve-Moved_example = resolve-Moved two_locked two_locked-AreFull

redraw-Conserves_example : Conserves two_locked.seats.at0 (redraw_seat two_locked.seats.at0)
redraw-Conserves_example = redraw-Conserves two_locked.seats.at0 (two_locked-AreFull seat0)

abbrev some_cards : List ℤ
some_cards = pos 4 ∷ pos 22 ∷ pos 4 ∷ pos 71 ∷ []

count-shuffle_example : count (pos 4) (shuffle_pile 9 some_cards).pile ≡ count (pos 4) some_cards
count-shuffle_example = count-shuffle (pos 4) 9 some_cards

-- The first seat passed in the first round, and may not lock again.
abbrev passed : Match
passed = (match_lock opened seat0 (negsuc 0)).0

pass_rejected : (match_lock passed seat0 (pos 1)).1 ≡ 4
unfolding match_lock match_init_decks begin_round begin_seat slot_verdict
pass_rejected = refl

lock_rejected_example : (match_lock passed seat0 (pos 1)).0 ≡ passed
lock_rejected_example = lock_rejected passed seat0 (pos 1) (λ e. omega (arith, e, pass_rejected))

lock_accepts_iff_example :
    ((match_lock opened seat0 (pos 0)).1 ≡ 0
      → (opened.done ≡ false)
        × (1 ≤ opened.round)
        × ((at opened.seats seat0).locked ≡ false)
        × Allowed (at opened.seats seat0) (pos 0))
    × ((opened.done ≡ false)
          × (1 ≤ opened.round)
          × ((at opened.seats seat0).locked ≡ false)
          × Allowed (at opened.seats seat0) (pos 0)
        → (match_lock opened seat0 (pos 0)).1 ≡ 0)
lock_accepts_iff_example = lock_accepts_iff opened seat0 (pos 0)

abbrev seat_of : ℤ → ℤ → Seat
seat_of hull vault = record {
  rng = 1;
  rfx = 1;
  hull = hull;
  energy = 3;
  armor = 0;
  vault = vault;
  hull_start = pos 20;
  hull_prev = pos 20;
  burn_amt = 0;
  burn_left = 0;
  regen_amt = 0;
  regen_left = 0;
  hidden = 0;
  lock_mask = 0;
  next_lock = 0;
  next_e = pos 0;
  roll = 7;
  hand = some_cards;
  draw = [];
  discard = [];
  locked = true;
  lock_slot = no_card;
  result = 0;
}

abbrev fought : Match
fought = record {
  seed = 42;
  seats = record { at0 = seat_of (pos 9) (pos 2); at1 = seat_of (negsuc 2) (pos 5) };
  round = 12;
  done = false;
  reason = 0;
}

fought_over : (finish fought).done ≡ true
unfolding finish match_decided
fought_over = refl

finish_results_example :
    ZeroSum (finish fought).seats.at0.result (finish fought).seats.at1.result
    × ((finish fought).seats.at0.result ≡ res_win ↔ Beats fought.seats.at0 fought.seats.at1)
    × ((finish fought).seats.at1.result ≡ res_win ↔ Beats fought.seats.at1 fought.seats.at0)
finish_results_example = finish_results fought refl fought_over

finish_done_iff_example :
    ((finish fought).done ≡ true
      → IsOut fought.seats.at0 ⊎ IsOut fought.seats.at1 ⊎ (100 ≤ fought.round))
    × (IsOut fought.seats.at0 ⊎ IsOut fought.seats.at1 ⊎ (100 ≤ fought.round)
        → (finish fought).done ≡ true)
finish_done_iff_example = finish_done_iff fought refl

finish_reason_example :
    ((finish fought).reason ≡ end_hull
      ↔ (fought.seats.at0.hull ≤ℤ pos 0) ⊎ (fought.seats.at1.hull ≤ℤ pos 0))
    × ((finish fought).reason ≡ end_rounds
        ↔ (¬ IsOut fought.seats.at0) × (¬ IsOut fought.seats.at1))
finish_reason_example = finish_reason fought refl fought_over

-- The second seat hides its meters from the first, which holds `some_cards`.
abbrev veiled : ℕ → List ℤ → Match
veiled energy cards = record opened {
  seats = record {
    at0 = seat_of (pos 9) (pos 2);
    at1 = record (seat_of (pos 7) (pos 3)) { hidden = 2; energy = energy; hand = cards };
  };
}

abbrev other_cards : List ℤ
other_cards = pos 9 ∷ pos 60 ∷ pos 61 ∷ pos 3 ∷ []

view-hides_example :
    (match_view (veiled 1 some_cards) seat0 ≡ match_view (veiled 6 other_cards) seat0)
    × (match_post_view (veiled 1 some_cards) seat0 ≡ match_post_view (veiled 6 other_cards) seat0)
unfolding hand_count other status_bits
view-hides_example =
    view-hides (veiled 1 some_cards) (veiled 6 other_cards) seat0 refl refl
      (record { hull = refl; statuses = refl; size = refl; hidden = refl }) (omega arith)

view_stand_in_iff_example :
    ((match_view second_round seat1).energy_opp ≡ hidden_u8
      ↔ (at second_round.seats (other seat1)).hidden ≢ 0)
    × ((match_view second_round seat1).armor_opp ≡ hidden_u8
        ↔ (at second_round.seats (other seat1)).hidden ≢ 0)
    × ((match_view second_round seat1).vault_opp ≡ hidden_i8
        ↔ (at second_round.seats (other seat1)).hidden ≢ 0)
view_stand_in_iff_example = view_stand_in_iff seat1 second_round-Reach
