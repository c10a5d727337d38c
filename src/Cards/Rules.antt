-- ===== src/Cards/Rules.antt =====
-- core/card_rules.c: the constants and rules of a round. A condition that the C returns as 0 or 1
-- is a `Bool`.
use deadweight.Prelude.{ℕ, Bool, ◌&&◌, ◌||◌, if◌then◌else◌}
use deadweight.Prelude.{ℤ, pos, ◌+ℤ◌, ◌-ℤ◌, ◌/ℤ◌, ltb_ℤ, leb_ℤ, eqb_ℤ}
use deadweight.Cards.Catalog.{card_kind, card_cost, card_power, card_credit}

abbrev pub start_hull : ℤ
start_hull = pos 20

abbrev pub start_energy : ℤ
start_energy = pos 2

abbrev pub start_vault : ℤ
start_vault = pos 3

abbrev pub max_rounds : ℤ
max_rounds = pos 100

abbrev pub hand_size : ℕ
hand_size = 4

abbrev pub num_cards : ℕ
num_cards = 105

unfoldable pub energy_cap : ℤ → ℤ
energy_cap e = if ltb_ℤ (pos 6) e then pos 6 else e

unfoldable pub kind_beats : ℤ → ℤ → Bool
unfolding ◌+ℤ◌
kind_beats a b = eqb_ℤ b (if eqb_ℤ a (pos 2) then pos 0 else a +ℤ pos 1)

unfoldable pub is_legal_play : ℤ → ℤ → ℤ → Bool
is_legal_play id energy vault =
    leb_ℤ (pos 0) id
    && ltb_ℤ id (pos num_cards)
    && leb_ℤ (card_cost id) energy
    && (eqb_ℤ (card_credit id) (pos 0) || leb_ℤ (card_credit id) vault)

unfoldable pub damage_dealt : ℤ → ℤ → ℤ
damage_dealt a b =
    if ltb_ℤ a (pos 0)
    then pos 0
    else if ltb_ℤ b (pos 0)
    then if eqb_ℤ (card_kind a) (pos 2) then pos 0 else card_power a
    else if eqb_ℤ (card_kind a) (card_kind b)
    then if eqb_ℤ (card_kind a) (pos 0)
      then card_power a
      else if eqb_ℤ (card_kind a) (pos 1)
      then card_power a /ℤ pos 2
      else pos 0
    else if kind_beats (card_kind a) (card_kind b)
    then card_power a
    else pos 0

unfoldable pub round_start_energy : ℤ → ℤ
round_start_energy e = energy_cap (e +ℤ pos 2)

unfoldable pub round_start_vault : ℤ → ℤ
round_start_vault v = if ltb_ℤ (pos 98) v then pos 99 else v +ℤ pos 1

unfoldable pub energy_after_play : ℤ → ℤ → ℤ
energy_after_play e played =
    if ltb_ℤ played (pos 0) then energy_cap (e +ℤ pos 1) else e -ℤ card_cost played

unfoldable pub round_winner_by_hull : ℤ → ℤ → ℤ
round_winner_by_hull h0 h1 = if ltb_ℤ h1 h0 then pos 0 else if ltb_ℤ h0 h1 then pos 1 else pos 2

unfoldable pub round_winner : ℤ → ℤ → ℤ → ℤ → ℤ
round_winner h0 h1 v0 v1 =
    if ltb_ℤ h1 h0
    then pos 0
    else if ltb_ℤ h0 h1
    then pos 1
    else if ltb_ℤ v1 v0
    then pos 0
    else if ltb_ℤ v0 v1
    then pos 1
    else pos 2

unfoldable pub match_decided : ℤ → ℤ → Bool
match_decided h0 h1 = leb_ℤ h0 (pos 0) || leb_ℤ h1 (pos 0)

unfoldable pub bankrupt : ℤ → Bool
bankrupt v = ltb_ℤ v (pos 0 -ℤ pos 6)

unfoldable pub card_substitute : ℤ → ℤ → ℤ
card_substitute id roll =
    if eqb_ℤ id (pos 34)
    then if ltb_ℤ roll (pos 25)
      then pos 35
      else if ltb_ℤ roll (pos 50)
      then pos 21
      else if ltb_ℤ roll (pos 75)
      then pos 20
      else pos 36
    else id
