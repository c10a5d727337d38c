-- ===== src/Cards/Catalog.antt =====
-- core/card_rules.c: what each card is. `choose` tables hold the catalog's columns.
use deadweight.Prelude.{[], ◌∷◌, if◌then◌else◌}
use deadweight.Prelude.{ℤ, pos, ◌-ℤ◌, ◌*ℤ◌, ◌/ℤ◌, ltb_ℤ, leb_ℤ, eqb_ℤ}
use deadweight.Cards.Choose.{choose}
use deadweight.Cards.Digits.{pow3, kind_chunk, pow6, kw_chunk}
use deadweight.Cards.Cost.{cost_lo, cost_mid, cost_hi, cost_top, cost_n1, cost_n2}
use deadweight.Cards.Power.{power_lo, power_mid, power_hi, power_top, power_n1, power_n2}
use deadweight.Cards.EffectA.{base_fx, fxa_lo, fxa_mid, fxa_hi, fxa_top, fxa_n1, fxa_n2}
use deadweight.Cards.EffectB.{fxb_lo, fxb_mid, fxb_hi, fxb_top, fxb_n1, fxb_n2}

mod3 : ℤ → ℤ
mod3 x = x -ℤ x /ℤ pos 3 *ℤ pos 3

unfoldable pub card_kind : ℤ → ℤ
unfolding mod3
card_kind id =
    if ltb_ℤ id (pos 9)
    then id /ℤ pos 3
    else mod3 (kind_chunk (id /ℤ pos 16) /ℤ pow3 (id -ℤ id /ℤ pos 16 *ℤ pos 16))

mod6 : ℤ → ℤ
mod6 x = x -ℤ x /ℤ pos 6 *ℤ pos 6

unfoldable pub card_keyword : ℤ → ℤ
unfolding mod6
card_keyword id =
    if ltb_ℤ id (pos 0)
    then pos 0
    else mod6 (kw_chunk (id /ℤ pos 10) /ℤ pow6 (id -ℤ id /ℤ pos 10 *ℤ pos 10))

-- `card_tier` and `card_cost` call one another, but only below and from card 9: the tier of a
-- card below 9 is this remainder, and `card_cost` reads the tier of no other.
base_tier : ℤ → ℤ
base_tier id = id -ℤ id /ℤ pos 3 *ℤ pos 3

unfoldable pub card_cost : ℤ → ℤ
unfolding base_tier
card_cost id =
    if ltb_ℤ id (pos 0)
    then pos 0
    else if ltb_ℤ id (pos 9)
    then if eqb_ℤ (base_tier id) (pos 0)
      then pos 1
      else if eqb_ℤ (base_tier id) (pos 1)
      then pos 2
      else pos 4
    else if ltb_ℤ id (pos 25)
    then cost_lo id
    else if ltb_ℤ id (pos 41)
    then cost_mid id
    else if ltb_ℤ id (pos 57)
    then cost_hi id
    else if ltb_ℤ id (pos 73)
    then cost_top id
    else if ltb_ℤ id (pos 89)
    then cost_n1 id
    else cost_n2 id

tier_of_cost : ℤ → ℤ
tier_of_cost c = if leb_ℤ c (pos 1) then pos 0 else if leb_ℤ c (pos 3) then pos 1 else pos 2

unfoldable pub card_tier : ℤ → ℤ
unfolding tier_of_cost base_tier
card_tier id = if ltb_ℤ id (pos 9) then base_tier id else tier_of_cost (card_cost id)

unfoldable pub card_power : ℤ → ℤ
card_power id =
    if ltb_ℤ id (pos 0)
    then pos 0
    else if ltb_ℤ id (pos 9)
    then if eqb_ℤ (card_tier id) (pos 0)
      then pos 3
      else if eqb_ℤ (card_tier id) (pos 1)
      then pos 6
      else pos 10
    else if ltb_ℤ id (pos 25)
    then power_lo id
    else if ltb_ℤ id (pos 41)
    then power_mid id
    else if ltb_ℤ id (pos 57)
    then power_hi id
    else if ltb_ℤ id (pos 73)
    then power_top id
    else if ltb_ℤ id (pos 89)
    then power_n1 id
    else power_n2 id

unfoldable pub card_credit : ℤ → ℤ
card_credit id = choose id ((13, 2) ∷ (30, 2) ∷ (51, 3) ∷ (59, 2) ∷ (100, 3) ∷ []) 0

unfoldable pub card_fx_a : ℤ → ℤ
card_fx_a id =
    if ltb_ℤ id (pos 9)
    then base_fx id
    else if ltb_ℤ id (pos 25)
    then fxa_lo id
    else if ltb_ℤ id (pos 41)
    then fxa_mid id
    else if ltb_ℤ id (pos 57)
    then fxa_hi id
    else if ltb_ℤ id (pos 73)
    then fxa_top id
    else if ltb_ℤ id (pos 89)
    then fxa_n1 id
    else fxa_n2 id

unfoldable pub card_fx_b : ℤ → ℤ
card_fx_b id =
    if ltb_ℤ id (pos 21)
    then pos 0
    else if ltb_ℤ id (pos 25)
    then fxb_lo id
    else if ltb_ℤ id (pos 41)
    then fxb_mid id
    else if ltb_ℤ id (pos 57)
    then fxb_hi id
    else if ltb_ℤ id (pos 73)
    then fxb_top id
    else if ltb_ℤ id (pos 89)
    then fxb_n1 id
    else fxb_n2 id
