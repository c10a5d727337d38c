-- ===== src/Cards/Kinds.antt =====
-- The kinds, keywords and prices of the catalog of core/card_rules.c, checked over all 105 cards.
use deadweight.Prelude.{
  ℕ, zero, suc, ◌<◌, ◌≡◌, ◌≢◌, ◌↔◌, refl, arith, Bool, true, ◌&&◌, not, if◌then◌else◌,
}
use deadweight.Prelude.{ℤ, pos, ◌≤ℤ◌, ◌-ℤ◌, ◌*ℤ◌, ◌/ℤ◌, leb_ℤ, eqb_ℤ}
use deadweight.Cards.Choose.{choose}
use deadweight.Cards.Digits.{pow3, kind_chunk, pow6, kw_chunk}
use deadweight.Cards.Cost.{cost_lo, cost_mid, cost_hi, cost_top, cost_n1, cost_n2}
use deadweight.Cards.Power.{power_lo, power_mid, power_hi, power_top, power_n1, power_n2}
use deadweight.Cards.Catalog.{card_kind, card_keyword, card_tier, card_cost, card_power}

all_below : ℕ → (ℕ → Bool) → Bool
all_below zero test = true
all_below (suc n) test = test n && all_below n test

all_below_sound :
    (n : ℕ) (test : ℕ → Bool) (i : ℕ) → all_below n test ≡ true → i < n → test i ≡ true
unfolding all_below
all_below_sound zero test i h lt = absurd (omega arith)
all_below_sound (suc n) test i h lt = ground (arith, all_below_sound n test i)

between : ℕ → ℕ → ℤ → Bool
between lo hi v = leb_ℤ (pos lo) v && leb_ℤ v (pos hi)

card_ok : ℕ → Bool
unfolding between
card_ok id =
    between 0 2 (card_kind (pos id))
    && between 0 5 (card_keyword (pos id))
    && (if eqb_ℤ (card_kind (pos id)) (pos 1)
        then not (eqb_ℤ (card_keyword (pos id)) (pos 0))
        else eqb_ℤ (card_keyword (pos id)) (pos 0))
    && between 1 6 (card_cost (pos id))
    && between 0 14 (card_power (pos id))

all_cards_ok : all_below 105 card_ok ≡ true
unfolding all_below card_ok choose card_kind card_keyword card_cost card_power pow3 kind_chunk pow6
    kw_chunk cost_lo cost_mid cost_hi cost_top cost_n1 cost_n2 power_lo power_mid power_hi power_top
    power_n1 power_n2 ◌-ℤ◌ ◌*ℤ◌ ◌/ℤ◌ card_tier
all_cards_ok = refl

-- What every card of the catalog satisfies.
pub record IsCard (id : ℤ) : Type 0 where
  pub kind : (pos 0 ≤ℤ card_kind id) × (card_kind id ≤ℤ pos 2)
  pub keyword : (pos 0 ≤ℤ card_keyword id) × (card_keyword id ≤ℤ pos 5)
  pub operations : card_keyword id ≢ pos 0 ↔ card_kind id ≡ pos 1
  pub cost : (pos 1 ≤ℤ card_cost id) × (card_cost id ≤ℤ pos 6)
  pub power : (pos 0 ≤ℤ card_power id) × (card_power id ≤ℤ pos 14)

-- Every card has one of the three kinds, a keyword 1 to 5 exactly if it is an Operations card
-- (kind 1), a cost from 1 to 6 and a power from 0 to 14.
pub catalog-IsCard : (id : ℕ) → id < 105 → IsCard (pos id)
catalog-IsCard id h = card_ok_sound id (all_below_sound 105 card_ok id all_cards_ok h)
  where
    card_ok_sound : (id : ℕ) → card_ok id ≡ true → IsCard (pos id)
    card_ok_sound id e = unfold card_ok in ground arith
