-- ===== src/Cards/Tests.antt =====
-- Concrete cards of core/card_rules.c at which the theorems about it are applied.
use deadweight.Prelude.{◌≡◌, ◌≢◌, refl, arith, true, false, ◌⊎◌}
use deadweight.Prelude.{pos, ◌-ℤ◌, ◌*ℤ◌, ◌/ℤ◌}
use deadweight.Cards.Choose.{choose}
use deadweight.Cards.Digits.{pow3, kind_chunk}
use deadweight.Cards.Catalog.{card_kind, card_power}
use deadweight.Cards.Rules.{kind_beats, damage_dealt}
use deadweight.Cards.Kinds.{IsCard, catalog-IsCard}
use deadweight.Cards.Triangle.{kind_beats_one, damage_triangle}

kinds_0_3 : (card_kind (pos 0) ≡ pos 0) × (card_kind (pos 3) ≡ pos 1)
unfolding card_kind choose pow3 kind_chunk ◌-ℤ◌ ◌*ℤ◌ ◌/ℤ◌
kinds_0_3 = (refl, refl)

kind_beats_one_example :
    ((pos 0 ≡ pos 2) × (kind_beats (pos 0) (pos 2) ≡ false) × (kind_beats (pos 2) (pos 0) ≡ false))
    ⊎ ((pos 0 ≢ pos 2) × (kind_beats (pos 0) (pos 2) ≡ true) × (kind_beats (pos 2) (pos 0) ≡ false))
    ⊎ ((pos 0 ≢ pos 2) × (kind_beats (pos 0) (pos 2) ≡ false) × (kind_beats (pos 2) (pos 0) ≡ true))
kind_beats_one_example = kind_beats_one (pos 0) (pos 2) (omega arith) (omega arith)

damage_triangle_example :
    ((kind_beats (card_kind (pos 0)) (card_kind (pos 3)) ≡ true)
      × (damage_dealt (pos 0) (pos 3) ≡ card_power (pos 0))
      × (damage_dealt (pos 3) (pos 0) ≡ pos 0))
    ⊎ ((kind_beats (card_kind (pos 3)) (card_kind (pos 0)) ≡ true)
        × (damage_dealt (pos 0) (pos 3) ≡ pos 0)
        × (damage_dealt (pos 3) (pos 0) ≡ card_power (pos 3)))
damage_triangle_example =
    damage_triangle 0 3 (omega arith) (omega arith) (λ e. ground (arith, kinds_0_3, e))

catalog-IsCard_example : IsCard (pos 104)
catalog-IsCard_example = catalog-IsCard 104 (omega arith)
