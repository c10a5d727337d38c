-- ===== src/Cards/Triangle.antt =====
-- The triangle of core/card_rules.c: Offense (0) beats Operations (1), which beats Defense (2),
-- which beats Offense.
use deadweight.Prelude.{ℕ, ◌<◌, ◌≡◌, ◌≢◌, ◌⊎◌, arith, true, false}
use deadweight.Prelude.{ℤ, pos, ◌≤ℤ◌, ◌+ℤ◌}
use deadweight.Cards.Catalog.{card_kind, card_power}
use deadweight.Cards.Rules.{kind_beats, damage_dealt}
use deadweight.Cards.Kinds.{catalog-IsCard}

abbrev IsKind : ℤ → Type 0
IsKind k = (pos 0 ≤ℤ k) × (k ≤ℤ pos 2)

-- Of two different kinds just one beats the other, and no kind beats itself.
pub kind_beats_one :
    (a b : ℤ)
    → IsKind a
    → IsKind b
    → ((a ≡ b) × (kind_beats a b ≡ false) × (kind_beats b a ≡ false))
      ⊎ ((a ≢ b) × (kind_beats a b ≡ true) × (kind_beats b a ≡ false))
      ⊎ ((a ≢ b) × (kind_beats a b ≡ false) × (kind_beats b a ≡ true))
unfolding kind_beats ◌+ℤ◌
kind_beats_one a b ha hb = ground arith

-- When two cards of different kinds meet, the one whose kind beats the other deals its power and
-- the other deals nothing.
pub damage_triangle :
    (a b : ℕ)
    → a < 105
    → b < 105
    → card_kind (pos a) ≢ card_kind (pos b)
    → ((kind_beats (card_kind (pos a)) (card_kind (pos b)) ≡ true)
        × (damage_dealt (pos a) (pos b) ≡ card_power (pos a))
        × (damage_dealt (pos b) (pos a) ≡ pos 0))
      ⊎ ((kind_beats (card_kind (pos b)) (card_kind (pos a)) ≡ true)
          × (damage_dealt (pos a) (pos b) ≡ pos 0)
          × (damage_dealt (pos b) (pos a) ≡ card_power (pos b)))
unfolding damage_dealt
damage_triangle a b ha hb ne = ground (
  arith,
  kind_beats_one (card_kind (pos a)) (card_kind (pos b)) (catalog-IsCard a ha).kind
      (catalog-IsCard b hb).kind,
)
