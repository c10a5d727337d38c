-- ===== src/Cards/Nonneg.antt =====
-- The columns of the catalog of core/card_rules.c hold no negative number.
use deadweight.Prelude.{ℕ, List, [], ◌∷◌, Bool-cases, inl, inr, arith}
use deadweight.Prelude.{ℤ, pos, ◌≤ℤ◌, eqb_ℤ}
use deadweight.Cards.Choose.{choose}
use deadweight.Cards.Cost.{cost_lo, cost_mid, cost_hi, cost_top, cost_n1, cost_n2}
use deadweight.Cards.Catalog.{card_cost, card_credit}

choose_nonneg : (id : ℤ) (rows : List (ℕ × ℕ)) (d : ℕ) → pos 0 ≤ℤ choose id rows d
unfolding choose
choose_nonneg id [] d = omega arith
choose_nonneg id ((k, v) ∷ rows) d = elim (Bool-cases (eqb_ℤ id (pos k))) [
  | inl z ↦ rw z (omega arith)
  | inr z ↦ rw z (choose_nonneg id rows d)
]

cost_lo_nonneg : (id : ℤ) → pos 0 ≤ℤ cost_lo id
unfolding cost_lo
cost_lo_nonneg id = choose_nonneg id _ _

cost_mid_nonneg : (id : ℤ) → pos 0 ≤ℤ cost_mid id
unfolding cost_mid
cost_mid_nonneg id = choose_nonneg id _ _

cost_hi_nonneg : (id : ℤ) → pos 0 ≤ℤ cost_hi id
unfolding cost_hi
cost_hi_nonneg id = choose_nonneg id _ _

cost_top_nonneg : (id : ℤ) → pos 0 ≤ℤ cost_top id
unfolding cost_top
cost_top_nonneg id = choose_nonneg id _ _

cost_n1_nonneg : (id : ℤ) → pos 0 ≤ℤ cost_n1 id
unfolding cost_n1
cost_n1_nonneg id = choose_nonneg id _ _

cost_n2_nonneg : (id : ℤ) → pos 0 ≤ℤ cost_n2 id
unfolding cost_n2
cost_n2_nonneg id = choose_nonneg id _ _

pub card_cost_nonneg : (id : ℤ) → pos 0 ≤ℤ card_cost id
unfolding card_cost
card_cost_nonneg id = ground (
  arith,
  cost_lo_nonneg id,
  cost_mid_nonneg id,
  cost_hi_nonneg id,
  cost_top_nonneg id,
  cost_n1_nonneg id,
  cost_n2_nonneg id,
)

pub card_credit_nonneg : (id : ℤ) → pos 0 ≤ℤ card_credit id
unfolding card_credit
card_credit_nonneg id = choose_nonneg id _ _
