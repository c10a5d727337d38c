-- ===== src/Match/Bounds/Rounds.antt =====
-- Paying, starting a round, locking and finishing keep the meters of core/match.c in range.
use deadweight.Prelude.{◌≤◌, ◌≡◌, arith, true, Bool-cases, inl, inr}
use deadweight.Prelude.{ℤ, pos, ◌≤ℤ◌, ◌+ℤ◌, ◌-ℤ◌, ltb_ℤ, leb_ℤ, int_laws}
use deadweight.Cards.Rules.{
  energy_cap, is_legal_play, energy_after_play, round_start_energy, round_start_vault,
}
use deadweight.Cards.Catalog.{card_cost, card_credit}
use deadweight.Cards.Nonneg.{card_cost_nonneg}
use deadweight.Match.State.{Seat}
use deadweight.Match.Setup.{begin_seat}
use deadweight.Match.Exchange.{declared, pay}
use deadweight.Match.Bounds.Casts.{u8-clampi-le, u8-le}
use deadweight.Match.Bounds.Seats.{InRange, Within, vault_range}

-- The declared card, if any, is one that the seat may play now.
abbrev pub Affordable : Seat → Type 0
Affordable p =
    leb_ℤ (pos 0) (declared p) ≡ true → is_legal_play (declared p) (pos p.energy) p.vault ≡ true

pub legal_cost : (id e v : ℤ) → is_legal_play id e v ≡ true → card_cost id ≤ℤ e
unfolding is_legal_play
legal_cost id e v h = ground arith

cap_range : (e : ℤ) → pos 0 ≤ℤ e → Within (pos 0) (pos 6) (energy_cap e)
unfolding energy_cap
cap_range e h = ground arith

pub paid_energy : (p : Seat) → p.energy ≤ 6 → Affordable p → (pay p).energy ≤ 6
unfolding pay energy_after_play
paid_energy p h ok = elim (Bool-cases (ltb_ℤ (declared p) (pos 0))) [
  | inl z ↦ rw z (
      u8-le (energy_cap (pos p.energy +ℤ pos 1)) 6 (cap_range _ (omega int_laws)).0
        (cap_range _ (omega int_laws)).1 (omega arith))
  | inr z ↦ rw z (
      u8-le (pos p.energy -ℤ card_cost (declared p)) 6
        (omega (int_laws, legal_cost _ _ _ (ok (ground arith))))
        (omega (int_laws, card_cost_nonneg (declared p))) (omega arith))
]

pub pay-InRange : (p : Seat) → Affordable p → InRange p → InRange (pay p)
pay-InRange p ok r = record {
  hull = unfold pay in r.hull;
  hull_start = unfold pay in r.hull_start;
  hull_prev = unfold pay in r.hull_prev;
  vault = unfold pay in ground (arith, vault_range (p.vault -ℤ card_credit (declared p)), r.vault);
  next_e = unfold pay in r.next_e;
  energy = paid_energy p r.energy ok;
  armor = unfold pay in r.armor;
}

pub begin_seat-InRange : (p : Seat) → InRange p → InRange (begin_seat p)
unfolding begin_seat energy_cap
begin_seat-InRange p r = record {
  hull = r.hull;
  hull_start = r.hull;
  hull_prev = r.hull_start;
  vault = vault_range (round_start_vault p.vault);
  next_e = omega arith;
  energy = u8-clampi-le (round_start_energy (pos p.energy) +ℤ p.next_e) 6 (omega arith);
  armor = r.armor;
}
