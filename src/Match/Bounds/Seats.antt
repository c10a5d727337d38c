-- ===== src/Match/Bounds/Seats.antt =====
-- The meters of one seat, and the updates that keep them in range.
use deadweight.Prelude.{ℕ, ◌≤◌, arith, Bool, Bool-cases, inl, inr, ◌==◌}
use deadweight.Prelude.{ℤ, pos, negsuc, ◌≤ℤ◌, ◌+ℤ◌, ◌-ℤ◌, u8, i8, int_laws}
use deadweight.Cards.Rules.{start_hull, energy_cap}
use deadweight.Match.State.{Seat, clampi}
use deadweight.Match.Riders.{Sums, add_hull, soak_of, struck}
use deadweight.Match.Gains.{
  is_set, can_heal, heal_of, heal_seat, armor_up, convert_energy, add_energy, add_next_e, add_vault,
  clear_debts, gain_own, drain_other, held_up, lifeline_seat, regen_of, regen_seat, burn_seat,
  tick_seat, burn_status, own_status,
}
use deadweight.Match.Kept.{Kept}
use deadweight.Match.Bounds.Casts.{clampi_range, i8-clampi_range, u8-clampi-le, u8-le}

abbrev pub Within : ℤ → ℤ → ℤ → Type 0
Within lo hi v = (lo ≤ℤ v) × (v ≤ℤ hi)

-- A hull is from -100 to 20, credits from -100 to 99, the pending energy from -20 to 20.
pub record InRange (p : Seat) : Type 0 where
  pub hull : Within (negsuc 99) start_hull p.hull
  pub hull_start : Within (negsuc 99) start_hull p.hull_start
  pub hull_prev : Within (negsuc 99) start_hull p.hull_prev
  pub vault : Within (negsuc 99) (pos 99) p.vault
  pub next_e : Within (negsuc 19) (pos 20) p.next_e
  pub energy : p.energy ≤ 6
  pub armor : p.armor ≤ 12

hull_range : (v : ℤ) → Within (negsuc 99) start_hull (i8 (clampi v (negsuc 99) start_hull))
hull_range v = i8-clampi_range v (negsuc 99) start_hull (omega arith) (omega arith) (omega arith)

pub set_hull-InRange :
    (p : Seat) (v : ℤ)
    → Within (negsuc 99) start_hull v
    → InRange p
    → InRange (record p { hull = v })
set_hull-InRange p v h r = record {
  hull = h;
  hull_start = r.hull_start;
  hull_prev = r.hull_prev;
  vault = r.vault;
  next_e = r.next_e;
  energy = r.energy;
  armor = r.armor;
}

pub add_hull-InRange : (p : Seat) (n : ℤ) → InRange p → InRange (add_hull p n)
unfolding add_hull
add_hull-InRange p n r = set_hull-InRange p _ (hull_range (p.hull +ℤ n)) r

set_armor-InRange : (p : Seat) (n : ℕ) → n ≤ 12 → InRange p → InRange (record p { armor = n })
set_armor-InRange p n h r = ground arith

set_energy-InRange : (p : Seat) (n : ℕ) → n ≤ 6 → InRange p → InRange (record p { energy = n })
set_energy-InRange p n h r = ground arith

set_vault-InRange :
    (p : Seat) (v : ℤ)
    → Within (negsuc 99) (pos 99) v
    → InRange p
    → InRange (record p { vault = v })
set_vault-InRange p v h r = ground arith

set_next_e-InRange :
    (p : Seat) (v : ℤ)
    → Within (negsuc 19) (pos 20) v
    → InRange p
    → InRange (record p { next_e = v })
set_next_e-InRange p v h r = ground arith

soak_range : (p : Seat) (n : ℤ) (b : Bool) → Within (pos 0) (pos p.armor) (soak_of p n b)
unfolding soak_of
soak_range p n b = ground arith

struck-InRange : (p : Seat) (n : ℤ) (b : Bool) → InRange p → InRange (struck p n b)
unfolding struck
struck-InRange p n b r =
    let k : ℤ = soak_of p n b in
    add_hull-InRange _ (pos 0 -ℤ (n -ℤ k)) (
      set_armor-InRange p (u8 (pos p.armor -ℤ k))
        (u8-le (pos p.armor -ℤ k) 12 (omega (int_laws, soak_range p n b))
          (omega (int_laws, soak_range p n b, r.armor)) (omega arith))
        r)

armor_up-InRange : (n : ℤ) (p : Seat) → InRange p → InRange (armor_up n p)
unfolding armor_up
armor_up-InRange n p r = set_armor-InRange p _ (u8-clampi-le (pos p.armor +ℤ n) 12 (omega arith)) r

convert-InRange : (n : ℤ) (p : Seat) → InRange p → InRange (convert_energy n p)
unfolding convert_energy
convert-InRange n p r = elim (Bool-cases (is_set n)) [
  | inr z ↦ rw z r
  | inl z ↦ rw z (
      armor_up-InRange _ _ (
        set_energy-InRange p (u8 (pos p.energy -ℤ c))
          (u8-le (pos p.energy -ℤ c) 6 (omega (int_laws, range)) (omega (int_laws, range, r.energy))
            (omega arith))
          r))
]
  where
    c : ℤ
    c = clampi n (pos 0) (pos p.energy)

    range : Within (pos 0) (pos p.energy) c
    range = clampi_range n (pos 0) (pos p.energy) (omega arith)

add_energy-InRange : (n : ℤ) (p : Seat) → InRange p → InRange (add_energy n p)
unfolding add_energy energy_cap
add_energy-InRange n p r =
    set_energy-InRange p _ (u8-clampi-le (pos p.energy +ℤ n) 6 (omega arith)) r

add_next_e-InRange : (n : ℤ) (p : Seat) → InRange p → InRange (add_next_e n p)
unfolding add_next_e
add_next_e-InRange n p r =
    set_next_e-InRange p _
      (i8-clampi_range (p.next_e +ℤ n) (negsuc 19) (pos 20) (omega arith) (omega arith)
        (omega arith))
      r

pub vault_range : (v : ℤ) → Within (negsuc 99) (pos 99) (i8 (clampi v (negsuc 99) (pos 99)))
vault_range v = i8-clampi_range v (negsuc 99) (pos 99) (omega arith) (omega arith) (omega arith)

add_vault-InRange : (n : ℤ) (p : Seat) → InRange p → InRange (add_vault n p)
unfolding add_vault
add_vault-InRange n p r = set_vault-InRange p _ (vault_range (p.vault +ℤ n)) r

heal-InRange : (a : Sums) (p : Seat) → InRange p → InRange (heal_seat a p)
unfolding heal_seat
heal-InRange a p r = elim (Bool-cases (can_heal a p)) [
  | inl z ↦ rw z (add_hull-InRange p (heal_of a p) r)
  | inr z ↦ rw z r
]

clear_debts-InRange : (a : Sums) (p : Seat) → InRange p → InRange (clear_debts a p)
unfolding clear_debts
clear_debts-InRange a p r = ground arith

gain_own-InRange : (a : Sums) (p : Seat) → InRange p → InRange (gain_own a p)
unfolding gain_own
gain_own-InRange a p r = clear_debts-InRange a _ (
    add_vault-InRange _ _ (
      add_next_e-InRange _ _
        (add_energy-InRange _ _ (convert-InRange _ _ (armor_up-InRange _ _ (heal-InRange a p r))))))

drain_other-InRange : (a : Sums) (p : Seat) → InRange p → InRange (drain_other a p)
unfolding drain_other
drain_other-InRange a p r =
    add_vault-InRange _ _ (add_next_e-InRange _ _ (add_energy-InRange _ p r))

lifeline-InRange : (b : Bool) (p : Seat) → InRange p → InRange (lifeline_seat b p)
unfolding lifeline_seat
lifeline-InRange b p r = elim (Bool-cases (held_up b p)) [
  | inl z ↦ rw z (set_hull-InRange p (pos 1) (omega arith) r)
  | inr z ↦ rw z r
]

regen-InRange : (p : Seat) → InRange p → InRange (regen_seat p)
unfolding regen_seat
regen-InRange p r = elim (Bool-cases (p.regen_left == 0)) [
  | inl z ↦ rw z r
  | inr z ↦ rw z (ground (arith, add_hull-InRange p (regen_of p) r))
]

burn-InRange : (p : Seat) → InRange p → InRange (burn_seat p)
unfolding burn_seat
burn-InRange p r = elim (Bool-cases (p.burn_left == 0)) [
  | inl z ↦ rw z r
  | inr z ↦ rw z (ground (arith, add_hull-InRange p (pos 0 -ℤ pos p.burn_amt) r))
]

tick-InRange : (b : Bool) (p : Seat) → InRange p → InRange (tick_seat b p)
unfolding tick_seat
tick-InRange b p r =
    lifeline-InRange b _ (ground (arith, burn-InRange (regen_seat p) (regen-InRange p r)))

burn_status-InRange : (a : Sums) (p : Seat) → InRange p → InRange (burn_status a p)
unfolding burn_status
burn_status-InRange a p r = ground arith

own_status-InRange : (a : Sums) (p : Seat) → InRange p → InRange (own_status a p)
unfolding own_status
own_status-InRange a p r = ground arith

pub InRange-Kept : Kept (λ s p. InRange p)
InRange-Kept = record {
  hull = λ s p n r. add_hull-InRange p n r;
  struck_by = λ s p n b r. struck-InRange p n b r;
  own = λ s p a r. gain_own-InRange a p r;
  drained = λ s p a r. drain_other-InRange a p r;
  levelled = λ s p n r. set_hull-InRange p _ (hull_range n) r;
  rewound = λ s p r. set_hull-InRange p p.hull_prev r.hull_prev r;
  lifted = λ s p b r. lifeline-InRange b p r;
  ticked = λ s p b r. tick-InRange b p r;
  burnt = λ s p a r. burn_status-InRange a p r;
  marked = λ s p a r. own_status-InRange a p r;
}
