-- ===== src/Match/Views.antt =====
-- core/match.c: `status_bits`, `dw_match_view` and `dw_match_post_view`, what a seat is shown.
pub mod Hidden
use deadweight.Prelude.{ℕ, ◌+◌, List, [], ◌∷◌, ◌==◌, if◌then◌else◌, u8, bit_or}
use deadweight.Prelude.{ℤ, pos, negsuc, leb_ℤ}
use deadweight.Match.State.{Side, other, Two, at, Seat, Match}

-- core/protocol.h: what stands for a hidden meter.
abbrev pub hidden_u8 : ℕ
hidden_u8 = 255

abbrev pub hidden_i8 : ℤ
hidden_i8 = negsuc 127

pub record View : Type 0 where
  pub round : ℕ
  pub hull_you : ℤ
  pub hull_opp : ℤ
  pub energy_you : ℕ
  pub energy_opp : ℕ
  pub armor_you : ℕ
  pub armor_opp : ℕ
  pub vault_you : ℤ
  pub vault_opp : ℤ
  pub hand : List ℤ
  pub opp_hand_size : ℕ
  pub lock_mask : ℕ
  pub status_you : ℕ
  pub status_opp : ℕ

pub record PostView : Type 0 where
  pub armor_you : ℕ
  pub armor_opp : ℕ
  pub vault_you : ℤ
  pub vault_opp : ℤ

unfoldable pub status_bits : Seat → ℕ
status_bits p = u8 (
    pos (
      bit_or (bit_or (if p.burn_left == 0 then 0 else 1) (if p.regen_left == 0 then 0 else 2))
        (if p.hidden == 0 then 0 else 4)))

-- The loop that counts the cards of the other hand.
unfoldable pub hand_count : List ℤ → ℕ
hand_count [] = 0
hand_count (c ∷ cs) = (if leb_ℤ (pos 0) c then 1 else 0) + hand_count cs

unfoldable pub match_view : Match → Side → View
match_view m seat =
    let you = at m.seats seat in
    let opp = at m.seats (other seat) in
    record {
      round = m.round;
      hull_you = you.hull;
      hull_opp = opp.hull;
      energy_you = you.energy;
      energy_opp = if opp.hidden == 0 then opp.energy else hidden_u8;
      armor_you = you.armor;
      armor_opp = if opp.hidden == 0 then opp.armor else hidden_u8;
      vault_you = you.vault;
      vault_opp = if opp.hidden == 0 then opp.vault else hidden_i8;
      hand = you.hand;
      opp_hand_size = u8 (pos (hand_count opp.hand));
      lock_mask = you.lock_mask;
      status_you = status_bits you;
      status_opp = status_bits opp;
    }

unfoldable pub match_post_view : Match → Side → PostView
match_post_view m seat =
    let you = at m.seats seat in
    let opp = at m.seats (other seat) in
    record {
      armor_you = you.armor;
      armor_opp = if opp.hidden == 0 then opp.armor else hidden_u8;
      vault_you = you.vault;
      vault_opp = if opp.hidden == 0 then opp.vault else hidden_i8;
    }
