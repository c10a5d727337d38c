-- ===== src/Match/State.antt =====
-- core/match.h: `DwMatch`, `DwOutcome`, `DwView` and `DwPostView`. The C arrays over the two seats
-- are a pair of records here, so `m->hull[s]` reads `(at m.seats s).hull`.
use deadweight.Prelude.{ℕ, Bool, List, if◌then◌else◌}
use deadweight.Prelude.{ℤ, pos, negsuc, ltb_ℤ}

-- A seat index, 0 or 1, and `1 - s`.
pub data Side : Type 0 where
  seat0 seat1 : Side

unfoldable pub other : Side → Side
other seat0 = seat1
other seat1 = seat0

-- An array `x[2]`.
pub record Two {ℓ} (A : Type ℓ) : Type ℓ where
  pub at0 : A
  pub at1 : A

module _ {ℓ} {A : Type ℓ} where
  abbrev pub at : Two A → Side → A
  at t seat0 = t.at0
  at t seat1 = t.at1

  abbrev pub put : Two A → Side → A → Two A
  put t seat0 a = record { at0 = a; at1 = t.at1 }
  put t seat1 a = record { at0 = t.at0; at1 = a }

  -- `for (int s = 0; s < 2; s++)` over a state.
  unfoldable pub for_seats : (Side → A → A) → A → A
  for_seats body a = body seat1 (body seat0 a)

abbrev pub both {ℓ} : {A : Type ℓ} → (Side → A) → Two A
both f = record { at0 = f seat0; at1 = f seat1 }

abbrev pub no_card : ℤ
no_card = negsuc 0

abbrev pub dw_hand : ℕ
dw_hand = 4

abbrev pub dw_deck : ℕ
dw_deck = 128

abbrev pub dw_armor_max : ℤ
dw_armor_max = pos 12

-- What `DwMatch` holds for one seat: signed fields as integers, unsigned ones as numbers.
-- `draw` and `discard` are the C arrays up to `draw_n` and `discard_n`: the last card is the top.
pub record Seat : Type 0 where
  pub rng : ℕ
  pub rfx : ℕ
  pub hull : ℤ
  pub energy : ℕ
  pub armor : ℕ
  pub vault : ℤ
  pub hull_start : ℤ
  pub hull_prev : ℤ
  pub burn_amt : ℕ
  pub burn_left : ℕ
  pub regen_amt : ℕ
  pub regen_left : ℕ
  pub hidden : ℕ
  pub lock_mask : ℕ
  pub next_lock : ℕ
  pub next_e : ℤ
  pub roll : ℕ
  pub hand : List ℤ
  pub draw : List ℤ
  pub discard : List ℤ
  pub locked : Bool
  pub lock_slot : ℤ
  pub result : ℕ

pub record Match : Type 0 where
  pub seed : ℕ
  pub seats : Two Seat
  pub round : ℕ
  pub done : Bool
  pub reason : ℕ

-- `DwOutcome`, for one seat.
pub record Outcome : Type 0 where
  pub card : ℤ
  pub eff : ℤ
  pub dmg_to : ℕ
  pub heal : ℕ
  pub roll : ℕ
  pub flags : ℕ

-- core/protocol.h: reasons and results.
abbrev pub rej_illegal_card : ℕ
rej_illegal_card = 1

abbrev pub rej_bad_slot : ℕ
rej_bad_slot = 2

abbrev pub rej_already_locked : ℕ
rej_already_locked = 4

abbrev pub rej_no_match : ℕ
rej_no_match = 5

abbrev pub res_loss : ℕ
res_loss = 0

abbrev pub res_win : ℕ
res_win = 1

abbrev pub res_draw : ℕ
res_draw = 2

abbrev pub end_hull : ℕ
end_hull = 0

abbrev pub end_rounds : ℕ
end_rounds = 1

abbrev pub end_forfeit : ℕ
end_forfeit = 2

abbrev pub end_bankrupt : ℕ
end_bankrupt = 4

unfoldable pub clampi : ℤ → ℤ → ℤ → ℤ
clampi v lo hi = if ltb_ℤ v lo then lo else if ltb_ℤ hi v then hi else v
