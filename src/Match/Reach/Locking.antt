-- ===== src/Match/Reach/Locking.antt =====
-- What `dw_match_lock` of core/match.c accepts, and what it changes.
use deadweight.Prelude.{◌≤◌, ◌≡◌, ◌≢◌, arith, true, false, ◌||◌, Bool-cases, inl, inr, ltb, ◌==◌}
use deadweight.Prelude.{ℤ, pos, negsuc, ltb_ℤ, leb_ℤ, i8, i8_fits}
use deadweight.Cards.Rules.{is_legal_play}
use deadweight.Match.State.{Side, at, put, Seat, Match}
use deadweight.Match.Setup.{hand_at, bit_at, slot_verdict, match_lock}
use deadweight.Match.Exchange.{declared}
use deadweight.Match.Bounds.Seats.{InRange, Within}
use deadweight.Match.Bounds.Rounds.{Affordable}

-- A choice that the rules allow: pass, or an unlocked slot with a card that can be paid for.
pub record Allowed (p : Seat) (slot : ℤ) : Type 0 where
  pub within : Within (negsuc 0) (pos 3) slot
  pub unlocked : leb_ℤ (pos 0) slot ≡ true → bit_at p.lock_mask slot ≡ false
  pub legal :
      leb_ℤ (pos 0) slot ≡ true → is_legal_play (hand_at p.hand slot) (pos p.energy) p.vault ≡ true

pub verdict-Allowed : (p : Seat) (slot : ℤ) → slot_verdict p slot ≡ 0 → Allowed p slot
unfolding slot_verdict
verdict-Allowed p slot h = ground arith

legal_nonneg : (id e v : ℤ) → is_legal_play id e v ≡ true → ltb_ℤ id (pos 0) ≡ false
unfolding is_legal_play
legal_nonneg id e v h = ground arith

pub Allowed-verdict : (p : Seat) (slot : ℤ) → Allowed p slot → slot_verdict p slot ≡ 0
unfolding slot_verdict
Allowed-verdict p slot h = ground (arith, legal_nonneg (hand_at p.hand slot) (pos p.energy) p.vault)

unfoldable pub locked_seat : Seat → ℤ → Seat
locked_seat p slot = record p { locked = true; lock_slot = i8 slot }

pub locked_seat-Affordable :
    (p : Seat) (slot : ℤ) → slot_verdict p slot ≡ 0 → Affordable (locked_seat p slot)
unfolding locked_seat declared
locked_seat-Affordable p slot h =
    let ok : Allowed p slot = verdict-Allowed p slot h in
    rw (i8_fits slot (omega (arith, ok.within)) (omega (arith, ok.within)))
      (ground (arith, ok.legal))

pub locked_seat-InRange : (p : Seat) (slot : ℤ) → InRange p → InRange (locked_seat p slot)
unfolding locked_seat
locked_seat-InRange p slot r = ground arith

-- What a lock leaves: the same match, unless the round is open, the seat is free and the slot allowed.
pub lock_cases {ℓ} :
    (P : Match → Type ℓ) (m : Match) (s : Side) (slot : ℤ)
    → P m
    → (slot_verdict (at m.seats s) slot ≡ 0
        → P (record m { seats = put m.seats s (locked_seat (at m.seats s) slot) }))
    → P (match_lock m s slot).0
unfolding match_lock locked_seat
lock_cases P m s slot same changed = elim (Bool-cases (m.done || ltb m.round 1)) [
  | inl z ↦ rw z same
  | inr z ↦ rw z (elim (Bool-cases (at m.seats s).locked) [
    | inl y ↦ rw y same
    | inr y ↦ rw y (elim (Bool-cases (slot_verdict (at m.seats s) slot == 0)) [
      | inl x ↦ rw x (changed (ground arith))
      | inr x ↦ rw x same
    ])
  ])
]

-- Locking succeeds exactly in an open round, for a seat that has not locked and an allowed choice.
pub lock_accepts_iff :
    (m : Match) (s : Side) (slot : ℤ)
    → ((match_lock m s slot).1 ≡ 0
        → (m.done ≡ false)
          × (1 ≤ m.round)
          × ((at m.seats s).locked ≡ false)
          × Allowed (at m.seats s) slot)
      × ((m.done ≡ false)
            × (1 ≤ m.round)
            × ((at m.seats s).locked ≡ false)
            × Allowed (at m.seats s) slot
          → (match_lock m s slot).1 ≡ 0)
unfolding match_lock
lock_accepts_iff m s slot = (
  λ h. (
    ground arith,
    ground arith,
    ground arith,
    verdict-Allowed (at m.seats s) slot (ground arith),
  ),
  λ h. ground (arith, Allowed-verdict (at m.seats s) slot h.3),
)

-- A rejected lock changes nothing.
pub lock_rejected :
    (m : Match) (s : Side) (slot : ℤ) → (match_lock m s slot).1 ≢ 0 → (match_lock m s slot).0 ≡ m
unfolding match_lock
lock_rejected m s slot h = ground arith
