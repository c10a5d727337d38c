-- ===== src/Match/Census/Seats.antt =====
-- The cards of one seat: what drawing and discarding do to them.
use deadweight.Prelude.{
  ℕ, ◌+◌, ◌≤◌, ◌<◌, ◌≡◌, refl, arith, List, [], ◌∷◌, true, ◌&&◌, length, length-append, length-set,
  get_or, set, ltb, ◌==◌, Bool-cases, inl, inr,
}
use deadweight.Prelude.{ℤ, pos, negsuc, leb_ℤ}
use deadweight.Match.State.{no_card, Seat}
use deadweight.Match.Piles.{reshuffle, top, draw_card, to_discard, draw_into}
use deadweight.Match.Hands.{replace_slot}
use deadweight.Match.Census.Count.{same, count, count-append, count-set, count-top, length-under}
use deadweight.Match.Census.Shuffle.{count-shuffle, length-shuffle}

-- The size of the two piles, and how often a card lies in them or in the hand.
unfoldable pub piles : Seat → ℕ
piles p = length p.draw + length p.discard

unfoldable pub in_piles : ℤ → Seat → ℕ
in_piles x p = count x p.draw + count x p.discard

unfoldable pub held : ℤ → Seat → ℕ
held x p = count x p.hand + in_piles x p

-- A seat between rounds: four cards in hand, no empty slot, and room in the discard for every card.
pub record IsFull (p : Seat) : Type 0 where
  pub hand_length : length p.hand ≡ 4
  pub no_gap : (n : ℕ) → held (negsuc n) p ≡ 0
  pub room : piles p ≤ 124

reshuffle_hand : (p : Seat) → (reshuffle p).hand ≡ p.hand
unfolding reshuffle
reshuffle_hand p = ground arith

piles-reshuffle : (p : Seat) → piles (reshuffle p) ≡ piles p
unfolding reshuffle piles
piles-reshuffle p = ground (arith, length-shuffle p.rng p.discard)

in_piles-reshuffle : (x : ℤ) (p : Seat) → in_piles x (reshuffle p) ≡ in_piles x p
unfolding reshuffle in_piles count
in_piles-reshuffle x p = elim (Bool-cases (length p.draw == 0 && ltb 0 (length p.discard))) [
  | inl z ↦ rw z (ground (arith, count-shuffle x p.rng p.discard, empty x p.draw))
  | inr z ↦ rw z
]
  where
    empty : (x : ℤ) (cs : List ℤ) → length cs ≡ 0 → count x cs ≡ 0
    empty x [] h = refl
    empty x (c ∷ cs) h = absurd (omega arith)

reshuffle_draw : (p : Seat) → 0 < piles p → 0 < length (reshuffle p).draw
unfolding reshuffle piles
reshuffle_draw p h = ground (arith, length-shuffle p.rng p.discard)

-- The card that `draw_card` returns.
abbrev pub drawn : Seat → ℤ
drawn p = top (reshuffle p).draw

-- Drawing into a slot: what was there is overwritten.
pub held-draw_into :
    (x : ℤ) (slot : ℕ) (p : Seat)
    → slot < length p.hand
    → 0 < piles p
    → held x (draw_into slot p) + same (get_or p.hand slot no_card) x ≡ held x p
unfolding held in_piles draw_into draw_card
held-draw_into x slot p lt some_left = ground (
  arith,
  reshuffle_hand p,
  in_piles-reshuffle x p,
  reshuffle_draw p some_left,
  count-top x (reshuffle p).draw,
  count-set x p.hand slot (drawn p) lt,
)

pub piles-draw_into : (slot : ℕ) (p : Seat) → 0 < piles p → piles (draw_into slot p) + 1 ≡ piles p
unfolding piles draw_into draw_card
piles-draw_into slot p some_left =
    ground (arith, piles-reshuffle p, reshuffle_draw p some_left, length-under (reshuffle p).draw)

pub hand-draw_into : (slot : ℕ) (p : Seat) → (draw_into slot p).hand ≡ set p.hand slot (drawn p)
unfolding draw_into draw_card
hand-draw_into slot p = rw (reshuffle_hand p)

pub held-to_discard :
    (x c : ℤ) (p : Seat)
    → leb_ℤ (pos 0) c ≡ true
    → length p.discard < 128
    → held x (to_discard p c) ≡ held x p + same c x
unfolding held in_piles to_discard count
held-to_discard x c p h room = ground (arith, count-append x p.discard (c ∷ []))

pub piles-to_discard :
    (c : ℤ) (p : Seat)
    → leb_ℤ (pos 0) c ≡ true
    → length p.discard < 128
    → piles (to_discard p c) ≡ piles p + 1
unfolding piles to_discard
piles-to_discard c p h room = ground (arith, length-append p.discard (c ∷ []))

pub hand-to_discard : (c : ℤ) (p : Seat) → (to_discard p c).hand ≡ p.hand
unfolding to_discard
hand-to_discard c p = ground arith

-- A card that leaves its slot for the discard pile, from a pile with room, is not lost.
pub held-replace_slot :
    (x : ℤ) (slot : ℕ) (p : Seat)
    → leb_ℤ (pos 0) (get_or p.hand slot no_card) ≡ true
    → slot < length p.hand
    → length p.discard < 128
    → held x (replace_slot slot (get_or p.hand slot no_card) p) ≡ held x p
unfolding replace_slot
held-replace_slot x slot p real lt room = ground (
  arith,
  held-draw_into x slot (to_discard p (get_or p.hand slot no_card)),
  held-to_discard x (get_or p.hand slot no_card) p real room,
  piles-to_discard (get_or p.hand slot no_card) p real room,
  hand-to_discard (get_or p.hand slot no_card) p,
)

pub piles-replace_slot :
    (slot : ℕ) (c : ℤ) (p : Seat)
    → leb_ℤ (pos 0) c ≡ true
    → length p.discard < 128
    → piles (replace_slot slot c p) ≡ piles p
unfolding replace_slot
piles-replace_slot slot c p real room = omega (
  arith,
  piles-to_discard c p real room,
  piles-draw_into slot (to_discard p c) (omega (arith, piles-to_discard c p real room)),
)

pub length_hand-replace_slot :
    (slot : ℕ) (c : ℤ) (p : Seat) → length (replace_slot slot c p).hand ≡ length p.hand
unfolding replace_slot
length_hand-replace_slot slot c p = rw (
  hand-draw_into slot (to_discard p c),
  length-set _ slot (drawn (to_discard p c)),
  hand-to_discard c p,
)
