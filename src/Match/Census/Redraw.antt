-- ===== src/Match/Census/Redraw.antt =====
-- What the redraw of core/match.c does to the cards of a seat: nothing is lost.
use deadweight.Prelude.{
  ℕ, zero, suc, ◌+◌, ◌*◌, ◌≤◌, ◌<◌, ◌≡◌, refl, ◌∙◌, ap, arith, List, true, length, length-set,
  get_or, set,
}
use native.Mathlib.Decide.{ℕ_discrete}
use deadweight.Prelude.{ℤ, pos, negsuc, leb_ℤ}
use deadweight.Match.State.{no_card, Seat}
use deadweight.Match.Piles.{to_discard, draw_into, draw_slots}
use deadweight.Match.Hands.{replace_slot, discard_slots, redraw_seat}
use deadweight.Match.Census.Count.{
  same, count, count-set, get_or-set_self, get_or-set_lt, get_or-set_gt, get_or_nonneg,
}
use deadweight.Match.Census.Seats.{
  piles, in_piles, held, IsFull, drawn, held-draw_into, piles-draw_into, hand-draw_into,
  held-to_discard, piles-to_discard, hand-to_discard, held-replace_slot, piles-replace_slot,
  length_hand-replace_slot,
}

-- A seat's change that loses no card and makes none up.
pub record Conserves (p q : Seat) : Type 0 where
  pub same_cards : (x : ℤ) → held x q ≡ held x p
  pub same_piles : piles q ≡ piles p
  pub same_hand : length q.hand ≡ length p.hand

pub Conserves-IsFull : (p q : Seat) → Conserves p q → IsFull p → IsFull q
Conserves-IsFull p q c f = record {
  hand_length = c.same_hand ∙ f.hand_length;
  no_gap = λ n. c.same_cards (negsuc n) ∙ f.no_gap n;
  room = omega (arith, c.same_piles, f.room);
}

pub full_slot :
    (p : Seat) (i : ℕ) → IsFull p → i < 4 → leb_ℤ (pos 0) (get_or p.hand i no_card) ≡ true
unfolding held
full_slot p i f lt =
    get_or_nonneg p.hand i (λ n. omega (arith, f.no_gap n)) (omega (arith, f.hand_length))

pub replace-Conserves :
    (slot : ℕ) (p : Seat)
    → IsFull p
    → slot < 4
    → Conserves p (replace_slot slot (get_or p.hand slot no_card) p)
replace-Conserves slot p f lt = record {
  same_cards =
      λ x. held-replace_slot x slot p (full_slot p slot f lt) (omega (arith, f.hand_length)) roomy;
  same_piles = piles-replace_slot slot _ p (full_slot p slot f lt) roomy;
  same_hand = length_hand-replace_slot slot _ p;
}
  where
    roomy : length p.discard < 128
    roomy = unfold piles in omega (arith, f.room)

-- The slots from `i` to `i + n - 1` hold `v`.
abbrev Slots : ℤ → ℕ → ℕ → List ℤ → Type 0
Slots v n i cs = (j : ℕ) → i ≤ j → j < i + n → get_or cs j no_card ≡ v

pub held-draw_slots :
    (x v : ℤ) (n i : ℕ) (p : Seat)
    → i + n ≤ length p.hand
    → n ≤ piles p
    → Slots v n i p.hand
    → held x (draw_slots n i p) + n * same v x ≡ held x p
unfolding draw_slots
held-draw_slots x v zero i p fits left h = omega arith
held-draw_slots x v (suc n) i p fits left h =
    let q : Seat = draw_into i p in
    let len : length q.hand ≡ length p.hand =
      rw (hand-draw_into i p, length-set p.hand i (drawn p)) refl in
    let old : get_or p.hand i no_card ≡ v = h i (omega arith) (omega arith) in
    omega (
      arith,
      held-draw_slots x v n (suc i) q (omega arith) (omega (arith, piles-draw_into i p)) (λ j a b.
          ap (λ (cs : List ℤ). get_or cs j no_card) (hand-draw_into i p)
          ∙ get_or-set_lt p.hand i j (drawn p) no_card (omega arith)
          ∙ h j (omega arith) (omega arith)),
      held-draw_into x i p (omega arith) (omega arith),
      ap (λ (c : ℤ). same c x) old,
    )

pub piles-draw_slots : (n i : ℕ) (p : Seat) → n ≤ piles p → piles (draw_slots n i p) + n ≡ piles p
unfolding draw_slots
piles-draw_slots zero i p left = omega arith
piles-draw_slots (suc n) i p left = omega (
  arith,
  piles-draw_into i p (omega arith),
  piles-draw_slots n (suc i) (draw_into i p) (omega (arith, piles-draw_into i p)),
)

pub length-draw_slots : (n i : ℕ) (p : Seat) → length (draw_slots n i p).hand ≡ length p.hand
unfolding draw_slots
length-draw_slots zero i p = refl
length-draw_slots (suc n) i p =
    length-draw_slots n (suc i) (draw_into i p)
    ∙ ap length (hand-draw_into i p)
    ∙ length-set p.hand i (drawn p)

-- One step of the loop that discards the hand.
abbrev emptied : ℕ → Seat → Seat
emptied i p =
    let q = to_discard p (get_or p.hand i no_card) in record q { hand = set q.hand i no_card }

hand-emptied : (i : ℕ) (p : Seat) → (emptied i p).hand ≡ set p.hand i no_card
hand-emptied i p = rw (hand-to_discard (get_or p.hand i no_card) p)

abbrev IsReal : ℕ → ℕ → List ℤ → Type 0
IsReal n i cs = (j : ℕ) → i ≤ j → j < i + n → leb_ℤ (pos 0) (get_or cs j no_card) ≡ true

-- Discarding `n` cards from slot `i` on, into piles with room for them.
record Discarded (n i : ℕ) (p q : Seat) : Type 0 where
  cards : (x : ℤ) → held x q ≡ held x p + n * same no_card x
  in_all : piles q ≡ piles p + n
  hand_length : length q.hand ≡ length p.hand
  gone : Slots no_card n i q.hand
  before : (j : ℕ) → j < i → get_or q.hand j no_card ≡ get_or p.hand j no_card

module _ (i : ℕ) (p : Seat) (fits : i < length p.hand) (room : length p.discard < 128)
    (real : leb_ℤ (pos 0) (get_or p.hand i no_card) ≡ true) where
  held-emptied : (x : ℤ) → held x (emptied i p) ≡ held x p + same no_card x
  unfolding held in_piles
  held-emptied x = omega (
    arith,
    held-to_discard x (get_or p.hand i no_card) p real room,
    ap (count x) (hand-to_discard (get_or p.hand i no_card) p),
    ap (count x) (hand-emptied i p),
    count-set x p.hand i no_card fits,
  )

  piles-emptied : piles (emptied i p) ≡ piles p + 1
  unfolding piles
  piles-emptied = piles-to_discard (get_or p.hand i no_card) p real room

  length-emptied : length (emptied i p).hand ≡ length p.hand
  length-emptied = rw (hand-emptied i p) (length-set p.hand i no_card)

  -- The step, then the rest of the loop.
  Discarded-suc : (n : ℕ) (q : Seat) → Discarded n (suc i) (emptied i p) q → Discarded (suc n) i p q
  Discarded-suc n q rest = record {
    cards = λ x. omega (arith, rest.cards x, held-emptied x);
    in_all = omega (arith, rest.in_all, piles-emptied);
    hand_length = rest.hand_length ∙ length-emptied;
    gone = λ j a b. elim (ℕ_discrete j i) [
      | yes e ↦ rw e (
          rest.before i (omega arith)
          ∙ ap (λ (cs : List ℤ). get_or cs i no_card) (hand-emptied i p)
          ∙ get_or-set_self p.hand i no_card no_card fits)
      | no ne ↦ rest.gone j (omega arith) (omega arith)
    ];
    before = λ j a.
        rest.before j (omega arith)
        ∙ ap (λ (cs : List ℤ). get_or cs j no_card) (hand-emptied i p)
        ∙ get_or-set_gt p.hand i j no_card no_card a;
  }

discard_slots_lem :
    (n i : ℕ) (p : Seat)
    → i + n ≤ length p.hand
    → piles p + n ≤ 128
    → IsReal n i p.hand
    → Discarded n i p (discard_slots n i p)
unfolding discard_slots
discard_slots_lem zero i p fits room real = record {
  cards = λ x. omega arith;
  in_all = omega arith;
  hand_length = refl;
  gone = λ j a b. absurd (omega arith);
  before = λ j a. refl;
}
discard_slots_lem (suc n) i p fits room real =
    let lt : i < length p.hand = omega arith in
    let roomy : length p.discard < 128 = unfold piles in omega arith in
    let here : leb_ℤ (pos 0) (get_or p.hand i no_card) ≡ true =
      real i (omega arith) (omega arith) in
    Discarded-suc i p lt roomy here n _ (
      discard_slots_lem n (suc i) (emptied i p) (omega (arith, length-emptied i p lt roomy here))
        (omega (arith, piles-emptied i p lt roomy here))
        (λ j a b.
          rw (hand-emptied i p, get_or-set_lt p.hand i j no_card no_card (omega arith))
            (real j (omega arith) (omega arith))))

-- A redraw of a full hand keeps how often the seat holds each card, the size of its piles together
-- and the size of its hand.
pub redraw-Conserves : (p : Seat) → IsFull p → Conserves p (redraw_seat p)
unfolding redraw_seat
redraw-Conserves p f =
    let q : Seat = discard_slots 4 0 p in
    let d : Discarded 4 0 p q =
      discard_slots_lem 4 0 p (omega (arith, f.hand_length)) (omega (arith, f.room))
        (λ j a b. full_slot p j f b) in
    record {
      same_cards = λ x. omega (
        arith,
        d.cards x,
        held-draw_slots x no_card 4 0 q (omega (arith, f.hand_length, d.hand_length))
            (omega (arith, d.in_all)) d.gone,
      );
      same_piles = omega (arith, d.in_all, piles-draw_slots 4 0 q (omega (arith, d.in_all)));
      same_hand = length-draw_slots 4 0 q ∙ d.hand_length;
    }
