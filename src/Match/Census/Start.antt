-- ===== src/Match/Census/Start.antt =====
-- Setting a match up: `dw_match_init_decks` of core/match.c deals from the whole deck.
use deadweight.Prelude.{
  ℕ, zero, suc, ◌+◌, ◌*◌, ◌≤◌, ◌<◌, ◌≡◌, refl, ap, ◌∙◌, arith, List, [], ◌∷◌, length, take, get_or,
  replicate, Option, none, some,
}
use deadweight.Prelude.{ℤ, pos, negsuc}
use deadweight.Match.State.{Side, no_card, Seat}
use deadweight.Match.Piles.{shuffle_pile, draw_slots}
use deadweight.Match.Setup.{count_up, deck_cards, init_seat}
use deadweight.Match.Census.Count.{same, count}
use deadweight.Match.Census.Shuffle.{count-shuffle, length-shuffle}
use deadweight.Match.Census.Seats.{held, in_piles, piles, IsFull}
use deadweight.Match.Census.Redraw.{held-draw_slots, piles-draw_slots, length-draw_slots}

-- What a deck must be: at least a hand of cards, and no negative id.
pub record IsDeck (dk : Option (List ℤ)) : Type 0 where
  pub enough : 4 ≤ length (deck_cards dk)
  pub real : (n : ℕ) → count (negsuc n) (deck_cards dk) ≡ 0

length-take-le : (n : ℕ) (cs : List ℤ) → length (take n cs) ≤ n
length-take-le zero cs = omega arith
length-take-le (suc n) [] = omega arith
length-take-le (suc n) (c ∷ cs) = omega (arith, length-take-le n cs)

length-count_up : (n i : ℕ) → length (count_up n i) ≡ n
length-count_up zero i = refl
length-count_up (suc n) i = omega (arith, length-count_up n (suc i))

deck_length : (dk : Option (List ℤ)) → length (deck_cards dk) ≤ 128
unfolding deck_cards
deck_length none = omega (arith, length-count_up 105 0)
deck_length (some dk) = length-take-le 128 dk

count-count_up : (k n i : ℕ) → count (negsuc k) (count_up n i) ≡ 0
unfolding count same
count-count_up k zero i = refl
count-count_up k (suc n) i = ground (arith, count-count_up k n (suc i))

-- The catalog is a deck.
pub catalog-IsDeck : IsDeck none
unfolding deck_cards
catalog-IsDeck = record {
  enough = omega (arith, length-count_up 105 0);
  real = λ n. count-count_up n 105 0;
}

blank_hand : (j : ℕ) → 0 ≤ j → j < 0 + 4 → get_or (replicate 4 (pos 0)) j no_card ≡ pos 0
blank_hand zero a b = refl
blank_hand (suc zero) a b = refl
blank_hand (suc (suc zero)) a b = refl
blank_hand (suc (suc (suc zero))) a b = refl
blank_hand (suc (suc (suc (suc j)))) a b = absurd (omega arith)

module _ (p : Seat) (dk : Option (List ℤ)) (deck : IsDeck dk) (r : ℕ)
    (hand : p.hand ≡ replicate 4 (pos 0)) (draw : p.draw ≡ (shuffle_pile r (deck_cards dk)).pile)
    (discard : p.discard ≡ []) where
  before : piles p ≡ length (deck_cards dk)
  unfolding piles
  before = omega (arith, ap length draw, ap length discard, length-shuffle r (deck_cards dk))

  dealt_held : (x : ℤ) → held x (draw_slots 4 0 p) ≡ count x (deck_cards dk)
  dealt_held x = omega (
    arith,
    held-draw_slots x (pos 0) 4 0 p (omega (arith, ap length hand))
        (omega (arith, before, deck.enough)) (λ j a b. rw hand (blank_hand j a b)),
    hold x,
  )
    where
      hold : (x : ℤ) → held x p ≡ 4 * same (pos 0) x + count x (deck_cards dk)
      hold x =
          unfold held in_piles in
          rw (hand, draw, discard)
            (unfold count in omega (arith, count-shuffle x r (deck_cards dk)))

  dealt-IsFull : IsFull (draw_slots 4 0 p)
  dealt-IsFull = record {
    hand_length = length-draw_slots 4 0 p ∙ ap length hand;
    no_gap = λ n. dealt_held (negsuc n) ∙ deck.real n;
    room = omega (
      arith,
      piles-draw_slots 4 0 p (omega (arith, before, deck.enough)),
      before,
      deck_length dk,
    );
  }

pub init_seat-IsFull :
    (seed : ℕ) (s : Side) (dk : Option (List ℤ)) → IsDeck dk → IsFull (init_seat seed s dk)
unfolding init_seat
init_seat-IsFull seed s dk deck = dealt-IsFull _ dk deck _ refl refl refl

pub held-init_seat :
    (x : ℤ) (seed : ℕ) (s : Side) (dk : Option (List ℤ))
    → IsDeck dk
    → held x (init_seat seed s dk) ≡ count x (deck_cards dk)
unfolding init_seat
held-init_seat x seed s dk deck = dealt_held _ dk deck _ refl refl refl x
