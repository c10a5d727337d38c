-- ===== src/Match/Census/Table.antt =====
-- The cards on the table in every state that a match of core/match.c reaches.
use deadweight.Prelude.{ℕ, ◌+◌, ◌≡◌, refl, ◌∙◌, arith, List, Option}
use deadweight.Prelude.{ℤ}
use deadweight.Match.State.{Side, seat0, seat1, Two, at, put, Seat, Match}
use deadweight.Match.Setup.{deck_cards, match_init_decks, begin_seat, begin_round}
use deadweight.Match.Kept.{Each, put-Each}
use deadweight.Match.Reach.{Reach, start, lock, next}
use deadweight.Match.Reach.Locking.{locked_seat, lock_cases}
use deadweight.Match.Census.Count.{count}
use deadweight.Match.Census.Seats.{IsFull}
use deadweight.Match.Census.Works.{total, AreFull, Moved, Moved-trans}
use deadweight.Match.Census.Whole.{SameBoard, unmoved_board, resolve-Moved}
use deadweight.Match.Census.Start.{IsDeck, init_seat-IsFull, held-init_seat}

-- The two decks are on the table, each card as often as in both together, and both hands are full.
pub record HoldsDecks (deck0 deck1 : Option (List ℤ)) (t : Two Seat) : Type 0 where
  pub cards : (x : ℤ) → total x t ≡ count x (deck_cards deck0) + count x (deck_cards deck1)
  pub full : AreFull t

HoldsDecks-Moved :
    (deck0 deck1 : Option (List ℤ)) (t u : Two Seat)
    → Moved t u
    → HoldsDecks deck0 deck1 t
    → HoldsDecks deck0 deck1 u
HoldsDecks-Moved deck0 deck1 t u c h = record { cards = λ x. c.totals x ∙ h.cards x; full = c.full }

begin_cards : (m : Match) → Each (λ s p. SameBoard (at m.seats s) p) (begin_round m).seats
unfolding begin_round begin_seat
begin_cards m seat0 = (refl, refl, refl)
begin_cards m seat1 = (refl, refl, refl)

locked_cards :
    (m : Match) (s : Side) (slot : ℤ)
    → Each (λ s p. SameBoard (at m.seats s) p) (put m.seats s (locked_seat (at m.seats s) slot))
unfolding locked_seat
locked_cards m s slot =
    put-Each (λ s p. SameBoard (at m.seats s) p) m.seats s _ (refl, refl, refl)
      λ t. (refl, refl, refl)

module _ {deck0 deck1 : Option (List ℤ)} (d0 : IsDeck deck0) (d1 : IsDeck deck1) where
  start-HoldsDecks : (seed : ℕ) → HoldsDecks deck0 deck1 (match_init_decks seed deck0 deck1).seats
  unfolding match_init_decks total
  start-HoldsDecks seed = record {
    cards = λ x.
        omega (arith, held-init_seat x seed seat0 deck0 d0, held-init_seat x seed seat1 deck1 d1);
    full = λ s. elim s as (λ s. IsFull (at (match_init_decks seed deck0 deck1).seats s)) [
      | seat0 ↦ init_seat-IsFull seed seat0 deck0 d0
      | seat1 ↦ init_seat-IsFull seed seat1 deck1 d1
    ];
  }

  -- In every state that a match of two decks, each of at least four real cards, reaches, each card
  -- lies in the hands and piles exactly as often as in the two decks, and both hands are full.
  pub Reach-HoldsDecks : {m : Match} → Reach deck0 deck1 m → HoldsDecks deck0 deck1 m.seats
  Reach-HoldsDecks (start seed) =
      let h = start-HoldsDecks seed in
      HoldsDecks-Moved deck0 deck1 _ _ (unmoved_board _ _ (begin_cards _) h.full) h
  Reach-HoldsDecks (lock {m} s slot r) =
      let h = Reach-HoldsDecks r in
      lock_cases (λ m. HoldsDecks deck0 deck1 m.seats) m s slot h
        λ v. HoldsDecks-Moved deck0 deck1 _ _ (unmoved_board _ _ (locked_cards m s slot) h.full) h
  Reach-HoldsDecks (next {m} r b d) =
      let h = Reach-HoldsDecks r in
      let resolved = resolve-Moved m h.full in
      HoldsDecks-Moved deck0 deck1 _ _
        (Moved-trans _ _ _ resolved (unmoved_board _ _ (begin_cards _) resolved.full)) h
