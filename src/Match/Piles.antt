-- ===== src/Match/Piles.antt =====
-- core/match.c: `shuffle_pile`, `draw_card` and `to_discard`. A pile is a list in array order.
use deadweight.Prelude.{
  ℕ, zero, suc, ◌-◌, ◌%◌, List, [], ◌∷◌, ◌++◌, ◌&&◌, ltb, ◌==◌, if◌then◌else◌, length, get_or, set,
  xs,
}
use deadweight.Prelude.{ℤ, pos, leb_ℤ}
use deadweight.Match.State.{Seat, no_card, dw_deck}

-- `t = a[i]; a[i] = a[j]; a[j] = t`
unfoldable pub swap_at : List ℤ → ℕ → ℕ → List ℤ
swap_at a i j = set (set a i (get_or a j no_card)) j (get_or a i no_card)

pub record Shuffled : Type 0 where
  pub stream : ℕ
  pub pile : List ℤ

-- The loop from index `i` down to 1: each step draws `j` from the seat's stream.
unfoldable pub shuffle_from : ℕ → ℕ → List ℤ → Shuffled
shuffle_from zero r a = record { stream = r; pile = a }
shuffle_from (suc i) r a = shuffle_from i (xs r) (swap_at a (suc i) (xs r % suc (suc i)))

unfoldable pub shuffle_pile : ℕ → List ℤ → Shuffled
shuffle_pile r a = shuffle_from (length a - 1) r a

-- The last card, and the pile without it.
unfoldable pub top : List ℤ → ℤ
top [] = no_card
top (c ∷ []) = c
top (c ∷ d ∷ cs) = top (d ∷ cs)

unfoldable pub under : List ℤ → List ℤ
under [] = []
under (c ∷ []) = []
under (c ∷ d ∷ cs) = c ∷ under (d ∷ cs)

-- The discard becomes the draw pile when the latter is empty.
unfoldable pub reshuffle : Seat → Seat
reshuffle p =
    if length p.draw == 0 && ltb 0 (length p.discard)
    then record p {
      rng = (shuffle_pile p.rng p.discard).stream;
      draw = (shuffle_pile p.rng p.discard).pile;
      discard = [];
    }
    else p

pub record Drawn : Type 0 where
  pub card : ℤ
  pub seat : Seat

unfoldable pub draw_card : Seat → Drawn
draw_card p =
    let q = reshuffle p in record { card = top q.draw; seat = record q { draw = under q.draw } }

unfoldable pub to_discard : Seat → ℤ → Seat
to_discard p card =
    if leb_ℤ (pos 0) card && ltb (length p.discard) dw_deck
    then record p { discard = p.discard ++ (card ∷ []) }
    else p

-- `m->hand[s][slot] = draw_card(m, s)`
unfoldable pub draw_into : ℕ → Seat → Seat
draw_into slot p = let d = draw_card p in record (d.seat) { hand = set d.seat.hand slot d.card }

-- Slots `i` to `i + n - 1`, one after the other.
unfoldable pub draw_slots : ℕ → ℕ → Seat → Seat
draw_slots zero i p = p
draw_slots (suc n) i p = draw_slots n (suc i) (draw_into i p)
