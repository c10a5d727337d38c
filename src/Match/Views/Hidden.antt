-- ===== src/Match/Views/Hidden.antt =====
-- What a view of core/match.c gives away of the other seat.
use deadweight.Prelude.{◌≡◌, ◌≢◌, ◌↔◌, refl, arith, List, Option, ◌==◌, false}
use deadweight.Prelude.{ℤ}
use deadweight.Match.State.{Side, other, at, Seat, Match}
use deadweight.Match.Reach.{Reach}
use deadweight.Match.Reach.Invariant.{Reach-IsPlayable}
use deadweight.Match.Views.{
  hidden_u8, hidden_i8, status_bits, hand_count, match_view, match_post_view,
}

-- Two seats that show the same in public: the hull, the statuses and the number of cards. The cards
-- themselves, the piles, the streams, the meters and the locked slot may differ.
pub record SameOutside (p q : Seat) : Type 0 where
  pub hull : p.hull ≡ q.hull
  pub statuses : status_bits p ≡ status_bits q
  pub size : hand_count p.hand ≡ hand_count q.hand
  pub hidden : p.hidden ≡ q.hidden

-- While the other seat's meters are hidden, a seat's view and its view after a round are determined
-- by the round, the seat itself and the other's hull, statuses, hidden rounds and number of cards.
pub view-hides :
    (m n : Match) (s : Side)
    → m.round ≡ n.round
    → at m.seats s ≡ at n.seats s
    → SameOutside (at m.seats (other s)) (at n.seats (other s))
    → (at m.seats (other s)).hidden ≢ 0
    → (match_view m s ≡ match_view n s) × (match_post_view m s ≡ match_post_view n s)
unfolding match_view match_post_view
view-hides m n s r own same h =
    let shut : ((at m.seats (other s)).hidden == 0) ≡ false = ground arith in
    let shut' : ((at n.seats (other s)).hidden == 0) ≡ false = ground (arith, same.hidden) in
    (rw (shut, shut', r, own, same.hull, same.statuses, same.size) refl, rw (shut, shut', own) refl)

-- In every state that a match reaches, a view shows the stand-in for a meter exactly if the other
-- seat's meters are hidden, and the meter itself otherwise.
pub view_stand_in_iff :
    {deck0 deck1 : Option (List ℤ)} {m : Match} (s : Side)
    → Reach deck0 deck1 m
    → ((match_view m s).energy_opp ≡ hidden_u8 ↔ (at m.seats (other s)).hidden ≢ 0)
      × ((match_view m s).armor_opp ≡ hidden_u8 ↔ (at m.seats (other s)).hidden ≢ 0)
      × ((match_view m s).vault_opp ≡ hidden_i8 ↔ (at m.seats (other s)).hidden ≢ 0)
unfolding match_view
view_stand_in_iff {m = m} s r =
    let p = (Reach-IsPlayable r).in_range (other s) in
    (
      (ground (arith, p.energy), ground arith),
      (ground (arith, p.armor), ground arith),
      (ground (arith, p.vault), ground arith),
    )
