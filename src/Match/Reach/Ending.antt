-- ===== src/Match/Reach/Ending.antt =====
-- Step 7 of `dw_match_resolve` of core/match.c: when a match ends, and with what results.
use deadweight.Prelude.{ℕ, ◌≤◌, ◌<◌, ◌≡◌, arith, true, false, ◌⊎◌, ◌↔◌}
use deadweight.Prelude.{pos, negsuc, ◌≤ℤ◌, ◌<ℤ◌, ◌-ℤ◌}
use deadweight.Cards.Rules.{round_winner, match_decided, bankrupt}
use deadweight.Match.State.{
  seat0, seat1, Seat, Match, res_win, res_loss, res_draw, end_hull, end_rounds,
}
use deadweight.Match.Resolve.{loses, finish}
use deadweight.Match.Kept.{Each}
use deadweight.Match.Bounds.Seats.{InRange}

-- A seat is out: its hull is gone, or its debt is over 6 credits.
abbrev pub IsOut : Seat → Type 0
IsOut p = (p.hull ≤ℤ pos 0) ⊎ (p.vault <ℤ negsuc 5)

pub finish-InRange :
    (m : Match) → Each (λ s p. InRange p) m.seats → Each (λ s p. InRange p) (finish m).seats
unfolding finish
finish-InRange m e seat0 = ground (arith, e seat0)
finish-InRange m e seat1 = ground (arith, e seat1)

pub finish_open :
    (m : Match) → (finish m).done ≡ false → (finish m ≡ m) × (m.round < 100) × (m.done ≡ false)
unfolding finish
finish_open m h = (ground arith, ground arith, ground arith)

loses_iff : (p : Seat) → ((loses p ≡ true) → IsOut p) × (IsOut p → loses p ≡ true)
unfolding loses bankrupt ◌-ℤ◌
loses_iff p = ground arith

-- Step 7 ends a running match exactly if a seat is out of hull, in too deep a debt, or the round is
-- the hundredth.
pub finish_done_iff :
    (m : Match)
    → m.done ≡ false
    → ((finish m).done ≡ true → IsOut m.seats.at0 ⊎ IsOut m.seats.at1 ⊎ (100 ≤ m.round))
      × (IsOut m.seats.at0 ⊎ IsOut m.seats.at1 ⊎ (100 ≤ m.round) → (finish m).done ≡ true)
unfolding finish match_decided bankrupt ◌-ℤ◌
finish_done_iff m h = ground arith

-- How the results of an ended match stand to one another.
abbrev pub ZeroSum : ℕ → ℕ → Type 0
ZeroSum r0 r1 =
    ((r0 ≡ res_win) × (r1 ≡ res_loss))
    ⊎ ((r0 ≡ res_loss) × (r1 ≡ res_win))
    ⊎ ((r0 ≡ res_draw) × (r1 ≡ res_draw))

-- Who is ahead at the round limit: by hull, then by credits.
abbrev pub Ahead : Seat → Seat → Type 0
Ahead p q = (q.hull <ℤ p.hull) ⊎ ((q.hull ≡ p.hull) × (q.vault <ℤ p.vault))

-- Who beats whom when a match ends.
abbrev pub Beats : Seat → Seat → Type 0
Beats p q = ((¬ IsOut p) × IsOut q) ⊎ ((¬ IsOut p) × (¬ IsOut q) × Ahead p q)

-- The first seat wins an ended match exactly if it beats the second.
finish_first :
    (m : Match)
    → m.done ≡ false
    → (finish m).done ≡ true
    → ((finish m).seats.at0.result ≡ res_win → Beats m.seats.at0 m.seats.at1)
      × (Beats m.seats.at0 m.seats.at1 → (finish m).seats.at0.result ≡ res_win)
unfolding finish match_decided bankrupt ◌-ℤ◌ loses round_winner
finish_first m d e = (ground arith, ground arith)

finish_second :
    (m : Match)
    → m.done ≡ false
    → (finish m).done ≡ true
    → ((finish m).seats.at1.result ≡ res_win → Beats m.seats.at1 m.seats.at0)
      × (Beats m.seats.at1 m.seats.at0 → (finish m).seats.at1.result ≡ res_win)
unfolding finish match_decided bankrupt ◌-ℤ◌ loses round_winner
finish_second m d e = (ground arith, ground arith)

pub finish-ZeroSum :
    (m : Match)
    → m.done ≡ false
    → (finish m).done ≡ true
    → ZeroSum (finish m).seats.at0.result (finish m).seats.at1.result
unfolding finish match_decided bankrupt ◌-ℤ◌ loses round_winner
finish-ZeroSum m d e = ground arith

-- When step 7 ends a running match the results are win and loss or a draw of both, and a seat wins
-- exactly if only the other is out, or neither is and it is ahead by hull and then by credits.
pub finish_results :
    (m : Match)
    → m.done ≡ false
    → (finish m).done ≡ true
    → ZeroSum (finish m).seats.at0.result (finish m).seats.at1.result
      × ((finish m).seats.at0.result ≡ res_win ↔ Beats m.seats.at0 m.seats.at1)
      × ((finish m).seats.at1.result ≡ res_win ↔ Beats m.seats.at1 m.seats.at0)
finish_results m d e = (finish-ZeroSum m d e, finish_first m d e, finish_second m d e)

-- When step 7 ends a match that was not over before, the reason it records is the hull exactly if a
-- hull is gone, and the round limit exactly if neither seat is out.
pub finish_reason :
    (m : Match)
    → m.done ≡ false
    → (finish m).done ≡ true
    → ((finish m).reason ≡ end_hull ↔ (m.seats.at0.hull ≤ℤ pos 0) ⊎ (m.seats.at1.hull ≤ℤ pos 0))
      × ((finish m).reason ≡ end_rounds ↔ (¬ IsOut m.seats.at0) × (¬ IsOut m.seats.at1))
unfolding finish match_decided bankrupt ◌-ℤ◌
finish_reason m d e = ((ground arith, ground arith), (ground arith, ground arith))
