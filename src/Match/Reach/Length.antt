-- ===== src/Match/Reach/Length.antt =====
-- How long a match of core/match.c lasts.
use deadweight.Prelude.{◌≤◌, ◌≡◌, arith, Bool, true, List, Option, inr}
use deadweight.Prelude.{ℤ}
use deadweight.Match.State.{Match}
use deadweight.Match.Resolve.{match_resolve}
use deadweight.Match.Reach.{Reach}
use deadweight.Match.Reach.Ending.{finish_done_iff}
use deadweight.Match.Reach.Invariant.{Reach-IsPlayable}

resolve_late : (m : Match) → m.done ≡ Bool.false → 100 ≤ m.round → (match_resolve m).done ≡ true
unfolding match_resolve
resolve_late m open_round late = (finish_done_iff _ open_round).1 (inr (inr late))

-- A match never has more than 100 rounds: a reached round is one of 1 to 100, and when the
-- hundredth resolves the match is over.
pub Reach-at_most_100 :
    {deck0 deck1 : Option (List ℤ)} {m : Match}
    → Reach deck0 deck1 m
    → (1 ≤ m.round) × (m.round ≤ 100) × (m.round ≡ 100 → (match_resolve m).done ≡ true)
Reach-at_most_100 {m = m} r =
    let v = Reach-IsPlayable r in (v.first, v.last, λ e. resolve_late m v.open_round (omega arith))
