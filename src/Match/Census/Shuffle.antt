-- ===== src/Match/Census/Shuffle.antt =====
-- `shuffle_pile` of core/match.c rearranges a pile.
use deadweight.Prelude.{
  ℕ, zero, suc, ◌-◌, ◌%◌, ◌≤◌, ◌<◌, ◌≡◌, refl, ◌∙◌, arith, List, [], ◌∷◌, length, get_or, set,
  length-set, xs,
}
use native.Mathlib.Decide.{dec_lt}
use deadweight.Prelude.{ℤ}
use deadweight.Match.State.{no_card}
use deadweight.Match.Piles.{swap_at, shuffle_from, shuffle_pile}
use deadweight.Match.Census.Count.{count, count-set, get_or-set_self, get_or-set_gt}

pub length-swap_at : (cs : List ℤ) (i j : ℕ) → length (swap_at cs i j) ≡ length cs
unfolding swap_at
length-swap_at cs i j = length-set _ j _ ∙ length-set cs i _

-- The swap reads both cards before it writes; `i` may be `j`.
pub count-swap_at :
    (x : ℤ) (cs : List ℤ) (i j : ℕ) → j ≤ i → i < length cs → count x (swap_at cs i j) ≡ count x cs
unfolding swap_at
count-swap_at x cs i j le lt = elim (dec_lt j i) [
  | yes h ↦ ground (
    arith,
    count-set x cs i (get_or cs j no_card) lt,
    count-set x (set cs i (get_or cs j no_card)) j (get_or cs i no_card),
    length-set cs i (get_or cs j no_card),
    get_or-set_gt cs i j (get_or cs j no_card) no_card h,
  )
  | no h ↦ ground (
    arith,
    count-set x cs i (get_or cs j no_card) lt,
    count-set x (set cs i (get_or cs j no_card)) j (get_or cs i no_card),
    length-set cs i (get_or cs j no_card),
    get_or-set_self cs i (get_or cs j no_card) no_card,
  )
]

length-shuffle_from : (i r : ℕ) (cs : List ℤ) → length (shuffle_from i r cs).pile ≡ length cs
unfolding shuffle_from
length-shuffle_from zero r cs = refl
length-shuffle_from (suc i) r cs = length-shuffle_from i (xs r) _ ∙ length-swap_at cs (suc i) _

count-shuffle_from :
    (x : ℤ) (i r : ℕ) (cs : List ℤ)
    → i < length cs
    → count x (shuffle_from i r cs).pile ≡ count x cs
unfolding shuffle_from
count-shuffle_from x zero r cs h = refl
count-shuffle_from x (suc i) r cs h =
    count-shuffle_from x i (xs r) _ (omega (arith, length-swap_at cs (suc i) (xs r % suc (suc i))))
    ∙ count-swap_at x cs (suc i) _ (omega (arith)) h

pub length-shuffle : (r : ℕ) (cs : List ℤ) → length (shuffle_pile r cs).pile ≡ length cs
unfolding shuffle_pile
length-shuffle r cs = length-shuffle_from _ r cs

-- Shuffling keeps how often each card is in the pile.
pub count-shuffle : (x : ℤ) (r : ℕ) (cs : List ℤ) → count x (shuffle_pile r cs).pile ≡ count x cs
unfolding shuffle_pile shuffle_from
count-shuffle x r [] = refl
count-shuffle x r (c ∷ cs) = count-shuffle_from x (length (c ∷ cs) - 1) r (c ∷ cs) (omega arith)
