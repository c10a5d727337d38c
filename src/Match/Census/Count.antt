-- ===== src/Match/Census/Count.antt =====
-- Counting a card in a list, and what the list operations of core/match.c do to the count.
use deadweight.Prelude.{
  ℕ, zero, suc, ◌+◌, ◌<◌, ◌≡◌, refl, arith, List, [], ◌∷◌, ◌++◌, length, get_or, set, true,
  if◌then◌else◌,
}
use deadweight.Prelude.{ℤ, pos, negsuc, eqb_ℤ, leb_ℤ}
use deadweight.Match.State.{no_card}
use deadweight.Match.Piles.{top, under}

-- 1 if the cards are the same, and 0 otherwise.
unfoldable pub same : ℤ → ℤ → ℕ
same a b = if eqb_ℤ a b then 1 else 0

unfoldable pub count : ℤ → List ℤ → ℕ
count x [] = 0
count x (c ∷ cs) = same c x + count x cs

pub count-append : (x : ℤ) (cs ds : List ℤ) → count x (cs ++ ds) ≡ count x cs + count x ds
unfolding count
count-append x [] ds = omega arith
count-append x (c ∷ cs) ds = omega (arith, count-append x cs ds)

-- A write exchanges the old card for the new one.
pub count-set :
    (x : ℤ) (cs : List ℤ) (i : ℕ) (v : ℤ)
    → i < length cs
    → count x (set cs i v) + same (get_or cs i no_card) x ≡ count x cs + same v x
unfolding count
count-set x [] i v h = absurd (omega arith)
count-set x (c ∷ cs) zero v h = omega arith
count-set x (c ∷ cs) (suc i) v h = omega (arith, count-set x cs i v (omega arith))

pub get_or-set_self : (cs : List ℤ) (i : ℕ) (v d : ℤ) → i < length cs → get_or (set cs i v) i d ≡ v
get_or-set_self [] i v d h = absurd (omega arith)
get_or-set_self (c ∷ cs) zero v d h = refl
get_or-set_self (c ∷ cs) (suc i) v d h = get_or-set_self cs i v d (omega arith)

pub get_or-set_lt :
    (cs : List ℤ) (i j : ℕ) (v d : ℤ) → i < j → get_or (set cs i v) j d ≡ get_or cs j d
get_or-set_lt [] i j v d h = refl
get_or-set_lt (c ∷ cs) i zero v d h = absurd (omega arith)
get_or-set_lt (c ∷ cs) zero (suc j) v d h = refl
get_or-set_lt (c ∷ cs) (suc i) (suc j) v d h = get_or-set_lt cs i j v d (omega arith)

pub get_or-set_gt :
    (cs : List ℤ) (i j : ℕ) (v d : ℤ) → j < i → get_or (set cs i v) j d ≡ get_or cs j d
get_or-set_gt [] i j v d h = refl
get_or-set_gt (c ∷ cs) zero j v d h = absurd (omega arith)
get_or-set_gt (c ∷ cs) (suc i) zero v d h = refl
get_or-set_gt (c ∷ cs) (suc i) (suc j) v d h = get_or-set_gt cs i j v d (omega arith)

-- The top card and the rest make up a pile that is not empty.
pub count-top :
    (x : ℤ) (cs : List ℤ) → 0 < length cs → count x (under cs) + same (top cs) x ≡ count x cs
unfolding count top under
count-top x [] h = absurd (omega arith)
count-top x (c ∷ []) h = omega arith
count-top x (c ∷ d ∷ cs) h = omega (arith, count-top x (d ∷ cs) (omega arith))

pub length-under : (cs : List ℤ) → 0 < length cs → length (under cs) + 1 ≡ length cs
unfolding under
length-under [] h = absurd (omega arith)
length-under (c ∷ []) h = omega arith
length-under (c ∷ d ∷ cs) h = omega (arith, length-under (d ∷ cs) (omega arith))

-- A slot within a list that holds no negative card holds a card.
pub get_or_nonneg :
    (cs : List ℤ) (i : ℕ)
    → ((n : ℕ) → count (negsuc n) cs ≡ 0)
    → i < length cs
    → leb_ℤ (pos 0) (get_or cs i no_card) ≡ true
unfolding count same
get_or_nonneg [] i h lt = absurd (omega arith)
get_or_nonneg (pos n ∷ cs) zero h lt = ground arith
get_or_nonneg (negsuc n ∷ cs) zero h lt = ground (arith, h n)
get_or_nonneg (c ∷ cs) (suc i) h lt = get_or_nonneg cs i (λ n. omega (arith, h n)) (omega arith)

-- A card that is read is in range.
pub get_or_in_range :
    (cs : List ℤ) (i : ℕ) → leb_ℤ (pos 0) (get_or cs i no_card) ≡ true → i < length cs
get_or_in_range [] i h = ground arith
get_or_in_range (c ∷ cs) zero h = omega arith
get_or_in_range (c ∷ cs) (suc i) h = omega (arith, get_or_in_range cs i h)
