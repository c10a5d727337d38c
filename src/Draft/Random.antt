-- ===== src/Draft/Random.antt =====
-- Every deck that `dw_random_deck` of core/draft.c deals is legal.
use deadweight.Prelude.{
  ℕ, zero, suc, ◌+◌, ◌-◌, ◌%◌, ◌≤◌, ◌<◌, ◌≡◌, ◌≢◌, refl, sym, ◌∙◌, ap, arith, List, [], ◌∷◌, ◌++◌,
  length, length-set, ltb, get_or, set, replicate, if◌then◌else◌, true, xs,
}
use deadweight.Prelude.{subst}
use native.Mathlib.Decide.{dec_lt}
use native.Mathlib.Nat.{mod-lt}
use deadweight.Prelude.{ℤ, pos, negsuc}
use deadweight.Match.State.{no_card}
use deadweight.Match.Piles.{swap_at}
use deadweight.Match.Setup.{count_up}
use deadweight.Match.Census.Count.{same, count, count-append, count-set, get_or-set_lt}
use deadweight.Match.Census.Shuffle.{length-swap_at, count-swap_at}
use deadweight.Draft.Dealing.{deal_indices, copies_of, lay_out, random_deck}
use deadweight.Draft.Checking.{deck_valid}
use deadweight.Draft.Shape.{Shape, nil-Shape, add-Shape, one_if}
use deadweight.Draft.Legal.{deck_valid_iff}

-- A list of cards of the catalog, each at most once.
record Distinct (cs : List ℤ) : Type 0 where
  all : length cs ≡ 105
  alone : (c : ℕ) → count (pos c) cs ≤ 1
  listed : (c : ℕ) → 105 ≤ c → count (pos c) cs ≡ 0
  real : (n : ℕ) → count (negsuc n) cs ≡ 0

-- `swap_at` towards the end of the list.
count-swap_up :
    (x : ℤ) (cs : List ℤ) (i j : ℕ) → i ≤ j → j < length cs → count x (swap_at cs i j) ≡ count x cs
unfolding swap_at
count-swap_up x cs i j le lt = elim (dec_lt i j) [
  | yes h ↦ ground (
    arith,
    count-set x cs i (get_or cs j no_card) (omega arith),
    count-set x (set cs i (get_or cs j no_card)) j (get_or cs i no_card),
    length-set cs i (get_or cs j no_card),
    get_or-set_lt cs i j (get_or cs j no_card) no_card h,
  )
  | no h ↦ count-swap_at x cs i j (omega arith) (omega arith)
]

swap-Distinct : (cs : List ℤ) (i j : ℕ) → i ≤ j → j < 105 → Distinct cs → Distinct (swap_at cs i j)
swap-Distinct cs i j le lt d = record {
  all = length-swap_at cs i j ∙ d.all;
  alone = λ c. omega (arith, count-swap_up (pos c) cs i j le (omega (arith, d.all)), d.alone c);
  listed = λ c h. count-swap_up (pos c) cs i j le (omega (arith, d.all)) ∙ d.listed c h;
  real = λ n. count-swap_up (negsuc n) cs i j le (omega (arith, d.all)) ∙ d.real n;
}

deal-Distinct :
    (n i r : ℕ) (idx : List ℤ) → i + n ≤ 105 → Distinct idx → Distinct (deal_indices n i r idx).pile
unfolding deal_indices
deal-Distinct zero i r idx h d = d
deal-Distinct (suc n) i r idx h d = deal-Distinct n (suc i) (xs r) _ (omega arith) (
    swap-Distinct idx i (i + xs r % (105 - i)) (omega arith)
      (omega (arith, mod-lt (xs r) {m = 105 - i} (omega arith))) d)

count-count_up_low : (c n k : ℕ) → c < k → count (pos c) (count_up n k) ≡ 0
unfolding count same
count-count_up_low c zero k h = refl
count-count_up_low c (suc n) k h = ground (arith, count-count_up_low c n (suc k) (omega arith))

count-count_up_high : (c n k : ℕ) → k + n ≤ c → count (pos c) (count_up n k) ≡ 0
unfolding count same
count-count_up_high c zero k h = refl
count-count_up_high c (suc n) k h = ground (arith, count-count_up_high c n (suc k) (omega arith))

count-count_up : (c n k : ℕ) → count (pos c) (count_up n k) ≤ 1
unfolding count same
count-count_up c zero k = omega arith
count-count_up c (suc n) k =
    ground (arith, count-count_up c n (suc k), count-count_up_low c n (suc k))

count_up_real : (m n k : ℕ) → count (negsuc m) (count_up n k) ≡ 0
unfolding count same
count_up_real m zero k = refl
count_up_real m (suc n) k = ground (arith, count_up_real m n (suc k))

length-count_up : (n k : ℕ) → length (count_up n k) ≡ n
length-count_up zero k = refl
length-count_up (suc n) k = ap suc (length-count_up n (suc k))

catalog-Distinct : Distinct (count_up 105 0)
catalog-Distinct = record {
  all = length-count_up 105 0;
  alone = λ c. count-count_up c 105 0;
  listed = λ c h. count-count_up_high c 105 0 (omega arith);
  real = λ n. count_up_real n 105 0;
}

append_assoc : (ps bs cs : List ℤ) → (ps ++ bs) ++ cs ≡ ps ++ (bs ++ cs)
append_assoc [] bs cs = refl
append_assoc (a ∷ ps) bs cs = ap (λ ds. a ∷ ds) (append_assoc ps bs cs)

append_nil : (ps : List ℤ) → ps ++ [] ≡ ps
append_nil [] = refl
append_nil (a ∷ ps) = ap (λ ds. a ∷ ds) (append_nil ps)

count-here : (cs : List ℤ) (i : ℕ) → i < length cs → 1 ≤ count (get_or cs i no_card) cs
unfolding count same
count-here [] i h = absurd (omega arith)
count-here (pos c ∷ cs) zero h = ground arith
count-here (negsuc c ∷ cs) zero h = ground arith
count-here (c ∷ cs) (suc i) h = omega (arith, count-here cs i (omega arith))

same_refl : (x : ℤ) → same x x ≡ 1
unfolding same
same_refl (pos n) = ground arith
same_refl (negsuc n) = ground arith

same_pos_ne : (c d : ℕ) → c ≢ d → same (pos c) (pos d) ≡ 0
unfolding same
same_pos_ne c d h = ground arith

-- Two places with one card.
count-twice :
    (cs : List ℤ) (i j : ℕ)
    → i < j
    → j < length cs
    → get_or cs i no_card ≡ get_or cs j no_card
    → 2 ≤ count (get_or cs j no_card) cs
unfolding count
count-twice [] i j lt h e = absurd (omega arith)
count-twice (c ∷ cs) i zero lt h e = absurd (omega arith)
count-twice (c ∷ cs) zero (suc j) lt h e =
    let self : same (get_or cs j no_card) (get_or cs j no_card) ≡ 1 = same_refl _ in
    rw e (omega (arith, self, count-here cs j (omega arith)))
count-twice (c ∷ cs) (suc i) (suc j) lt h e =
    omega (arith, count-twice cs i j (omega arith) (omega arith) e)

-- A card of a catalog list, with its number.
card_at :
    (cs : List ℤ) (i : ℕ)
    → Distinct cs
    → i < 105
    → (c : ℕ) × (get_or cs i no_card ≡ pos c) × (c < 105)
card_at cs i d lt = card_of (get_or cs i no_card) refl
  where
    card_of :
        (x : ℤ) → get_or cs i no_card ≡ x → (c : ℕ) × (get_or cs i no_card ≡ pos c) × (c < 105)
    card_of (pos c) e = (
      c,
      e,
      elim (dec_lt c 105) [
        | yes h ↦ h
        | no h ↦ absurd (
            omega
              (arith, rw e at (count-here cs i (omega (arith, d.all))), d.listed c (omega arith)))
      ],
    )
    card_of (negsuc n) e =
        absurd (omega (arith, rw e at (count-here cs i (omega (arith, d.all))), d.real n))

-- How many of the first `i` cards are laid out once and twice.
abbrev singles : ℕ → ℕ
singles i = if ltb i 10 then i else 10

abbrev doubles : ℕ → ℕ
doubles i = if ltb i 10 then 0 else if ltb i 15 then i - 10 else 5

-- The first `i` cards laid out: the shape so far, and no card of a later place.
record Laid (idx : List ℤ) (i : ℕ) (acc : List ℤ) : Type 0 where
  shape : Shape (singles i) (doubles i) (i - 15) acc
  ahead : (k : ℕ) → i ≤ k → k < 105 → count (get_or idx k no_card) acc ≡ 0

pub cast-Shape :
    {n1 n2 n3 m1 m2 m3 : ℕ} {deck : List ℤ}
    → Shape n1 n2 n3 deck
    → n1 ≡ m1
    → n2 ≡ m2
    → n3 ≡ m3
    → Shape m1 m2 m3 deck
cast-Shape s p q r = record {
  once = s.once ∙ p;
  twice = s.twice ∙ q;
  thrice = s.thrice ∙ r;
  few = s.few;
  listed = s.listed;
  real = s.real;
  size = omega (arith, s.size, p, q, r);
}

pub count-replicate_ne : (d c m : ℕ) → c ≢ d → count (pos d) (replicate m (pos c)) ≡ 0
unfolding count
count-replicate_ne d c zero h = refl
count-replicate_ne d c (suc m) h = omega (arith, same_pos_ne c d h, count-replicate_ne d c m h)

Laid-step :
    (idx : List ℤ) (i : ℕ) (acc : List ℤ)
    → Distinct idx
    → i < 16
    → Laid idx i acc
    → Laid idx (suc i) (acc ++ replicate (copies_of i) (get_or idx i no_card))
unfolding copies_of
Laid-step idx i acc d lt l =
    let (c, e, small) = card_at idx i d (omega arith) in
    let new : count (pos c) acc ≡ 0 = rw e at (l.ahead i (omega arith) (omega arith)) in
    let now = add-Shape acc c (copies_of i) new _ _ _ small (ground arith) l.shape in
    record {
      shape = rw e (
          cast-Shape now (unfold one_if in ground arith) (unfold one_if in ground arith)
            (unfold one_if in ground arith));
      ahead = λ k le high. ahead_of k le high;
    }
  where
    ahead_of :
        (k : ℕ)
        → suc i ≤ k
        → k < 105
        → count (get_or idx k no_card) (acc ++ replicate (copies_of i) (get_or idx i no_card)) ≡ 0
    ahead_of k le high =
        let (c, e, small) = card_at idx i d (omega arith) in
        let (c', e', small') = card_at idx k d high in
        let apart : c ≢ c' = λ h. absurd (
          omega (
            arith,
            rw e' at
                (count-twice idx i k (omega arith) (omega (arith, d.all)) (e ∙ ap pos h ∙ sym e')),
            d.alone c',
          )) in
        rw e (
          rw e' (
            omega (
              arith,
              count-append (pos c') acc (replicate (copies_of i) (pos c)),
              count-replicate_ne c' c (copies_of i) apart,
              rw e' at (l.ahead k (omega arith) high),
            )))

lay_out-Shape :
    (n i : ℕ) (idx acc : List ℤ)
    → Distinct idx
    → i + n ≡ 16
    → Laid idx i acc
    → Shape 10 5 1 (acc ++ lay_out n i idx)
unfolding lay_out
lay_out-Shape zero i idx acc d h l =
    rw (append_nil acc) (cast-Shape l.shape (ground arith) (ground arith) (ground arith))
lay_out-Shape (suc n) i idx acc d h l =
    subst (λ deck. Shape 10 5 1 deck)
      (append_assoc acc (replicate (copies_of i) (get_or idx i no_card)) (lay_out n (suc i) idx))
      (lay_out-Shape n (suc i) idx _ d (omega arith) (Laid-step idx i acc d (omega arith) l))

none-Laid : (idx : List ℤ) → Laid idx 0 []
unfolding count
none-Laid idx = record { shape = nil-Shape; ahead = λ k le high. refl }

-- The deck that `dw_random_deck` deals is legal, from every state of the generator.
pub random_deck-valid : (rng : ℕ) → deck_valid (random_deck rng).deck ≡ true
unfolding random_deck
random_deck-valid rng = (deck_valid_iff (random_deck rng).deck).1 (
    lay_out-Shape 16 0 _ [] (deal-Distinct 16 0 _ _ (omega arith) catalog-Distinct) refl
      (none-Laid _))
