-- ===== src/Draft/Shape.antt =====
-- The abstract rule that a deck of core/draft.c obeys: so many cards once, twice and three times.
use deadweight.Prelude.{
  ℕ, zero, suc, ◌+◌, ◌*◌, ◌≤◌, ◌<◌, ◌≡◌, ◌≢◌, refl, sym, ◌∙◌, ap, arith, List, [], ◌++◌, length,
  length-append, replicate, ◌==◌, if◌then◌else◌,
}
use native.Mathlib.Decide.{ℕ_discrete}
use deadweight.Prelude.{ℤ, pos, negsuc}
use deadweight.Match.Census.Count.{same, count, count-append}

-- How many of the numbers below `n` have the value `k` under `f`.
unfoldable pub having : ℕ → (ℕ → ℕ) → ℕ → ℕ
having zero f k = 0
having (suc n) f k = (if f n == k then 1 else 0) + having n f k

-- 1 if the numbers are the same.
unfoldable pub one_if : ℕ → ℕ → ℕ
one_if m k = if m == k then 1 else 0

pub having_ext :
    (n : ℕ) (f g : ℕ → ℕ) (k : ℕ) → ((i : ℕ) → i < n → f i ≡ g i) → having n f k ≡ having n g k
unfolding having
having_ext zero f g k h = refl
having_ext (suc n) f g k h = ground (arith, h n, having_ext n f g k (λ i lt. h i (omega arith)))

-- One value changes from 0 to `m`.
having-change :
    (n : ℕ) (f g : ℕ → ℕ) (c m k : ℕ)
    → c < n
    → 1 ≤ k
    → f c ≡ 0
    → g c ≡ m
    → ((i : ℕ) → i ≢ c → g i ≡ f i)
    → having n g k ≡ having n f k + one_if m k
unfolding having one_if
having-change zero f g c m k lt pk fc gc h = absurd (omega arith)
having-change (suc n) f g c m k lt pk fc gc h = elim (ℕ_discrete n c) [
  | yes e ↦ rw e (ground (arith, having_ext c f g k (λ i lt. sym (h i (λ e. omega arith)))))
  | no ne ↦ ground (arith, h n ne, having-change n f g c m k (omega arith) pk fc gc h)
]

-- A deck with `n1` cards once, `n2` twice and `n3` three times, all of them in the catalog.
pub record Shape (n1 n2 n3 : ℕ) (deck : List ℤ) : Type 0 where
  pub once : having 128 (λ c. count (pos c) deck) 1 ≡ n1
  pub twice : having 128 (λ c. count (pos c) deck) 2 ≡ n2
  pub thrice : having 128 (λ c. count (pos c) deck) 3 ≡ n3
  pub few : (c : ℕ) → count (pos c) deck ≤ 3
  pub listed : (c : ℕ) → 105 ≤ c → count (pos c) deck ≡ 0
  pub real : (n : ℕ) → count (negsuc n) deck ≡ 0
  pub size : length deck ≡ n1 + 2 * n2 + 3 * n3

having-zero : (n k : ℕ) → 1 ≤ k → having n (λ c. 0) k ≡ 0
unfolding having
having-zero zero k h = refl
having-zero (suc n) k h = ground (arith, having-zero n k h)

-- The empty deck.
pub nil-Shape : Shape 0 0 0 []
unfolding count
nil-Shape = record {
  once = having-zero 128 1 (omega arith);
  twice = having-zero 128 2 (omega arith);
  thrice = having-zero 128 3 (omega arith);
  few = λ c. omega arith;
  listed = λ c h. refl;
  real = λ n. refl;
  size = refl;
}

pub count-replicate : (x c : ℤ) (m : ℕ) → count x (replicate m c) ≡ m * same c x
unfolding count
count-replicate x c zero = omega arith
count-replicate x c (suc m) = omega (arith, count-replicate x c m)

pub length-replicate : (c : ℤ) (m : ℕ) → length (replicate m c) ≡ m
length-replicate c zero = refl
length-replicate c (suc m) = ap suc (length-replicate c m)

module _ (deck : List ℤ) (c m : ℕ) (new : count (pos c) deck ≡ 0) where
  added_self : count (pos c) (deck ++ replicate m (pos c)) ≡ m
  unfolding same
  added_self =
      ground
        (arith, count-append (pos c) deck (replicate m (pos c)), count-replicate (pos c) (pos c) m)

  added_other : (i : ℕ) → i ≢ c → count (pos i) (deck ++ replicate m (pos c)) ≡ count (pos i) deck
  unfolding same
  added_other i ne =
      ground
        (arith, count-append (pos i) deck (replicate m (pos c)), count-replicate (pos i) (pos c) m)

  added_negsuc : (n : ℕ) → count (negsuc n) (deck ++ replicate m (pos c)) ≡ count (negsuc n) deck
  unfolding same
  added_negsuc n = ground (
    arith,
    count-append (negsuc n) deck (replicate m (pos c)),
    count-replicate (negsuc n) (pos c) m,
  )

  having-added :
      (k : ℕ)
      → c < 128
      → 1 ≤ k
      → having 128 (λ i. count (pos i) (deck ++ replicate m (pos c))) k
        ≡ having 128 (λ i. count (pos i) deck) k + one_if m k
  having-added k lt pk = having-change 128 _ _ c m k lt pk new added_self (λ i ne. added_other i ne)

  -- A new card of the catalog joins the deck in `m` copies.
  pub add-Shape :
      (n1 n2 n3 : ℕ)
      → c < 105
      → m ≤ 3
      → Shape n1 n2 n3 deck
      → Shape (n1 + one_if m 1) (n2 + one_if m 2) (n3 + one_if m 3) (deck ++ replicate m (pos c))
  add-Shape n1 n2 n3 lt small s = record {
    once = having-added 1 (omega arith) (omega arith) ∙ ap (λ (t : ℕ). t + one_if m 1) s.once;
    twice = having-added 2 (omega arith) (omega arith) ∙ ap (λ (t : ℕ). t + one_if m 2) s.twice;
    thrice = having-added 3 (omega arith) (omega arith) ∙ ap (λ (t : ℕ). t + one_if m 3) s.thrice;
    few = λ i. ground (arith, added_self, added_other i, s.few i);
    listed = λ i h. added_other i (λ e. omega arith) ∙ s.listed i h;
    real = λ n. added_negsuc n ∙ s.real n;
    size =
        unfold one_if in
        ground
          (arith, length-append deck (replicate m (pos c)), length-replicate (pos c) m, s.size);
  }
