-- ===== src/Draft/Sorting.antt =====
-- The second loop of `dw_draft_deck_valid` of core/draft.c: the sizes of the buckets.
use deadweight.Prelude.{
  ℕ, zero, suc, ◌+◌, ◌≤◌, ◌<◌, ◌≡◌, refl, ◌∙◌, ap, arith, List, [], ◌∷◌, length, get_or, Option,
  some,
}
use deadweight.Draft.Checking.{Buckets, sort_entry, sort_seen}
use deadweight.Draft.Shape.{having, one_if}

having-shift :
    (n : ℕ) (f : ℕ → ℕ) (k : ℕ) → having (suc n) f k ≡ one_if (f 0) k + having n (λ i. f (suc i)) k
unfolding having one_if
having-shift zero f k = omega arith
having-shift (suc n) f k = omega (arith, having-shift n f k)

-- How many entries are `k`.
pub tally : List ℕ → ℕ → ℕ
tally [] k = 0
tally (n ∷ ns) k = one_if n k + tally ns k

pub tally-having :
    (ns : List ℕ) (n : ℕ) (f : ℕ → ℕ) (k : ℕ)
    → length ns ≡ n
    → ((i : ℕ) → i < n → get_or ns i 0 ≡ f i)
    → tally ns k ≡ having n f k
unfolding tally
tally-having [] zero f k long h = unfold having in refl
tally-having [] (suc n) f k long h = absurd (omega arith)
tally-having (m ∷ ns) zero f k long h = absurd (omega arith)
tally-having (m ∷ ns) (suc n) f k long h =
    let rest : tally ns k ≡ having n (λ i. f (suc i)) k =
      tally-having ns n (λ i. f (suc i)) k (omega arith) (λ i lt. h (suc i) (omega arith)) in
    let first : m ≡ f 0 = h 0 (omega arith) in
    rw first (rw (having-shift n f k) (ap (λ (t : ℕ). one_if (f 0) k + t) rest))

abbrev pub sums_of : List ℕ → Buckets → Buckets
sums_of ns b = record {
  ones = b.ones + tally ns 1;
  twos = b.twos + tally ns 2;
  threes = b.threes + tally ns 3;
}

-- No entry is more than 3.
abbrev pub AllFew : List ℕ → Type 0
AllFew [] = Unit {0}
AllFew (n ∷ ns) = n ≤ 3 × AllFew ns

buckets_same :
    {a b c a' b' c' : ℕ}
    → a ≡ a'
    → b ≡ b'
    → c ≡ c'
    → Path
        (Option Buckets)
        (some (record { ones = a; twos = b; threes = c }))
        (some (record { ones = a'; twos = b'; threes = c' }))
buckets_same p q r = cc (p, q, r)

sort_entry-few :
    (n : ℕ) (b : Buckets)
    → n ≤ 3
    → sort_entry n b
      ≡ some (record {
        ones = b.ones + one_if n 1;
        twos = b.twos + one_if n 2;
        threes = b.threes + one_if n 3;
      })
unfolding sort_entry one_if
sort_entry-few zero b h = buckets_same (omega arith) (omega arith) (omega arith)
sort_entry-few (suc zero) b h = buckets_same (omega arith) (omega arith) (omega arith)
sort_entry-few (suc (suc zero)) b h = buckets_same (omega arith) (omega arith) (omega arith)
sort_entry-few (suc (suc (suc zero))) b h = buckets_same (omega arith) (omega arith) (omega arith)
sort_entry-few (suc (suc (suc (suc n)))) b h = absurd (omega arith)

pub sort_few : (ns : List ℕ) (b : Buckets) → AllFew ns → sort_seen ns b ≡ some (sums_of ns b)
unfolding sort_seen tally
sort_few [] b h = buckets_same (omega arith) (omega arith) (omega arith)
sort_few (n ∷ ns) b h =
    let rest = sort_few ns _ h.1 in
    rw (sort_entry-few n b h.0, sort_seen)
      (rest ∙ buckets_same (omega arith) (omega arith) (omega arith))

pub few_of_sort : (ns : List ℕ) (b out : Buckets) → sort_seen ns b ≡ some out → AllFew ns
unfolding sort_seen sort_entry
few_of_sort [] b out e = tt
few_of_sort (zero ∷ ns) b out e = (omega arith, few_of_sort ns _ out e)
few_of_sort (suc zero ∷ ns) b out e = (omega arith, few_of_sort ns _ out e)
few_of_sort (suc (suc zero) ∷ ns) b out e = (omega arith, few_of_sort ns _ out e)
few_of_sort (suc (suc (suc zero)) ∷ ns) b out e = (omega arith, few_of_sort ns _ out e)
few_of_sort (suc (suc (suc (suc n))) ∷ ns) b out e = absurd (cc e)

pub AllFew-get_or : (ns : List ℕ) (i : ℕ) → AllFew ns → get_or ns i 0 ≤ 3
AllFew-get_or [] i h = omega arith
AllFew-get_or (n ∷ ns) zero h = h.0
AllFew-get_or (n ∷ ns) (suc i) h = AllFew-get_or ns i h.1

pub AllFew-of_bound : (ns : List ℕ) → ((i : ℕ) → i < length ns → get_or ns i 0 ≤ 3) → AllFew ns
AllFew-of_bound [] h = tt
AllFew-of_bound (n ∷ ns) h =
    (h 0 (omega arith), AllFew-of_bound ns (λ i lt. h (suc i) (omega arith)))
