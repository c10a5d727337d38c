-- ===== src/Draft/Legal.antt =====
-- `dw_draft_deck_valid` of core/draft.c decides the abstract rule.
use deadweight.Prelude.{
  ℕ, zero, suc, ◌<◌, ◌≡◌, refl, ◌∙◌, ap, arith, List, length, ltb, get_or, replicate, true,
  Bool-cases, inl, inr, some, Option-cases,
}
use deadweight.Prelude.{ℤ, pos}
use deadweight.Match.Census.Count.{count}
use deadweight.Draft.Checking.{fill_seen, sort_seen, no_buckets, deck_valid}
use deadweight.Draft.Shape.{having, Shape}
use deadweight.Draft.Filling.{
  Listed, fill-Listed, Listed-of_fill, Listed-count_high, Listed-count_negsuc, Listed-of_counts,
}
use deadweight.Draft.Sorting.{
  tally, tally-having, sums_of, AllFew, sort_few, few_of_sort, AllFew-get_or, AllFew-of_bound,
}

abbrev zeros_of : ℕ → List ℕ
zeros_of n = replicate n 0

abbrev zeros : List ℕ
zeros = zeros_of 128

get_or-zeros : (n i : ℕ) → get_or (zeros_of n) i 0 ≡ 0
get_or-zeros zero i = refl
get_or-zeros (suc n) zero = refl
get_or-zeros (suc n) (suc i) = get_or-zeros n i

length-zeros : (n : ℕ) → length (zeros_of n) ≡ n
length-zeros zero = refl
length-zeros (suc n) = ap suc (length-zeros n)

-- The array that a deck of catalog cards fills.
record Counted (deck : List ℤ) (out : List ℕ) : Type 0 where
  same_tally : (k : ℕ) → tally out k ≡ having 128 (λ c. count (pos c) deck) k
  holds : (i : ℕ) → i < 128 → get_or out i 0 ≡ count (pos i) deck
  long : length out ≡ 128

counted :
    (deck : List ℤ)
    → Listed deck
    → (out : List ℕ) × (fill_seen deck zeros ≡ some out) × Counted deck out
counted deck l =
    let (out, e, f) = fill-Listed deck zeros (omega (arith, length-zeros 128)) l in
    let long : length out ≡ 128 = f.long ∙ length-zeros 128 in
    let holds : (i : ℕ) → i < 128 → get_or out i 0 ≡ count (pos i) deck =
      λ i lt. omega (arith, f.adds i (omega (arith, length-zeros 128)), get_or-zeros 128 i) in
    (
      out,
      e,
      record {
        same_tally = λ k. tally-having out 128 (λ c. count (pos c) deck) k long holds;
        holds = holds;
        long = long;
      },
    )

valid_of_Shape : (deck : List ℤ) → Shape 10 5 1 deck → deck_valid deck ≡ true
unfolding deck_valid
valid_of_Shape deck s =
    let (out, e, c) = counted deck (Listed-of_counts deck s.listed s.real) in
    let few : AllFew out =
      AllFew-of_bound out
        (λ i lt. omega (arith, c.holds i (omega (arith, c.long)), s.few i, c.long)) in
    let size : length deck ≡ 23 = s.size in
    rw size (
      rw e (
        rw (sort_few out no_buckets few) (
          ground
            (arith, c.same_tally 1, c.same_tally 2, c.same_tally 3, s.once, s.twice, s.thrice))))

Shape-of_valid : (deck : List ℤ) → deck_valid deck ≡ true → Shape 10 5 1 deck
unfolding deck_valid
Shape-of_valid deck h = elim (Option-cases (fill_seen deck zeros)) [
  | inl e ↦ absurd (ground (arith, e))
  | inr (out', e') ↦
      let l : Listed deck = Listed-of_fill deck zeros out' e' in
      let (out, e, c) = counted deck l in
      elim (Option-cases (sort_seen out no_buckets)) [
        | inl f ↦ absurd (ground (arith, e, f))
        | inr (b, f) ↦
            let few : AllFew out = few_of_sort out no_buckets b f in
            let sums : sort_seen out no_buckets ≡ some (sums_of out no_buckets) =
              sort_few out no_buckets few in
            record {
              once = ground (arith, e, sums, c.same_tally 1);
              twice = ground (arith, e, sums, c.same_tally 2);
              thrice = ground (arith, e, sums, c.same_tally 3);
              few = λ i. elim (Bool-cases (ltb i 128)) [
                | inl y ↦ ground (arith, c.holds i (ground (arith, y)), AllFew-get_or out i few)
                | inr n ↦ omega (arith, Listed-count_high deck i (ground (arith, n)) l)
              ];
              listed = λ i lt. Listed-count_high deck i lt l;
              real = λ n. Listed-count_negsuc deck n l;
              size = ground arith;
            }
      ]
]

-- `dw_draft_deck_valid` accepts a deck exactly if it holds ten cards once, five twice and one three
-- times, all of them from the catalog.
pub deck_valid_iff :
    (deck : List ℤ)
    → (deck_valid deck ≡ true → Shape 10 5 1 deck) × (Shape 10 5 1 deck → deck_valid deck ≡ true)
deck_valid_iff deck = (Shape-of_valid deck, valid_of_Shape deck)
