-- ===== src/Draft/Filling.antt =====
-- The first loop of `dw_draft_deck_valid` of core/draft.c: the array of counts.
use deadweight.Prelude.{
  ℕ, zero, suc, ◌+◌, ◌≤◌, ◌<◌, ◌≡◌, ◌≢◌, refl, ◌∙◌, ap, arith, List, [], ◌∷◌, length, length-set,
  get_or, set, ◌||◌, false, Bool-cases, inl, inr, some,
}
use native.Mathlib.Decide.{ℕ_discrete}
use deadweight.Prelude.{ℤ, pos, negsuc, ltb_ℤ, leb_ℤ}
use deadweight.Match.Census.Count.{same, count}
use deadweight.Draft.Checking.{fill_seen}

-- Every card of the deck is in the catalog.
abbrev pub Listed : List ℤ → Type 0
Listed [] = Unit {0}
Listed (c ∷ cs) = ((ltb_ℤ c (pos 0) || leb_ℤ (pos 105) c) ≡ false) × Listed cs

-- What the filled array holds.
pub record Filled (deck : List ℤ) (seen out : List ℕ) : Type 0 where
  pub long : length out ≡ length seen
  pub adds : (i : ℕ) → i < length seen → get_or out i 0 ≡ get_or seen i 0 + count (pos i) deck

get_or-set_self : (ns : List ℕ) (i v : ℕ) → i < length ns → get_or (set ns i v) i 0 ≡ v
get_or-set_self [] i v h = absurd (omega arith)
get_or-set_self (n ∷ ns) zero v h = refl
get_or-set_self (n ∷ ns) (suc i) v h = get_or-set_self ns i v (omega arith)

get_or-set_ne : (ns : List ℕ) (i j v : ℕ) → i ≢ j → get_or (set ns i v) j 0 ≡ get_or ns j 0
get_or-set_ne [] i j v h = refl
get_or-set_ne (n ∷ ns) zero zero v h = absurd (h refl)
get_or-set_ne (n ∷ ns) zero (suc j) v h = refl
get_or-set_ne (n ∷ ns) (suc i) zero v h = refl
get_or-set_ne (n ∷ ns) (suc i) (suc j) v h = get_or-set_ne ns i j v (λ e. h (ap suc e))

abbrev bump : List ℕ → ℕ → List ℕ
bump seen c = set seen c (get_or seen c 0 + 1)

Filled-step :
    (c : ℕ) (cs : List ℤ) (seen out : List ℕ)
    → c < length seen
    → Filled cs (bump seen c) out
    → Filled (pos c ∷ cs) seen out
unfolding count same
Filled-step c cs seen out lt f = record {
  long = f.long ∙ length-set seen c _;
  adds = λ i h. elim (ℕ_discrete c i) [
    | yes e ↦ ground (
      arith,
      f.adds i (omega (arith, length-set seen c (get_or seen c 0 + 1))),
      get_or-set_self seen c (get_or seen c 0 + 1) lt,
    )
    | no ne ↦ ground (
      arith,
      f.adds i (omega (arith, length-set seen c (get_or seen c 0 + 1))),
      get_or-set_ne seen c i (get_or seen c 0 + 1) ne,
    )
  ];
}

-- A deck of catalog cards fills the array with its counts.
pub fill-Listed :
    (deck : List ℤ) (seen : List ℕ)
    → 105 ≤ length seen
    → Listed deck
    → (out : List ℕ) × (fill_seen deck seen ≡ some out) × Filled deck seen out
unfolding fill_seen
fill-Listed [] seen long l =
    (seen, refl, record { long = refl; adds = λ i h. unfold count in omega arith })
fill-Listed (negsuc n ∷ cs) seen long l = absurd (ground (arith, l.0))
fill-Listed (pos c ∷ cs) seen long l =
    let lt : c < length seen = ground arith in
    let (out, e, f) =
      fill-Listed cs (bump seen c) (omega (arith, length-set seen c (get_or seen c 0 + 1))) l.1 in
    (out, rw l.0 e, Filled-step c cs seen out lt f)

-- Only such a deck fills it.
pub Listed-of_fill :
    (deck : List ℤ) (seen out : List ℕ) → fill_seen deck seen ≡ some out → Listed deck
unfolding fill_seen
Listed-of_fill [] seen out e = tt
Listed-of_fill (c ∷ cs) seen out e = elim (Bool-cases (ltb_ℤ c (pos 0) || leb_ℤ (pos 105) c)) [
  | inl z ↦ absurd (cc (rw z at e))
  | inr z ↦ (z, Listed-of_fill cs _ out (rw z at e))
]

pub Listed-count_high : (deck : List ℤ) (c : ℕ) → 105 ≤ c → Listed deck → count (pos c) deck ≡ 0
unfolding count same
Listed-count_high [] c h l = refl
Listed-count_high (negsuc n ∷ cs) c h l = absurd (ground (arith, l.0))
Listed-count_high (pos d ∷ cs) c h l = ground (arith, Listed-count_high cs c h l.1, l.0)

pub Listed-count_negsuc : (deck : List ℤ) (n : ℕ) → Listed deck → count (negsuc n) deck ≡ 0
unfolding count same
Listed-count_negsuc [] n l = refl
Listed-count_negsuc (negsuc m ∷ cs) n l = absurd (ground (arith, l.0))
Listed-count_negsuc (pos d ∷ cs) n l = ground (arith, Listed-count_negsuc cs n l.1)

pub Listed-of_counts :
    (deck : List ℤ)
    → ((c : ℕ) → 105 ≤ c → count (pos c) deck ≡ 0)
    → ((n : ℕ) → count (negsuc n) deck ≡ 0)
    → Listed deck
unfolding count same
Listed-of_counts [] h k = tt
Listed-of_counts (negsuc m ∷ cs) h k = absurd (ground (arith, k m))
Listed-of_counts (pos d ∷ cs) h k = (
  ground (arith, h d),
  Listed-of_counts cs (λ c lt. omega (arith, h c lt)) (λ n. ground (arith, k n)),
)
