-- ===== src/Draft/Drafted.antt =====
-- A draft of core/draft.c, pick by pick: the deck it ends with is legal.
use deadweight.Prelude.{
  ℕ, zero, suc, ◌+◌, ◌-◌, ◌%◌, ◌≤◌, ◌<◌, ◌≡◌, ◌≢◌, refl, sym, arith, leb, ◌==◌, Bool, true, false,
  inl, inr, xs, some, Option-cases, Bool-cases, replicate, subst,
}
use native.Mathlib.Nat.{mod-lt}
use deadweight.Prelude.{ℤ, pos, negsuc}
use deadweight.Match.Census.Count.{count, count-append}
use deadweight.Draft.Building.{
  Draft, Rolled, roll_card, or_same, offer_second, make_offer, draft_start, draft_init, left_of,
  offered, pick_refused, take_card, picked, draft_pick, draft_done,
}
use deadweight.Draft.Checking.{deck_valid}
use deadweight.Draft.Shape.{Shape, nil-Shape, add-Shape, one_if}
use deadweight.Draft.Random.{cast-Shape, count-replicate_ne}
use deadweight.Draft.Legal.{deck_valid_iff}

-- The drafts that picks lead to, whatever number of rolls each offer takes.
pub data Drafting (seed : ℕ) : Draft → Type 0 where
  begun : (fuel : ℕ) (d : Draft) → draft_init fuel seed ≡ some d → Drafting seed d
  chosen :
      (fuel : ℕ) (d : Draft) (idx mult : ℕ) (next : Draft)
      → Drafting seed d
      → draft_pick fuel d idx mult ≡ picked next
      → Drafting seed next

-- The deck so far, before or after the next offer is made.
record Sound (d : Draft) : Type 0 where
  at_most1 : d.left1 ≤ 10
  at_most2 : d.left2 ≤ 5
  at_most3 : d.left3 ≤ 1
  sixteen : d.pick_no + d.left1 + d.left2 + d.left3 ≡ 16
  shape : Shape (10 - d.left1) (5 - d.left2) (1 - d.left3) d.deck
  fresh : (c : ℕ) → d.used c ≡ false → count (pos c) d.deck ≡ 0

-- A card on offer is in the catalog and was not picked before.
record Open (used : ℕ → Bool) (offer : ℤ) : Type 0 where
  card : ℕ
  is : offer ≡ pos card
  small : card < 105
  unused : used card ≡ false

record Offering (d : Draft) : Type 0 where
  sound : Sound d
  open0 : d.pick_no < 16 → Open d.used d.offer0
  open1 : d.pick_no < 16 → Open d.used d.offer1

roll_card-open :
    (fuel : ℕ) (barred : ℕ → Bool) (r : ℕ) (out : Rolled)
    → roll_card fuel barred r ≡ some out
    → (out.card < 105) × (barred out.card ≡ false)
unfolding roll_card
roll_card-open zero barred r out e = absurd (cc e)
roll_card-open (suc fuel) barred r out e = elim (Bool-cases (barred (xs r % 105))) [
  | inl y ↦ roll_card-open fuel barred (xs r) out (rw y at e)
  | inr n ↦
      let same_card : xs r % 105 ≡ out.card = cc (rw n at e) in
      (rw (sym same_card) (mod-lt (xs r) {m = 105} (omega arith)), rw (sym same_card) n)
]

start-Sound : (seed : ℕ) → Sound (draft_start seed)
unfolding draft_start count
start-Sound seed = record {
  at_most1 = omega arith;
  at_most2 = omega arith;
  at_most3 = omega arith;
  sixteen = refl;
  shape = nil-Shape;
  fresh = λ c e. refl;
}

or_same-unused : (used : ℕ → Bool) (c e : ℕ) → or_same used c e ≡ false → used e ≡ false
or_same-unused used c e h = ground arith

Sound-offer :
    (d : Draft) (r : ℕ) (a b : ℤ) → Sound d → Sound (record d { rng = r; offer0 = a; offer1 = b })
Sound-offer d r a b s = record {
  at_most1 = s.at_most1;
  at_most2 = s.at_most2;
  at_most3 = s.at_most3;
  sixteen = s.sixteen;
  shape = s.shape;
  fresh = s.fresh;
}

Open-roll : (used : ℕ → Bool) (c : ℕ) → c < 105 → used c ≡ false → Open used (pos c)
Open-roll used c lt e = record { card = c; is = refl; small = lt; unused = e }

second-Offering :
    (fuel : ℕ) (d next : Draft) (first : Rolled)
    → Sound d
    → first.card < 105
    → d.used first.card ≡ false
    → offer_second fuel d first ≡ some next
    → Offering next
unfolding offer_second
second-Offering fuel d next first s small unused e =
    elim (Option-cases (roll_card fuel (or_same d.used first.card) first.stream)) [
      | inl f ↦ absurd (cc (rw (f, offer_second) at e))
      | inr (second, f) ↦
          let found = roll_card-open fuel (or_same d.used first.card) first.stream second f in
          subst Offering (cc (rw (f, offer_second) at e)) (record {
            sound = Sound-offer d second.stream (pos first.card) (pos second.card) s;
            open0 = λ h. Open-roll d.used first.card small unused;
            open1 = λ h.
                Open-roll d.used second.card found.0
                  (or_same-unused d.used first.card second.card found.1);
          })
    ]

make_offer-Offering :
    (fuel : ℕ) (d next : Draft) → Sound d → make_offer fuel d ≡ some next → Offering next
unfolding make_offer
make_offer-Offering fuel d next s e = elim (Bool-cases (leb 16 d.pick_no)) [
  | inl y ↦ subst Offering (cc (rw y at e)) (record {
    sound = Sound-offer d d.rng (negsuc 0) (negsuc 0) s;
    open0 = λ h. absurd (ground (arith, y));
    open1 = λ h. absurd (ground (arith, y));
  })
  | inr n ↦ elim (Option-cases (roll_card fuel d.used d.rng)) [
    | inl f ↦ absurd (cc (rw f at (rw n at e)))
    | inr (first, f) ↦
        let found = roll_card-open fuel d.used d.rng first f in
        second-Offering fuel d next first s found.0 found.1 (rw f at (rw n at e))
  ]
]

-- A pick that is not refused takes one of the two cards, once to three times.
accepted-Open :
    (d : Draft) (idx mult : ℕ)
    → Offering d
    → pick_refused d idx mult ≡ false
    → Open d.used (offered d idx)
unfolding pick_refused
accepted-Open d zero mult o h = o.open0 (ground (arith, h))
accepted-Open d (suc idx) mult o h = o.open1 (ground (arith, h))

take_fresh :
    (d : Draft) (idx mult card : ℕ)
    → Sound d
    → offered d idx ≡ pos card
    → (c : ℕ) → (take_card d idx mult).used c ≡ false
    → count (pos c) (take_card d idx mult).deck ≡ 0
unfolding take_card
take_fresh d idx mult card s e c h =
    let apart : card ≢ c = λ q. ground (arith, e, q, h) in
    rw e (
      omega (
        arith,
        count-append (pos c) d.deck (replicate mult (pos card)),
        count-replicate_ne c card mult apart,
        s.fresh c (ground (arith, h)),
      ))

Sound-of_left :
    (d : Draft) (idx mult : ℕ)
    → Sound d
    → Open d.used (offered d idx)
    → 1 ≤ mult
    → mult ≤ 3
    → (mult ≡ 1 → 1 ≤ d.left1)
    → (mult ≡ 2 → 1 ≤ d.left2)
    → (mult ≡ 3 → 1 ≤ d.left3)
    → Sound (take_card d idx mult)
unfolding take_card
Sound-of_left d idx mult s o low high l1 l2 l3 = record {
  at_most1 = ground arith;
  at_most2 = ground arith;
  at_most3 = ground arith;
  sixteen = ground arith;
  shape = rw o.is (
      cast-Shape (add-Shape d.deck o.card mult (s.fresh o.card o.unused) _ _ _ o.small high s.shape)
        (unfold one_if in ground arith) (unfold one_if in ground arith)
        (unfold one_if in ground arith));
  fresh = take_fresh d idx mult o.card s o.is;
}

take_card-Sound :
    (d : Draft) (idx mult : ℕ)
    → Sound d
    → Open d.used (offered d idx)
    → pick_refused d idx mult ≡ false
    → Sound (take_card d idx mult)
unfolding pick_refused left_of
take_card-Sound d idx zero s o h = absurd (ground (arith, h))
take_card-Sound d idx (suc zero) s o h =
    Sound-of_left d idx 1 s o (omega arith) (omega arith) (λ e. ground (arith, h))
      (λ e. omega arith) (λ e. omega arith)
take_card-Sound d idx (suc (suc zero)) s o h =
    Sound-of_left d idx 2 s o (omega arith) (omega arith) (λ e. omega arith)
      (λ e. ground (arith, h)) (λ e. omega arith)
take_card-Sound d idx (suc (suc (suc zero))) s o h =
    Sound-of_left d idx 3 s o (omega arith) (omega arith) (λ e. omega arith) (λ e. omega arith)
      (λ e. ground (arith, h))
take_card-Sound d idx (suc (suc (suc (suc mult)))) s o h = absurd (ground (arith, h))

Drafting-Offering : {seed : ℕ} {d : Draft} → Drafting seed d → Offering d
unfolding draft_init draft_pick
Drafting-Offering {seed} (begun fuel d e) =
    make_offer-Offering fuel (draft_start seed) d (start-Sound seed) e
Drafting-Offering (chosen fuel d idx mult next p e) =
    let o = Drafting-Offering p in picked-Offering fuel d idx mult next o e
  where
    picked-Offering :
        (fuel : ℕ) (d : Draft) (idx mult : ℕ) (next : Draft)
        → Offering d
        → draft_pick fuel d idx mult ≡ picked next
        → Offering next
    picked-Offering fuel d idx mult next o e = elim (Bool-cases (pick_refused d idx mult)) [
      | inl y ↦ absurd (cc (rw (y, draft_pick) at e))
      | inr n ↦ elim (Option-cases (make_offer fuel (take_card d idx mult))) [
        | inl f ↦ absurd (cc (rw f at (rw (n, draft_pick) at e)))
        | inr (out, f) ↦ subst Offering (cc (rw f at (rw (n, draft_pick) at e))) (
            make_offer-Offering fuel (take_card d idx mult) out
              (take_card-Sound d idx mult o.sound (accepted-Open d idx mult o n) n) f)
      ]
    ]

-- Whatever is picked, a draft that is done holds a deck that `dw_draft_deck_valid` accepts.
pub draft_done-valid :
    {seed : ℕ} {d : Draft} → Drafting seed d → draft_done d ≡ true → deck_valid d.deck ≡ true
unfolding draft_done
draft_done-valid {d = d} p h =
    let s = (Drafting-Offering p).sound in
    (deck_valid_iff d.deck).1 (
      cast-Shape s.shape (ground (arith, s.sixteen, h)) (ground (arith, s.sixteen, h))
        (ground (arith, s.sixteen, h)))

-- A draft that is not done has a pick that is not refused, of either card on offer.
pub draft-goes_on :
    {seed : ℕ} {d : Draft} (idx : ℕ)
    → Drafting seed d
    → draft_done d ≡ false
    → idx ≤ 1
    → (mult : ℕ) × (pick_refused d idx mult ≡ false)
unfolding draft_done pick_refused left_of
draft-goes_on {d = d} idx p h small =
    let s = (Drafting-Offering p).sound in
    elim (Bool-cases (d.left1 == 0)) [
      | inr n ↦ (1, ground (arith, h))
      | inl y ↦ elim (Bool-cases (d.left2 == 0)) [
        | inr n ↦ (2, ground (arith, h))
        | inl z ↦ (3, ground (arith, h, s.sixteen, y, z))
      ]
    ]

-- A draft that is not done has a bucket that is not empty, and fewer than 16 picks.
pub Drafting-left :
    {seed : ℕ} {d : Draft}
    → Drafting seed d
    → draft_done d ≡ false
    → (d.pick_no < 16) × (1 ≤ d.left1 + d.left2 + d.left3)
unfolding draft_done
Drafting-left {d = d} p h =
    let s = (Drafting-Offering p).sound in (ground (arith, h), ground (arith, h, s.sixteen))
