-- ===== src/Bots/Accepted.antt =====
-- A match of core/match.c accepts every choice of a policy of core/policy.c.
use deadweight.Prelude.{
  ℕ, zero, suc, ◌+◌, ◌≤◌, ◌<◌, ◌≡◌, refl, arith, List, [], ◌∷◌, Bool, true, false, ◌&&◌,
  if◌then◌else◌, Bool-cases, get_or, inl, inr,
}
use deadweight.Prelude.{ℤ, pos, negsuc, ltb_ℤ, leb_ℤ}
use deadweight.Prelude.{int_laws}
use deadweight.Cards.Catalog.{card_kind, card_cost}
use deadweight.Cards.Rules.{kind_beats}
use deadweight.Match.State.{Side, at, Seat, Match}
use deadweight.Match.Setup.{hand_at, match_lock}
use deadweight.Match.Reach.Locking.{Allowed, lock_accepts_iff}
use deadweight.Bots.Policy.{
  Policy, random, first_legal, ripper, wall, mirror, PolicyCtx, legal, better, best_of_kind,
  first_legal_slot, legal_slots, choose_random, holds_big, counter_slot, choose_mirror, or_else,
  policy_choose,
}

module _ (c : PolicyCtx) (hand : List ℤ) (energy : ℤ) where
  -- A pass, or a legal slot of the hand.
  IsChoice : ℤ → Type 0
  IsChoice (pos i) = (i < 4) × (legal c hand energy i ≡ true)
  IsChoice (negsuc n) = n ≡ 0

  or_else-IsChoice : (x y : ℤ) → IsChoice x → IsChoice y → IsChoice (or_else x y)
  unfolding or_else
  or_else-IsChoice x y h k = elim (Bool-cases (leb_ℤ (pos 0) x)) [ inl e ↦ rw e h | inr e ↦ rw e k ]

  slot-IsChoice :
      (b : Bool) (i : ℕ) (y : ℤ)
      → i < 4
      → (b ≡ true → legal c hand energy i ≡ true)
      → IsChoice y
      → IsChoice (if b then pos i else y)
  unfolding IsChoice
  slot-IsChoice true i y lt h k = (lt, h refl)
  slot-IsChoice false i y lt h k = k

  better-IsChoice :
      (kind : ℤ) (i : ℕ) (best : ℤ)
      → i < 4
      → IsChoice best
      → IsChoice (better c hand energy kind i best)
  unfolding better
  better-IsChoice kind i best lt h = slot-IsChoice _ i best lt (λ e. ground (arith, e)) h

  best-IsChoice : (kind : ℤ) → IsChoice (best_of_kind c hand energy kind)
  unfolding best_of_kind IsChoice
  best-IsChoice kind = better-IsChoice kind 3 _ (omega arith) (
      better-IsChoice kind 2 _ (omega arith) (
        better-IsChoice kind 1 _ (omega arith)
          (better-IsChoice kind 0 (negsuc 0) (omega arith) refl)))

  first-IsChoice : (n i : ℕ) → i + n ≤ 4 → IsChoice (first_legal_slot c hand energy n i)
  unfolding first_legal_slot IsChoice
  first-IsChoice zero i h = refl
  first-IsChoice (suc n) i h =
      slot-IsChoice (legal c hand energy i) i _ (omega arith) (λ e. e)
        (first-IsChoice n (suc i) (omega arith))

  AllChoices : List ℤ → Type 0
  AllChoices [] = Unit {0}
  AllChoices (x ∷ opts) = IsChoice x × AllChoices opts

  slots-AllChoices : (n i : ℕ) → i + n ≤ 4 → AllChoices (legal_slots c hand energy n i)
  unfolding legal_slots AllChoices IsChoice
  slots-AllChoices zero i h = tt
  slots-AllChoices (suc n) i h = elim (Bool-cases (legal c hand energy i)) [
    | inl y ↦ rw y ((omega arith, y), slots-AllChoices n (suc i) (omega arith))
    | inr z ↦ rw z (slots-AllChoices n (suc i) (omega arith))
  ]

  entry-IsChoice : (opts : List ℤ) (i : ℕ) → AllChoices opts → IsChoice (get_or opts i (negsuc 0))
  unfolding AllChoices IsChoice
  entry-IsChoice [] i h = refl
  entry-IsChoice (x ∷ opts) zero h = h.0
  entry-IsChoice (x ∷ opts) (suc i) h = entry-IsChoice opts i h.1

  random-IsChoice : IsChoice (choose_random c hand energy).slot
  unfolding choose_random
  random-IsChoice =
      let opts : AllChoices (negsuc 0 ∷ legal_slots c hand energy 4 0) =
        unfold AllChoices in (unfold IsChoice in refl, slots-AllChoices 4 0 (omega arith)) in
      entry-IsChoice (negsuc 0 ∷ legal_slots c hand energy 4 0) _ opts

  counter-IsChoice : (n cand : ℕ) (k : ℤ) → IsChoice (counter_slot c hand energy n cand k)
  unfolding counter_slot
  counter-IsChoice zero cand k = unfold IsChoice in refl
  counter-IsChoice (suc n) cand k = elim (Bool-cases (kind_beats (pos cand) k)) [
    | inl e ↦
        rw e (or_else-IsChoice _ _ (best-IsChoice (pos cand)) (counter-IsChoice n (suc cand) k))
    | inr e ↦ rw e (counter-IsChoice n (suc cand) k)
  ]

  mirror-IsChoice : IsChoice (choose_mirror c hand energy).slot
  unfolding choose_mirror
  mirror-IsChoice = elim (Bool-cases (leb_ℤ (pos 0) c.last_opp_card)) [
    | inr e ↦ rw e random-IsChoice
    | inl e ↦
        rw e
          (elim (Bool-cases
            (leb_ℤ (pos 0) (counter_slot c hand energy 3 0 (card_kind c.last_opp_card)))) [
              | inl f ↦ rw f (counter-IsChoice 3 0 _)
              | inr f ↦ rw f random-IsChoice
            ])
  ]

  choice_lem : (policy : Policy) → IsChoice (policy_choose c hand energy policy).slot
  unfolding policy_choose
  choice_lem random = random-IsChoice
  choice_lem first_legal = first-IsChoice 4 0 (omega arith)
  choice_lem ripper =
      elim (Bool-cases (holds_big c hand energy 4 && ltb_ℤ energy (card_cost (pos 2)))) [
        | inl e ↦ rw e (unfold IsChoice in refl)
        | inr e ↦ rw e (or_else-IsChoice _ _ (best-IsChoice (pos 0)) (best-IsChoice (negsuc 0)))
      ]
  choice_lem wall =
      or_else-IsChoice _ _ (best-IsChoice (pos 1))
        (or_else-IsChoice _ _ (best-IsChoice (pos 2)) (best-IsChoice (pos 0)))
  choice_lem mirror = mirror-IsChoice

IsChoice-Allowed :
    (c : PolicyCtx) (p : Seat) (slot : ℤ)
    → c.vault_you ≡ p.vault
    → c.lock_mask ≡ p.lock_mask
    → IsChoice c p.hand (pos p.energy) slot
    → Allowed p slot
unfolding IsChoice legal hand_at
IsChoice-Allowed c p (pos i) v l h = record {
  within = omega (int_laws, h);
  unlocked = λ e. ground (arith, h, l);
  legal = λ e. ground (arith, h, v);
}
IsChoice-Allowed c p (negsuc n) v l h = record {
  within = omega (int_laws, h);
  unlocked = λ e. ground arith;
  legal = λ e. ground arith;
}

-- In an open round, a match accepts whatever a policy chooses for a seat that has not locked, if the
-- policy knows the seat's hand, energy, credits and locked slots.
pub policy-lock_accepted :
    (policy : Policy) (c : PolicyCtx) (m : Match) (s : Side)
    → m.done ≡ false
    → 1 ≤ m.round
    → (at m.seats s).locked ≡ false
    → c.vault_you ≡ (at m.seats s).vault
    → c.lock_mask ≡ (at m.seats s).lock_mask
    → (match_lock m s
        (policy_choose c (at m.seats s).hand (pos (at m.seats s).energy) policy).slot).1
      ≡ 0
policy-lock_accepted policy c m s d r l v k = (lock_accepts_iff m s _).1 (
  d,
  r,
  l,
  IsChoice-Allowed c (at m.seats s) _ v k
      (choice_lem c (at m.seats s).hand (pos (at m.seats s).energy) policy),
)
