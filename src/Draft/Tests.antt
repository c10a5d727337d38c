-- ===== src/Draft/Tests.antt =====
-- A concrete draft of core/draft.c at which the theorems about it are applied.
use deadweight.Prelude.{
  ℕ, zero, suc, ◌≡◌, refl, arith, true, false, Option, none, some, ltb, if◌then◌else◌, xs,
}
use deadweight.Draft.Building.{
  Draft, Picked, refused, endless, picked, draft_init, draft_pick, draft_done, draft_start,
  make_offer, roll_card, offer_second, pick_refused, take_card, left_of,
}
use deadweight.Draft.Checking.{deck_valid}
use deadweight.Draft.Dealing.{random_deck}
use deadweight.Draft.Shape.{Shape}
use deadweight.Draft.Legal.{deck_valid_iff}
use deadweight.Draft.Random.{random_deck-valid}
use deadweight.Draft.Drafted.{Drafting, begun, chosen, draft_done-valid, draft-goes_on}

-- Picks the first card on offer, as often as the fullest bucket left asks.
abbrev mult_for : Draft → ℕ
mult_for d = if ltb 0 d.left1 then 1 else if ltb 0 d.left2 then 2 else 3

abbrev after : Draft → Picked → Draft
after d refused = d
after d endless = d
after d (picked next) = next

abbrev picks : ℕ → Draft → Draft
picks zero d = d
picks (suc n) d = picks n (after d (draft_pick 64 d 0 (mult_for d)))

picks-Drafting : {seed : ℕ} (n : ℕ) (d : Draft) → Drafting seed d → Drafting seed (picks n d)
picks-Drafting zero d h = h
picks-Drafting {seed} (suc n) d h = picks-Drafting n _ (step (draft_pick 64 d 0 (mult_for d)) refl)
  where
    step : (p : Picked) → draft_pick 64 d 0 (mult_for d) ≡ p → Drafting seed (after d p)
    step refused e = h
    step endless e = h
    step (picked next) e = chosen 64 d 0 (mult_for d) next h e

abbrev offer_of : Option Draft → Draft
offer_of none = draft_start 7
offer_of (some d) = d

abbrev first_offer : Draft
first_offer = offer_of (draft_init 64 7)

abbrev last_offer : Draft
last_offer = picks 16 first_offer

first_offer-Drafting : Drafting 7 first_offer
unfolding draft_init draft_start make_offer roll_card offer_second xs
first_offer-Drafting = begun 64 first_offer refl

last_done : draft_done last_offer ≡ true
unfolding draft_init draft_start make_offer roll_card offer_second xs draft_pick draft_done
    pick_refused take_card left_of
last_done = refl

draft_done-valid_example : deck_valid last_offer.deck ≡ true
draft_done-valid_example =
    draft_done-valid (picks-Drafting 16 first_offer first_offer-Drafting) last_done

first_open : draft_done first_offer ≡ false
unfolding draft_init draft_start make_offer roll_card offer_second xs draft_done
first_open = refl

draft-goes_on_example : (mult : ℕ) × (pick_refused first_offer 1 mult ≡ false)
draft-goes_on_example = draft-goes_on 1 first_offer-Drafting first_open (omega arith)

random_deck-valid_example : deck_valid (random_deck 2463534242).deck ≡ true
random_deck-valid_example = random_deck-valid 2463534242

deck_valid_iff_example :
    (deck_valid (random_deck 5).deck ≡ true → Shape 10 5 1 (random_deck 5).deck)
    × (Shape 10 5 1 (random_deck 5).deck → deck_valid (random_deck 5).deck ≡ true)
deck_valid_iff_example = deck_valid_iff (random_deck 5).deck
