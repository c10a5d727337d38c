-- ===== src/Bots/Tests.antt =====
-- Concrete hands at which the theorems about core/policy.c are applied.
use deadweight.Prelude.{false, Option, none, some, xs, ◌<◌}
use deadweight.Prelude.{◌≡◌, refl, arith, List, [], ◌∷◌, true}
use deadweight.Prelude.{ℤ, pos, pos_part, ◌≤ℤ◌, leb_ℤ, ◌-ℤ◌, ◌*ℤ◌, ◌/ℤ◌, ◌+ℤ◌}
use deadweight.Cards.Choose.{choose}
use deadweight.Cards.Digits.{pow3, kind_chunk}
use deadweight.Cards.Catalog.{card_kind, card_cost, card_credit}
use deadweight.Cards.Rules.{is_legal_play}
use deadweight.Match.State.{seat0, at, Match, no_card}
use deadweight.Match.Setup.{match_init_decks, begin_round, begin_seat, match_lock, bit_at}
use deadweight.Bots.Policy.{
  wall, PolicyCtx, policy_reset, legal, of_kind, power_at, best_of_kind, policy_choose,
}
use deadweight.Bots.Accepted.{policy-lock_accepted}
use deadweight.Draft.Building.{
  Draft, draft_init, draft_start, make_offer, roll_card, offer_second, pick_refused, draft_done,
}
use deadweight.Draft.Drafted.{Drafting, begun}
use deadweight.Bots.Picking.{bot_draft_pick, bot_draft_pick-accepted}
use deadweight.Bots.Best.{best_of_kind-strongest}

abbrev opened : Match
opened = begin_round (match_init_decks 42 none none)

-- What a bot in seat 0 knows.
abbrev knows : PolicyCtx
knows = record (policy_reset 5) {
  vault_you = (at opened.seats seat0).vault;
  lock_mask = (at opened.seats seat0).lock_mask;
}

policy-lock_accepted_example :
    (match_lock opened seat0
      (policy_choose knows
        (at opened.seats seat0).hand
        (pos (at opened.seats seat0).energy)
        wall).slot).1
    ≡ 0
unfolding begin_round begin_seat match_init_decks
policy-lock_accepted_example =
    policy-lock_accepted wall knows opened seat0 refl (omega arith) refl refl refl

abbrev three_cards : List ℤ
three_cards = pos 0 ∷ pos 1 ∷ pos 3 ∷ no_card ∷ []

legal_1 :
    (legal (policy_reset 5) three_cards (pos 6) 1 ≡ true)
    × (of_kind (policy_reset 5) three_cards (pos 6) (pos 0) 1 ≡ true)
unfolding policy_reset legal of_kind is_legal_play card_kind card_cost card_credit choose pow3
    kind_chunk bit_at ◌-ℤ◌ ◌*ℤ◌ ◌/ℤ◌ ◌+ℤ◌
legal_1 = (refl, refl)

best_of_kind-strongest_example :
    (leb_ℤ (pos 0) (best_of_kind (policy_reset 5) three_cards (pos 6) (pos 0)) ≡ true)
    × (pos_part (best_of_kind (policy_reset 5) three_cards (pos 6) (pos 0)) < 4)
    × (legal
          (policy_reset 5)
          three_cards
          (pos 6)
          (pos_part (best_of_kind (policy_reset 5) three_cards (pos 6) (pos 0)))
        ≡ true)
    × (of_kind
          (policy_reset 5)
          three_cards
          (pos 6)
          (pos 0)
          (pos_part (best_of_kind (policy_reset 5) three_cards (pos 6) (pos 0)))
        ≡ true)
    × (power_at (policy_reset 5) three_cards (pos 6) 1
        ≤ℤ power_at
            (policy_reset 5)
            three_cards
            (pos 6)
            (pos_part (best_of_kind (policy_reset 5) three_cards (pos 6) (pos 0))))
best_of_kind-strongest_example =
    best_of_kind-strongest (policy_reset 5) three_cards (pos 6) (pos 0) 1 (omega arith) legal_1.0
      legal_1.1

abbrev offer_of : Option Draft → Draft
offer_of none = draft_start 7
offer_of (some d) = d

abbrev first_offer : Draft
first_offer = offer_of (draft_init 64 7)

offer_open : Drafting 7 first_offer × (draft_done first_offer ≡ false)
unfolding draft_init draft_start make_offer roll_card offer_second xs draft_done
offer_open = (begun 64 first_offer refl, refl)

bot_draft_pick-accepted_example :
    pick_refused first_offer
      (bot_draft_pick 9 first_offer).index
      (bot_draft_pick 9 first_offer).mult
    ≡ false
bot_draft_pick-accepted_example = bot_draft_pick-accepted 9 offer_open.0 offer_open.1
