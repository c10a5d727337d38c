-- ===== src/Bots/Policy.antt =====
-- core/policy.c: `legal`, `best_of_kind` and `dw_policy_choose`. The policies that ask at the
-- terminal or run a brain are not modelled.
use deadweight.Prelude.{
  ℕ, zero, suc, ◌%◌, List, [], ◌∷◌, Bool, false, not, ◌&&◌, ◌||◌, ◌==◌, if◌then◌else◌, length,
  get_or, xs,
}
use deadweight.Prelude.{ℤ, pos, negsuc, pos_part, ltb_ℤ, leb_ℤ, eqb_ℤ}
use deadweight.Cards.Catalog.{card_kind, card_cost, card_power}
use deadweight.Cards.Rules.{
  kind_beats, is_legal_play, start_hull, start_energy, start_vault, hand_size,
}
use deadweight.Match.State.{no_card}
use deadweight.Match.Setup.{bit_at}

-- `default:` is the random policy too.
pub data Policy : Type 0 where
  random first_legal ripper wall mirror : Policy

-- The observations of `DwPolicyCtx`; the configuration of a brain is left out.
pub record PolicyCtx : Type 0 where
  pub rng : ℕ
  pub last_opp_card : ℤ
  pub hull_you : ℤ
  pub hull_opp : ℤ
  pub energy_opp : ℤ
  pub opp_hand_size : ℕ
  pub vault_you : ℤ
  pub lock_mask : ℕ
  pub opp_kinds : List ℤ

unfoldable pub policy_reset : ℕ → PolicyCtx
policy_reset seed = record {
  rng = if seed == 0 then 0x2545F491 else seed;
  last_opp_card = no_card;
  hull_you = start_hull;
  hull_opp = start_hull;
  energy_opp = start_energy;
  opp_hand_size = hand_size;
  vault_you = start_vault;
  lock_mask = 0;
  opp_kinds = pos 3 ∷ pos 3 ∷ pos 3 ∷ [];
}

pub record Choice : Type 0 where
  pub slot : ℤ
  pub stream : ℕ

-- A slot, or another choice where there is none.
unfoldable pub or_else : ℤ → ℤ → ℤ
or_else b fallback = if leb_ℤ (pos 0) b then b else fallback

module _ (c : PolicyCtx) (hand : List ℤ) (energy : ℤ) where
  unfoldable pub legal : ℕ → Bool
  legal i =
      leb_ℤ (pos 0) (get_or hand i no_card)
      && not (bit_at c.lock_mask (pos i))
      && is_legal_play (get_or hand i no_card) energy c.vault_you

  -- `kind < 0 || card_kind(hand[i]) == kind`
  unfoldable pub of_kind : ℤ → ℕ → Bool
  of_kind kind i = ltb_ℤ kind (pos 0) || eqb_ℤ (card_kind (get_or hand i no_card)) kind

  abbrev pub power_at : ℕ → ℤ
  power_at i = card_power (get_or hand i no_card)

  -- One step of the loop of `best_of_kind`.
  unfoldable pub better : ℤ → ℕ → ℤ → ℤ
  better kind i best =
      if legal i
        && of_kind kind i
        && (ltb_ℤ best (pos 0) || ltb_ℤ (power_at (pos_part best)) (power_at i))
      then pos i
      else best

  unfoldable pub best_of_kind : ℤ → ℤ
  best_of_kind kind = better kind 3 (better kind 2 (better kind 1 (better kind 0 (negsuc 0))))

  unfoldable pub first_legal_slot : ℕ → ℕ → ℤ
  first_legal_slot zero i = negsuc 0
  first_legal_slot (suc n) i =
      let rest = first_legal_slot n (suc i) in if legal i then pos i else rest

  -- The legal slots from `i` to `i + n - 1`.
  unfoldable pub legal_slots : ℕ → ℕ → List ℤ
  legal_slots zero i = []
  legal_slots (suc n) i = let rest = legal_slots n (suc i) in if legal i then pos i ∷ rest else rest

  -- `opts`, and a random entry of it.
  unfoldable pub choose_random : Choice
  choose_random =
      let opts = negsuc 0 ∷ legal_slots 4 0 in
      record { slot = get_or opts (xs c.rng % length opts) (negsuc 0); stream = xs c.rng }

  abbrev pub stay : ℤ → Choice
  stay slot = record { slot = slot; stream = c.rng }

  -- `for (i…) if (hand[i] == 2) holds_big = 1;`
  unfoldable pub holds_big : ℕ → Bool
  holds_big zero = false
  holds_big (suc n) = eqb_ℤ (get_or hand n no_card) (pos 2) || holds_big n

  -- The loop of the mirror over the kinds from `cand` on that beat the opponent's last.
  unfoldable pub counter_slot : ℕ → ℕ → ℤ → ℤ
  counter_slot zero cand k = negsuc 0
  counter_slot (suc n) cand k =
      let rest = counter_slot n (suc cand) k in
      if kind_beats (pos cand) k then or_else (best_of_kind (pos cand)) rest else rest

  unfoldable pub choose_mirror : Choice
  choose_mirror =
      let b =
        if leb_ℤ (pos 0) c.last_opp_card
        then counter_slot 3 0 (card_kind c.last_opp_card)
        else negsuc 0 in
      if leb_ℤ (pos 0) b then stay b else choose_random

  unfoldable pub policy_choose : Policy → Choice
  policy_choose random = choose_random
  policy_choose first_legal = stay (first_legal_slot 4 0)
  policy_choose ripper =
      if holds_big 4 && ltb_ℤ energy (card_cost (pos 2))
      then stay (negsuc 0)
      else stay (or_else (best_of_kind (pos 0)) (best_of_kind (negsuc 0)))
  policy_choose wall =
      stay (or_else (best_of_kind (pos 1)) (or_else (best_of_kind (pos 2)) (best_of_kind (pos 0))))
  policy_choose mirror = choose_mirror
