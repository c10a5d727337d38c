-- ===== src/Bots/Best.antt =====
-- `best_of_kind` of core/policy.c finds a strongest legal card of a kind.
use deadweight.Prelude.{ℕ, zero, suc, ◌<◌, ◌≡◌, arith, List, true}
use deadweight.Prelude.{ℤ, pos, negsuc, pos_part, ◌≤ℤ◌, leb_ℤ}
use deadweight.Bots.Policy.{PolicyCtx, legal, of_kind, power_at, better, best_of_kind}

module _ (c : PolicyCtx) (hand : List ℤ) (energy kind : ℤ) where
  -- What the search may return: no slot, or one of the hand with a legal card of the kind.
  abbrev Allowed : ℤ → Type 0
  Allowed best =
      leb_ℤ (pos 0) best ≡ true
      → (pos_part best < 4)
        × (legal c hand energy (pos_part best) ≡ true)
        × (of_kind c hand energy kind (pos_part best) ≡ true)

  better-Allowed :
      (k : ℕ) (best : ℤ) → k < 4 → Allowed best → Allowed (better c hand energy kind k best)
  unfolding better
  better-Allowed k best lt h = ground (arith, h, lt)

  best_of_kind-Allowed : Allowed (best_of_kind c hand energy kind)
  unfolding best_of_kind
  best_of_kind-Allowed = better-Allowed 3 _ (omega arith) (
      better-Allowed 2 _ (omega arith)
        (better-Allowed 1 _ (omega arith) (better-Allowed 0 (negsuc 0) (omega arith) (λ h. cc h))))

  -- A slot is chosen, and its card is at least as strong as the one in slot `i`.
  abbrev Tops : ℕ → ℤ → Type 0
  Tops i best =
      (leb_ℤ (pos 0) best ≡ true)
      × (power_at c hand energy i ≤ℤ power_at c hand energy (pos_part best))

  better-keeps : (i k : ℕ) (best : ℤ) → Tops i best → Tops i (better c hand energy kind k best)
  unfolding better
  better-keeps i k best h = ground (arith, h)

  better-takes :
      (i : ℕ) (best : ℤ)
      → legal c hand energy i ≡ true
      → of_kind c hand energy kind i ≡ true
      → Tops i (better c hand energy kind i best)
  unfolding better
  better-takes i best l k = ground (arith, l, k)

  best_of_kind-Tops :
      (i : ℕ)
      → i < 4
      → legal c hand energy i ≡ true
      → of_kind c hand energy kind i ≡ true
      → Tops i (best_of_kind c hand energy kind)
  unfolding best_of_kind
  best_of_kind-Tops zero lt l k =
      better-keeps 0 3 _ (better-keeps 0 2 _ (better-keeps 0 1 _ (better-takes 0 _ l k)))
  best_of_kind-Tops (suc zero) lt l k =
      better-keeps 1 3 _ (better-keeps 1 2 _ (better-takes 1 _ l k))
  best_of_kind-Tops (suc (suc zero)) lt l k = better-keeps 2 3 _ (better-takes 2 _ l k)
  best_of_kind-Tops (suc (suc (suc zero))) lt l k = better-takes 3 _ l k
  best_of_kind-Tops (suc (suc (suc (suc i)))) lt l k = absurd (omega arith)

  -- If slot `i` of the hand holds a legal card of the kind (of any, where the kind is negative), then
  -- the search chooses a slot of the hand that holds a legal card of the kind, at least as strong.
  pub best_of_kind-strongest :
      (i : ℕ)
      → i < 4
      → legal c hand energy i ≡ true
      → of_kind c hand energy kind i ≡ true
      → (leb_ℤ (pos 0) (best_of_kind c hand energy kind) ≡ true)
        × (pos_part (best_of_kind c hand energy kind) < 4)
        × (legal c hand energy (pos_part (best_of_kind c hand energy kind)) ≡ true)
        × (of_kind c hand energy kind (pos_part (best_of_kind c hand energy kind)) ≡ true)
        × (power_at c hand energy i
            ≤ℤ power_at c hand energy (pos_part (best_of_kind c hand energy kind)))
  best_of_kind-strongest i lt l k =
      let tops = best_of_kind-Tops i lt l k in
      let (slot, may_play, fits) = best_of_kind-Allowed tops.0 in
      (tops.0, slot, may_play, fits, tops.1)
