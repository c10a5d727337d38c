-- ===== src/Bots/Picking.antt =====
-- core/client.c: `bot_score` and `bot_draft_pick`, how a bot drafts.
use deadweight.Prelude.{ℕ, ◌+◌, ◌%◌, ◌≤◌, ◌≡◌, arith, false, ◌&&◌, ltb, ◌==◌, if◌then◌else◌, xs}
use deadweight.Prelude.{ℤ, pos, ◌-ℤ◌, ◌*ℤ◌, leb_ℤ}
use deadweight.Cards.Catalog.{card_cost, card_power}
use deadweight.Draft.Building.{Draft, pick_refused, left_of, draft_done}
use deadweight.Draft.Drafted.{Drafting, Drafting-left}

unfoldable pub bot_score : ℤ → ℤ
bot_score id = card_power id *ℤ pos 2 -ℤ card_cost id

-- The index and the multiplicity of the answer, and the bot's stream after it.
pub record BotPick : Type 0 where
  pub index : ℕ
  pub mult : ℕ
  pub stream : ℕ

-- `idx` before and after the flip.
unfoldable pub bot_index : ℕ → ℤ → ℤ → ℕ
bot_index r card0 card1 =
    if leb_ℤ (bot_score card1) (bot_score card0)
    then (if xs r % 4 == 0 then 1 else 0)
    else (if xs r % 4 == 0 then 0 else 1)

unfoldable pub bot_mult : ℤ → ℕ → ℕ → ℕ → ℕ
bot_mult score left1 left2 left3 =
    if ltb 0 left3 && leb_ℤ (pos 9) score
    then 3
    else if ltb 0 left2 && leb_ℤ (pos 6) score
    then 2
    else if ltb 0 left1
    then 1
    else if ltb 0 left2
    then 2
    else 3

-- The offer that the message carries is that of the draft: its two cards and what is left.
unfoldable pub bot_draft_pick : ℕ → Draft → BotPick
bot_draft_pick r d =
    let idx = bot_index r d.offer0 d.offer1 in
    record {
      index = idx;
      mult = bot_mult (bot_score (if idx == 0 then d.offer0 else d.offer1)) d.left1 d.left2 d.left3;
      stream = xs r;
    }

bot_mult-left :
    (d : Draft) (score : ℤ)
    → 1 ≤ d.left1 + d.left2 + d.left3
    → 1 ≤ left_of d (bot_mult score d.left1 d.left2 d.left3)
unfolding bot_mult left_of
bot_mult-left d score h = ground arith

bot_index-le : (r : ℕ) (a b : ℤ) → bot_index r a b ≤ 1
unfolding bot_index
bot_index-le r a b = ground arith

-- A draft that is not done never refuses what a bot picks, whatever state its generator is in.
pub bot_draft_pick-accepted :
    {seed : ℕ} {d : Draft} (r : ℕ)
    → Drafting seed d
    → draft_done d ≡ false
    → pick_refused d (bot_draft_pick r d).index (bot_draft_pick r d).mult ≡ false
unfolding pick_refused bot_draft_pick
bot_draft_pick-accepted {d = d} r p h =
    let left = Drafting-left p h in
    ground (
      arith,
      left.0,
      bot_index-le r d.offer0 d.offer1,
      bot_mult-left d
          (bot_score (if bot_index r d.offer0 d.offer1 == 0 then d.offer0 else d.offer1)) left.1,
    )
