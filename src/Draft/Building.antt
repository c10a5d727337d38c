-- ===== src/Draft/Building.antt =====
-- core/draft.c: `DwDraft`, `make_offer`, `dw_draft_init` and `dw_draft_pick`.
use deadweight.Prelude.{
  ℕ, zero, suc, ◌+◌, ◌-◌, ◌*◌, ◌%◌, List, [], ◌++◌, Bool, false, ◌||◌, leb, ltb, ◌==◌,
  if◌then◌else◌, Option, none, some, replicate, xs, u32, bit_xor,
}
use deadweight.Prelude.{ℤ, pos, negsuc, eqb_ℤ}
use deadweight.Cards.Rules.{num_cards}

abbrev pub draft_picks : ℕ
draft_picks = 16

abbrev pub deck_size : ℕ
deck_size = 23

abbrev pub draft_max_cards : ℕ
draft_max_cards = 128

-- `left1` to `left3` are the C array `left`: the 1-ofs, 2-ofs and 3-ofs that remain. `used` is the
-- array of flags, and `deck` the C array up to `deck_n`.
pub record Draft : Type 0 where
  pub rng : ℕ
  pub pick_no : ℕ
  pub left1 : ℕ
  pub left2 : ℕ
  pub left3 : ℕ
  pub offer0 : ℤ
  pub offer1 : ℤ
  pub used : ℕ → Bool
  pub deck : List ℤ

pub record Rolled : Type 0 where
  pub card : ℕ
  pub stream : ℕ

-- The `do … while` of `make_offer`: cards are rolled until one is not barred. The C loop has no
-- bound; `none` means that `fuel` rolls were all barred.
unfoldable pub roll_card : ℕ → (ℕ → Bool) → ℕ → Option Rolled
roll_card zero barred r = none
roll_card (suc fuel) barred r =
    let again = roll_card fuel barred (xs r) in
    if barred (xs r % num_cards)
    then again
    else some (record { card = xs r % num_cards; stream = xs r })

abbrev pub or_same : (ℕ → Bool) → ℕ → ℕ → Bool
or_same used c d = used d || d == c

unfoldable pub offer_second : ℕ → Draft → Rolled → Option Draft
offer_second fuel d first = elim (roll_card fuel (or_same d.used first.card) first.stream) [
  | none ↦ none
  | some second ↦
      some (record d { rng = second.stream; offer0 = pos first.card; offer1 = pos second.card })
]

unfoldable pub make_offer : ℕ → Draft → Option Draft
unfolding offer_second
make_offer fuel d =
    if leb draft_picks d.pick_no
    then some (record d { offer0 = negsuc 0; offer1 = negsuc 0 })
    else (elim (roll_card fuel d.used d.rng) [
      | none ↦ none
      | some first ↦ offer_second fuel d first
    ])

unfoldable pub draft_start : ℕ → Draft
draft_start seed =
    let r : ℕ = bit_xor (u32 (seed * 2654435761)) 0xD1B54A35 in
    record {
      rng = xs (xs (xs (xs (if r == 0 then 1 else r))));
      pick_no = 0;
      left1 = 10;
      left2 = 5;
      left3 = 1;
      offer0 = pos 0;
      offer1 = pos 0;
      used = λ c. false;
      deck = [];
    }

unfoldable pub draft_init : ℕ → ℕ → Option Draft
draft_init fuel seed = make_offer fuel (draft_start seed)

-- `left[mult - 1]`, and 0 for a multiplicity that is not 1 to 3.
unfoldable pub left_of : Draft → ℕ → ℕ
left_of d zero = 0
left_of d (suc zero) = d.left1
left_of d (suc (suc zero)) = d.left2
left_of d (suc (suc (suc zero))) = d.left3
left_of d (suc (suc (suc (suc mult)))) = 0

abbrev pub offered : Draft → ℕ → ℤ
offered d zero = d.offer0
offered d (suc idx) = d.offer1

-- The guard of `dw_draft_pick`; the index and the multiplicity are unsigned bytes of a message.
unfoldable pub pick_refused : Draft → ℕ → ℕ → Bool
pick_refused d idx mult = leb draft_picks d.pick_no || ltb 1 idx || left_of d mult == 0

-- A pick that is not refused, before the next offer is made.
unfoldable pub take_card : Draft → ℕ → ℕ → Draft
take_card d idx mult = record d {
  used = λ c. eqb_ℤ (pos c) (offered d idx) || d.used c;
  left1 = if mult == 1 then d.left1 - 1 else d.left1;
  left2 = if mult == 2 then d.left2 - 1 else d.left2;
  left3 = if mult == 3 then d.left3 - 1 else d.left3;
  deck = d.deck ++ replicate mult (offered d idx);
  pick_no = d.pick_no + 1;
}

-- What `dw_draft_pick` does: it refuses, or picks and makes the next offer. `endless` stands for an
-- offer that `fuel` rolls do not find.
pub data Picked : Type 0 where
  refused endless : Picked
  picked : Draft → Picked

unfoldable pub draft_pick : ℕ → Draft → ℕ → ℕ → Picked
draft_pick fuel d idx mult =
    if pick_refused d idx mult then refused else (elim (make_offer fuel (take_card d idx mult)) [
      | none ↦ endless
      | some next ↦ picked next
    ])

unfoldable pub draft_done : Draft → Bool
draft_done d = leb draft_picks d.pick_no
