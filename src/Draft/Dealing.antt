-- ===== src/Draft/Dealing.antt =====
-- core/draft.c: `dw_random_deck`, a partial shuffle of the catalog, and `dw_deck_parse`.
use deadweight.Prelude.{
  ℕ, zero, suc, ◌+◌, ◌-◌, ◌*◌, ◌%◌, List, [], ◌∷◌, ◌++◌, Bool, ◌&&◌, ◌||◌, leb, ltb, ◌==◌,
  if◌then◌else◌, Option, none, some, length, get_or, replicate, xs,
}
use deadweight.Prelude.{ℤ, pos}
use deadweight.Cards.Rules.{num_cards}
use deadweight.Match.State.{no_card}
use deadweight.Match.Piles.{Shuffled, swap_at}
use deadweight.Match.Setup.{count_up}
use deadweight.Draft.Building.{draft_picks, deck_size}
use deadweight.Draft.Checking.{deck_valid}

-- The partial Fisher-Yates loop, from index `i` on: `swap_at` is the same exchange as in
-- core/match.c.
unfoldable pub deal_indices : ℕ → ℕ → ℕ → List ℤ → Shuffled
deal_indices zero i r idx = record { stream = r; pile = idx }
deal_indices (suc n) i r idx =
    deal_indices n (suc i) (xs r) (swap_at idx i (i + xs r % (num_cards - i)))

unfoldable pub copies_of : ℕ → ℕ
copies_of i = if ltb i 10 then 1 else if ltb i 15 then 2 else 3

-- The copies of the cards at indices `i` to `i + n - 1`.
unfoldable pub lay_out : ℕ → ℕ → List ℤ → List ℤ
lay_out zero i idx = []
lay_out (suc n) i idx = replicate (copies_of i) (get_or idx i no_card) ++ lay_out n (suc i) idx

pub record Dealt : Type 0 where
  pub stream : ℕ
  pub deck : List ℤ

unfoldable pub random_deck : ℕ → Dealt
random_deck rng =
    let shuffled =
      deal_indices draft_picks 0 (if rng == 0 then 1 else rng) (count_up num_cards 0) in
    record { stream = shuffled.stream; deck = lay_out draft_picks 0 shuffled.pile }

unfoldable pub is_separator : ℕ → Bool
is_separator c = c == b',' || c == 32 || c == 9 || c == 13 || c == 10

unfoldable pub is_digit : ℕ → Bool
is_digit c = leb b'0' c && leb c b'9'

-- `out[n++] = v`, unless the deck is full already.
unfoldable pub push_card : List ℤ → ℕ → Option (List ℤ)
push_card out v =
    if leb deck_size (length out)
    then none
    else some (out ++ ((if ltb 127 v then no_card else pos v) ∷ []))

-- The two loops of `dw_deck_parse` over the bytes of the text: between numbers, and inside a number
-- whose value so far is `v`. A number ends at a separator or at the end; `none` is a `return 0`.
unfoldable mutual
  pub parse_cards : List ℕ → List ℤ → Option (List ℤ)
  parse_cards [] out = some out
  parse_cards (c ∷ cs) out =
      if is_separator c
      then parse_cards cs out
      else if is_digit c
      then parse_number cs (c - b'0') out
      else none

  pub parse_number : List ℕ → ℕ → List ℤ → Option (List ℤ)
  parse_number [] v out = push_card out v
  parse_number (c ∷ cs) v out =
      if is_digit c
      then if ltb 1000 (v * 10 + (c - b'0'))
        then none
        else parse_number cs (v * 10 + (c - b'0')) out
      else if is_separator c
      then (elim (push_card out v) [ none ↦ none | some out' ↦ parse_cards cs out' ])
      else none

-- The deck that a text holds, if it is one.
unfoldable pub deck_parse : List ℕ → Option (List ℤ)
deck_parse text = elim (parse_cards text []) [
  | none ↦ none
  | some deck ↦ if length deck == deck_size && deck_valid deck then some deck else none
]
