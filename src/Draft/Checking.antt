-- ===== src/Draft/Checking.antt =====
-- core/draft.c: `dw_draft_deck_valid`, the legality check of a deck that comes from outside, and
-- `dw_deck_parse`, which reads one from text.
use deadweight.Prelude.{
  ℕ, zero, suc, ◌+◌, List, [], ◌∷◌, Bool, false, ◌&&◌, ◌||◌, ◌==◌, if◌then◌else◌, Option, none,
  some, length, get_or, set, replicate,
}
use deadweight.Prelude.{ℤ, pos, ltb_ℤ, leb_ℤ, pos_part}
use deadweight.Cards.Rules.{num_cards}
use deadweight.Draft.Building.{deck_size, draft_max_cards}

-- The loop that fills `seen`; `none` is the early `return 0`.
unfoldable pub fill_seen : List ℤ → List ℕ → Option (List ℕ)
fill_seen [] seen = some seen
fill_seen (c ∷ cs) seen =
    if ltb_ℤ c (pos 0) || leb_ℤ (pos num_cards) c
    then none
    else fill_seen cs (set seen (pos_part c) (get_or seen (pos_part c) 0 + 1))

pub record Buckets : Type 0 where
  pub ones : ℕ
  pub twos : ℕ
  pub threes : ℕ

-- The `switch` over one entry of `seen`; `none` is the early `return 0`.
unfoldable pub sort_entry : ℕ → Buckets → Option Buckets
sort_entry zero b = some b
sort_entry (suc zero) b = some (record b { ones = b.ones + 1 })
sort_entry (suc (suc zero)) b = some (record b { twos = b.twos + 1 })
sort_entry (suc (suc (suc zero))) b = some (record b { threes = b.threes + 1 })
sort_entry (suc (suc (suc (suc n)))) b = none

unfoldable pub sort_seen : List ℕ → Buckets → Option Buckets
sort_seen [] b = some b
sort_seen (n ∷ ns) b = elim (sort_entry n b) [ none ↦ none | some b' ↦ sort_seen ns b' ]

abbrev pub no_buckets : Buckets
no_buckets = record { ones = 0; twos = 0; threes = 0 }

abbrev pub is_standard : Option Buckets → Bool
is_standard none = false
is_standard (some b) = b.ones == 10 && b.twos == 5 && b.threes == 1

abbrev pub sorted : Option (List ℕ) → Option Buckets
sorted none = none
sorted (some seen) = sort_seen seen no_buckets

unfoldable pub deck_valid : List ℤ → Bool
deck_valid deck =
    if length deck == deck_size
    then is_standard (sorted (fill_seen deck (replicate draft_max_cards 0)))
    else false
