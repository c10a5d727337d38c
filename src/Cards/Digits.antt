-- ===== src/Cards/Digits.antt =====
-- The digit tables of core/card_rules.c: chains of `if ((n == k)) return v;`, each written as the
-- list of its pairs in order, with the last `return` as the default.
use deadweight.Prelude.{[], ◌∷◌}
use deadweight.Prelude.{ℤ}
use deadweight.Cards.Choose.{choose}

unfoldable pub pow3 : ℤ → ℤ
pow3 n =
    choose n
      ((0, 1)
        ∷ (1, 3)
        ∷ (2, 9)
        ∷ (3, 27)
        ∷ (4, 81)
        ∷ (5, 243)
        ∷ (6, 729)
        ∷ (7, 2187)
        ∷ (8, 6561)
        ∷ (9, 19683)
        ∷ (10, 59049)
        ∷ (11, 177147)
        ∷ (12, 531441)
        ∷ (13, 1594323)
        ∷ (14, 4782969)
        ∷ [])
      (14348907)

unfoldable pub kind_chunk : ℤ → ℤ
kind_chunk c =
    choose c
      ((0, 14545359)
        ∷ (1, 30373336)
        ∷ (2, 38256857)
        ∷ (3, 43046683)
        ∷ (4, 21525884)
        ∷ (5, 202)
        ∷ (6, 0)
        ∷ [])
      (0)

unfoldable pub pow6 : ℤ → ℤ
pow6 n =
    choose n
      ((0, 1)
        ∷ (1, 6)
        ∷ (2, 36)
        ∷ (3, 216)
        ∷ (4, 1296)
        ∷ (5, 7776)
        ∷ (6, 46656)
        ∷ (7, 279936)
        ∷ (8, 1679616)
        ∷ [])
      (10077696)

unfoldable pub kw_chunk : ℤ → ℤ
kw_chunk c =
    choose c
      ((0, 27864)
        ∷ (1, 47231430)
        ∷ (2, 50583558)
        ∷ (3, 1215648)
        ∷ (4, 3592514)
        ∷ (5, 29)
        ∷ (6, 1399680)
        ∷ (7, 35607998)
        ∷ (8, 1179)
        ∷ (9, 0)
        ∷ (10, 0)
        ∷ [])
      (0)
