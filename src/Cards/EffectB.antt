-- ===== src/Cards/EffectB.antt =====
-- The tables of second effect words of core/card_rules.c: chains of `if ((id == k)) return v;`, each written as the
-- list of its pairs in order, with the last `return` as the default.
use deadweight.Prelude.{[], ◌∷◌}
use deadweight.Prelude.{ℤ}
use deadweight.Cards.Choose.{choose, fx}

unfoldable pub fxb_lo : ℤ → ℤ
fxb_lo id = choose id ((21, fx 31 0 0 0 2) ∷ (22, fx 21 21 50 0 3) ∷ []) (0)

unfoldable pub fxb_mid : ℤ → ℤ
fxb_mid id = choose id ((35, fx 21 2 0 0 5) ∷ (36, fx 8 0 0 0 1) ∷ []) (0)

unfoldable pub fxb_hi : ℤ → ℤ
fxb_hi id =
    choose id
      ((45, fx 30 0 0 0 4) ∷ (49, fx 29 0 0 0 2) ∷ (50, fx 24 0 0 0 6) ∷ (54, fx 21 16 6 0 4) ∷ [])
      (0)

unfoldable pub fxb_top : ℤ → ℤ
fxb_top id =
    choose id
      ((57, fx 29 6 0 0 1)
        ∷ (58, fx 26 0 0 0 2)
        ∷ (60, fx 26 0 0 0 1)
        ∷ (64, fx 42 0 0 0 1)
        ∷ (66, fx 43 0 0 0 1)
        ∷ (72, fx 31 0 0 0 2)
        ∷ [])
      (0)

unfoldable pub fxb_n1 : ℤ → ℤ
fxb_n1 id =
    choose id
      ((73, 0)
        ∷ (74, 0)
        ∷ (75, 30000003)
        ∷ (76, 0)
        ∷ (77, 10910005)
        ∷ (78, 10602002)
        ∷ (79, 0)
        ∷ (80, 0)
        ∷ (81, 0)
        ∷ (82, 0)
        ∷ (83, 230100002)
        ∷ (84, 280000003)
        ∷ (85, 0)
        ∷ (86, 0)
        ∷ (87, 0)
        ∷ (88, 0)
        ∷ [])
      (0)

unfoldable pub fxb_n2 : ℤ → ℤ
fxb_n2 id =
    choose id
      ((89, 0)
        ∷ (90, 0)
        ∷ (91, 0)
        ∷ (92, 0)
        ∷ (93, 0)
        ∷ (94, 12140001)
        ∷ (95, 0)
        ∷ (96, 0)
        ∷ (97, 0)
        ∷ (98, 0)
        ∷ (99, 0)
        ∷ (100, 0)
        ∷ (101, 0)
        ∷ (102, 0)
        ∷ (103, 0)
        ∷ (104, 0)
        ∷ [])
      (0)
