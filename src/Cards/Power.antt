-- ===== src/Cards/Power.antt =====
-- The power tables of core/card_rules.c: chains of `if ((id == k)) return v;`, each written as the
-- list of its pairs in order, with the last `return` as the default.
use deadweight.Prelude.{[], ◌∷◌}
use deadweight.Prelude.{ℤ}
use deadweight.Cards.Choose.{choose}

unfoldable pub power_lo : ℤ → ℤ
power_lo id =
    choose id
      ((9, 4)
        ∷ (10, 8)
        ∷ (11, 8)
        ∷ (12, 3)
        ∷ (13, 5)
        ∷ (14, 3)
        ∷ (15, 2)
        ∷ (16, 2)
        ∷ (17, 14)
        ∷ (18, 1)
        ∷ (19, 3)
        ∷ (20, 12)
        ∷ (21, 3)
        ∷ (22, 0)
        ∷ (23, 2)
        ∷ (24, 9)
        ∷ [])
      (0)

unfoldable pub power_mid : ℤ → ℤ
power_mid id =
    choose id
      ((25, 5)
        ∷ (26, 6)
        ∷ (27, 3)
        ∷ (28, 6)
        ∷ (29, 3)
        ∷ (30, 6)
        ∷ (31, 2)
        ∷ (32, 4)
        ∷ (33, 3)
        ∷ (34, 0)
        ∷ (35, 0)
        ∷ (36, 0)
        ∷ (37, 0)
        ∷ (38, 0)
        ∷ (39, 0)
        ∷ (40, 2)
        ∷ [])
      (0)

unfoldable pub power_hi : ℤ → ℤ
power_hi id =
    choose id
      ((41, 3)
        ∷ (42, 4)
        ∷ (43, 0)
        ∷ (44, 2)
        ∷ (45, 0)
        ∷ (46, 1)
        ∷ (47, 2)
        ∷ (48, 0)
        ∷ (49, 0)
        ∷ (50, 0)
        ∷ (51, 0)
        ∷ (52, 4)
        ∷ (53, 3)
        ∷ (54, 0)
        ∷ (55, 2)
        ∷ (56, 2)
        ∷ [])
      (0)

unfoldable pub power_top : ℤ → ℤ
power_top id =
    choose id
      ((57, 3)
        ∷ (58, 0)
        ∷ (59, 4)
        ∷ (60, 0)
        ∷ (61, 3)
        ∷ (62, 0)
        ∷ (63, 5)
        ∷ (64, 4)
        ∷ (65, 0)
        ∷ (66, 0)
        ∷ (67, 3)
        ∷ (68, 1)
        ∷ (69, 0)
        ∷ (70, 2)
        ∷ (71, 0)
        ∷ (72, 1)
        ∷ [])
      (0)

unfoldable pub power_n1 : ℤ → ℤ
power_n1 id =
    choose id
      ((73, 3)
        ∷ (74, 6)
        ∷ (75, 7)
        ∷ (76, 4)
        ∷ (77, 9)
        ∷ (78, 3)
        ∷ (79, 5)
        ∷ (80, 1)
        ∷ (81, 1)
        ∷ (82, 2)
        ∷ (83, 2)
        ∷ (84, 4)
        ∷ (85, 4)
        ∷ (86, 2)
        ∷ (87, 8)
        ∷ (88, 8)
        ∷ [])
      (0)

unfoldable pub power_n2 : ℤ → ℤ
power_n2 id =
    choose id
      ((89, 6)
        ∷ (90, 3)
        ∷ (91, 4)
        ∷ (92, 3)
        ∷ (93, 14)
        ∷ (94, 3)
        ∷ (95, 5)
        ∷ (96, 3)
        ∷ (97, 3)
        ∷ (98, 8)
        ∷ (99, 8)
        ∷ (100, 10)
        ∷ (101, 9)
        ∷ (102, 1)
        ∷ (103, 6)
        ∷ (104, 5)
        ∷ [])
      (0)
