-- ===== src/Cards/Cost.antt =====
-- The cost tables of core/card_rules.c: chains of `if ((id == k)) return v;`, each written as the
-- list of its pairs in order, with the last `return` as the default.
use deadweight.Prelude.{[], ◌∷◌}
use deadweight.Prelude.{ℤ}
use deadweight.Cards.Choose.{choose}

unfoldable pub cost_lo : ℤ → ℤ
cost_lo id =
    choose id
      ((9, 2)
        ∷ (10, 1)
        ∷ (11, 4)
        ∷ (12, 3)
        ∷ (13, 2)
        ∷ (14, 2)
        ∷ (15, 3)
        ∷ (16, 2)
        ∷ (17, 5)
        ∷ (18, 2)
        ∷ (19, 3)
        ∷ (20, 2)
        ∷ (21, 3)
        ∷ (22, 1)
        ∷ (23, 1)
        ∷ (24, 1)
        ∷ [])
      (1)

unfoldable pub cost_mid : ℤ → ℤ
cost_mid id =
    choose id
      ((25, 3)
        ∷ (26, 4)
        ∷ (27, 3)
        ∷ (28, 2)
        ∷ (29, 2)
        ∷ (30, 1)
        ∷ (31, 1)
        ∷ (32, 2)
        ∷ (33, 4)
        ∷ (34, 2)
        ∷ (35, 1)
        ∷ (36, 5)
        ∷ (37, 3)
        ∷ (38, 1)
        ∷ (39, 2)
        ∷ (40, 3)
        ∷ [])
      (3)

unfoldable pub cost_hi : ℤ → ℤ
cost_hi id =
    choose id
      ((41, 1)
        ∷ (42, 2)
        ∷ (43, 2)
        ∷ (44, 2)
        ∷ (45, 1)
        ∷ (46, 2)
        ∷ (47, 2)
        ∷ (48, 2)
        ∷ (49, 3)
        ∷ (50, 6)
        ∷ (51, 4)
        ∷ (52, 2)
        ∷ (53, 3)
        ∷ (54, 1)
        ∷ (55, 2)
        ∷ (56, 2)
        ∷ [])
      (2)

unfoldable pub cost_top : ℤ → ℤ
cost_top id =
    choose id
      ((57, 2)
        ∷ (58, 3)
        ∷ (59, 3)
        ∷ (60, 3)
        ∷ (61, 3)
        ∷ (62, 1)
        ∷ (63, 2)
        ∷ (64, 4)
        ∷ (65, 3)
        ∷ (66, 5)
        ∷ (67, 2)
        ∷ (68, 2)
        ∷ (69, 4)
        ∷ (70, 4)
        ∷ (71, 4)
        ∷ (72, 2)
        ∷ [])
      (2)

unfoldable pub cost_n1 : ℤ → ℤ
cost_n1 id =
    choose id
      ((73, 1)
        ∷ (74, 3)
        ∷ (75, 4)
        ∷ (76, 2)
        ∷ (77, 5)
        ∷ (78, 2)
        ∷ (79, 3)
        ∷ (80, 1)
        ∷ (81, 2)
        ∷ (82, 3)
        ∷ (83, 2)
        ∷ (84, 3)
        ∷ (85, 3)
        ∷ (86, 2)
        ∷ (87, 4)
        ∷ (88, 3)
        ∷ [])
      (0)

unfoldable pub cost_n2 : ℤ → ℤ
cost_n2 id =
    choose id
      ((89, 1)
        ∷ (90, 2)
        ∷ (91, 2)
        ∷ (92, 2)
        ∷ (93, 6)
        ∷ (94, 2)
        ∷ (95, 3)
        ∷ (96, 1)
        ∷ (97, 1)
        ∷ (98, 3)
        ∷ (99, 4)
        ∷ (100, 5)
        ∷ (101, 3)
        ∷ (102, 1)
        ∷ (103, 3)
        ∷ (104, 2)
        ∷ [])
      (0)
