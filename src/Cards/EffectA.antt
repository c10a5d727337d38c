-- ===== src/Cards/EffectA.antt =====
-- The tables of first effect words of core/card_rules.c: chains of `if ((id == k)) return v;`, each written as the
-- list of its pairs in order, with the last `return` as the default.
use deadweight.Prelude.{[], ◌∷◌}
use deadweight.Prelude.{ℤ}
use deadweight.Cards.Choose.{choose, fx}

unfoldable pub base_fx : ℤ → ℤ
base_fx id = choose id ((3, fx 1 6 2 0 1) ∷ (4, fx 1 6 2 0 2) ∷ (5, fx 1 6 2 0 3) ∷ []) (0)

unfoldable pub fxa_lo : ℤ → ℤ
fxa_lo id =
    choose id
      ((9, fx 23 1 0 0 1)
        ∷ (10, fx 21 0 0 0 4)
        ∷ (11, fx 3 0 0 0 4)
        ∷ (12, fx 1 1 0 3 1)
        ∷ (13, fx 22 17 3 0 6)
        ∷ (14, fx 1 6 1 0 3)
        ∷ (15, fx 32 1 0 0 35)
        ∷ (16, fx 1 9 10 0 8)
        ∷ (17, fx 21 0 0 0 4)
        ∷ (18, fx 1 0 0 1 1)
        ∷ (19, fx 1 14 1 0 8)
        ∷ (20, fx 21 0 0 0 6)
        ∷ (21, fx 9 0 0 0 1)
        ∷ (22, fx 1 18 50 0 9)
        ∷ (23, fx 1 5 0 0 4)
        ∷ [])
      (fx 21 2 0 0 5)

unfoldable pub fxa_mid : ℤ → ℤ
fxa_mid id =
    choose id
      ((25, fx 2 0 0 0 1)
        ∷ (26, fx 1 9 8 0 8)
        ∷ (27, fx 1 8 6 0 11)
        ∷ (28, fx 1 0 0 0 2)
        ∷ (29, fx 24 1 0 0 1)
        ∷ (31, fx 23 10 3 0 1)
        ∷ (32, fx 6 2 0 6 5)
        ∷ (33, fx 28 2 0 6 5)
        ∷ (35, fx 23 0 0 0 3)
        ∷ (36, fx 7 0 0 0 1)
        ∷ (37, fx 22 4 0 2 2)
        ∷ (38, fx 23 15 0 0 3)
        ∷ (39, fx 33 0 0 0 36)
        ∷ (40, fx 32 0 0 0 21)
        ∷ [])
      (0)

unfoldable pub fxa_hi : ℤ → ℤ
fxa_hi id =
    choose id
      ((41, fx 23 0 0 0 1)
        ∷ (42, fx 20 0 0 0 2)
        ∷ (43, fx 23 0 0 0 2)
        ∷ (44, fx 29 0 0 0 2)
        ∷ (45, fx 23 0 0 0 4)
        ∷ (46, fx 31 0 0 0 3)
        ∷ (47, fx 35 0 0 0 3)
        ∷ (48, fx 34 0 0 0 1)
        ∷ (49, fx 37 0 0 0 1)
        ∷ (50, fx 7 0 0 0 1)
        ∷ (51, fx 36 0 0 0 1)
        ∷ (52, fx 20 2 0 5 3)
        ∷ (53, fx 4 8 6 0 1)
        ∷ (54, fx 23 0 0 0 1)
        ∷ (55, fx 20 8 8 0 4)
        ∷ [])
      (fx 28 2 0 0 3)

unfoldable pub fxa_top : ℤ → ℤ
fxa_top id =
    choose id
      ((57, fx 23 6 0 0 2)
        ∷ (58, fx 4 0 0 0 1)
        ∷ (59, fx 5 0 0 0 1)
        ∷ (60, fx 4 0 0 0 1)
        ∷ (61, fx 28 0 0 0 4)
        ∷ (62, fx 28 0 0 0 2)
        ∷ (63, fx 28 0 0 0 2)
        ∷ (64, fx 6 0 0 6 10)
        ∷ (65, fx 20 0 0 0 6)
        ∷ (66, fx 20 0 0 0 8)
        ∷ (67, fx 24 7 3 0 2)
        ∷ (68, fx 41 0 0 0 4)
        ∷ (69, fx 39 0 0 0 1)
        ∷ (70, fx 34 0 0 0 2)
        ∷ (71, fx 40 0 0 0 1)
        ∷ [])
      (fx 29 0 0 0 2)

unfoldable pub fxa_n1 : ℤ → ℤ
fxa_n1 id =
    choose id
      ((73, 20000001)
        ∷ (74, 10602004)
        ∷ (75, 20000001)
        ∷ (76, 10703003)
        ∷ (77, 20000001)
        ∷ (78, 10500005)
        ∷ (79, 30000004)
        ∷ (80, 10602006)
        ∷ (81, 10400202)
        ∷ (82, 320100050)
        ∷ (83, 240100002)
        ∷ (84, 60000603)
        ∷ (85, 10000401)
        ∷ (86, 220100003)
        ∷ (87, 220100004)
        ∷ (88, 210000002)
        ∷ [])
      (0)

unfoldable pub fxa_n2 : ℤ → ℤ
fxa_n2 id =
    choose id
      ((89, 210000003)
        ∷ (90, 10400003)
        ∷ (91, 290100001)
        ∷ (92, 11104003)
        ∷ (93, 220100006)
        ∷ (94, 11840007)
        ∷ (95, 10000901)
        ∷ (96, 11003004)
        ∷ (97, 11702004)
        ∷ (98, 230000001)
        ∷ (99, 10601004)
        ∷ (100, 10100008)
        ∷ (101, 210200003)
        ∷ (102, 11850005)
        ∷ (103, 10500003)
        ∷ (104, 210000001)
        ∷ [])
      (0)
