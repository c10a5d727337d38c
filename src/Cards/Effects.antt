-- ===== src/Cards/Effects.antt =====
-- core/card_rules.c: the fields of an effect word, its condition and its amount.
use deadweight.Prelude.{Bool, not, ◌&&◌, ◌||◌, if◌then◌else◌}
use deadweight.Prelude.{ℤ, pos, ◌-ℤ◌, ◌*ℤ◌, ◌/ℤ◌, ltb_ℤ, leb_ℤ, eqb_ℤ}
use deadweight.Cards.Rules.{kind_beats}

unfoldable pub fx_ch : ℤ → ℤ
unfolding ◌/ℤ◌
fx_ch x = x /ℤ pos 10000000

unfoldable pub fx_nn : ℤ → ℤ
unfolding ◌/ℤ◌ ◌-ℤ◌ ◌*ℤ◌
fx_nn x = x /ℤ pos 100000 -ℤ x /ℤ pos 10000000 *ℤ pos 100

unfoldable pub fx_pp : ℤ → ℤ
unfolding ◌/ℤ◌ ◌-ℤ◌ ◌*ℤ◌
fx_pp x = x /ℤ pos 1000 -ℤ x /ℤ pos 100000 *ℤ pos 100

unfoldable pub fx_m : ℤ → ℤ
unfolding ◌/ℤ◌ ◌-ℤ◌ ◌*ℤ◌
fx_m x = x /ℤ pos 100 -ℤ x /ℤ pos 1000 *ℤ pos 10

unfoldable pub fx_aa : ℤ → ℤ
unfolding ◌/ℤ◌ ◌-ℤ◌ ◌*ℤ◌
fx_aa x = x -ℤ x /ℤ pos 100 *ℤ pos 100

unfoldable pub fx_phase : ℤ → ℤ
fx_phase ch = if ltb_ℤ ch (pos 20) then pos 1 else pos 2

-- What an effect word is read against: the C functions' arguments after the word. `mk` and `ok`
-- are the kinds of the card and of the other card (-1 for none), `oc` the other card's cost, `mh`
-- and `oh` the hulls, `el` and `oe` the energies, `mv` and `ov` the credits.
pub record Reading : Type 0 where
  pub dealt : ℤ
  pub taken : ℤ
  pub mk : ℤ
  pub ok : ℤ
  pub oc : ℤ
  pub mh : ℤ
  pub oh : ℤ
  pub el : ℤ
  pub oe : ℤ
  pub mv : ℤ
  pub ov : ℤ
  pub rnd : ℤ
  pub roll : ℤ

-- The conditions 11 to 21.
fx_cond_ok_high : ℤ → Reading → Bool
unfolding fx_nn fx_pp ◌/ℤ◌ ◌-ℤ◌ ◌*ℤ◌
fx_cond_ok_high x r =
    if eqb_ℤ (fx_nn x) (pos 11)
    then leb_ℤ (fx_pp x) r.oe
    else if eqb_ℤ (fx_nn x) (pos 12)
    then leb_ℤ (fx_pp x) r.mv
    else if eqb_ℤ (fx_nn x) (pos 13)
    then ltb_ℤ r.mv (fx_pp x)
    else if eqb_ℤ (fx_nn x) (pos 14)
    then ltb_ℤ r.ov (fx_pp x)
    else if eqb_ℤ (fx_nn x) (pos 15)
    then leb_ℤ r.dealt (pos 0) && leb_ℤ r.taken (pos 0)
    else if eqb_ℤ (fx_nn x) (pos 16)
    then leb_ℤ (fx_pp x) r.taken
    else if eqb_ℤ (fx_nn x) (pos 17)
    then ltb_ℤ (pos 0) (fx_pp x) && eqb_ℤ (r.rnd -ℤ r.rnd /ℤ fx_pp x *ℤ fx_pp x) (pos 0)
    else if eqb_ℤ (fx_nn x) (pos 18)
    then ltb_ℤ r.roll (fx_pp x)
    else if eqb_ℤ (fx_nn x) (pos 19)
    then leb_ℤ (fx_pp x) r.dealt
    else if eqb_ℤ (fx_nn x) (pos 20)
    then not (eqb_ℤ r.ok (fx_pp x))
    else leb_ℤ (fx_pp x) r.roll

unfoldable pub fx_cond_ok : ℤ → Reading → Bool
unfolding fx_nn fx_pp fx_cond_ok_high
fx_cond_ok x r =
    if eqb_ℤ (fx_nn x) (pos 0)
    then leb_ℤ (pos 0) x
    else if eqb_ℤ (fx_nn x) (pos 1)
    then ltb_ℤ (pos 0) r.dealt
      && ((leb_ℤ (pos 0) r.ok && kind_beats r.mk r.ok)
          || (ltb_ℤ r.ok (pos 0) && not (eqb_ℤ r.mk (pos 2))))
    else if eqb_ℤ (fx_nn x) (pos 2)
    then ltb_ℤ (pos 0) r.taken
    else if eqb_ℤ (fx_nn x) (pos 3)
    then leb_ℤ (pos 0) r.ok && kind_beats r.ok r.mk
    else if eqb_ℤ (fx_nn x) (pos 4)
    then leb_ℤ (pos 0) r.ok
    else if eqb_ℤ (fx_nn x) (pos 5)
    then ltb_ℤ r.ok (pos 0)
    else if eqb_ℤ (fx_nn x) (pos 6)
    then eqb_ℤ r.ok (fx_pp x)
    else if eqb_ℤ (fx_nn x) (pos 7)
    then leb_ℤ (pos 0) r.ok && leb_ℤ (fx_pp x) r.oc
    else if eqb_ℤ (fx_nn x) (pos 8)
    then leb_ℤ r.mh (fx_pp x)
    else if eqb_ℤ (fx_nn x) (pos 9)
    then leb_ℤ r.oh (fx_pp x)
    else if eqb_ℤ (fx_nn x) (pos 10)
    then leb_ℤ (fx_pp x) r.el
    else fx_cond_ok_high x r

unfoldable pub fx_scale : ℤ → Reading → ℤ
unfolding fx_m fx_aa ◌/ℤ◌ ◌-ℤ◌ ◌*ℤ◌
fx_scale x r =
    if eqb_ℤ (fx_m x) (pos 0)
    then fx_aa x
    else if eqb_ℤ (fx_m x) (pos 1)
    then fx_aa x *ℤ r.oe
    else if eqb_ℤ (fx_m x) (pos 2)
    then fx_aa x *ℤ r.oc
    else if eqb_ℤ (fx_m x) (pos 3)
    then fx_aa x *ℤ r.rnd /ℤ pos 2
    else if eqb_ℤ (fx_m x) (pos 4)
    then fx_aa x *ℤ r.el
    else if eqb_ℤ (fx_m x) (pos 5)
    then if ltb_ℤ r.taken (fx_aa x) then r.taken else fx_aa x
    else if eqb_ℤ (fx_m x) (pos 6)
    then r.taken *ℤ fx_aa x /ℤ pos 10
    else if eqb_ℤ (fx_m x) (pos 7)
    then r.dealt *ℤ fx_aa x /ℤ pos 10
    else if eqb_ℤ (fx_m x) (pos 8)
    then fx_aa x *ℤ (pos 20 -ℤ r.mh) /ℤ pos 4
    else fx_aa x *ℤ (if ltb_ℤ r.mv (pos 0) then pos 0 else r.mv) /ℤ pos 2

unfoldable pub fx_amount : ℤ → Reading → ℤ
unfolding fx_cond_ok fx_scale
fx_amount x r = if eqb_ℤ x (pos 0) then pos 0 else if fx_cond_ok x r then fx_scale x r else pos 0
