-- ===== src/Match/Exchange.antt =====
-- core/match.c: the first half of `dw_match_resolve`. The declared cards are paid for, cancelled
-- and copied, and the damage that each seat deals is worked out from the triangle and the riders.
use deadweight.Prelude.{ℕ, Bool, true, false, not, ◌&&◌, ◌||◌, if◌then◌else◌, u8, i8}
use deadweight.Prelude.{ℤ, pos, negsuc, ◌+ℤ◌, ◌-ℤ◌, ◌/ℤ◌, ltb_ℤ, leb_ℤ, eqb_ℤ}
use deadweight.Cards.Catalog.{card_kind, card_cost, card_credit, card_fx_a, card_fx_b}
use deadweight.Cards.Rules.{kind_beats, damage_dealt, energy_after_play, card_substitute}
use deadweight.Cards.Effects.{fx_ch, fx_amount}
use deadweight.Match.State.{Side, other, Two, at, put, for_seats, both, no_card, Seat, clampi}
use deadweight.Match.Setup.{hand_at}

-- The channels of effects that act on the exchange.
abbrev pub ch_bonus : ℤ
ch_bonus = pos 1

abbrev pub ch_pierce : ℤ
ch_pierce = pos 2

abbrev pub ch_bypass : ℤ
ch_bypass = pos 3

abbrev pub ch_immune : ℤ
ch_immune = pos 4

abbrev pub ch_lifeline : ℤ
ch_lifeline = pos 5

abbrev pub ch_reflect : ℤ
ch_reflect = pos 6

abbrev pub ch_cancel : ℤ
ch_cancel = pos 7

abbrev pub ch_copy : ℤ
ch_copy = pos 8

abbrev pub ch_halve : ℤ
ch_halve = pos 9

-- `decl[s]`
unfoldable pub declared : Seat → ℤ
declared p = if leb_ℤ (pos 0) p.lock_slot then hand_at p.hand p.lock_slot else no_card

-- `orig[s]`: the card that the declared one turns out to be.
unfoldable pub original : Seat → ℤ
original p =
    if leb_ℤ (pos 0) (declared p) then card_substitute (declared p) (pos p.roll) else no_card

-- Costs are paid for the card that was declared, even if it is later cancelled.
unfoldable pub pay : Seat → Seat
pay p = record p {
  energy = u8 (energy_after_play (pos p.energy) (declared p));
  vault =
      if leb_ℤ (pos 0) (declared p)
      then i8 (clampi (p.vault -ℤ card_credit (declared p)) (negsuc 99) (pos 99))
      else p.vault;
}

-- `fxamt`: one effect word of seat `s`, read against the meters.
unfoldable pub fxamt : Two Seat → ℕ → Side → ℤ → ℤ → ℤ → Two ℤ → ℤ
fxamt seats round s word dealt taken eff =
    let mine = at seats s in
    let theirs = at seats (other s) in
    let card = at eff (other s) in
    fx_amount word (record {
      dealt = dealt;
      taken = taken;
      mk = card_kind (at eff s);
      ok = if leb_ℤ (pos 0) card then card_kind card else negsuc 0;
      oc = if leb_ℤ (pos 0) card then card_cost card else pos 0;
      mh = mine.hull;
      oh = theirs.hull;
      el = pos mine.energy;
      oe = pos theirs.energy;
      mv = mine.vault;
      ov = theirs.vault;
      rnd = pos round;
      roll = pos mine.roll;
    })

-- `int ws[2] = { card_fx_a(id), card_fx_b(id) }; for (k…)`
abbrev pub for_words {ℓ} : {A : Type ℓ} → ℤ → (ℤ → A → A) → A → A
for_words id body a = body (card_fx_b id) (body (card_fx_a id) a)

module _ (seats : Two Seat) (round : ℕ) where
  -- Whether a word of `orig[s]` on channel `ch` applies, as steps 1 reads it.
  unfoldable pub triggers : ℤ → Two ℤ → Side → Bool
  triggers ch orig s =
      leb_ℤ (pos 0) (at orig s)
      && for_words (at orig s)
          (λ w hit.
            hit
            || (eqb_ℤ (fx_ch w) ch && ltb_ℤ (pos 0) (fxamt seats round s w (pos 0) (pos 0) orig)))
          false

  -- `canc[s]`: the other seat's card cancels.
  unfoldable pub cancelled : Two ℤ → Side → Bool
  cancelled orig s = triggers ch_cancel orig (other s)

  unfoldable pub copies : Two ℤ → Side → Bool
  copies orig s = not (cancelled orig s) && triggers ch_copy orig s

  -- `eff[s]` after cancelling and copying.
  unfoldable pub effective : Two ℤ → Side → ℤ
  effective orig s =
      if cancelled orig s then no_card else if copies orig s then at orig (other s) else at orig s

-- The damage before riders, as pass A rewrites it, and what bypasses.
pub record Bypass : Type 0 where
  pub d : Two ℤ
  pub bypass : Two ℤ

-- The sums of pass B for one seat.
pub record Rider : Type 0 where
  pub bonus : ℤ
  pub pierce : Bool
  pub immune : Bool
  pub life : Bool
  pub refl : ℤ
  pub halve : Bool

abbrev no_rider : Rider
no_rider = record {
  bonus = pos 0;
  pierce = false;
  immune = false;
  life = false;
  refl = pos 0;
  halve = false;
}

-- One channel of pass B, with an amount above 0.
unfoldable pub add_rider : ℤ → ℤ → Rider → Rider
add_rider ch a r =
    if eqb_ℤ ch ch_bonus
    then record r { bonus = r.bonus +ℤ a }
    else if eqb_ℤ ch ch_pierce
    then record r { pierce = true }
    else if eqb_ℤ ch ch_immune
    then record r { immune = true }
    else if eqb_ℤ ch ch_lifeline
    then record r { life = true }
    else if eqb_ℤ ch ch_reflect
    then record r { refl = r.refl +ℤ a }
    else if eqb_ℤ ch ch_halve
    then record r { halve = true }
    else r

module _ (seats : Two Seat) (round : ℕ) (eff : Two ℤ) where
  unfoldable pub countered : Side → Bool
  countered s =
      leb_ℤ (pos 0) (at eff s)
      && leb_ℤ (pos 0) (at eff (other s))
      && kind_beats (card_kind (at eff (other s))) (card_kind (at eff s))

  -- Pass A for one word: a bypass rewrites the opponent's counter damage.
  unfoldable pub bypass_word : Side → ℤ → Bypass → Bypass
  bypass_word s w b =
      if eqb_ℤ (fx_ch w) ch_bypass
      then (let a = fxamt seats round s w (at b.d s) (at b.d (other s)) eff in
          record {
            bypass = if ltb_ℤ (at b.bypass s) a then put b.bypass s a else b.bypass;
            d =
                if ltb_ℤ (pos 0) a
                  && leb_ℤ (pos 0) (at eff (other s))
                  && eqb_ℤ (card_kind (at eff (other s))) (pos 2)
                then put b.d (other s) (pos 0)
                else b.d;
          })
      else b

  unfoldable pub pass_a : Bypass
  pass_a =
      for_seats
        (λ s b. if ltb_ℤ (at eff s) (pos 0) then b else for_words (at eff s) (bypass_word s) b)
        (record {
          d = both (λ s. damage_dealt (at eff s) (at eff (other s)));
          bypass = both (λ s. pos 0);
        })

  unfoldable pub rider_word : Two ℤ → Side → ℤ → Rider → Rider
  rider_word d s w r =
      let a = fxamt seats round s w (at d s) (at d (other s)) eff in
      if leb_ℤ a (pos 0) then r else add_rider (fx_ch w) a r

  unfoldable pub pass_b : Two ℤ → Side → Rider
  pass_b d s =
      if ltb_ℤ (at eff s) (pos 0) then no_rider else for_words (at eff s) (rider_word d s) no_rider

  -- `outd[s]` before halving and immunity.
  unfoldable pub raw_out : Bypass → Rider → Side → ℤ
  raw_out b r s =
      if ltb_ℤ (at eff s) (pos 0)
      then pos 0
      else (let hit = if countered s then at b.d s else at b.d s +ℤ r.bonus in
          (if ltb_ℤ hit (at b.bypass s) then at b.bypass s else hit) +ℤ r.refl)

  -- `outd[s]`
  unfoldable pub dealt_by : Bypass → Two Rider → Side → ℤ
  dealt_by b r s =
      if (at r (other s)).immune
      then pos 0
      else if r.at0.halve || r.at1.halve
      then raw_out b (at r s) s /ℤ pos 2
      else raw_out b (at r s) s
