-- ===== src/Match/Riders.antt =====
-- core/match.c: the second half of the exchange in `dw_match_resolve`, steps 3 to 5: armour, the
-- riders of channel 20 and above, burn and regeneration.
use deadweight.Prelude.{ℕ, Bool, true, false, ◌&&◌, if◌then◌else◌, u8, i8, bit_or}
use deadweight.Prelude.{ℤ, pos, negsuc, ◌+ℤ◌, ◌-ℤ◌, ltb_ℤ, leb_ℤ, eqb_ℤ}
use deadweight.Cards.Rules.{start_hull}
use deadweight.Cards.Effects.{fx_ch}
use deadweight.Match.State.{Side, other, Two, at, put, for_seats, Seat, clampi}
use deadweight.Match.Exchange.{fxamt, for_words}

-- `Acc`: what a seat's riders add up to. Fields that the C only tests are `Bool`.
pub record Sums : Type 0 where
  pub heal : ℤ
  pub selfdmg : ℤ
  pub truedmg : ℤ
  pub energy : ℤ
  pub oenergy : ℤ
  pub nexte : ℤ
  pub nextl : ℤ
  pub onextl : ℤ
  pub armor : ℤ
  pub vault : ℤ
  pub spend : ℤ
  pub ospend : ℤ
  pub burn : ℤ
  pub regen : ℤ
  pub lock : ℤ
  pub blind : ℤ
  pub swap : Bool
  pub redraw : Bool
  pub discard : ℤ
  pub equalize : Bool
  pub chrono : Bool
  pub convert : ℤ
  pub cleanse : Bool
  pub debtfree : Bool

abbrev pub no_sums : Sums
no_sums = record {
  heal = pos 0;
  selfdmg = pos 0;
  truedmg = pos 0;
  energy = pos 0;
  oenergy = pos 0;
  nexte = pos 0;
  nextl = pos 0;
  onextl = pos 0;
  armor = pos 0;
  vault = pos 0;
  spend = pos 0;
  ospend = pos 0;
  burn = pos 0;
  regen = pos 0;
  lock = pos 0;
  blind = pos 0;
  swap = false;
  redraw = false;
  discard = pos 0;
  equalize = false;
  chrono = false;
  convert = pos 0;
  cleanse = false;
  debtfree = false;
}

-- The channels 32 to 43 of the `switch`.
add_high : ℤ → ℤ → Sums → Sums
add_high ch amt a =
    if eqb_ℤ ch (pos 32)
    then record a { burn = amt }
    else if eqb_ℤ ch (pos 33)
    then record a { regen = amt }
    else if eqb_ℤ ch (pos 34)
    then record a { lock = a.lock +ℤ amt }
    else if eqb_ℤ ch (pos 35)
    then record a { blind = if ltb_ℤ a.blind amt then amt else a.blind }
    else if eqb_ℤ ch (pos 36)
    then record a { swap = true }
    else if eqb_ℤ ch (pos 37)
    then record a { redraw = true }
    else if eqb_ℤ ch (pos 38)
    then record a { discard = a.discard +ℤ amt }
    else if eqb_ℤ ch (pos 39)
    then record a { equalize = true }
    else if eqb_ℤ ch (pos 40)
    then record a { chrono = true }
    else if eqb_ℤ ch (pos 41)
    then record a { convert = a.convert +ℤ amt }
    else if eqb_ℤ ch (pos 42)
    then record a { cleanse = true }
    else if eqb_ℤ ch (pos 43)
    then record a { debtfree = true }
    else a

-- The `switch` over the channel, with an amount above 0.
unfoldable pub add_sum : ℤ → ℤ → Sums → Sums
unfolding add_high
add_sum ch amt a =
    if eqb_ℤ ch (pos 20)
    then record a { heal = a.heal +ℤ amt }
    else if eqb_ℤ ch (pos 21)
    then record a { selfdmg = a.selfdmg +ℤ amt }
    else if eqb_ℤ ch (pos 22)
    then record a { truedmg = a.truedmg +ℤ amt }
    else if eqb_ℤ ch (pos 23)
    then record a { energy = a.energy +ℤ amt }
    else if eqb_ℤ ch (pos 24)
    then record a { oenergy = a.oenergy +ℤ amt }
    else if eqb_ℤ ch (pos 25)
    then record a { nexte = a.nexte +ℤ amt }
    else if eqb_ℤ ch (pos 26)
    then record a { nextl = a.nextl +ℤ amt }
    else if eqb_ℤ ch (pos 27)
    then record a { onextl = a.onextl +ℤ amt }
    else if eqb_ℤ ch (pos 28)
    then record a { armor = a.armor +ℤ amt }
    else if eqb_ℤ ch (pos 29)
    then record a { vault = a.vault +ℤ amt }
    else if eqb_ℤ ch (pos 30)
    then record a { spend = a.spend +ℤ amt }
    else if eqb_ℤ ch (pos 31)
    then record a { ospend = a.ospend +ℤ amt }
    else add_high ch amt a

-- One word of step 4, read against the seats after the attack.
unfoldable pub sum_word : Two Seat → ℕ → Two ℤ → Two ℤ → Side → ℤ → Sums → Sums
sum_word seats round eff outd s w a =
    if ltb_ℤ (fx_ch w) (pos 20)
    then a
    else (let amt = fxamt seats round s w (at outd s) (at outd (other s)) eff in
        if leb_ℤ amt (pos 0) then a else add_sum (fx_ch w) amt a)

unfoldable pub collect : Two Seat → ℕ → Two ℤ → Two ℤ → Side → Sums
collect seats round eff outd s =
    if ltb_ℤ (at eff s) (pos 0)
    then no_sums
    else for_words (at eff s) (sum_word seats round eff outd s) no_sums

unfoldable pub add_hull : Seat → ℤ → Seat
add_hull p delta = record p { hull = i8 (clampi (p.hull +ℤ delta) (negsuc 99) start_hull) }

-- The locals of the C function that follow a seat: `hdmg[s]`, `healed[s]` and `flags[s]`.
pub record Tally : Type 0 where
  pub hdmg : ℤ
  pub healed : ℤ
  pub flags : ℕ

pub record Work : Type 0 where
  pub seats : Two Seat
  pub tally : Two Tally

abbrev pub hurt : Tally → ℤ → Tally
hurt t n = record t { hdmg = t.hdmg +ℤ n }

abbrev pub mend : Tally → ℤ → Tally
mend t n = record t { healed = t.healed +ℤ n }

abbrev pub flag : Tally → ℕ → Tally
flag t b = record t { flags = bit_or t.flags b }

-- Change seat `s` and its tally.
unfoldable pub on_seat : Side → (Seat → Seat) → (Tally → Tally) → Work → Work
on_seat s f g w = record {
  seats = put w.seats s (f (at w.seats s));
  tally = put w.tally s (g (at w.tally s));
}

-- Step 3: armour soaks first unless the attacker pierces.
unfoldable pub soak_of : Seat → ℤ → Bool → ℤ
soak_of p hit pierced =
    if ltb_ℤ (pos 0) hit && (if pierced then false else true)
    then if ltb_ℤ (pos p.armor) hit then pos p.armor else hit
    else pos 0

unfoldable pub struck : Seat → ℤ → Bool → Seat
struck p hit pierced =
    add_hull (record p { armor = u8 (pos p.armor -ℤ soak_of p hit pierced) })
      (pos 0 -ℤ (hit -ℤ soak_of p hit pierced))

unfoldable pub attack : Two ℤ → (Side → Bool) → Work → Work
attack outd pierce = for_seats λ s w.
    let hit = at outd (other s) in
    let pierced = pierce (other s) in
    on_seat s (λ p. struck p hit pierced) (λ t. hurt t (hit -ℤ soak_of (at w.seats s) hit pierced))
      w

unfoldable pub hurt_seat : Side → ℤ → Work → Work
hurt_seat s n w =
    if eqb_ℤ n (pos 0) then w else on_seat s (λ p. add_hull p (pos 0 -ℤ n)) (λ t. hurt t n) w

-- Damage to oneself and true damage.
unfoldable pub direct_damage : Two Sums → Work → Work
direct_damage a =
    for_seats λ s w. hurt_seat (other s) (at a s).truedmg (hurt_seat s (at a s).selfdmg w)
