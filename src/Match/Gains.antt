-- ===== src/Match/Gains.antt =====
-- core/match.c: the rest of steps 4 and 5 of `dw_match_resolve`. The C updates fields of both
-- seats in one pass; what it does to the seat itself and to the other one stands apart here.
use deadweight.Prelude.{ℕ, ◌-◌, Bool, not, ◌&&◌, ◌||◌, ◌==◌, if◌then◌else◌, u8, i8}
use deadweight.Prelude.{ℤ, pos, negsuc, ◌+ℤ◌, ◌-ℤ◌, ◌*ℤ◌, ◌/ℤ◌, ltb_ℤ, leb_ℤ, eqb_ℤ}
use deadweight.Cards.Rules.{start_hull, energy_cap}
use deadweight.Match.State.{Side, other, Two, at, for_seats, Seat, clampi, dw_armor_max}
use deadweight.Match.Riders.{Sums, add_hull, Tally, Work, hurt, mend, flag, on_seat}

abbrev pub fx_lifeline : ℕ
fx_lifeline = 4

unfoldable pub is_set : ℤ → Bool
is_set n = not (eqb_ℤ n (pos 0))

-- Whether a seat is healed, and by how much.
unfoldable pub can_heal : Sums → Seat → Bool
can_heal a p = is_set a.heal && ltb_ℤ p.hull start_hull

unfoldable pub heal_of : Sums → Seat → ℤ
heal_of a p = clampi a.heal (pos 0) (start_hull -ℤ p.hull)

unfoldable pub heal_seat : Sums → Seat → Seat
heal_seat a p = if can_heal a p then add_hull p (heal_of a p) else p

unfoldable pub armor_up : ℤ → Seat → Seat
armor_up n p = record p { armor = u8 (clampi (pos p.armor +ℤ n) (pos 0) dw_armor_max) }

-- Energy into armour.
unfoldable pub convert_energy : ℤ → Seat → Seat
convert_energy n p =
    if is_set n
    then (let c = clampi n (pos 0) (pos p.energy) in
        armor_up c (record p { energy = u8 (pos p.energy -ℤ c) }))
    else p

unfoldable pub add_energy : ℤ → Seat → Seat
add_energy n p = record p { energy = u8 (clampi (pos p.energy +ℤ n) (pos 0) (energy_cap (pos 99))) }

unfoldable pub add_next_e : ℤ → Seat → Seat
add_next_e n p = record p { next_e = i8 (clampi (p.next_e +ℤ n) (negsuc 19) (pos 20)) }

unfoldable pub add_vault : ℤ → Seat → Seat
add_vault n p = record p { vault = i8 (clampi (p.vault +ℤ n) (negsuc 99) (pos 99)) }

unfoldable pub clear_debts : Sums → Seat → Seat
clear_debts a p = record p {
  burn_left = if a.cleanse then 0 else p.burn_left;
  vault = if a.debtfree && ltb_ℤ p.vault (pos 0) then pos 0 else p.vault;
}

-- What a seat's own sums do to it.
unfoldable pub gain_own : Sums → Seat → Seat
gain_own a p = clear_debts a (
    add_vault (a.vault -ℤ a.spend) (
      add_next_e (a.nexte -ℤ a.nextl)
        (add_energy a.energy (convert_energy a.convert (armor_up a.armor (heal_seat a p))))))

-- What they do to the opponent.
unfoldable pub drain_other : Sums → Seat → Seat
drain_other a p =
    add_vault (pos 0 -ℤ a.ospend)
      (add_next_e (pos 0 -ℤ a.onextl) (add_energy (pos 0 -ℤ a.oenergy) p))

unfoldable pub gains : Two Sums → Work → Work
gains a = for_seats λ s w.
    on_seat (other s) (drain_other (at a s)) (λ t. t)
      (on_seat s (gain_own (at a s))
        (λ t.
          if can_heal (at a s) (at w.seats s) then mend t (heal_of (at a s) (at w.seats s)) else t)
        w)

-- The mean of the hulls, rounded up where it is positive.
unfoldable pub mean_hull : Two Seat → ℤ
mean_hull seats = (seats.at0.hull +ℤ seats.at1.hull +ℤ pos 1) /ℤ pos 2

unfoldable pub equalize_hulls : Two Sums → Work → Work
equalize_hulls a w =
    let avg = mean_hull w.seats in
    if a.at0.equalize || a.at1.equalize
    then for_seats
        (λ s.
          on_seat s (λ p. record p { hull = i8 (clampi avg (negsuc 99) start_hull) })
            (λ t.
              if ltb_ℤ avg (at w.seats s).hull
              then hurt t ((at w.seats s).hull -ℤ avg)
              else mend t (avg -ℤ (at w.seats s).hull)))
        w
    else w

unfoldable pub rewinds : Sums → Seat → Bool
rewinds a p = a.chrono && ltb_ℤ p.hull p.hull_prev

unfoldable pub rewind_hulls : Two Sums → Work → Work
rewind_hulls a = for_seats λ s w.
    let before : Seat = at w.seats s in
    on_seat s (λ p. if rewinds (at a s) p then record p { hull = p.hull_prev } else p)
      (λ t. if rewinds (at a s) before then mend t (before.hull_prev -ℤ before.hull) else t) w

-- A seat that a lifeline holds above 0.
unfoldable pub held_up : Bool → Seat → Bool
held_up life p = life && leb_ℤ p.hull (pos 0)

unfoldable pub lifeline_seat : Bool → Seat → Seat
lifeline_seat life p = if held_up life p then record p { hull = pos 1 } else p

unfoldable pub lifelines : (Side → Bool) → Work → Work
lifelines life = for_seats λ s w.
    on_seat s (lifeline_seat (life s))
      (λ t. if held_up (life s) (at w.seats s) then flag t fx_lifeline else t) w

-- Step 5. The amount that regeneration gives back.
unfoldable pub regen_of : Seat → ℤ
regen_of p =
    clampi (pos p.regen_amt) (pos 0)
      (if ltb_ℤ (pos 0) (start_hull -ℤ p.hull) then start_hull -ℤ p.hull else pos 0)

unfoldable pub regen_seat : Seat → Seat
regen_seat p =
    if p.regen_left == 0
    then p
    else record (add_hull p (regen_of p)) { regen_left = p.regen_left - 1 }

unfoldable pub burn_seat : Seat → Seat
burn_seat p =
    if p.burn_left == 0
    then p
    else record (add_hull p (pos 0 -ℤ pos p.burn_amt)) { burn_left = p.burn_left - 1 }

unfoldable pub tick_seat : Bool → Seat → Seat
tick_seat life p =
    let q = burn_seat (regen_seat p) in lifeline_seat life (record q { hidden = q.hidden - 1 })

unfoldable pub tick_tally : Bool → Seat → Tally → Tally
tick_tally life p t =
    let healed = if p.regen_left == 0 then t else mend t (regen_of p) in
    let burnt = if p.burn_left == 0 then healed else hurt healed (pos p.burn_amt) in
    if held_up life (burn_seat (regen_seat p)) then flag burnt fx_lifeline else burnt

unfoldable pub tick : (Side → Bool) → Work → Work
tick life = for_seats λ s w. on_seat s (tick_seat (life s)) (tick_tally (life s) (at w.seats s)) w

-- The statuses applied this round start ticking in the next one.
unfoldable pub burn_status : Sums → Seat → Seat
burn_status a p =
    if is_set a.burn
    then record p {
      burn_amt = u8 (a.burn /ℤ pos 16);
      burn_left = u8 (a.burn -ℤ a.burn /ℤ pos 16 *ℤ pos 16);
    }
    else p

unfoldable pub own_status : Sums → Seat → Seat
own_status a p =
    let q =
      if is_set a.regen
      then record p {
        regen_amt = u8 (a.regen /ℤ pos 16);
        regen_left = u8 (a.regen -ℤ a.regen /ℤ pos 16 *ℤ pos 16);
      }
      else p in
    if is_set a.blind then record q { hidden = u8 a.blind } else q

unfoldable pub statuses : Two Sums → Work → Work
statuses a = for_seats λ s w.
    on_seat s (own_status (at a s)) (λ t. t) (on_seat (other s) (burn_status (at a s)) (λ t. t) w)
