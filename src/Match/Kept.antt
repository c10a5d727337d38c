-- ===== src/Match/Kept.antt =====
-- Which properties of the seats the steps of `dw_match_resolve` on the meters keep: those that the
-- updates of one seat keep. `Match.Bounds` and `Match.Cards` give such properties.
use deadweight.Prelude.{Bool, inl, inr, if◌then◌else◌, Bool-cases}
use deadweight.Prelude.{ℤ, pos, negsuc, i8}
use deadweight.Prelude.{eqb_ℤ, ◌||◌}
use deadweight.Cards.Rules.{start_hull}
use deadweight.Match.State.{Side, seat0, seat1, other, Two, at, put, for_seats, Seat, clampi}
use deadweight.Match.Riders.{
  Sums, Tally, Work, on_seat, add_hull, struck, attack, hurt_seat, direct_damage,
}
use deadweight.Match.Gains.{
  gain_own, drain_other, gains, equalize_hulls, rewinds, rewind_hulls, lifeline_seat, lifelines,
  tick_seat, tick, own_status, burn_status, statuses,
}
use deadweight.Match.Resolve.{Plan, meters}

abbrev pub Each : (Side → Seat → Type 0) → Two Seat → Type 0
Each P t = (s : Side) → P s (at t s)

pub record Kept (P : Side → Seat → Type 0) : Type 0 where
  pub hull : (s : Side) (p : Seat) (n : ℤ) → P s p → P s (add_hull p n)
  pub struck_by : (s : Side) (p : Seat) (n : ℤ) (b : Bool) → P s p → P s (struck p n b)
  pub own : (s : Side) (p : Seat) (a : Sums) → P s p → P s (gain_own a p)
  pub drained : (s : Side) (p : Seat) (a : Sums) → P s p → P s (drain_other a p)
  pub levelled :
      (s : Side) (p : Seat) (n : ℤ)
      → P s p
      → P s (record p { hull = i8 (clampi n (negsuc 99) start_hull) })
  pub rewound : (s : Side) (p : Seat) → P s p → P s (record p { hull = p.hull_prev })
  pub lifted : (s : Side) (p : Seat) (b : Bool) → P s p → P s (lifeline_seat b p)
  pub ticked : (s : Side) (p : Seat) (b : Bool) → P s p → P s (tick_seat b p)
  pub burnt : (s : Side) (p : Seat) (a : Sums) → P s p → P s (burn_status a p)
  pub marked : (s : Side) (p : Seat) (a : Sums) → P s p → P s (own_status a p)

module _ (P : Side → Seat → Type 0) where
  pub put-Each : (t : Two Seat) (s : Side) (p : Seat) → P s p → Each P t → Each P (put t s p)
  put-Each t seat0 p h e seat0 = h
  put-Each t seat0 p h e seat1 = e seat1
  put-Each t seat1 p h e seat0 = e seat0
  put-Each t seat1 p h e seat1 = h

  pub on_seat-Each :
      (s : Side) (f : Seat → Seat) (g : Tally → Tally) (w : Work)
      → ((p : Seat) → P s p → P s (f p))
      → Each P w.seats
      → Each P (on_seat s f g w).seats
  unfolding on_seat
  on_seat-Each s f g w keep e = put-Each w.seats s (f (at w.seats s)) (keep _ (e s)) e

  pub for_seats-Each :
      (body : Side → Work → Work) (w : Work)
      → ((s : Side) (v : Work) → Each P v.seats → Each P (body s v).seats)
      → Each P w.seats
      → Each P (for_seats body w).seats
  unfolding for_seats
  for_seats-Each body w keep e = keep seat1 (body seat0 w) (keep seat0 w e)

  module _ (k : Kept P) where
    pub attack-Each :
        (outd : Two ℤ) (pierce : Side → Bool) (w : Work)
        → Each P w.seats
        → Each P (attack outd pierce w).seats
    unfolding attack
    attack-Each outd pierce w e =
        for_seats-Each _ w (λ s v h. on_seat-Each s _ _ v (λ p q. k.struck_by s p _ _ q) h) e

    hurt_seat-Each : (s : Side) (n : ℤ) (w : Work) → Each P w.seats → Each P (hurt_seat s n w).seats
    unfolding hurt_seat
    hurt_seat-Each s n w e = elim (Bool-cases (eqb_ℤ n (pos 0))) [
      | inl z ↦ rw z e
      | inr z ↦ rw z (on_seat-Each s _ _ w (λ p q. k.hull s p _ q) e)
    ]

    direct_damage-Each :
        (a : Two Sums) (w : Work) → Each P w.seats → Each P (direct_damage a w).seats
    unfolding direct_damage
    direct_damage-Each a w e =
        for_seats-Each _ w
          (λ s v h.
            hurt_seat-Each (other s) (at a s).truedmg _ (hurt_seat-Each s (at a s).selfdmg v h))
          e

    gains-Each : (a : Two Sums) (w : Work) → Each P w.seats → Each P (gains a w).seats
    unfolding gains
    gains-Each a w e =
        for_seats-Each _ w
          (λ s v h.
            on_seat-Each (other s) _ _ _ (λ p q. k.drained (other s) p _ q)
              (on_seat-Each s _ _ v (λ p q. k.own s p _ q) h))
          e

    equalize-Each : (a : Two Sums) (w : Work) → Each P w.seats → Each P (equalize_hulls a w).seats
    unfolding equalize_hulls
    equalize-Each a w e = elim (Bool-cases (a.at0.equalize || a.at1.equalize)) [
      | inl z ↦
          rw z (for_seats-Each _ w (λ s v h. on_seat-Each s _ _ v (λ p q. k.levelled s p _ q) h) e)
      | inr z ↦ rw z e
    ]

    rewind_one :
        (s : Side) (a : Sums) (p : Seat)
        → P s p
        → P s (if rewinds a p then record p { hull = p.hull_prev } else p)
    rewind_one s a p h = elim (Bool-cases (rewinds a p)) [
      | inl z ↦ rw z (k.rewound s p h)
      | inr z ↦ rw z h
    ]

    rewind-Each : (a : Two Sums) (w : Work) → Each P w.seats → Each P (rewind_hulls a w).seats
    unfolding rewind_hulls
    rewind-Each a w e =
        for_seats-Each _ w (λ s v h. on_seat-Each s _ _ v (λ p q. rewind_one s _ p q) h) e

    lifelines-Each :
        (life : Side → Bool) (w : Work) → Each P w.seats → Each P (lifelines life w).seats
    unfolding lifelines
    lifelines-Each life w e =
        for_seats-Each _ w (λ s v h. on_seat-Each s _ _ v (λ p q. k.lifted s p _ q) h) e

    tick-Each : (life : Side → Bool) (w : Work) → Each P w.seats → Each P (tick life w).seats
    unfolding tick
    tick-Each life w e =
        for_seats-Each _ w (λ s v h. on_seat-Each s _ _ v (λ p q. k.ticked s p _ q) h) e

    statuses-Each : (a : Two Sums) (w : Work) → Each P w.seats → Each P (statuses a w).seats
    unfolding statuses
    statuses-Each a w e =
        for_seats-Each _ w
          (λ s v h.
            on_seat-Each s _ _ _ (λ p q. k.marked s p _ q)
              (on_seat-Each (other s) _ _ v (λ p q. k.burnt (other s) p _ q) h))
          e

    pub meters-Each :
        (pl : Plan) (a : Two Sums) (w : Work) → Each P w.seats → Each P (meters pl a w).seats
    unfolding meters
    meters-Each pl a w e = statuses-Each a _ (
        tick-Each _ _ (
          lifelines-Each _ _
            (rewind-Each a _ (equalize-Each a _ (gains-Each a _ (direct_damage-Each a w e))))))
