-- ===== src/Match/Resolve.antt =====
-- core/match.c: `dw_match_resolve`, which composes the steps, its end conditions, and its outcome.
use deadweight.Prelude.{ℕ, Bool, true, ◌&&◌, ◌||◌, if◌then◌else◌, u8, i8, bit_or}
use deadweight.Prelude.{ℤ, pos, leb_ℤ, eqb_ℤ}
use deadweight.Cards.Rules.{max_rounds, round_winner, match_decided, bankrupt}
use deadweight.Match.State.{
  Side, Two, at, both, Seat, Match, Outcome, clampi, res_loss, res_win, res_draw, end_hull,
  end_rounds, end_bankrupt,
}
use deadweight.Match.Exchange.{
  declared, original, pay, cancelled, copies, effective, Rider, pass_a, pass_b, dealt_by,
}
use deadweight.Match.Riders.{Sums, Work, collect, attack, direct_damage}
use deadweight.Match.Gains.{gains, equalize_hulls, rewind_hulls, lifelines, tick, statuses}
use deadweight.Match.Hands.{refill, redraws, swap_hands, hand_attacks}

abbrev fx_cancelled : ℕ
fx_cancelled = 1

abbrev fx_immune : ℕ
fx_immune = 2

abbrev fx_copied : ℕ
fx_copied = 128

abbrev bit_if : Bool → ℕ → ℕ
bit_if b n = if b then n else 0

-- What steps 1 and 2 decide before anything but costs has changed.
pub record Plan : Type 0 where
  pub decl : Two ℤ
  pub eff : Two ℤ
  pub canc : Two Bool
  pub copied : Two Bool
  pub riders : Two Rider
  pub outd : Two ℤ

unfoldable pub plan : Two Seat → ℕ → Plan
plan seats round =
    let paid : Two Seat = both (λ s. pay (at seats s)) in
    let orig : Two ℤ = both (λ s. original (at seats s)) in
    let eff : Two ℤ = both (effective paid round orig) in
    let b = pass_a paid round eff in
    let riders : Two Rider = both (pass_b paid round eff b.d) in
    record {
      decl = both (λ s. declared (at seats s));
      eff = eff;
      canc = both (cancelled paid round orig);
      copied = both (copies paid round orig);
      riders = riders;
      outd = both (dealt_by paid round eff b riders);
    }

unfoldable pub first_flags : Plan → Side → ℕ
first_flags pl s =
    bit_or (bit_or (bit_if (at pl.canc s) fx_cancelled) (bit_if (at pl.copied s) fx_copied))
      (bit_if (at pl.riders s).immune fx_immune)

unfoldable pub start_work : Two Seat → Plan → Work
start_work seats pl = record {
  seats = both (λ s. pay (at seats s));
  tally = both (λ s. record { hdmg = pos 0; healed = pos 0; flags = first_flags pl s });
}

-- Steps 3 to 5, on the meters.
unfoldable pub meters : Plan → Two Sums → Work → Work
meters pl a w = statuses a (
    tick (λ s. (at pl.riders s).life)
      (lifelines (λ s. (at pl.riders s).life)
        (rewind_hulls a (equalize_hulls a (gains a (direct_damage a w))))))

-- Step 6, on the cards.
unfoldable pub cards : Plan → Two Sums → Work → Work
cards pl a w = hand_attacks a (
    swap_hands a
      (redraws a (record w { seats = both (λ s. refill (at pl.decl s) (at w.seats s)) })))

unfoldable pub work_of : Two Seat → ℕ → Work
work_of seats round =
    let pl = plan seats round in
    let hit = attack pl.outd (λ s. (at pl.riders s).pierce) (start_work seats pl) in
    let a : Two Sums = both (collect hit.seats round pl.eff pl.outd) in cards pl a (meters pl a hit)

-- `lose[s]`
unfoldable pub loses : Seat → Bool
loses p = leb_ℤ p.hull (pos 0) || bankrupt p.vault

abbrev set_results : Two Seat → ℕ → ℕ → Two Seat
set_results seats r0 r1 = record {
  at0 = record (seats.at0) { result = r0 };
  at1 = record (seats.at1) { result = r1 };
}

-- Step 7.
unfoldable pub finish : Match → Match
finish m =
    let p0 = m.seats.at0 in
    let p1 = m.seats.at1 in
    if match_decided p0.hull p1.hull || bankrupt p0.vault || bankrupt p1.vault
    then record m {
      done = true;
      reason = if leb_ℤ p0.hull (pos 0) || leb_ℤ p1.hull (pos 0) then end_hull else end_bankrupt;
      seats =
          if loses p0 && loses p1
          then set_results m.seats res_draw res_draw
          else set_results m.seats (if loses p0 then res_loss else res_win)
              (if loses p1 then res_loss else res_win);
    }
    else if leb_ℤ max_rounds (pos m.round)
    then (let w = round_winner p0.hull p1.hull p0.vault p1.vault in
        record m {
          done = true;
          reason = end_rounds;
          seats =
              set_results m.seats
                (if eqb_ℤ w (pos 0)
                  then res_win
                  else if eqb_ℤ w (pos 1)
                  then res_loss
                  else res_draw)
                (if eqb_ℤ w (pos 1)
                  then res_win
                  else if eqb_ℤ w (pos 0)
                  then res_loss
                  else res_draw);
        })
    else m

unfoldable pub match_resolve : Match → Match
match_resolve m = finish (record m { seats = (work_of m.seats m.round).seats })

-- What `dw_match_resolve` stores through `out`.
unfoldable pub outcome : Match → Two Outcome
outcome m =
    let pl = plan m.seats m.round in
    let w = work_of m.seats m.round in
    both λ s. record {
      card = i8 (at pl.decl s);
      eff = i8 (at pl.eff s);
      dmg_to = u8 (clampi (at w.tally s).hdmg (pos 0) (pos 255));
      heal = u8 (clampi (at w.tally s).healed (pos 0) (pos 255));
      roll = (at w.seats s).roll;
      flags = u8 (pos (at w.tally s).flags);
    }
