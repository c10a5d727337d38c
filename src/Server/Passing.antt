-- ===== src/Server/Passing.antt =====
-- The pass of both seats when the time of a round of apps/server/main.c is up.
use deadweight.Prelude.{
  ◌≤◌, ◌≡◌, refl, sym, ap, ◌∙◌, subst, arith, true, false, Bool-cases, inl, inr, if◌then◌else◌,
  Bool, ltb,
}
use deadweight.Prelude.{negsuc, i8}
use deadweight.Match.State.{Side, seat0, seat1, at, put, for_seats, Seat}
use deadweight.Match.State as Engine
use deadweight.Match.Setup.{match_lock, slot_verdict}
use deadweight.Match.Reach.Invariant.{Reach-IsPlayable}
use deadweight.Server.State.{MatchSlot}
use deadweight.Server.Sessions.{lock_in}
use deadweight.Server.Ticking.{pass_seat, pass_seats}
use deadweight.Server.Fair.{IsGame}

-- A seat that has not locked passes; one that has keeps its choice.
abbrev pub passed : Seat → Seat
passed p = if p.locked then p else record p { locked = true; lock_slot = negsuc 0 }

abbrev pub both_passed : Engine.Match → Engine.Match
both_passed m = record m { seats = record { at0 = passed m.seats.at0; at1 = passed m.seats.at1 } }

-- What is left of a choice once its test is known.
pub take_then {ℓ} : {A : Type ℓ} (p : Bool) (x y : A) → p ≡ true → (if p then x else y) ≡ x
take_then true x y h = refl
take_then false x y h = absurd (cc h)

pub take_else {ℓ} : {A : Type ℓ} (p : Bool) (x y : A) → p ≡ false → (if p then x else y) ≡ y
take_else true x y h = absurd (cc h)
take_else false x y h = refl

put_same : (m : Engine.Match) (t : Side) → m ≡ record m { seats = put m.seats t (at m.seats t) }
put_same m seat0 = refl
put_same m seat1 = refl

-- An open round accepts the pass of a seat that has not locked.
lock-pass :
    (m : Engine.Match) (t : Side)
    → m.done ≡ false
    → 1 ≤ m.round
    → (at m.seats t).locked ≡ false
    → (match_lock m t (negsuc 0)).0 ≡ record m {
      seats = put m.seats t (record (at m.seats t) { locked = true; lock_slot = negsuc 0 });
    }
unfolding match_lock slot_verdict i8
lock-pass m t open_round first free_seat =
    let begun : ltb m.round 1 ≡ false = ground (arith, first) in
    rw (open_round, begun, free_seat) refl

pass_seat-passed :
    (t : Side) (mt : MatchSlot)
    → mt.m.done ≡ false
    → 1 ≤ mt.m.round
    → (pass_seat t mt).m ≡ record mt.m { seats = put mt.m.seats t (passed (at mt.m.seats t)) }
unfolding pass_seat lock_in
pass_seat-passed t mt open_round first =
    let p = at mt.m.seats t in
    let seated : Seat → Engine.Match = λ p. record mt.m { seats = put mt.m.seats t p } in
    elim (Bool-cases p.locked) [
      | inl y ↦
          ap (λ (x : MatchSlot). x.m) (take_then p.locked mt (lock_in t (negsuc 0) mt) y)
          ∙ put_same mt.m t
          ∙ sym (ap seated (take_then p.locked p _ y))
      | inr n ↦
          ap (λ (x : MatchSlot). x.m) (take_else p.locked mt (lock_in t (negsuc 0) mt) n)
          ∙ lock-pass mt.m t open_round first n
          ∙ sym (ap seated (take_else p.locked p _ n))
    ]

pub pass_seats-passed : (mt : MatchSlot) → IsGame mt → (pass_seats mt).m ≡ both_passed mt.m
unfolding pass_seats for_seats
pass_seats-passed mt g =
    let p = Reach-IsPlayable g.reached in
    let first = pass_seat-passed seat0 mt p.open_round p.first in
    let kept : (pass_seat seat0 mt).m.done ≡ false =
      ap (λ (m : Engine.Match). m.done) first ∙ p.open_round in
    let begun : 1 ≤ (pass_seat seat0 mt).m.round =
      subst (λ (m : Engine.Match). 1 ≤ m.round) (sym first) p.first in
    pass_seat-passed seat1 (pass_seat seat0 mt) kept begun
    ∙ ap (λ (m : Engine.Match). record m { seats = put m.seats seat1 (passed (at m.seats seat1)) })
        first
