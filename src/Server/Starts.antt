-- ===== src/Server/Starts.antt =====
-- The start of a match in the tables of apps/server/main.c.
use deadweight.Prelude.{
  ℕ, ◌==◌, ◌≡◌, ◌≢◌, refl, ap, subst, arith, true, false, Bool-cases, inl, inr,
}
use deadweight.Match.State.{Side, seat0, seat1, at}
use deadweight.Server.State.{Conn, MatchSlot, Board}
use deadweight.Server.Sound.{Sits, Playing, Sound, playing}

-- What the start of a match does to the tables.
pub record Enters (b after : Board) (mi x y : ℕ) : Type 0 where
  pub seats : (after.matches mi).conn ≡ record { at0 = x; at1 = y }
  pub runs : (after.matches mi).active ≡ true
  pub rest : (mj : ℕ) → (mj == mi) ≡ false → after.matches mj ≡ b.matches mj
  pub first : Sits (after.conns x) mi seat0
  pub second : Sits (after.conns y) mi seat1
  pub others : (ci : ℕ) → (ci == x) ≡ false → (ci == y) ≡ false → after.conns ci ≡ b.conns ci

seats-Sits :
    (b after : Board) (mi x y : ℕ)
    → Enters b after mi x y
    → (t : Side) → Sits (after.conns (at (after.matches mi).conn t)) mi t
seats-Sits b after mi x y e seat0 = rw e.seats e.first
seats-Sits b after mi x y e seat1 = rw e.seats e.second

first-Playing : (b after : Board) (mi x y : ℕ) → Enters b after mi x y → Playing after x
first-Playing b after mi x y e = record {
  mi = mi;
  place = e.first.place;
  running = e.runs;
  own_seat = rw (e.seats, e.first.side) refl;
}

second-Playing : (b after : Board) (mi x y : ℕ) → Enters b after mi x y → Playing after y
second-Playing b after mi x y e = record {
  mi = mi;
  place = e.second.place;
  running = e.runs;
  own_seat = rw (e.seats, e.second.side) refl;
}

not_playing :
    (b : Board) (ci x : ℕ)
    → playing (b.conns ci) ≡ true
    → playing (b.conns x) ≡ false
    → (ci == x) ≡ false
not_playing b ci x h out = elim (Bool-cases (ci == x)) [
  | inl w ↦
      let here : ci ≡ x = ground (arith, w) in
      absurd (cc (h, ap (λ (i : ℕ). playing (b.conns i)) here, out))
  | inr n ↦ n
]

running_not :
    (b : Board) (mj mi : ℕ)
    → (b.matches mj).active ≡ true
    → (b.matches mi).active ≡ false
    → (mj == mi) ≡ false
running_not b mj mi h idle = elim (Bool-cases (mj == mi)) [
  | inl w ↦
      let here : mj ≡ mi = ground (arith, w) in
      absurd (cc (h, ap (λ (i : ℕ). (b.matches i).active) here, idle))
  | inr n ↦ n
]

module _ {G : MatchSlot → Type 0} {C : Conn → Type 0} where
  -- A new match of two connections that do not play, in a place that is free.
  pub started-Sound :
      (b after : Board) (mi x y : ℕ)
      → Sound G C b
      → (b.matches mi).active ≡ false
      → playing (b.conns x) ≡ false
      → playing (b.conns y) ≡ false
      → x ≢ y
      → Enters b after mi x y
      → G (after.matches mi)
      → ((ci : ℕ) → C (after.conns ci))
      → Sound G C after
  started-Sound b after mi x y s idle out_x out_y apart e game guest = record {
    players = λ mj h t. elim (Bool-cases (mj == mi)) [
      | inl w ↦ let here : mj ≡ mi = ground (arith, w) in rw here (seats-Sits b after mi x y e t)
      | inr n ↦
          let h' : (b.matches mj).active ≡ true =
            subst (λ (mt : MatchSlot). mt.active ≡ true) (e.rest mj n) h in
          let sits = s.players mj h' t in
          let ci : ℕ = at (b.matches mj).conn t in
          rw
            (
              e.rest mj n,
              e.others ci (not_playing b ci x sits.in_play out_x)
                  (not_playing b ci y sits.in_play out_y),
            )
            sits
    ];
    places = λ cj h. elim (Bool-cases (cj == x)) [
      | inl w ↦ let here : cj ≡ x = ground (arith, w) in rw here (first-Playing b after mi x y e)
      | inr n ↦ elim (Bool-cases (cj == y)) [
        | inl w ↦ let here : cj ≡ y = ground (arith, w) in rw here (second-Playing b after mi x y e)
        | inr m ↦
            let same = e.others cj n m in
            let p = s.places cj (subst (λ (c : Conn). playing c ≡ true) same h) in
            let there = e.rest p.mi (running_not b p.mi mi p.running idle) in
            record {
              mi = p.mi;
              place = rw same p.place;
              running = rw there p.running;
              own_seat = rw (there, same) p.own_seat;
            }
      ]
    ];
    games = λ mj h. elim (Bool-cases (mj == mi)) [
      | inl w ↦ let here : mj ≡ mi = ground (arith, w) in rw here game
      | inr n ↦
          rw (e.rest mj n)
            (s.games mj (subst (λ (mt : MatchSlot). mt.active ≡ true) (e.rest mj n) h))
    ];
    guests = guest;
  }
