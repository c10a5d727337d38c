-- ===== src/Server/Ends.antt =====
-- The end of a match in the tables of apps/server/main.c.
use deadweight.Prelude.{
  ℕ, ◌==◌, ◌≡◌, refl, ap, ◌∙◌, subst, arith, Bool, true, false, Bool-cases, inl, inr, ◌||◌,
  if◌then◌else◌, some,
}
use deadweight.Match.State.{Side, seat0, seat1, Two, at}
use deadweight.Server.State.{Conn, MatchSlot, Board, write, with_conn, with_match}
use deadweight.Server.Ending.{release, deactivate}
use deadweight.Server.Sound.{Playing, Sound, playing, write_there, with_conn_at}

release-idle : (c : Conn) → playing (release c) ≡ false
unfolding release
release-idle c = elim (Bool-cases (playing c)) [ inl y ↦ rw y refl | inr n ↦ rw n n ]

release_twice : (c : Conn) → release (release c) ≡ release c
unfolding release
release_twice c = elim (Bool-cases (playing c)) [ inl y ↦ rw y refl | inr n ↦ rw n (rw n refl) ]

-- Both connections of a match leave it, and its place is free again.
unfoldable pub ended : ℕ → Board → Board
ended mi b =
    let seats = (b.matches mi).conn in
    with_match mi deactivate (with_conn seats.at1 release (with_conn seats.at0 release b))

is_seat : Two ℕ → ℕ → Bool
is_seat seats ci = ci == seats.at1 || ci == seats.at0

both_released :
    (p q : Bool) (c : Conn)
    → (if p then release (if q then release c else c) else if q then release c else c)
      ≡ (if p || q then release c else c)
both_released true true c = release_twice c
both_released true false c = refl
both_released false true c = refl
both_released false false c = refl

ended_conn :
    (mi : ℕ) (b : Board) (ci : ℕ)
    → (ended mi b).conns ci
      ≡ (if is_seat (b.matches mi).conn ci then release (b.conns ci) else b.conns ci)
unfolding ended with_match is_seat
ended_conn mi b ci =
    let seats = (b.matches mi).conn in
    with_conn_at (with_conn seats.at0 release b) seats.at1 release ci
    ∙ rw (with_conn_at b seats.at0 release ci)
        (both_released (ci == seats.at1) (ci == seats.at0) (b.conns ci))

is_seat-at : (seats : Two ℕ) (ci : ℕ) → is_seat seats ci ≡ true → (t : Side) × (at seats t ≡ ci)
unfolding is_seat
is_seat-at seats ci h = elim (Bool-cases (ci == seats.at1)) [
  | inl y ↦ (seat1, ground (arith, y))
  | inr n ↦ (seat0, ground (arith, n, h))
]

at-is_seat : (seats : Two ℕ) (t : Side) → is_seat seats (at seats t) ≡ true
unfolding is_seat
at-is_seat seats seat0 = ground arith
at-is_seat seats seat1 = ground arith

-- The same after the match has changed.
after_conn :
    (b : Board) (mi : ℕ) (f : MatchSlot → MatchSlot) (ci : ℕ)
    → (f (b.matches mi)).conn ≡ (b.matches mi).conn
    → (ended mi (with_match mi f b)).conns ci
      ≡ (if is_seat (b.matches mi).conn ci then release (b.conns ci) else b.conns ci)
unfolding with_match
after_conn b mi f ci same_conn =
    let here : (with_match mi f b).matches mi ≡ f (b.matches mi) =
      write_there b.matches mi (f (b.matches mi)) mi (ground arith) in
    ended_conn mi (with_match mi f b) ci ∙ rw (here, same_conn) refl

-- The other matches stay.
pub after_match :
    (b : Board) (mi : ℕ) (f : MatchSlot → MatchSlot) (mj : ℕ)
    → (mj == mi) ≡ false
    → (ended mi (with_match mi f b)).matches mj ≡ b.matches mj
unfolding ended with_match with_conn write
after_match b mi f mj n = rw n refl

-- The match itself is over.
pub ended_match :
    (mi : ℕ) (f : MatchSlot → MatchSlot) (b : Board)
    → (ended mi (with_match mi f b)).matches mi ≡ deactivate (f (b.matches mi))
unfolding ended with_match with_conn write
ended_match mi f b = let same : (mi == mi) ≡ true = ground arith in rw same refl

after_here :
    (b : Board) (mi : ℕ) (f : MatchSlot → MatchSlot) (mj : ℕ)
    → ((ended mi (with_match mi f b)).matches mj).active ≡ true
    → (mj == mi) ≡ false
unfolding ended with_match with_conn write deactivate
after_here b mi f mj h = elim (Bool-cases (mj == mi)) [
  | inl y ↦ absurd (cc (rw y at h))
  | inr n ↦ n
]

-- A connection without a seat in a match plays in another one.
elsewhere :
    (b : Board) (mi ci : ℕ) (p : Playing b ci)
    → is_seat (b.matches mi).conn ci ≡ false
    → (p.mi == mi) ≡ false
elsewhere b mi ci p out = elim (Bool-cases (p.mi == mi)) [
  | inl y ↦
      let e : p.mi ≡ mi = ground (arith, y) in
      let own : at (b.matches mi).conn (b.conns ci).seat ≡ ci =
        subst (λ (i : ℕ). at (b.matches i).conn (b.conns ci).seat ≡ ci) e p.own_seat in
      absurd (
        cc (
          ap (λ (i : ℕ). is_seat (b.matches mi).conn i) own,
          at-is_seat (b.matches mi).conn (b.conns ci).seat,
          out,
        ))
  | inr n ↦ n
]

module _ {G : MatchSlot → Type 0} {C : Conn → Type 0} where
  -- The end of a running match, whatever state it is in.
  pub ended-Sound :
      (b : Board) (mi : ℕ) (f : MatchSlot → MatchSlot)
      → ((c : Conn) → C c → C (release c))
      → Sound G C b
      → (b.matches mi).active ≡ true
      → (f (b.matches mi)).conn ≡ (b.matches mi).conn
      → Sound G C (ended mi (with_match mi f b))
  ended-Sound b mi f C-release s run same_conn = record {
    players = λ mj h t.
        let n = after_here b mi f mj h in
        let h' : (b.matches mj).active ≡ true =
          subst (λ (mt : MatchSlot). mt.active ≡ true) (after_match b mi f mj n) h in
        let sits = s.players mj h' t in
        rw (after_match b mi f mj n, after_conn b mi f (at (b.matches mj).conn t) same_conn)
          (elim (Bool-cases (is_seat (b.matches mi).conn (at (b.matches mj).conn t))) [
            | inl y ↦
                let (u, e) = is_seat-at (b.matches mi).conn (at (b.matches mj).conn t) y in
                let place : (b.conns (at (b.matches mj).conn t)).match ≡ some mi =
                  subst (λ (ci : ℕ). (b.conns ci).match ≡ some mi) e (s.players mi run u).place in
                let same : mj ≡ mi = cc (sits.place, place) in absurd (ground (arith, same, n))
            | inr m ↦ rw m sits
          ]);
    places = λ cj h. elim (Bool-cases (is_seat (b.matches mi).conn cj)) [
      | inl y ↦
          let idle : playing ((ended mi (with_match mi f b)).conns cj) ≡ false =
            rw (after_conn b mi f cj same_conn, y) (release-idle (b.conns cj)) in
          absurd (cc (h, idle))
      | inr m ↦
          let same : (ended mi (with_match mi f b)).conns cj ≡ b.conns cj =
            after_conn b mi f cj same_conn ∙ rw m refl in
          let p = s.places cj (subst (λ (c : Conn). playing c ≡ true) same h) in
          let apart = elsewhere b mi cj p m in
          let there = after_match b mi f p.mi apart in
          record {
            mi = p.mi;
            place = rw same p.place;
            running = rw there p.running;
            own_seat = rw (there, same) p.own_seat;
          }
    ];
    games = λ mj h.
        let n = after_here b mi f mj h in
        rw (after_match b mi f mj n)
          (s.games mj (subst (λ (mt : MatchSlot). mt.active ≡ true) (after_match b mi f mj n) h));
    guests = λ cj.
        rw (after_conn b mi f cj same_conn) (elim (Bool-cases (is_seat (b.matches mi).conn cj)) [
          | inl y ↦ rw y (C-release _ (s.guests cj))
          | inr n ↦ rw n (s.guests cj)
        ]);
  }

-- Whoever sat at a match that has ended is released,
pub seat-released :
    (b : Board) (mi : ℕ) (f : MatchSlot → MatchSlot) (t : Side)
    → (f (b.matches mi)).conn ≡ (b.matches mi).conn
    → (ended mi (with_match mi f b)).conns (at (b.matches mi).conn t)
      ≡ release (b.conns (at (b.matches mi).conn t))
seat-released b mi f t same_conn =
    after_conn b mi f (at (b.matches mi).conn t) same_conn
    ∙ rw (at-is_seat (b.matches mi).conn t) refl

-- and no longer plays.
pub seat-idle :
    (b : Board) (mi : ℕ) (f : MatchSlot → MatchSlot) (t : Side)
    → (f (b.matches mi)).conn ≡ (b.matches mi).conn
    → playing ((ended mi (with_match mi f b)).conns (at (b.matches mi).conn t)) ≡ false
seat-idle b mi f t same_conn =
    ap (λ (c : Conn). playing c) (seat-released b mi f t same_conn)
    ∙ release-idle (b.conns (at (b.matches mi).conn t))
