-- ===== src/Server/Sound.antt =====
-- The tables of apps/server/main.c: who sits where, and what a change of one entry keeps.
use deadweight.Prelude.{
  ℕ, ◌==◌, ◌≡◌, refl, sym, ap, ◌∙◌, subst, arith, Bool, true, false, Bool-cases, inl, inr,
  if◌then◌else◌, some,
}
use deadweight.Match.State.{Side, at}
use deadweight.Server.State.{
  Conn, in_match, in_state, MatchSlot, Board, write, with_conn, with_match,
}

abbrev pub playing : Conn → Bool
playing c = in_state c.state in_match

-- A connection that plays at a seat of a match.
pub record Sits (c : Conn) (mi : ℕ) (t : Side) : Type 0 where
  pub in_play : playing c ≡ true
  pub place : c.match ≡ some mi
  pub side : c.seat ≡ t

-- The match that a connection plays in.
pub record Playing (b : Board) (ci : ℕ) : Type 0 where
  pub mi : ℕ
  pub place : (b.conns ci).match ≡ some mi
  pub running : (b.matches mi).active ≡ true
  pub own_seat : at (b.matches mi).conn (b.conns ci).seat ≡ ci

-- The two tables agree on who plays where; every running match satisfies `G`, every connection `C`.
pub record Sound (G : MatchSlot → Type 0) (C : Conn → Type 0) (b : Board) : Type 0 where
  pub players :
      (mi : ℕ)
      → (b.matches mi).active ≡ true
      → (t : Side) → Sits (b.conns (at (b.matches mi).conn t)) mi t
  pub places : (ci : ℕ) → playing (b.conns ci) ≡ true → Playing b ci
  pub games : (mi : ℕ) → (b.matches mi).active ≡ true → G (b.matches mi)
  pub guests : (ci : ℕ) → C (b.conns ci)

pub write_there {ℓ} :
    {A : Type ℓ} (f : ℕ → A) (i : ℕ) (a : A) (j : ℕ) → (j == i) ≡ true → write f i a j ≡ a
unfolding write
write_there f i a j e = rw e refl

pub write_elsewhere {ℓ} :
    {A : Type ℓ} (f : ℕ → A) (i : ℕ) (a : A) (j : ℕ) → (j == i) ≡ false → write f i a j ≡ f j
unfolding write
write_elsewhere f i a j e = rw e refl

pub with_conn_at :
    (b : Board) (c : ℕ) (f : Conn → Conn) (ci : ℕ)
    → (with_conn c f b).conns ci ≡ (if ci == c then f (b.conns ci) else b.conns ci)
unfolding with_conn write
with_conn_at b c f ci = elim (Bool-cases (ci == c)) [
  | inl y ↦ let e : ci ≡ c = ground (arith, y) in rw y (ap (λ (i : ℕ). f (b.conns i)) (sym e))
  | inr n ↦ rw n refl
]

twice_at :
    (mi : ℕ) (f g : MatchSlot → MatchSlot) (b : Board) (mj : ℕ)
    → (with_match mi g (with_match mi f b)).matches mj
      ≡ (with_match mi (λ mt. g (f mt)) b).matches mj
unfolding with_match write
twice_at mi f g b mj = elim (Bool-cases (mj == mi)) [
  | inl y ↦ rw y (ap g (write_there b.matches mi (f (b.matches mi)) mi (ground arith)))
  | inr n ↦ rw n refl
]

-- Two changes of a match, one after the other, are one.
pub with_match_twice :
    (mi : ℕ) (f g : MatchSlot → MatchSlot) (b : Board)
    → with_match mi g (with_match mi f b) ≡ with_match mi (λ mt. g (f mt)) b
unfolding with_match write
with_match_twice mi f g b i = record { conns = b.conns; matches = λ mj. twice_at mi f g b mj i }

same_at :
    (ci : ℕ) (f : Conn → Conn) (b : Board)
    → f (b.conns ci) ≡ b.conns ci
    → (cj : ℕ) → (with_conn ci f b).conns cj ≡ b.conns cj
same_at ci f b same cj = with_conn_at b ci f cj ∙ elim (Bool-cases (cj == ci)) [
  | inl y ↦ let here : cj ≡ ci = ground (arith, y) in rw (y, here) same
  | inr n ↦ rw n refl
]

-- A connection that is written as it was.
pub with_conn_same :
    (ci : ℕ) (f : Conn → Conn) (b : Board) → f (b.conns ci) ≡ b.conns ci → with_conn ci f b ≡ b
unfolding with_conn
with_conn_same ci f b same i = record {
  conns = λ cj. same_at ci f b same cj i;
  matches = b.matches;
}

module _ {G : MatchSlot → Type 0} {C : Conn → Type 0} where
  -- A change of a connection that plays neither before nor after it.
  pub with_conn-Sound :
      (b : Board) (ci : ℕ) (f : Conn → Conn)
      → Sound G C b
      → playing (b.conns ci) ≡ false
      → playing (f (b.conns ci)) ≡ false
      → C (f (b.conns ci))
      → Sound G C (with_conn ci f b)
  unfolding with_conn write
  with_conn-Sound b ci f s out out' ok = record {
    players = λ mi h t.
        let sits = s.players mi h t in
        elim (Bool-cases (at (b.matches mi).conn t == ci)) [
          | inl y ↦
              let here : at (b.matches mi).conn t ≡ ci = ground (arith, y) in
              absurd (cc (sits.in_play, ap (λ (i : ℕ). playing (b.conns i)) here, out))
          | inr n ↦ rw n sits
        ];
    places = λ cj h. elim (Bool-cases (cj == ci)) [
      | inl y ↦ absurd (cc (rw y at h, out'))
      | inr n ↦
          let p = s.places cj (rw n at h) in
          record {
            mi = p.mi;
            place = rw n p.place;
            running = p.running;
            own_seat = rw n p.own_seat;
          }
    ];
    games = s.games;
    guests = λ cj. elim (Bool-cases (cj == ci)) [ inl y ↦ rw y ok | inr n ↦ rw n (s.guests cj) ];
  }

  -- A change of a running match that keeps its players.
  pub with_match-Sound :
      (b : Board) (mi : ℕ) (f : MatchSlot → MatchSlot)
      → Sound G C b
      → (f (b.matches mi)).active ≡ (b.matches mi).active
      → (f (b.matches mi)).conn ≡ (b.matches mi).conn
      → ((b.matches mi).active ≡ true → G (f (b.matches mi)))
      → Sound G C (with_match mi f b)
  unfolding with_match write
  with_match-Sound b mi f s same_active same_conn game = record {
    players = λ mj h t. elim (Bool-cases (mj == mi)) [
      | inl y ↦
          let e : mj ≡ mi = ground (arith, y) in
          let h' : (b.matches mi).active ≡ true = sym same_active ∙ (rw y at h) in
          rw (y, same_conn, e) (s.players mi h' t)
      | inr n ↦ rw n (s.players mj (rw n at h) t)
    ];
    places = λ cj h.
        let p = s.places cj h in
        elim (Bool-cases (p.mi == mi)) [
          | inl y ↦
              let e : p.mi ≡ mi = ground (arith, y) in
              record {
                mi = p.mi;
                place = p.place;
                running =
                    rw (y, same_active)
                      (subst (λ (i : ℕ). (b.matches i).active ≡ true) e p.running);
                own_seat =
                    rw (y, same_conn)
                      (subst (λ (i : ℕ). at (b.matches i).conn (b.conns cj).seat ≡ cj) e
                        p.own_seat);
              }
          | inr n ↦ record {
            mi = p.mi;
            place = p.place;
            running = rw n p.running;
            own_seat = rw n p.own_seat;
          }
        ];
    games = λ mj h. elim (Bool-cases (mj == mi)) [
      | inl y ↦ rw y (game (sym same_active ∙ (rw y at h)))
      | inr n ↦ rw n (s.games mj (rw n at h))
    ];
    guests = s.guests;
  }
