-- ===== src/Server/Rating.antt =====
-- The ratings that come back from the account service in apps/server/main.c change no one's place.
use deadweight.Prelude.{
  ℕ, zero, suc, ◌==◌, ◌≡◌, refl, sym, ap, ◌∙◌, Bool, true, false, not, ◌&&◌, List, if◌then◌else◌,
}
use deadweight.Prelude.{ℤ}
use deadweight.Match.State.{Side, at}
use deadweight.Server.State.{
  Conn, ConnState, free, in_match, in_state, Board, Server, with_conn, max_conns,
}
use deadweight.Server.Ending.{has_text}
use deadweight.Server.Pairing.{same_text}
use deadweight.Server.Ticking.{rate, rate_all, rating_update}
use deadweight.Server.Sound.{playing, with_conn_at}
use deadweight.Server.Fair.{IsGuest, IsFair}

-- What the tables and the queues read of a connection stays.
record Same (c d : Conn) : Type 0 where
  state : d.state ≡ c.state
  place : d.match ≡ c.match
  side : d.seat ≡ c.seat
  guest : IsGuest c → IsGuest d

Same-if : (p : Bool) (c d : Conn) → Same c d → Same c (if p then d else c)
Same-if true c d s = s
Same-if false c d s = record { state = refl; place = refl; side = refl; guest = λ g. g }

Same-trans : (c d e : Conn) → Same c d → Same d e → Same c e
Same-trans c d e s t = record {
  state = t.state ∙ s.state;
  place = t.place ∙ s.place;
  side = t.side ∙ s.side;
  guest = λ g. t.guest (s.guest g);
}

rate-Same : (pid : List ℕ) (r : ℤ) (c : Conn) → Same c (rate pid r c)
unfolding rate
rate-Same pid r c =
    Same-if (not (in_state c.state free) && has_text c.player_id && same_text c.player_id pid) c _
      (record {
        state = refl;
        place = refl;
        side = refl;
        guest = λ g. record {
          deck_legal = g.deck_legal;
          deck_ready = g.deck_ready;
          draft_begun = g.draft_begun;
        };
      })

Same-plays : (c d : Conn) → Same c d → playing d ≡ playing c
Same-plays c d s = ap (λ (st : ConnState). in_state st in_match) s.state

at_conn :
    (b : Board) (ci : ℕ) (f : Conn → Conn)
    → ((c : Conn) → Same c (f c))
    → (cj : ℕ) → Same (b.conns cj) ((with_conn ci f b).conns cj)
at_conn b ci f same cj =
    rw (with_conn_at b ci f cj)
      (Same-if (cj == ci) (b.conns cj) (f (b.conns cj)) (same (b.conns cj)))

Same-IsFair :
    (b : Board) (ci : ℕ) (f : Conn → Conn)
    → ((c : Conn) → Same c (f c))
    → IsFair b
    → IsFair (with_conn ci f b)
unfolding with_conn
Same-IsFair b ci f same fair = record {
  players = λ mi h t.
      let sits = fair.players mi h t in
      let here = at_conn b ci f same (at (b.matches mi).conn t) in
      record {
        in_play = Same-plays _ _ here ∙ sits.in_play;
        place = here.place ∙ sits.place;
        side = here.side ∙ sits.side;
      };
  places = λ cj h.
      let here = at_conn b ci f same cj in
      let p = fair.places cj (sym (Same-plays _ _ here) ∙ h) in
      record {
        mi = p.mi;
        place = here.place ∙ p.place;
        running = p.running;
        own_seat = ap (λ (t : Side). at (b.matches p.mi).conn t) here.side ∙ p.own_seat;
      };
  games = fair.games;
  guests = λ cj. (at_conn b ci f same cj).guest (fair.guests cj);
}

rate_all-IsFair :
    (pid0 : List ℕ) (r0 : ℤ) (pid1 : List ℕ) (r1 : ℤ) (n : ℕ) (b : Board)
    → IsFair b
    → IsFair (rate_all pid0 r0 pid1 r1 n b)
unfolding rate_all
rate_all-IsFair pid0 r0 pid1 r1 zero b fair = fair
rate_all-IsFair pid0 r0 pid1 r1 (suc i) b fair =
    Same-IsFair (rate_all pid0 r0 pid1 r1 i b) i (λ c. rate pid1 r1 (rate pid0 r0 c))
      (λ c.
        Same-trans c (rate pid0 r0 c) _ (rate-Same pid0 r0 c) (rate-Same pid1 r1 (rate pid0 r0 c)))
      (rate_all-IsFair pid0 r0 pid1 r1 i b fair)

pub rating_update-IsFair :
    (pid0 : List ℕ) (r0 : ℤ) (pid1 : List ℕ) (r1 : ℤ) (s : Server)
    → IsFair s.board
    → IsFair (rating_update pid0 r0 pid1 r1 s).board
unfolding rating_update
rating_update-IsFair pid0 r0 pid1 r1 s fair = rate_all-IsFair pid0 r0 pid1 r1 max_conns s.board fair
