-- ===== src/Server/Meeting.antt =====
-- Whom the pairing of apps/server/main.c brings together.
use deadweight.Prelude.{
  ◌+◌, ℕ, ◌==◌, ◌≡◌, ◌≢◌, ◌≤◌, ◌<◌, refl, ap, subst, arith, Bool, true, false, Bool-cases,
  Option-cases, inl, inr, not, ◌&&◌, List, [], ◌∷◌, Option, none, some, leb, suc, zero,
}
use deadweight.Prelude.{ℤ}
use deadweight.Server.State.{
  queued, in_state, Board, Env, max_conns, mode_constructed, kind_human, kind_bot,
}
use deadweight.Server.Ending.{has_text}
use deadweight.Server.Pairing.{
  first_from, waits, older, nearer, is_place, oldest_of, oldest_queued, queue_count, nearest_of,
  nearest_queued, same_text, duels, is_partner, Pair, token_pair_from, find_token_pair,
}
use deadweight.Server.Queue.{
  paired, pair_of_queue, or_pair, next_pair, rating_at, ready_at, pair_by_rating,
  next_pair_constructed,
}
use deadweight.Server.Starting.{BothQueued, first_from-ok}

-- Two connections of a queue that may play each other: both duel with the same token, or neither duels.
pub record Meet (b : Board) (mode x y : ℕ) : Type 0 where
  pub both : BothQueued b mode x y
  pub in_table : x < max_conns
  pub tokens : same_text (b.conns x).match_token (b.conns y).match_token ≡ true

-- What a search in the queue finds.
record Waiter (b : Board) (mode kind : ℕ) (skip : Option ℕ) (i : ℕ) : Type 0 where
  in_queue : in_state (b.conns i).state queued ≡ true
  in_mode : (b.conns i).mode ≡ mode
  of_kind : (b.conns i).kind ≡ kind
  no_token : has_text (b.conns i).match_token ≡ false
  kept : is_place skip i ≡ false
  in_table : i < max_conns

waits-Waiter :
    (b : Board) (mode kind : ℕ) (skip : Option ℕ) (i : ℕ) (z : Bool)
    → (waits b mode kind i && not (is_place skip i) && z) ≡ true
    → i < max_conns
    → Waiter b mode kind skip i
unfolding waits
waits-Waiter b mode kind skip i z h lt = record {
  in_table = lt;
  in_queue = ground (arith, h);
  in_mode = ground (arith, h);
  of_kind = ground (arith, h);
  no_token = ground (arith, h);
  kept = ground (arith, h);
}

oldest_of-Waiter :
    (b : Board) (mode kind : ℕ) (skip : Option ℕ) (n : ℕ)
    → n ≤ max_conns
    → (i : ℕ) → oldest_of b mode kind skip n ≡ some i
    → Waiter b mode kind skip i
unfolding oldest_of
oldest_of-Waiter b mode kind skip zero le i e = absurd (cc e)
oldest_of-Waiter b mode kind skip (suc n) le i e =
    let best = oldest_of b mode kind skip n in
    elim (Bool-cases (waits b mode kind n && not (is_place skip n) && older b n best)) [
      | inl y ↦
          let same : n ≡ i = cc (rw y at e) in
          subst (Waiter b mode kind skip) same
            (waits-Waiter b mode kind skip n (older b n best) y (omega (arith, le)))
      | inr m ↦ oldest_of-Waiter b mode kind skip n (omega (arith, le)) i (rw m at e)
    ]

nearest_of-Waiter :
    (b : Board) (mode kind : ℕ) (skip : Option ℕ) (target : ℤ) (n : ℕ)
    → n ≤ max_conns
    → (i : ℕ) → nearest_of b mode kind skip target n ≡ some i
    → Waiter b mode kind skip i
unfolding nearest_of
nearest_of-Waiter b mode kind skip target zero le i e = absurd (cc e)
nearest_of-Waiter b mode kind skip target (suc n) le i e =
    let best = nearest_of b mode kind skip target n in
    elim (Bool-cases (waits b mode kind n && not (is_place skip n) && nearer b target n best)) [
      | inl y ↦
          let same : n ≡ i = cc (rw y at e) in
          subst (Waiter b mode kind skip) same
            (waits-Waiter b mode kind skip n (nearer b target n best) y (omega (arith, le)))
      | inr m ↦ nearest_of-Waiter b mode kind skip target n (omega (arith, le)) i (rw m at e)
    ]

no_tokens : (s t : List ℕ) → has_text s ≡ false → has_text t ≡ false → same_text s t ≡ true
no_tokens [] [] h k = refl
no_tokens [] (d ∷ t) h k = absurd (cc k)
no_tokens (c ∷ s) t h k = absurd (cc h)

Waiter-Meet :
    (b : Board) (mode k l : ℕ) (p q : Option ℕ) (x y : ℕ)
    → Waiter b mode k p x
    → Waiter b mode l q y
    → x ≢ y
    → Meet b mode x y
Waiter-Meet b mode k l p q x y w v apart = record {
  both = record {
    first = w.in_queue;
    first_mode = w.in_mode;
    second = v.in_queue;
    second_mode = v.in_mode;
    apart = apart;
  };
  in_table = w.in_table;
  tokens = no_tokens _ _ w.no_token v.no_token;
}

-- Two searches, the second of which leaves out what the first found.
skip-Meet :
    (b : Board) (mode kind : ℕ) (u v : Option ℕ) (p : Pair)
    → ((i : ℕ) → u ≡ some i → Waiter b mode kind none i)
    → ((j : ℕ) → v ≡ some j → Waiter b mode kind u j)
    → paired u v ≡ some p
    → Meet b mode p.first p.second
skip-Meet b mode kind none none p one two e = absurd (cc e)
skip-Meet b mode kind none (some j) p one two e = absurd (cc e)
skip-Meet b mode kind (some i) none p one two e = absurd (cc e)
skip-Meet b mode kind (some i) (some j) p one two e =
    let w = one i refl in
    let v = two j refl in
    let same : record { first = i; second = j } ≡ p = cc e in
    subst (λ (p : Pair). Meet b mode p.first p.second) same
      (Waiter-Meet b mode kind kind none (some i) i j w v λ h. ground (arith, h, v.kept))

-- A human and a bot.
kinds-Meet :
    (b : Board) (mode : ℕ) (u v : Option ℕ) (p : Pair)
    → ((i : ℕ) → u ≡ some i → Waiter b mode kind_human none i)
    → ((j : ℕ) → v ≡ some j → Waiter b mode kind_bot none j)
    → paired u v ≡ some p
    → Meet b mode p.first p.second
kinds-Meet b mode none none p one two e = absurd (cc e)
kinds-Meet b mode none (some j) p one two e = absurd (cc e)
kinds-Meet b mode (some i) none p one two e = absurd (cc e)
kinds-Meet b mode (some i) (some j) p one two e =
    let w = one i refl in
    let v = two j refl in
    let same : record { first = i; second = j } ≡ p = cc e in
    subst (λ (p : Pair). Meet b mode p.first p.second) same
      (Waiter-Meet b mode kind_human kind_bot none none i j w v
        λ h. ground (arith, ap (λ (i : ℕ). (b.conns i).kind) h, w.of_kind, v.of_kind))

pub pair_of_queue-Meet :
    (b : Board) (mode : ℕ) (p : Pair) → pair_of_queue b mode ≡ some p → Meet b mode p.first p.second
unfolding pair_of_queue oldest_queued
pair_of_queue-Meet b mode p e =
    let h1 = oldest_queued b mode kind_human none in
    let b1 = oldest_queued b mode kind_bot none in
    let nh : ℕ = queue_count b mode kind_human in
    let nb : ℕ = queue_count b mode kind_bot in
    elim (Bool-cases (leb 2 nh)) [
      | inl y ↦
          skip-Meet b mode kind_human h1 _ p
            (oldest_of-Waiter b mode kind_human none max_conns (omega arith))
            (oldest_of-Waiter b mode kind_human h1 max_conns (omega arith)) (rw y at e)
      | inr n ↦ elim (Bool-cases (nh == 1 && leb 1 nb)) [
        | inl y ↦
            kinds-Meet b mode h1 b1 p
              (oldest_of-Waiter b mode kind_human none max_conns (omega arith))
              (oldest_of-Waiter b mode kind_bot none max_conns (omega arith)) (rw (n, y) at e)
        | inr m ↦ elim (Bool-cases (nh == 0 && leb 3 nb)) [
          | inl y ↦
              skip-Meet b mode kind_bot b1 _ p
                (oldest_of-Waiter b mode kind_bot none max_conns (omega arith))
                (oldest_of-Waiter b mode kind_bot b1 max_conns (omega arith)) (rw (n, m, y) at e)
          | inr k ↦ absurd (cc (rw (n, m, k) at e))
        ]
      ]
    ]

pub pair_by_rating-Meet :
    (env : Env) (b : Board) (now : ℕ) (p : Pair)
    → pair_by_rating env b now ≡ some p
    → Meet b mode_constructed p.first p.second
unfolding pair_by_rating oldest_queued nearest_queued
pair_by_rating-Meet env b now p e =
    let mode : ℕ = mode_constructed in
    let h1 = oldest_queued b mode kind_human none in
    let b1 = oldest_queued b mode kind_bot none in
    let b2 = nearest_queued b mode kind_bot b1 (rating_at b b1) in
    let nh : ℕ = queue_count b mode kind_human in
    let nb : ℕ = queue_count b mode kind_bot in
    elim (Bool-cases (leb 2 nh)) [
      | inl y ↦
          skip-Meet b mode kind_human h1 _ p
            (oldest_of-Waiter b mode kind_human none max_conns (omega arith))
            (nearest_of-Waiter b mode kind_human h1 (rating_at b h1) max_conns (omega arith))
            (rw y at e)
      | inr n ↦ elim (Bool-cases (nh == 1 && leb 1 nb)) [
        | inl y ↦
            kinds-Meet b mode h1 _ p
              (oldest_of-Waiter b mode kind_human none max_conns (omega arith))
              (nearest_of-Waiter b mode kind_bot none (rating_at b h1) max_conns (omega arith))
              (rw (n, y) at e)
        | inr m ↦ elim (Bool-cases (nh == 0 && leb 3 nb && ready_at env b now b1)) [
          | inl y ↦ elim (Bool-cases (ready_at env b now b2)) [
            | inl z ↦
                skip-Meet b mode kind_bot b1 b2 p
                  (oldest_of-Waiter b mode kind_bot none max_conns (omega arith))
                  (nearest_of-Waiter b mode kind_bot b1 (rating_at b b1) max_conns (omega arith))
                  (rw (n, m, y, z) at e)
            | inr z ↦ absurd (cc (rw (n, m, y, z) at e))
          ]
          | inr k ↦ absurd (cc (rw (n, m, k) at e))
        ]
      ]
    ]

first_from-after : (ok : ℕ → Bool) (i n j : ℕ) → first_from ok i n ≡ some j → i ≤ j
unfolding first_from
first_from-after ok i zero j e = absurd (cc e)
first_from-after ok i (suc n) j e = elim (Bool-cases (ok i)) [
  | inl y ↦ let same : i ≡ j = cc (rw y at e) in omega (arith, same)
  | inr m ↦ let h = first_from-after ok (suc i) n j (rw m at e) in omega (arith, h)
]

partner-Meet :
    (b : Board) (mode i j : ℕ)
    → duels b mode i ≡ true
    → is_partner b mode i j ≡ true
    → i < j
    → i < max_conns
    → Meet b mode i j
unfolding duels is_partner
partner-Meet b mode i j d h lt below = record {
  in_table = below;
  both = record {
    first = ground (arith, d);
    first_mode = ground (arith, d);
    second = ground (arith, h);
    second_mode = ground (arith, h);
    apart = λ e. omega (arith, lt, e);
  };
  tokens = ground (arith, h);
}

token_pair_from-Meet :
    (b : Board) (mode i n : ℕ)
    → i + n ≤ max_conns
    → (p : Pair) → token_pair_from b mode i n ≡ some p
    → Meet b mode p.first p.second
unfolding token_pair_from
token_pair_from-Meet b mode i zero le p e = absurd (cc e)
token_pair_from-Meet b mode i (suc n) le p e =
    let ok : ℕ → Bool = is_partner b mode i in
    elim (Bool-cases (duels b mode i)) [
      | inr m ↦ token_pair_from-Meet b mode (suc i) n (omega (arith, le)) p (rw m at e)
      | inl d ↦ elim (Option-cases (first_from ok (suc i) n)) [
        | inl none_found ↦
            token_pair_from-Meet b mode (suc i) n (omega (arith, le)) p (rw (d, none_found) at e)
        | inr (j, found) ↦
            let same : record { first = i; second = j } ≡ p = cc (rw (d, found) at e) in
            subst (λ (p : Pair). Meet b mode p.first p.second) same
              (partner-Meet b mode i j d (first_from-ok ok (suc i) n j found)
                (first_from-after ok (suc i) n j found) (omega (arith, le)))
      ]
    ]

or_pair-Meet :
    (b : Board) (mode : ℕ) (u v : Option Pair) (p : Pair)
    → ((q : Pair) → u ≡ some q → Meet b mode q.first q.second)
    → ((q : Pair) → v ≡ some q → Meet b mode q.first q.second)
    → or_pair u v ≡ some p
    → Meet b mode p.first p.second
or_pair-Meet b mode none v p one two e = two p e
or_pair-Meet b mode (some q) v p one two e = one p e

-- Whoever is put into a match by a round of `try_pair_mode`: two different connections that wait in its
-- queue, and that carry the same token or none.
pub next_pair-Meet :
    (b : Board) (mode : ℕ) (p : Pair) → next_pair b mode ≡ some p → Meet b mode p.first p.second
unfolding next_pair find_token_pair
next_pair-Meet b mode p e =
    or_pair-Meet b mode _ _ p (token_pair_from-Meet b mode 0 max_conns (omega arith))
      (pair_of_queue-Meet b mode) e

-- The same of `try_pair_constructed`, at any time.
pub next_pair_constructed-Meet :
    (env : Env) (b : Board) (now : ℕ) (p : Pair)
    → next_pair_constructed env b now ≡ some p
    → Meet b mode_constructed p.first p.second
unfolding next_pair_constructed find_token_pair
next_pair_constructed-Meet env b now p e =
    or_pair-Meet b mode_constructed _ _ p
      (token_pair_from-Meet b mode_constructed 0 max_conns (omega arith))
      (pair_by_rating-Meet env b now) e
