-- ===== src/Server/Entering.antt =====
-- The greeting, the drafts and the decks of a session in apps/server/main.c keep the tables.
use deadweight.Prelude.{
  ℕ, ◌+◌, ◌==◌, ◌≡◌, refl, ap, ◌∙◌, subst, arith, true, false, Bool-cases, inl, inr, not, ◌&&◌,
  ◌||◌, List, if◌then◌else◌, some, ltb, u32,
}
use deadweight.Prelude.{ℤ}
use deadweight.Draft.Building.{Draft, deck_size, Picked, refused, endless, picked}
use deadweight.Draft.Building as Building
use deadweight.Draft.Checking.{deck_valid}
use deadweight.Draft.Drafted.{Drafting, chosen, draft_done-valid}
use deadweight.Wire.Message.{proto_version}
use deadweight.Server.State.{
  Conn, connected, ready, need_auth, drafting, in_state, Board, Server, Env, with_conn, set_state,
  err_bad_state, err_bad_proto, err_bad_frame, kind_bot, mode_card, mode_draft, mode_constructed,
}
use deadweight.Server.Sending.{send_error, send_offer}
use deadweight.Server.Ending.{has_text}
use deadweight.Server.Sessions.{
  greet, give_deck, draw_offer, start_verify, become_ready, award_deck,
}
use deadweight.Server.Handling.{
  drafted, after_pick, handle_pick, handle_hello, handle_auth, handle_resume,
}
use deadweight.Server.Sound.{playing, with_conn-Sound}
use deadweight.Server.Fair.{IsFair}
use deadweight.Server.Handled.{
  IsTidy, tidy, if-IsTidy, conn_there, send_error-IsFair, send_offer-IsFair, idle-IsFair,
  become_ready-IsFair, start_verify-IsFair, enter_queue-IsFair, award_deck-there, award_deck-IsFair,
}

module _ (env : Env) where
  pub refused_with : (ci code : ℕ) (s : Server) → IsFair s.board → IsTidy (send_error env ci code s)
  refused_with ci code s fair =
      tidy (send_error env ci code s) (send_error-IsFair env ci code s fair)

  drafted-IsFair :
      (ci : ℕ) (d : Draft) (s : Server)
      → IsFair s.board
      → playing (s.board.conns ci) ≡ false
      → deck_valid d.deck ≡ true
      → IsFair (drafted env ci d s).board
  unfolding drafted give_deck
  drafted-IsFair ci d s fair out valid =
      let counted : Server = record s { stats = record s.stats { drafts = s.stats.drafts + 1 } } in
      let there = award_deck-there env ci d.deck counted in
      let conn : (award_deck env ci d.deck counted).board.conns ci
          ≡ give_deck d.deck s.next_deck (s.board.conns ci) =
        ap (λ (b : Board). b.conns ci) there
        ∙ conn_there ci (give_deck d.deck s.next_deck) s.board in
      enter_queue-IsFair env ci (award_deck env ci d.deck counted)
        (award_deck-IsFair env ci d.deck counted fair out valid)
        (ap (λ (c : Conn). playing c) conn ∙ out)
        (λ h. ap (λ (c : Conn). c.deck_n == deck_size) conn)

  after_pick-IsFair :
      (ci : ℕ) (seed : ℕ) (p : Picked) (s after : Server)
      → IsFair s.board
      → in_state (s.board.conns ci).state drafting ≡ true
      → ((d : Draft) → p ≡ picked d → Drafting seed d)
      → after_pick env ci p s ≡ some after
      → IsFair after.board
  unfolding draw_offer
  after_pick-IsFair ci seed refused s after fair drafts picks e =
      let same : send_offer env ci s ≡ after = cc e in
      subst (λ (s : Server). IsFair s.board) same (send_offer-IsFair env ci s fair)
  after_pick-IsFair ci seed endless s after fair drafts picks e = absurd (cc e)
  after_pick-IsFair ci seed (picked d) s after fair drafts picks e =
      let next : Server = record s { board = with_conn ci (draw_offer d) s.board } in
      let out : playing (s.board.conns ci) ≡ false = ground (arith, drafts) in
      let next-IsFair : IsFair next.board =
        with_conn-Sound s.board ci (draw_offer d) fair out out (record {
          deck_legal = (fair.guests ci).deck_legal;
          deck_ready = (fair.guests ci).deck_ready;
          draft_begun = λ h. (seed, picks d refl);
        }) in
      let still : playing (next.board.conns ci) ≡ false =
        ap (λ (c : Conn). playing c) (conn_there ci (draw_offer d) s.board) ∙ out in
      let same : (if Building.draft_done d then drafted env ci d next else send_offer env ci next)
          ≡ after =
        cc e in
      let done : IsTidy after = subst IsTidy same (
        if-IsTidy {p = Building.draft_done d}
          (λ y.
            tidy (drafted env ci d next)
              (drafted-IsFair ci d next next-IsFair still (draft_done-valid (picks d refl) y)))
          (λ n. tidy (send_offer env ci next) (send_offer-IsFair env ci next next-IsFair))) in
      done.fair

  pub handle_pick-IsFair :
      (ci index mult : ℕ) (s after : Server)
      → IsFair s.board
      → handle_pick env ci index mult s ≡ some after
      → IsFair after.board
  unfolding handle_pick
  handle_pick-IsFair ci index mult s after fair e =
      elim (Bool-cases (in_state (s.board.conns ci).state drafting)) [
        | inl y ↦
            let (seed, d) = (fair.guests ci).draft_begun y in
            after_pick-IsFair ci seed
              (Building.draft_pick env.rolls (s.board.conns ci).draft index mult) s after fair y
              (λ next h. chosen env.rolls (s.board.conns ci).draft index mult next d h) (rw y at e)
        | inr n ↦
            let same : send_error env ci err_bad_state s ≡ after = cc (rw n at e) in
            subst (λ (s : Server). IsFair s.board) same
              (send_error-IsFair env ci err_bad_state s fair)
      ]

  greeted-IsTidy :
      (ci mode kind : ℕ) (name token : List ℕ) (s : Server)
      → IsFair s.board
      → in_state (s.board.conns ci).state connected ≡ true
      → (let greeted : Server = record s {
        board = with_conn ci (greet s.next_session name kind mode) s.board;
        next_session = u32 (s.next_session + 1);
      } in
          IsTidy (
            if env.opt_noauth
            then become_ready env ci greeted
            else if has_text token
            then start_verify env ci token greeted
            else record greeted { board = with_conn ci (set_state need_auth) greeted.board }))
  unfolding greet set_state
  greeted-IsTidy ci mode kind name token s fair h =
      let greeted : Server = record s {
        board = with_conn ci (greet s.next_session name kind mode) s.board;
        next_session = u32 (s.next_session + 1);
      } in
      let known : IsFair greeted.board =
        idle-IsFair env ci (greet s.next_session name kind mode) s.board fair (ground (arith, h))
          refl refl (ground (arith, h)) in
      let out : playing (greeted.board.conns ci) ≡ false =
        ap (λ (c : Conn). playing c) (conn_there ci (greet s.next_session name kind mode) s.board)
        ∙ ground (arith, h) in
      if-IsTidy {p = env.opt_noauth}
        (λ e. tidy (become_ready env ci greeted) (become_ready-IsFair env ci greeted known out))
        λ n.
          if-IsTidy {p = has_text token}
            (λ e.
              tidy (start_verify env ci token greeted)
                (start_verify-IsFair env ci token greeted known out))
            λ m.
              tidy (record greeted { board = with_conn ci (set_state need_auth) greeted.board })
                (idle-IsFair env ci (set_state need_auth) greeted.board known out refl refl refl)

  pub handle_hello-IsFair :
      (ci proto mode kind : ℕ) (name token : List ℕ) (s : Server)
      → IsFair s.board
      → IsFair (handle_hello env ci proto mode kind name token s).board
  unfolding handle_hello
  handle_hello-IsFair ci proto mode kind name token s fair =
      let done : IsTidy (handle_hello env ci proto mode kind name token s) =
        if-IsTidy {p = not (in_state (s.board.conns ci).state connected)}
          (λ e. refused_with ci err_bad_state s fair)
          λ h.
            if-IsTidy {p = not (proto == proto_version)} (λ e. refused_with ci err_bad_proto s fair)
              λ e.
                if-IsTidy
                  {p = not (mode == mode_card || mode == mode_draft || mode == mode_constructed)}
                  (λ e. refused_with ci err_bad_state s fair)
                  λ e.
                    if-IsTidy {p = ltb kind_bot kind} (λ e. refused_with ci err_bad_frame s fair)
                      λ e. greeted-IsTidy ci mode kind name token s fair (ground (arith, h)) in
      done.fair

  pub handle_auth-IsFair :
      (ci : ℕ) (token : List ℕ) (s : Server)
      → IsFair s.board
      → IsFair (handle_auth env ci token s).board
  unfolding handle_auth
  handle_auth-IsFair ci token s fair =
      let done : IsTidy (handle_auth env ci token s) =
        if-IsTidy {p = in_state (s.board.conns ci).state need_auth}
          (λ e.
            tidy (start_verify env ci token s)
              (start_verify-IsFair env ci token s fair (ground (arith, e))))
          λ n.
            if-IsTidy {p = in_state (s.board.conns ci).state ready && env.opt_noauth}
              (λ e. tidy s fair) λ e. refused_with ci err_bad_state s fair in
      done.fair

  pub handle_resume-IsFair :
      (ci : ℕ) (cards : List ℤ) (s : Server)
      → IsFair s.board
      → IsFair (handle_resume env ci cards s).board
  unfolding handle_resume
  handle_resume-IsFair ci cards s fair =
      let done : IsTidy (handle_resume env ci cards s) =
        if-IsTidy
          {p = not (in_state (s.board.conns ci).state ready)
            || not (
                (s.board.conns ci).mode == mode_draft
                || (s.board.conns ci).mode == mode_constructed)}
          (λ e. refused_with ci err_bad_state s fair)
          λ n.
            if-IsTidy {p = deck_valid cards}
              (λ v.
                tidy (award_deck env ci cards s)
                  (award_deck-IsFair env ci cards s fair (ground (arith, n)) v))
              λ e. refused_with ci err_bad_frame s fair in
      done.fair
