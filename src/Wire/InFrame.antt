-- ===== src/Wire/InFrame.antt =====
-- `dw_decode` of core/protocol.c never reads past the end of a frame, although its reads have no test.
use deadweight.Prelude.{
  ℕ, zero, suc, ◌+◌, ◌-◌, ◌*◌, ◌≤◌, ◌≡◌, ◌≢◌, refl, sym, ap, arith, List, [], ◌∷◌, true, false,
  Bool-cases, inl, inr, ltb, not, none, some, ◌||◌, ◌==◌, if◌then◌else◌, length, take, subst,
}
use deadweight.Prelude.{pos, negsuc}
use deadweight.Wire.Message.{
  Msg, hello, queue, auth, leave, ping, pong, welcome, play_ack, play_reject, match_end,
  max_frame_len, max_token, max_auth_token, draft_deck,
}
use deadweight.Wire.Reader.{Read, got, refused, overrun, Reader, ◌>>=◌, give, refuse, rbytes}
use deadweight.Wire.Decode.{
  payload_size, size_ok, read_payload, read_hello, read_auth, read_queue, read_round_start,
  read_round_result, read_play, read_match_found, read_offer, read_id2, read_id1, read_u32,
  read_pick, read_resume, read_done, read_queued, read_error, decode, decode_frame, out_of_frame,
  finish_read,
}
use deadweight.Wire.Stays.{
  Stays, r8-Takes, give-Stays, refuse-Stays, r16-Takes, r32-Takes, ri8-Takes, rcards-Takes,
  rname-Takes, step-Stays, if-Stays, bytes-Stays,
}

read_play-Stays : Stays 6 read_play
unfolding read_play
read_play-Stays = step-Stays 4 r32-Takes (omega arith) λ match_id.
    step-Stays 1 r8-Takes (omega arith)
      λ round. step-Stays 1 ri8-Takes (omega arith) λ slot. give-Stays _ _

read_round_start-Stays : Stays 19 read_round_start
unfolding read_round_start
read_round_start-Stays = step-Stays 1 r8-Takes (omega arith) λ round.
    step-Stays 1 ri8-Takes (omega arith) λ hull_you.
      step-Stays 1 ri8-Takes (omega arith) λ hull_opp.
        step-Stays 1 r8-Takes (omega arith) λ energy_you.
          step-Stays 1 r8-Takes (omega arith) λ energy_opp.
            step-Stays 4 (rcards-Takes 4) (omega arith) λ hand.
              step-Stays 1 r8-Takes (omega arith) λ opp_hand_size.
                step-Stays 2 r16-Takes (omega arith) λ deadline_ms.
                  step-Stays 1 r8-Takes (omega arith) λ armor_you.
                    step-Stays 1 r8-Takes (omega arith) λ armor_opp.
                      step-Stays 1 ri8-Takes (omega arith) λ vault_you.
                        step-Stays 1 ri8-Takes (omega arith) λ vault_opp.
                          step-Stays 1 r8-Takes (omega arith) λ lock_mask.
                            step-Stays 1 r8-Takes (omega arith) λ status_you.
                              step-Stays 1 r8-Takes (omega arith) λ status_opp. give-Stays _ _

read_round_result-Stays : Stays 19 read_round_result
unfolding read_round_result
read_round_result-Stays = step-Stays 1 r8-Takes (omega arith) λ round.
    step-Stays 1 ri8-Takes (omega arith) λ card_you.
      step-Stays 1 ri8-Takes (omega arith) λ card_opp.
        step-Stays 1 r8-Takes (omega arith) λ dmg_you.
          step-Stays 1 r8-Takes (omega arith) λ dmg_opp.
            step-Stays 1 ri8-Takes (omega arith) λ hull_you.
              step-Stays 1 ri8-Takes (omega arith) λ hull_opp.
                step-Stays 1 ri8-Takes (omega arith) λ eff_you.
                  step-Stays 1 ri8-Takes (omega arith) λ eff_opp.
                    step-Stays 1 r8-Takes (omega arith) λ armor_you.
                      step-Stays 1 r8-Takes (omega arith) λ armor_opp.
                        step-Stays 1 ri8-Takes (omega arith) λ vault_you.
                          step-Stays 1 ri8-Takes (omega arith) λ vault_opp.
                            step-Stays 1 r8-Takes (omega arith) λ heal_you.
                              step-Stays 1 r8-Takes (omega arith) λ heal_opp.
                                step-Stays 1 r8-Takes (omega arith) λ roll_you.
                                  step-Stays 1 r8-Takes (omega arith) λ roll_opp.
                                    step-Stays 1 r8-Takes (omega arith) λ flags_you.
                                      step-Stays 1 r8-Takes (omega arith)
                                        λ flags_opp. give-Stays _ _

read_match_found-Stays : Stays 26 read_match_found
unfolding read_match_found
read_match_found-Stays = step-Stays 4 r32-Takes (omega arith) λ match_id.
    step-Stays 4 r32-Takes (omega arith) λ seed. step-Stays 1 r8-Takes (omega arith) λ seat.
      step-Stays 16 rname-Takes (omega arith)
        λ opp_name. step-Stays 1 r8-Takes (omega arith) λ opp_kind. give-Stays _ _

read_offer-Stays : Stays 7 read_offer
unfolding read_offer
read_offer-Stays = step-Stays 1 r8-Takes (omega arith) λ pick_no.
    step-Stays 1 r8-Takes (omega arith) λ total. step-Stays 1 ri8-Takes (omega arith) λ card0.
      step-Stays 1 ri8-Takes (omega arith) λ card1. step-Stays 1 r8-Takes (omega arith) λ left1.
        step-Stays 1 r8-Takes (omega arith)
          λ left2. step-Stays 1 r8-Takes (omega arith) λ left3. give-Stays _ _

read_id2-Stays : (make : ℕ → ℕ → ℕ → Msg) → Stays 6 (read_id2 make)
unfolding read_id2
read_id2-Stays make = step-Stays 4 r32-Takes (omega arith) λ id.
    step-Stays 1 r8-Takes (omega arith) λ a. step-Stays 1 r8-Takes (omega arith) λ b. give-Stays _ _

read_id1-Stays : (make : ℕ → ℕ → Msg) → Stays 5 (read_id1 make)
unfolding read_id1
read_id1-Stays make =
    step-Stays 4 r32-Takes (omega arith)
      λ id. step-Stays 1 r8-Takes (omega arith) λ a. give-Stays _ _

read_u32-Stays : (make : ℕ → Msg) → Stays 4 (read_u32 make)
unfolding read_u32
read_u32-Stays make = step-Stays 4 r32-Takes (omega arith) λ v. give-Stays _ _

read_pick-Stays : Stays 2 read_pick
unfolding read_pick
read_pick-Stays =
    step-Stays 1 r8-Takes (omega arith)
      λ index. step-Stays 1 r8-Takes (omega arith) λ mult. give-Stays _ _

read_resume-Stays : Stays 23 read_resume
unfolding read_resume
read_resume-Stays = step-Stays 23 (rcards-Takes draft_deck) (omega arith) λ cards. give-Stays _ _

read_done-Stays : Stays 27 read_done
unfolding read_done
read_done-Stays =
    step-Stays 4 r32-Takes (omega arith)
      λ id. step-Stays 23 (rcards-Takes draft_deck) (omega arith) λ cards. give-Stays _ _

read_queued-Stays : Stays 2 read_queued
unfolding read_queued
read_queued-Stays = step-Stays 2 r16-Takes (omega arith) λ waiting. give-Stays _ _

read_error-Stays : Stays 1 read_error
unfolding read_error
read_error-Stays = step-Stays 1 r8-Takes (omega arith) λ code. give-Stays _ _

read_hello-Stays : (plen : ℕ) → 20 ≤ plen → Stays plen (read_hello plen)
unfolding read_hello
read_hello-Stays plen h = step-Stays 1 r8-Takes (omega arith) λ proto.
    step-Stays 1 r8-Takes (omega arith) λ mode. step-Stays 1 r8-Takes (omega arith) λ kind.
      step-Stays 16 rname-Takes (omega arith) λ name.
        step-Stays 1 r8-Takes (omega arith) λ token_len.
          if-Stays (plen - 1 - 1 - 1 - 16 - 1)
            (ltb max_token token_len || not (token_len == plen - 20)) refuse
            (rbytes token_len >>= λ token. give (hello proto mode kind name token))
            (λ e. refuse-Stays _)
            (λ e.
              bytes-Stays token_len (plen - 1 - 1 - 1 - 16 - 1)
                (λ token. give (hello proto mode kind name token)) (ground (arith, e))
                λ a. give-Stays _ _)

read_auth-Stays : (plen : ℕ) → 2 ≤ plen → Stays plen (read_auth plen)
unfolding read_auth
read_auth-Stays plen h = step-Stays 2 r16-Takes (omega arith) λ token_len.
    if-Stays (plen - 2) (ltb max_auth_token token_len || not (token_len == plen - 2)) refuse
      (rbytes token_len >>= λ token. give (auth token)) (λ e. refuse-Stays _)
      (λ e.
        bytes-Stays token_len (plen - 2) (λ token. give (auth token)) (ground (arith, e))
          λ a. give-Stays _ _)

read_queue-Stays :
    (plen : ℕ) → (plen == 0 || plen == 1 || plen == 33) ≡ true → Stays plen (read_queue plen)
unfolding read_queue
read_queue-Stays plen h =
    if-Stays plen (plen == 0) (give (queue 0 none)) _ (λ e. give-Stays _ _)
      (λ e. step-Stays 1 r8-Takes (ground (arith, e)) λ b.
        if-Stays (plen - 1) (plen == 33)
          (rbytes 32 >>= λ token. give (queue (if b == 0 then 0 else 1) (some token)))
          (give (queue (if b == 0 then 0 else 1) none))
          (λ e'.
            bytes-Stays 32 (plen - 1) (λ token. give (queue (if b == 0 then 0 else 1) (some token)))
              (ground (arith, e')) λ a. give-Stays _ _)
          (λ e'. give-Stays _ _))

-- A size that passes the tests is the fixed size of the type, or fits a type of varying size.
size_ok-pos : (k plen : ℕ) → size_ok (pos k) plen ≡ true → k ≡ plen
unfolding size_ok
size_ok-pos k plen h = ground arith

size_ok-hello : (plen : ℕ) → size_ok (negsuc 1) plen ≡ true → 20 ≤ plen
unfolding size_ok
size_ok-hello plen h = ground arith

size_ok-auth : (plen : ℕ) → size_ok (negsuc 2) plen ≡ true → 2 ≤ plen
unfolding size_ok
size_ok-auth plen h = ground arith

size_ok-queue :
    (plen : ℕ) → size_ok (negsuc 4) plen ≡ true → (plen == 0 || plen == 1 || plen == 33) ≡ true
unfolding size_ok
size_ok-queue plen h = ground arith

fixed-Stays {ℓ} :
    {A : Type ℓ} {k : ℕ} {m : Reader A} (plen : ℕ)
    → Stays k m
    → size_ok (pos k) plen ≡ true
    → Stays plen m
fixed-Stays {m = m} plen s h = subst (λ (i : ℕ). Stays i m) (size_ok-pos _ plen h) s

-- What the tests on the size promise the reader of a type.
Fits : (plen t : ℕ) → Type 0
Fits plen t = size_ok (payload_size t) plen ≡ true → Stays plen (read_payload t plen)

unless : (k : ℕ) (P : ℕ → Type 0) (t : ℕ) → P k → ((t == k) ≡ false → P t) → P t
unless k P t p f = elim (Bool-cases (t == k)) [
  | inl e ↦ subst P (sym (ground (arith, e))) p
  | inr e ↦ f e
]

read_payload-Stays : (plen t : ℕ) → Fits plen t
unfolding Fits payload_size read_payload
read_payload-Stays plen t =
    unless 0x01 (Fits plen) t (λ h. read_hello-Stays plen (size_ok-hello plen h))
      λ e1.
        unless 0x02 (Fits plen) t (λ h. read_queue-Stays plen (size_ok-queue plen h))
          λ e2.
            unless 0x06 (Fits plen) t (λ h. read_auth-Stays plen (size_ok-auth plen h))
              λ e6. unless 0x03 (Fits plen) t (fixed-Stays plen read_play-Stays) λ e3.
                unless 0x05 (Fits plen) t (fixed-Stays plen (read_u32-Stays ping)) λ e5.
                  unless 0x07 (Fits plen) t (fixed-Stays plen read_pick-Stays) λ e7.
                    unless 0x08 (Fits plen) t (fixed-Stays plen read_resume-Stays) λ e8.
                      unless 0x81 (Fits plen) t (fixed-Stays plen (read_id1-Stays welcome)) λ e129.
                        unless 0x82 (Fits plen) t (fixed-Stays plen read_queued-Stays) λ e130.
                          unless 0x83 (Fits plen) t (fixed-Stays plen read_match_found-Stays)
                            λ e131.
                              unless 0x84 (Fits plen) t (fixed-Stays plen read_round_start-Stays)
                                λ e132.
                                  unless 0x85 (Fits plen) t
                                    (fixed-Stays plen (read_id1-Stays play_ack))
                                    λ e133.
                                      unless 0x86 (Fits plen) t
                                        (fixed-Stays plen (read_id2-Stays play_reject))
                                        λ e134.
                                          unless 0x87 (Fits plen) t
                                            (fixed-Stays plen read_round_result-Stays)
                                            λ e135.
                                              unless 0x88 (Fits plen) t
                                                (fixed-Stays plen (read_id2-Stays match_end))
                                                λ e136.
                                                  unless 0x89 (Fits plen) t
                                                    (fixed-Stays plen (read_u32-Stays pong))
                                                    λ e137.
                                                      unless 0x8A (Fits plen) t
                                                        (fixed-Stays plen read_offer-Stays)
                                                        λ e138.
                                                          unless 0x8B (Fits plen) t
                                                            (fixed-Stays plen read_done-Stays)
                                                            λ e139.
                                                            unless 0x8F (Fits plen) t
                                                            (fixed-Stays plen read_error-Stays)
                                                            λ e143.
                                                            unless 0x04 (Fits plen) t
                                                            (fixed-Stays plen (give-Stays 0 leave))
                                                            λ e4.
                                                            rw
                                                            (
                                                            e1, e2, e6, e3, e5, e7, e8, e129, e130,
                                                            e131, e132, e133, e134, e135, e136,
                                                            e137, e138, e139, e143, e4,
                                                            )
                                                            (λ h. refuse-Stays _)

length-take_of : (n : ℕ) (bs : List ℕ) → n ≤ length bs → length (take n bs) ≡ n
length-take_of zero bs h = refl
length-take_of (suc n) [] h = absurd (omega arith)
length-take_of (suc n) (b ∷ bs) h = ap suc (length-take_of n bs (omega arith))

finish_read-within : (r : Read Msg) (n : ℕ) → r ≢ overrun → finish_read r n ≢ out_of_frame
finish_read-within (got m rest) n h e = cc e
finish_read-within refused n h e = cc e
finish_read-within overrun n h e = h refl

decode_frame-within :
    (flen : ℕ) (rest : List ℕ)
    → 1 ≤ flen
    → flen ≤ length rest
    → decode_frame flen rest ≢ out_of_frame
unfolding decode_frame Fits
decode_frame-within flen [] h le = absurd (omega arith)
decode_frame-within flen (type ∷ rest) h le =
    elim (Bool-cases (size_ok (payload_size type) (flen - 1))) [
      | inl e ↦ rw e (
          finish_read-within (read_payload type (flen - 1) (take (flen - 1) rest)) (2 + flen) (
            (read_payload-Stays (flen - 1) type e).within (take (flen - 1) rest)
              (omega (arith, length-take_of (flen - 1) rest (omega arith)))))
      | inr e ↦ rw e λ e'. cc e'
    ]

-- `dw_decode` reads inside the frame whatever the bytes are: no input makes it read past the frame's
-- end, although its reads have no test.
pub decode-in_frame : (buf : List ℕ) → decode buf ≢ out_of_frame
unfolding decode
decode-in_frame [] = λ e. cc e
decode-in_frame (lo ∷ []) = λ e. cc e
decode-in_frame (lo ∷ hi ∷ rest) =
    elim (Bool-cases (ltb (lo + hi * 256) 1 || ltb max_frame_len (lo + hi * 256))) [
      | inl e ↦ rw e λ e'. cc e'
      | inr e ↦ rw e (elim (Bool-cases (ltb (length rest) (lo + hi * 256))) [
        | inl e' ↦ rw e' λ e''. cc e''
        | inr e' ↦
            rw e'
              (decode_frame-within (lo + hi * 256) rest (ground (arith, e)) (ground (arith, e')))
      ])
    ]
