-- ===== src/Wire/Decode.antt =====
-- core/protocol.c: `payload_size` and `dw_decode`.
use deadweight.Prelude.{
  ℕ, ◌+◌, ◌-◌, ◌*◌, List, [], ◌∷◌, Bool, not, ◌&&◌, ◌||◌, ltb, ◌==◌, if◌then◌else◌, none, some,
  length, take,
}
use deadweight.Prelude.{ℤ, pos, negsuc, leb_ℤ, eqb_ℤ}
use deadweight.Wire.Message.{
  Msg, hello, queue, play, leave, ping, auth, draft_pick, draft_resume, welcome, queued,
  match_found, round_start, play_ack, play_reject, round_result, match_end, pong, draft_offer,
  draft_done, error, max_frame_len, max_auth_token, max_token, draft_deck,
}
use deadweight.Wire.Reader.{
  Read, got, refused, overrun, Reader, ◌>>=◌, give, refuse, r8, r16, r32, ri8, rbytes, rcards,
  rname,
}

-- The size of the payload of a type: -2, -3 and -5 stand for HELLO, AUTH and QUEUE, whose sizes vary,
-- and -1 for a type that is not known.
unfoldable pub payload_size : ℕ → ℤ
payload_size t =
    if t == 0x01
    then negsuc 1
    else if t == 0x06
    then negsuc 2
    else if t == 0x02
    then negsuc 4
    else if t == 0x04
    then pos 0
    else if t == 0x07
    then pos 2
    else if t == 0x8A
    then pos 7
    else if t == 0x8B
    then pos (4 + draft_deck)
    else if t == 0x03
    then pos 6
    else if t == 0x08
    then pos draft_deck
    else if t == 0x05
    then pos 4
    else if t == 0x89
    then pos 4
    else if t == 0x81
    then pos 5
    else if t == 0x82
    then pos 2
    else if t == 0x83
    then pos 26
    else if t == 0x84
    then pos 19
    else if t == 0x85
    then pos 5
    else if t == 0x86
    then pos 6
    else if t == 0x87
    then pos 19
    else if t == 0x88
    then pos 6
    else if t == 0x8F
    then pos 1
    else negsuc 0

-- The tests on the size before the payload is read.
unfoldable pub size_ok : ℤ → ℕ → Bool
size_ok ps plen =
    not (eqb_ℤ ps (negsuc 0))
    && not (leb_ℤ (pos 0) ps && not (eqb_ℤ ps (pos plen)))
    && not (eqb_ℤ ps (negsuc 1) && ltb plen 20)
    && not (eqb_ℤ ps (negsuc 2) && ltb plen 2)
    && not (eqb_ℤ ps (negsuc 4) && not (plen == 0 || plen == 1 || plen == 33))

module _ (plen : ℕ) where
  unfoldable pub read_hello : Reader Msg
  unfolding ◌>>=◌ give refuse
  read_hello = do
    proto ← r8
    mode ← r8
    kind ← r8
    name ← rname
    token_len ← r8
    if ltb max_token token_len || not (token_len == plen - 20)
        then refuse
        else do token ← rbytes token_len; give (hello proto mode kind name token)

  unfoldable pub read_auth : Reader Msg
  unfolding ◌>>=◌ give refuse
  read_auth = do
    token_len ← r16
    if ltb max_auth_token token_len || not (token_len == plen - 2)
        then refuse
        else do token ← rbytes token_len; give (auth token)

  -- `plen` is 0, 1 or 33 here.
  unfoldable pub read_queue : Reader Msg
  unfolding ◌>>=◌ give
  read_queue = if plen == 0 then give (queue 0 none) else do
    b ← r8
    let same_deck : ℕ = if b == 0 then 0 else 1
    if plen == 33
        then (do token ← rbytes 32; give (queue same_deck (some token)))
        else give (queue same_deck none)

unfoldable pub read_round_start : Reader Msg
unfolding ◌>>=◌ give
read_round_start = do
  round ← r8
  hull_you ← ri8
  hull_opp ← ri8
  energy_you ← r8
  energy_opp ← r8
  hand ← rcards 4
  opp_hand_size ← r8
  deadline_ms ← r16
  armor_you ← r8
  armor_opp ← r8
  vault_you ← ri8
  vault_opp ← ri8
  lock_mask ← r8
  status_you ← r8
  status_opp ← r8
  give (
      round_start (record {
        round = round;
        hull_you = hull_you;
        hull_opp = hull_opp;
        energy_you = energy_you;
        energy_opp = energy_opp;
        hand = hand;
        opp_hand_size = opp_hand_size;
        deadline_ms = deadline_ms;
        armor_you = armor_you;
        armor_opp = armor_opp;
        vault_you = vault_you;
        vault_opp = vault_opp;
        lock_mask = lock_mask;
        status_you = status_you;
        status_opp = status_opp;
      }))

unfoldable pub read_round_result : Reader Msg
unfolding ◌>>=◌ give
read_round_result = do
  round ← r8
  card_you ← ri8
  card_opp ← ri8
  dmg_you ← r8
  dmg_opp ← r8
  hull_you ← ri8
  hull_opp ← ri8
  eff_you ← ri8
  eff_opp ← ri8
  armor_you ← r8
  armor_opp ← r8
  vault_you ← ri8
  vault_opp ← ri8
  heal_you ← r8
  heal_opp ← r8
  roll_you ← r8
  roll_opp ← r8
  flags_you ← r8
  flags_opp ← r8
  give (
      round_result (record {
        round = round;
        card_you = card_you;
        card_opp = card_opp;
        dmg_you = dmg_you;
        dmg_opp = dmg_opp;
        hull_you = hull_you;
        hull_opp = hull_opp;
        eff_you = eff_you;
        eff_opp = eff_opp;
        armor_you = armor_you;
        armor_opp = armor_opp;
        vault_you = vault_you;
        vault_opp = vault_opp;
        heal_you = heal_you;
        heal_opp = heal_opp;
        roll_you = roll_you;
        roll_opp = roll_opp;
        flags_you = flags_you;
        flags_opp = flags_opp;
      }))

unfoldable pub read_play : Reader Msg
unfolding ◌>>=◌ give
read_play = do match_id ← r32; round ← r8; slot ← ri8; give (play match_id round slot)

unfoldable pub read_match_found : Reader Msg
unfolding ◌>>=◌ give
read_match_found = do
  match_id ← r32
  seed ← r32
  seat ← r8
  opp_name ← rname
  opp_kind ← r8
  give (match_found match_id seed seat opp_name opp_kind)

unfoldable pub read_offer : Reader Msg
unfolding ◌>>=◌ give
read_offer = do
  pick_no ← r8
  total ← r8
  card0 ← ri8
  card1 ← ri8
  left1 ← r8
  left2 ← r8
  left3 ← r8
  give (draft_offer pick_no total card0 card1 left1 left2 left3)

-- An id and two bytes.
unfoldable pub read_id2 : (ℕ → ℕ → ℕ → Msg) → Reader Msg
unfolding ◌>>=◌ give
read_id2 make = do id ← r32; a ← r8; b ← r8; give (make id a b)

-- An id and a byte.
unfoldable pub read_id1 : (ℕ → ℕ → Msg) → Reader Msg
unfolding ◌>>=◌ give
read_id1 make = do id ← r32; a ← r8; give (make id a)

unfoldable pub read_u32 : (ℕ → Msg) → Reader Msg
unfolding ◌>>=◌ give
read_u32 make = do v ← r32; give (make v)

unfoldable pub read_pick : Reader Msg
unfolding ◌>>=◌ give
read_pick = do index ← r8; mult ← r8; give (draft_pick index mult)

unfoldable pub read_resume : Reader Msg
unfolding ◌>>=◌ give
read_resume = do cards ← rcards draft_deck; give (draft_resume cards)

unfoldable pub read_done : Reader Msg
unfolding ◌>>=◌ give
read_done = do id ← r32; cards ← rcards draft_deck; give (draft_done id cards)

unfoldable pub read_queued : Reader Msg
unfolding ◌>>=◌ give
read_queued = do waiting ← r16; give (queued waiting)

unfoldable pub read_error : Reader Msg
unfolding ◌>>=◌ give
read_error = do code ← r8; give (error code)

-- The `switch` over the type.
unfoldable pub read_payload : ℕ → ℕ → Reader Msg
unfolding give refuse
read_payload t plen =
    if t == 0x01
    then read_hello plen
    else if t == 0x02
    then read_queue plen
    else if t == 0x04
    then give leave
    else if t == 0x07
    then read_pick
    else if t == 0x08
    then read_resume
    else if t == 0x8A
    then read_offer
    else if t == 0x8B
    then read_done
    else if t == 0x06
    then read_auth plen
    else if t == 0x03
    then read_play
    else if t == 0x05
    then read_u32 ping
    else if t == 0x89
    then read_u32 pong
    else if t == 0x81
    then read_id1 welcome
    else if t == 0x82
    then read_queued
    else if t == 0x83
    then read_match_found
    else if t == 0x84
    then read_round_start
    else if t == 0x85
    then read_id1 play_ack
    else if t == 0x86
    then read_id2 play_reject
    else if t == 0x87
    then read_round_result
    else if t == 0x88
    then read_id2 match_end
    else if t == 0x8F
    then read_error
    else refuse

-- The results 0, -1 and 1, the last with the message and `*consumed`. `out_of_frame` is a read past
-- the end of the frame.
pub data Decoded : Type 0 where
  need_more malformed out_of_frame : Decoded
  decoded : Msg → ℕ → Decoded

abbrev pub finish_read : Read Msg → ℕ → Decoded
finish_read (got m rest) consumed = decoded m consumed
finish_read refused consumed = malformed
finish_read overrun consumed = out_of_frame

-- A whole frame of `flen` bytes: the type and the payload.
unfoldable pub decode_frame : ℕ → List ℕ → Decoded
decode_frame flen [] = out_of_frame
decode_frame flen (type ∷ rest) =
    if size_ok (payload_size type) (flen - 1)
    then finish_read (read_payload type (flen - 1) (take (flen - 1) rest)) (2 + flen)
    else malformed

unfoldable pub decode : List ℕ → Decoded
decode [] = need_more
decode (lo ∷ []) = need_more
decode (lo ∷ hi ∷ rest) =
    let flen = lo + hi * 256 in
    if ltb flen 1 || ltb max_frame_len flen
    then malformed
    else if ltb (length rest) flen
    then need_more
    else decode_frame flen rest
