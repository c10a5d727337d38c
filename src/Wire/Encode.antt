-- ===== src/Wire/Encode.antt =====
-- core/protocol.c: `dw_encode`.
use deadweight.Prelude.{
  ℕ, ◌-◌, ◌/◌, ◌%◌, List, [], false, ◌||◌, ltb, ◌==◌, if◌then◌else◌, Option, none, some, length,
  set,
}
use deadweight.Wire.Message.{
  Msg, hello, queue, play, leave, ping, auth, draft_pick, draft_resume, welcome, queued,
  match_found, round_start, play_ack, play_reject, round_result, match_end, pong, draft_offer,
  draft_done, error, unknown, RoundStart, RoundResult, type_of, max_frame_len, max_auth_token,
  max_token,
}
use deadweight.Wire.Writer.{W, w8, w16, w32, wi8, wbytes, wcards, wname}

unfoldable pub write_round_start : RoundStart → W → W
write_round_start r w = w8 r.status_opp (
    w8 r.status_you (
      w8 r.lock_mask (
        wi8 r.vault_opp (
          wi8 r.vault_you (
            w8 r.armor_opp (
              w8 r.armor_you (
                w16 r.deadline_ms (
                  w8 r.opp_hand_size (
                    wcards r.hand (
                      w8 r.energy_opp
                        (w8 r.energy_you (wi8 r.hull_opp (wi8 r.hull_you (w8 r.round w))))))))))))))

unfoldable pub write_round_result : RoundResult → W → W
write_round_result r w = w8 r.flags_opp (
    w8 r.flags_you (
      w8 r.roll_opp (
        w8 r.roll_you (
          w8 r.heal_opp (
            w8 r.heal_you (
              wi8 r.vault_opp (
                wi8 r.vault_you (
                  w8 r.armor_opp (
                    w8 r.armor_you (
                      wi8 r.eff_opp (
                        wi8 r.eff_you (
                          wi8 r.hull_opp (
                            wi8 r.hull_you (
                              w8 r.dmg_opp (
                                w8 r.dmg_you
                                  (wi8 r.card_opp (wi8 r.card_you (w8 r.round w))))))))))))))))))

-- What the `switch` writes; `none` is an early `return -1`.
unfoldable pub write_payload : Msg → W → Option W
write_payload (hello proto mode kind name token) w =
    if ltb max_token (length token)
    then none
    else some (wbytes token (w8 (length token) (wname name (w8 kind (w8 mode (w8 proto w))))))
write_payload (queue same_deck (some match_token)) w = some (wbytes match_token (w8 same_deck w))
write_payload (queue same_deck none) w = if same_deck == 0 then some w else some (w8 1 w)
write_payload (play match_id round slot) w = some (wi8 slot (w8 round (w32 match_id w)))
write_payload leave w = some w
write_payload (ping nonce) w = some (w32 nonce w)
write_payload (auth token) w =
    if ltb max_auth_token (length token) then none else some (wbytes token (w16 (length token) w))
write_payload (draft_pick index mult) w = some (w8 mult (w8 index w))
write_payload (draft_resume cards) w = some (wcards cards w)
write_payload (welcome session_id flags) w = some (w8 flags (w32 session_id w))
write_payload (queued waiting) w = some (w16 waiting w)
write_payload (match_found match_id seed seat opp_name opp_kind) w =
    some (w8 opp_kind (wname opp_name (w8 seat (w32 seed (w32 match_id w)))))
write_payload (round_start r) w = some (write_round_start r w)
write_payload (play_ack match_id round) w = some (w8 round (w32 match_id w))
write_payload (play_reject match_id round reason) w = some (w8 reason (w8 round (w32 match_id w)))
write_payload (round_result r) w = some (write_round_result r w)
write_payload (match_end match_id result reason) w = some (w8 reason (w8 result (w32 match_id w)))
write_payload (pong nonce) w = some (w32 nonce w)
write_payload (draft_offer pick_no total card0 card1 left1 left2 left3) w =
    some (w8 left3 (w8 left2 (w8 left1 (wi8 card1 (wi8 card0 (w8 total (w8 pick_no w)))))))
write_payload (draft_done deck_id cards) w = some (wcards cards (w32 deck_id w))
write_payload (error code) w = some (w8 code w)
write_payload (unknown type) w = none

-- The end of `dw_encode`: the length is patched in.
unfoldable pub close_frame : W → Option (List ℕ)
close_frame w =
    let len : ℕ = length w.bytes - 2 in
    if w.bad || ltb max_frame_len len
    then none
    else some (set (set w.bytes 0 (len % 256)) 1 (len / 256))

abbrev pub close_written : Option W → Option (List ℕ)
close_written none = none
close_written (some w) = close_frame w

-- The frame of a message in a buffer of `cap` bytes; `none` is the result -1.
unfoldable pub encode : Msg → ℕ → Option (List ℕ)
encode m cap =
    close_written
      (write_payload m (w8 (type_of m) (w16 0 (record { cap = cap; bytes = []; bad = false }))))
