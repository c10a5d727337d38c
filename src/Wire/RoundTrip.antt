-- ===== src/Wire/RoundTrip.antt =====
-- What `dw_encode` of core/protocol.c writes, `dw_decode` reads back.
use deadweight.Prelude.{
  ℕ, zero, suc, ◌+◌, ◌-◌, ◌*◌, ◌/◌, ◌%◌, ◌≤◌, ◌≡◌, refl, sym, ◌∙◌, ap, subst, arith, List, [], ◌∷◌,
  ◌++◌, true, false, ltb, not, ◌||◌, ◌==◌, Option, none, some, length, length-append, take,
}
use deadweight.Prelude.{ℤ}
use deadweight.Wire.Message.{
  Msg, hello, queue, play, leave, ping, auth, draft_pick, draft_resume, welcome, queued,
  match_found, round_start, play_ack, play_reject, round_result, match_end, pong, draft_offer,
  draft_done, error, unknown, type_of, RoundStart, RoundResult,
}
use deadweight.Wire.Reader.{got, ◌>>=◌, give, r8, r16, ri8}
use deadweight.Wire.Decode.{
  payload_size, size_ok, read_payload, read_hello, read_auth, read_queue, read_round_start,
  read_round_result, read_play, read_match_found, read_offer, read_id2, read_id1, read_u32,
  read_pick, read_resume, read_done, read_queued, read_error, decode, decode_frame, decoded,
}
use deadweight.Wire.Payload.{payload, IsValid, IsU8, IsU32, card_bytes, name_bytes, le32}
use deadweight.Wire.Frame.{
  low, length-low, length-card_bytes, frame, frame_size, payload_short, length-name_bytes,
  encode-frame,
}
use deadweight.Wire.Reads.{
  u8_back, i8_back, u16_back, r32-low, low-append, rbytes-low_all, rcards-low_all, rcards-low,
  rname-low,
}
use deadweight.Wire.Encode.{encode}

-- Reads of the fixed messages, from the stored payload.
read_round_start-low :
    (r : RoundStart)
    → IsValid (round_start r)
    → read_round_start (low (payload (round_start r))) ≡ got (round_start r) []
unfolding read_round_start ◌>>=◌ give r8 ri8 r16 payload
read_round_start-low r v = rw (low-append (card_bytes r.hand)) (
    rw (rcards-low 4 r.hand _ v.5) (
      cc (
        u8_back r.round v.0,
        i8_back r.hull_you v.1,
        i8_back r.hull_opp v.2,
        u8_back r.energy_you v.3,
        u8_back r.energy_opp v.4,
        u8_back r.opp_hand_size v.6,
        u16_back r.deadline_ms v.7,
        u8_back r.armor_you v.8,
        u8_back r.armor_opp v.9,
        i8_back r.vault_you v.10,
        i8_back r.vault_opp v.11,
        u8_back r.lock_mask v.12,
        u8_back r.status_you v.13,
        u8_back r.status_opp v.14,
      )))

read_round_result-low :
    (r : RoundResult)
    → IsValid (round_result r)
    → read_round_result (low (payload (round_result r))) ≡ got (round_result r) []
unfolding read_round_result ◌>>=◌ give r8 ri8 payload
read_round_result-low r v = cc (
  u8_back r.round v.0,
  i8_back r.card_you v.1,
  i8_back r.card_opp v.2,
  u8_back r.dmg_you v.3,
  u8_back r.dmg_opp v.4,
  i8_back r.hull_you v.5,
  i8_back r.hull_opp v.6,
  i8_back r.eff_you v.7,
  i8_back r.eff_opp v.8,
  u8_back r.armor_you v.9,
  u8_back r.armor_opp v.10,
  i8_back r.vault_you v.11,
  i8_back r.vault_opp v.12,
  u8_back r.heal_you v.13,
  u8_back r.heal_opp v.14,
  u8_back r.roll_you v.15,
  u8_back r.roll_opp v.16,
  u8_back r.flags_you v.17,
  u8_back r.flags_opp v.18,
)

read_hello-low :
    (proto mode kind : ℕ) (name token : List ℕ)
    → IsValid (hello proto mode kind name token)
    → read_hello
        (length (payload (hello proto mode kind name token)))
        (low (payload (hello proto mode kind name token)))
      ≡ got (hello proto mode kind name token) []
unfolding read_hello ◌>>=◌ give r8 payload
read_hello-low proto mode kind name token v =
    let size : length (payload (hello proto mode kind name token)) ≡ 20 + length token =
      omega (
        arith,
        length-append {0} (name_bytes name) (length token ∷ token),
        length-name_bytes name,
      ) in
    let test : (ltb 200 (length token % 256)
          || not (length token % 256 == length (payload (hello proto mode kind name token)) - 20))
        ≡ false =
      ground (arith, size, v.5) in
    rw (low-append (name_bytes name)) (
      rw (rname-low name _ v.3) (
        rw test (
          rw (rbytes-low_all (length token % 256) token v.4 (omega (arith, v.5)))
            (cc (u8_back proto v.0, u8_back mode v.1, u8_back kind v.2)))))

read_match_found-low :
    (match_id seed seat : ℕ) (opp_name : List ℕ) (opp_kind : ℕ)
    → IsValid (match_found match_id seed seat opp_name opp_kind)
    → read_match_found (low (payload (match_found match_id seed seat opp_name opp_kind)))
      ≡ got (match_found match_id seed seat opp_name opp_kind) []
unfolding read_match_found ◌>>=◌ give r8 payload
read_match_found-low match_id seed seat opp_name opp_kind v =
    rw (low-append (name_bytes opp_name)) (
      rw (r32-low match_id _ v.0) (
        rw (r32-low seed _ v.1)
          (rw (rname-low opp_name _ v.3) (cc (u8_back seat v.2, u8_back opp_kind v.4)))))

read_play-low :
    (match_id round : ℕ) (slot : ℤ)
    → IsValid (play match_id round slot)
    → read_play (low (payload (play match_id round slot))) ≡ got (play match_id round slot) []
unfolding read_play ◌>>=◌ give r8 ri8 payload
read_play-low match_id round slot v =
    rw (r32-low match_id _ v.0) (cc (u8_back round v.1, i8_back slot v.2))

read_auth-low :
    (token : List ℕ)
    → IsValid (auth token)
    → read_auth (length (payload (auth token))) (low (payload (auth token))) ≡ got (auth token) []
unfolding read_auth ◌>>=◌ give r16 r8 payload
read_auth-low token v =
    let test : (ltb 900 (length token) || not (length token == length (payload (auth token)) - 2))
        ≡ false =
      ground (arith, v.1) in
    rw (u16_back (length token) (omega (arith, v.1)))
      (rw test (rw (rbytes-low_all (length token) token v.0 refl) refl))

read_queue-low :
    (same_deck : ℕ) (match_token : Option (List ℕ))
    → IsValid (queue same_deck match_token)
    → read_queue
        (length (payload (queue same_deck match_token)))
        (low (payload (queue same_deck match_token)))
      ≡ got (queue same_deck match_token) []
unfolding read_queue ◌>>=◌ give r8 payload
read_queue-low zero none v = refl
read_queue-low (suc zero) none v = refl
read_queue-low (suc (suc n)) none v = absurd (omega arith)
read_queue-low zero (some token) v = rw v.2 (rw (rbytes-low_all 32 token v.1 v.2) refl)
read_queue-low (suc zero) (some token) v = rw v.2 (rw (rbytes-low_all 32 token v.1 v.2) refl)
read_queue-low (suc (suc n)) (some token) v = absurd (omega (arith, v.0))

read_id1-low :
    (make : ℕ → ℕ → Msg) (id a : ℕ)
    → IsU32 id
    → IsU8 a
    → read_id1 make (low (le32 id (a ∷ []))) ≡ got (make id a) []
unfolding read_id1 ◌>>=◌ give r8
read_id1-low make id a h k = rw (r32-low id _ h) (rw (u8_back a k) refl)

read_id2-low :
    (make : ℕ → ℕ → ℕ → Msg) (id a b : ℕ)
    → IsU32 id
    → IsU8 a
    → IsU8 b
    → read_id2 make (low (le32 id (a ∷ b ∷ []))) ≡ got (make id a b) []
unfolding read_id2 ◌>>=◌ give r8
read_id2-low make id a b h k l = rw (r32-low id _ h) (rw (u8_back a k) (rw (u8_back b l) refl))

read_u32-low :
    (make : ℕ → Msg) (v : ℕ) → IsU32 v → read_u32 make (low (le32 v [])) ≡ got (make v) []
unfolding read_u32 ◌>>=◌ give
read_u32-low make v h = rw (r32-low v [] h) refl

-- The `switch` reads back the payload of each message.
read_payload-low :
    (m : Msg)
    → IsValid m
    → read_payload (type_of m % 256) (length (payload m)) (low (payload m)) ≡ got m []
unfolding read_payload
read_payload-low (hello proto mode kind name token) v = read_hello-low proto mode kind name token v
read_payload-low (queue same_deck match_token) v = read_queue-low same_deck match_token v
read_payload-low (play match_id round slot) v = read_play-low match_id round slot v
read_payload-low leave v = unfold payload give in refl
read_payload-low (ping nonce) v = unfold payload in read_u32-low ping nonce v
read_payload-low (auth token) v = read_auth-low token v
read_payload-low (draft_pick index mult) v =
    unfold payload read_pick r8 ◌>>=◌ give in cc (u8_back index v.0, u8_back mult v.1)
read_payload-low (draft_resume cards) v =
    unfold payload read_resume ◌>>=◌ give in rw (rcards-low_all 23 cards v) refl
read_payload-low (welcome session_id flags) v =
    unfold payload in read_id1-low welcome session_id flags v.0 v.1
read_payload-low (queued waiting) v =
    unfold payload read_queued r16 r8 ◌>>=◌ give in cc (u16_back waiting v)
read_payload-low (match_found match_id seed seat opp_name opp_kind) v =
    read_match_found-low match_id seed seat opp_name opp_kind v
read_payload-low (round_start r) v = read_round_start-low r v
read_payload-low (play_ack match_id round) v =
    unfold payload in read_id1-low play_ack match_id round v.0 v.1
read_payload-low (play_reject match_id round reason) v =
    unfold payload in read_id2-low play_reject match_id round reason v.0 v.1 v.2
read_payload-low (round_result r) v = read_round_result-low r v
read_payload-low (match_end match_id result reason) v =
    unfold payload in read_id2-low match_end match_id result reason v.0 v.1 v.2
read_payload-low (pong nonce) v = unfold payload in read_u32-low pong nonce v
read_payload-low (draft_offer pick_no total card0 card1 left1 left2 left3) v =
    unfold payload read_offer r8 ri8 ◌>>=◌ give in
    cc (
      u8_back pick_no v.0,
      u8_back total v.1,
      i8_back card0 v.2,
      i8_back card1 v.3,
      u8_back left1 v.4,
      u8_back left2 v.5,
      u8_back left3 v.6,
    )
read_payload-low (draft_done deck_id cards) v =
    unfold payload read_done ◌>>=◌ give in
    rw (r32-low deck_id _ v.0) (rw (rcards-low_all 23 cards v.1) refl)
read_payload-low (error code) v = unfold payload read_error r8 ◌>>=◌ give in cc (u8_back code v)
read_payload-low (unknown type) v = absurd v

size_ok-payload :
    (m : Msg) → IsValid m → size_ok (payload_size (type_of m % 256)) (length (payload m)) ≡ true
unfolding size_ok payload_size payload
size_ok-payload (hello proto mode kind name token) v =
    ground
      (arith, length-append {0} (name_bytes name) (length token ∷ token), length-name_bytes name)
size_ok-payload (queue same_deck (some match_token)) v = rw v.2 refl
size_ok-payload (queue same_deck none) v = ground arith
size_ok-payload (play match_id round slot) v = refl
size_ok-payload leave v = refl
size_ok-payload (ping nonce) v = refl
size_ok-payload (auth token) v = ground arith
size_ok-payload (draft_pick index mult) v = refl
size_ok-payload (draft_resume cards) v = rw (length-card_bytes 23 cards v) refl
size_ok-payload (welcome session_id flags) v = refl
size_ok-payload (queued waiting) v = refl
size_ok-payload (match_found match_id seed seat opp_name opp_kind) v =
    ground
      (arith, length-append {0} (name_bytes opp_name) (opp_kind ∷ []), length-name_bytes opp_name)
size_ok-payload (round_start r) v =
    let size : length (payload (round_start r)) ≡ 19 =
      omega (arith, length-card_bytes 4 r.hand v.5, length-append {0} (card_bytes r.hand) _) in
    rw size refl
size_ok-payload (play_ack match_id round) v = refl
size_ok-payload (play_reject match_id round reason) v = refl
size_ok-payload (round_result r) v = refl
size_ok-payload (match_end match_id result reason) v = refl
size_ok-payload (pong nonce) v = refl
size_ok-payload (draft_offer pick_no total card0 card1 left1 left2 left3) v = refl
size_ok-payload (draft_done deck_id cards) v = rw (length-card_bytes 23 cards v.1) refl
size_ok-payload (error code) v = refl
size_ok-payload (unknown type) v = absurd v

take-append : (bs rest : List ℕ) → take (length bs) (bs ++ rest) ≡ bs
take-append [] rest = refl
take-append (b ∷ bs) rest = ap (λ (t : List ℕ). b ∷ t) (take-append bs rest)

decode_frame-frame :
    (m : Msg) (rest : List ℕ)
    → IsValid m
    → decode_frame (suc (length (payload m))) (type_of m % 256 ∷ (low (payload m) ++ rest))
      ≡ decoded m (3 + length (payload m))
unfolding decode_frame
decode_frame-frame m rest v =
    let cut : take (length (payload m)) (low (payload m) ++ rest) ≡ low (payload m) =
      subst (λ (n : ℕ). take n (low (payload m) ++ rest) ≡ low (payload m)) (length-low (payload m))
        (take-append (low (payload m)) rest) in
    let one : suc (length (payload m)) - 1 ≡ length (payload m) = omega arith in
    rw (one, size_ok-payload m v, cut, read_payload-low m v) (ap (decoded m) (omega arith))

decode-frame :
    (m : Msg) (rest : List ℕ) → IsValid m → decode (frame m ++ rest) ≡ decoded m (frame_size m)
unfolding decode frame frame_size
decode-frame m rest v =
    let len : (1 + length (payload m)) % 256 + (1 + length (payload m)) / 256 * 256
        ≡ suc (length (payload m)) =
      omega arith in
    let size : length (low (payload m) ++ rest) ≡ length (payload m) + length rest =
      omega (arith, length-append {0} (low (payload m)) rest, length-low (payload m)) in
    let large : (ltb (suc (length (payload m))) 1 || ltb 1024 (suc (length (payload m)))) ≡ false =
      ground (arith, payload_short m v) in
    let whole : ltb (suc (length (low (payload m) ++ rest))) (suc (length (payload m))) ≡ false =
      ground (arith, size) in
    rw (len, large, whole) (decode_frame-frame m rest v)

length-frame : (m : Msg) → length (frame m) ≡ frame_size m
unfolding frame frame_size
length-frame m = omega (arith, length-low (payload m))

-- A valid message that is encoded, whatever bytes follow it, is decoded to itself, and just its frame
-- is consumed.
pub decode-encode :
    (m : Msg) (cap : ℕ) (rest : List ℕ)
    → IsValid m
    → frame_size m ≤ cap
    → (out : List ℕ) × (encode m cap ≡ some out) × (decode (out ++ rest) ≡ decoded m (length out))
decode-encode m cap rest v fits = (
  frame m,
  (encode-frame m cap v).0 fits,
  decode-frame m rest v ∙ ap (decoded m) (sym (length-frame m)),
)
