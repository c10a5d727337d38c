-- ===== src/Wire/Frame.antt =====
-- What `dw_encode` of core/protocol.c leaves in the buffer: a frame, or -1 if it does not fit.
use deadweight.Prelude.{
  ℕ, zero, suc, ◌+◌, ◌-◌, ◌/◌, ◌%◌, ◌≤◌, ◌<◌, ◌≡◌, refl, ◌∙◌, ap, arith, List, [], ◌∷◌, ◌++◌, true,
  false, Bool-cases, inl, inr, ltb, none, some, length, length-append, replicate,
}
use deadweight.Wire.Message.{
  Msg, hello, queue, play, leave, ping, auth, draft_pick, draft_resume, welcome, queued,
  match_found, round_start, play_ack, play_reject, round_result, match_end, pong, draft_offer,
  draft_done, error, unknown, type_of,
}
use deadweight.Prelude.{ℤ}
use deadweight.Wire.Writer.{W, w8, w16, wbytes, cstr, pad}
use deadweight.Wire.Encode.{close_frame, close_written, encode}
use deadweight.Wire.Payload.{
  payload, write_payload-bytes, IsValid, AreCards, card_bytes, name_bytes,
}

-- The bytes as they are stored.
abbrev pub low : List ℕ → List ℕ
low [] = []
low (b ∷ bs) = b % 256 ∷ low bs

pub length-low : (bs : List ℕ) → length (low bs) ≡ length bs
length-low [] = refl
length-low (b ∷ bs) = ap suc (length-low bs)

append_nil : (bs : List ℕ) → bs ++ [] ≡ bs
append_nil [] = refl
append_nil (b ∷ bs) = ap (λ cs. b ∷ cs) (append_nil bs)

append_one : (ps : List ℕ) (b : ℕ) (bs : List ℕ) → (ps ++ (b ∷ [])) ++ bs ≡ ps ++ (b ∷ bs)
append_one [] b bs = refl
append_one (p ∷ ps) b bs = ap (λ cs. p ∷ cs) (append_one ps b bs)

w8_fits :
    (v : ℕ) (w : W)
    → length w.bytes + 1 ≤ w.cap
    → w8 v w ≡ record w { bytes = w.bytes ++ (v % 256 ∷ []) }
unfolding w8
w8_fits v w h = ground arith

wbytes_fits :
    (bs : List ℕ) (w : W)
    → length w.bytes + length bs ≤ w.cap
    → wbytes bs w ≡ record w { bytes = w.bytes ++ low bs }
unfolding wbytes
wbytes_fits [] w h = rw (append_nil w.bytes) refl
wbytes_fits (b ∷ bs) w h = rw (w8_fits b w (omega arith)) (
    wbytes_fits bs (record w { bytes = w.bytes ++ (b % 256 ∷ []) })
      (omega (arith, length-append {0} w.bytes (b % 256 ∷ [])))
    ∙ rw (append_one w.bytes (b % 256) (low bs)) refl)

w8-bad : (v : ℕ) (w : W) → w.bad ≡ true → (w8 v w).bad ≡ true
unfolding w8
w8-bad v w h = ground arith

wbytes-bad : (bs : List ℕ) (w : W) → w.bad ≡ true → (wbytes bs w).bad ≡ true
unfolding wbytes
wbytes-bad [] w h = h
wbytes-bad (b ∷ bs) w h = wbytes-bad bs (w8 b w) (w8-bad b w h)

w8_full : (v : ℕ) (w : W) → w.cap < length w.bytes + 1 → (w8 v w).bad ≡ true
unfolding w8
w8_full v w h = ground arith

wbytes_full :
    (bs : List ℕ) (w : W)
    → length w.bytes ≤ w.cap
    → w.cap < length w.bytes + length bs
    → (wbytes bs w).bad ≡ true
unfolding wbytes
wbytes_full [] w le h = absurd (omega arith)
wbytes_full (b ∷ bs) w le h = elim (Bool-cases (ltb w.cap (length w.bytes + 1))) [
  | inl y ↦ wbytes-bad bs (w8 b w) (w8_full b w (ground (arith, y)))
  | inr n ↦
      rw (w8_fits b w (ground (arith, n)), wbytes)
        (wbytes_full bs (record w { bytes = w.bytes ++ (b % 256 ∷ []) })
          (ground (arith, n, length-append {0} w.bytes (b % 256 ∷ [])))
          (omega (arith, length-append {0} w.bytes (b % 256 ∷ []))))
]

-- The length of a message's frame.
unfoldable pub frame_size : Msg → ℕ
frame_size m = 3 + length (payload m)

pub length-card_bytes : (n : ℕ) (cs : List ℤ) → AreCards n cs → length (card_bytes cs) ≡ n
length-card_bytes n [] h = omega arith
length-card_bytes zero (c ∷ cs) h = absurd h
length-card_bytes (suc n) (c ∷ cs) h = ap suc (length-card_bytes n cs h.1)

length-zeros : (n : ℕ) → length (replicate n (◌+◌ 0 0)) ≡ n
length-zeros zero = refl
length-zeros (suc n) = ap suc (length-zeros n)

length-cstr : (n : ℕ) (s : List ℕ) → length (cstr n s) ≤ n
unfolding cstr
length-cstr zero s = omega arith
length-cstr (suc n) [] = omega arith
length-cstr (suc n) (c ∷ s) = ground (arith, length-cstr n s)

pub length-name_bytes : (s : List ℕ) → length (name_bytes s) ≡ 16
unfolding pad
length-name_bytes s = omega (
  arith,
  length-append {0} (cstr 16 s) (replicate (16 - length (cstr 16 s)) 0),
  length-zeros (16 - length (cstr 16 s)),
  length-cstr 16 s,
)

-- A valid message fits the largest frame.
pub payload_short : (m : Msg) → IsValid m → length (payload m) ≤ 1023
unfolding payload
payload_short (hello proto mode kind name token) v =
    omega (
      arith,
      v.5,
      length-append {0} (name_bytes name) (length token ∷ token),
      length-name_bytes name,
    )
payload_short (queue same_deck (some match_token)) v = omega (arith, v.2)
payload_short (queue same_deck none) v = ground arith
payload_short (play match_id round slot) v = omega arith
payload_short leave v = omega arith
payload_short (ping nonce) v = omega arith
payload_short (auth token) v = omega (arith, v.1)
payload_short (draft_pick index mult) v = omega arith
payload_short (draft_resume cards) v = omega (arith, length-card_bytes 23 cards v)
payload_short (welcome session_id flags) v = omega arith
payload_short (queued waiting) v = omega arith
payload_short (match_found match_id seed seat opp_name opp_kind) v =
    omega
      (arith, length-append {0} (name_bytes opp_name) (opp_kind ∷ []), length-name_bytes opp_name)
payload_short (round_start r) v =
    omega (arith, length-card_bytes 4 r.hand v.5, length-append {0} (card_bytes r.hand) _)
payload_short (play_ack match_id round) v = omega arith
payload_short (play_reject match_id round reason) v = omega arith
payload_short (round_result r) v = omega arith
payload_short (match_end match_id result reason) v = omega arith
payload_short (pong nonce) v = omega arith
payload_short (draft_offer pick_no total card0 card1 left1 left2 left3) v = omega arith
payload_short (draft_done deck_id cards) v = omega (arith, length-card_bytes 23 cards v.1)
payload_short (error code) v = omega arith
payload_short (unknown type) v = absurd v

-- The frame of a message: the length, the type and the payload.
unfoldable pub frame : Msg → List ℕ
frame m =
    let len = 1 + length (payload m) in len % 256 ∷ len / 256 ∷ type_of m % 256 ∷ low (payload m)

-- The writer before the payload, without room for the header or with it.
abbrev blank : ℕ → W
blank cap = record { cap = cap; bytes = []; bad = false }

encode-written :
    (m : Msg) (cap : ℕ)
    → IsValid m
    → encode m cap ≡ close_frame (wbytes (0 ∷ 0 ∷ type_of m ∷ payload m) (blank cap))
unfolding encode wbytes w16
encode-written m cap v = ap close_written (write_payload-bytes m _ v)

encode_fits : (m : Msg) (cap : ℕ) → IsValid m → frame_size m ≤ cap → encode m cap ≡ some (frame m)
unfolding frame_size frame
encode_fits m cap v h =
    encode-written m cap v
    ∙ rw (wbytes_fits (0 ∷ 0 ∷ type_of m ∷ payload m) (blank cap) (omega arith))
        (unfold close_frame in ground (arith, length-low (payload m), payload_short m v))

encode_full : (m : Msg) (cap : ℕ) → IsValid m → cap < frame_size m → encode m cap ≡ none
unfolding frame_size
encode_full m cap v h =
    encode-written m cap v
    ∙ unfold close_frame in
      ground
        (arith, wbytes_full (0 ∷ 0 ∷ type_of m ∷ payload m) (blank cap) (omega arith) (omega arith))

-- `dw_encode` writes the frame of a valid message if the buffer has room for it, and else fails.
pub encode-frame :
    (m : Msg) (cap : ℕ)
    → IsValid m
    → (frame_size m ≤ cap → encode m cap ≡ some (frame m))
      × (cap < frame_size m → encode m cap ≡ none)
encode-frame m cap v = (encode_fits m cap v, encode_full m cap v)
