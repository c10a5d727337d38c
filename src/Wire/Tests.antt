-- ===== src/Wire/Tests.antt =====
-- Messages, their frames, and the theorems on them.
use deadweight.Prelude.{
  ℕ, ◌+◌, ◌≤◌, ◌<◌, ◌≡◌, ◌≢◌, refl, List, [], ◌∷◌, ◌++◌, none, some, length, arith, replicate, u8,
  i8,
}
use deadweight.Prelude.{negsuc}
use deadweight.Wire.Message.{Msg, play, max_frame_len}
use deadweight.Wire.Writer.{w8, w16, w32, wi8}
use deadweight.Wire.Encode.{encode, write_payload, close_frame}
use deadweight.Wire.Payload.{payload, IsValid}
use deadweight.Wire.Frame.{frame, frame_size, encode-frame}
use deadweight.Wire.Reader.{◌>>=◌, give, r8, r16, r32, ri8}
use deadweight.Wire.Decode.{
  decode, decode_frame, size_ok, payload_size, read_payload, read_play, need_more, malformed,
  decoded, out_of_frame,
}
use deadweight.Wire.RoundTrip.{decode-encode}
use deadweight.Wire.InFrame.{decode-in_frame}
use deadweight.Wire.Stream.{decode-consumed, decode-more, decode-full}

-- Slot -1 passes.
abbrev pass_round : Msg
pass_round = play 70000 2 (negsuc 0)

abbrev pass_bytes : List ℕ
pass_bytes = 7 ∷ 0 ∷ 3 ∷ 112 ∷ 17 ∷ 1 ∷ 0 ∷ 2 ∷ 255 ∷ []

encode_pass : encode pass_round 64 ≡ some pass_bytes
unfolding encode write_payload w8 w16 w32 wi8 close_frame u8
encode_pass = refl

encode_no_room : encode pass_round 8 ≡ none
unfolding encode write_payload w8 w16 w32 wi8 close_frame
encode_no_room = refl

decode_pass : decode pass_bytes ≡ decoded pass_round 9
unfolding decode decode_frame size_ok payload_size read_payload read_play ◌>>=◌ give r8 r16 r32 ri8
    i8
decode_pass = refl

decode_short : decode (7 ∷ 0 ∷ 3 ∷ []) ≡ need_more
unfolding decode
decode_short = refl

decode_unknown : decode (1 ∷ 0 ∷ 99 ∷ []) ≡ malformed
unfolding decode decode_frame size_ok payload_size
decode_unknown = refl

pass_round-IsValid : IsValid pass_round
pass_round-IsValid = (omega arith, omega arith, (omega arith, omega arith))

pass_round_fits : frame_size pass_round ≤ 64
unfolding frame_size payload
pass_round_fits = omega arith

decode-encode_example :
    (out : List ℕ) × (encode pass_round 64 ≡ some out)
    × (decode (out ++ (5 ∷ [])) ≡ decoded pass_round (length out))
decode-encode_example = decode-encode pass_round 64 (5 ∷ []) pass_round-IsValid pass_round_fits

encode-frame_example :
    (frame_size pass_round ≤ 64 → encode pass_round 64 ≡ some (frame pass_round))
    × (64 < frame_size pass_round → encode pass_round 64 ≡ none)
encode-frame_example = encode-frame pass_round 64 pass_round-IsValid

decode-in_frame_example : decode pass_bytes ≢ out_of_frame
decode-in_frame_example = decode-in_frame pass_bytes

decode-consumed_example : (3 ≤ 9) × (9 ≤ length pass_bytes) × (9 ≤ 2 + max_frame_len)
decode-consumed_example = decode-consumed pass_bytes pass_round 9 decode_pass

unknown-done : decode (1 ∷ 0 ∷ 99 ∷ []) ≢ need_more
unknown-done e = cc (decode_unknown, e)

decode-more_example : decode (1 ∷ 0 ∷ 99 ∷ 4 ∷ 5 ∷ []) ≡ decode (1 ∷ 0 ∷ 99 ∷ [])
decode-more_example = decode-more (1 ∷ 0 ∷ 99 ∷ []) (4 ∷ 5 ∷ []) unknown-done

abbrev crowded : List ℕ
crowded = replicate 1026 4

crowded_full : 2 + max_frame_len ≤ length crowded
crowded_full = omega arith

decode-full_example : decode crowded ≢ need_more
decode-full_example = decode-full crowded crowded_full
