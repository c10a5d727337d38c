-- ===== src/Wire/Stream.antt =====
-- `dw_decode` of core/protocol.c on a stream that arrives in pieces.
use deadweight.Prelude.{
  ℕ, zero, suc, ◌+◌, ◌-◌, ◌*◌, ◌≤◌, ◌≡◌, ◌≢◌, refl, ap, arith, List, [], ◌∷◌, ◌++◌, Bool-cases, inl,
  inr, false, ltb, ◌||◌, length, length-append, take,
}
use deadweight.Wire.Message.{Msg, max_frame_len}
use deadweight.Wire.Reader.{Read, got, refused, overrun}
use deadweight.Wire.Decode.{
  payload_size, size_ok, read_payload, finish_read, decode, decode_frame, need_more, decoded,
}

-- What is decoded has the size that was asked for.
finish_read-size : (r : Read Msg) (m : Msg) (k n : ℕ) → finish_read r k ≡ decoded m n → n ≡ k
finish_read-size (got x rest) m k n e = cc e
finish_read-size refused m k n e = cc e
finish_read-size overrun m k n e = cc e

decode_frame-size :
    (flen : ℕ) (rest : List ℕ) (m : Msg) (n : ℕ)
    → decode_frame flen rest ≡ decoded m n
    → n ≡ 2 + flen
unfolding decode_frame
decode_frame-size flen [] m n e = cc e
decode_frame-size flen (type ∷ rest) m n e =
    elim (Bool-cases (size_ok (payload_size type) (flen - 1))) [
      | inl y ↦
          finish_read-size (read_payload type (flen - 1) (take (flen - 1) rest)) m (2 + flen) n
            (rw y at e)
      | inr y ↦ cc (rw y at e)
    ]

-- A frame that is decoded consumes at least three bytes, no more than there are and no more than the
-- largest frame, so a loop that decodes one frame after another comes to an end.
pub decode-consumed :
    (buf : List ℕ) (m : Msg) (n : ℕ)
    → decode buf ≡ decoded m n
    → (3 ≤ n) × (n ≤ length buf) × (n ≤ 2 + max_frame_len)
unfolding decode
decode-consumed [] m n e = cc e
decode-consumed (lo ∷ []) m n e = cc e
decode-consumed (lo ∷ hi ∷ rest) m n e =
    elim (Bool-cases (ltb (lo + hi * 256) 1 || ltb max_frame_len (lo + hi * 256))) [
      | inl y ↦ cc (rw y at e)
      | inr y ↦ elim (Bool-cases (ltb (length rest) (lo + hi * 256))) [
        | inl z ↦ cc (rw (y, z) at e)
        | inr z ↦
            let size : n ≡ 2 + (lo + hi * 256) =
              decode_frame-size (lo + hi * 256) rest m n (rw (y, z) at e) in
            (ground (arith, y, size), ground (arith, z, size), ground (arith, y, size))
      ]
    ]

take-more : (n : ℕ) (bs more : List ℕ) → n ≤ length bs → take n (bs ++ more) ≡ take n bs
take-more zero bs more h = refl
take-more (suc n) [] more h = absurd (omega arith)
take-more (suc n) (b ∷ bs) more h = ap (λ (t : List ℕ). b ∷ t) (take-more n bs more (omega arith))

decode_frame-more :
    (flen : ℕ) (rest more : List ℕ)
    → 1 ≤ flen
    → flen ≤ length rest
    → decode_frame flen (rest ++ more) ≡ decode_frame flen rest
unfolding decode_frame
decode_frame-more flen [] more h le = absurd (omega arith)
decode_frame-more flen (type ∷ rest) more h le =
    rw (take-more (flen - 1) rest more (omega arith)) refl

-- Once `dw_decode` has a verdict on the bytes so far, a frame or an error, the bytes that arrive later
-- do not change it.
pub decode-more : (buf more : List ℕ) → decode buf ≢ need_more → decode (buf ++ more) ≡ decode buf
unfolding decode
decode-more [] more h = absurd (h refl)
decode-more (lo ∷ []) more h = absurd (h refl)
decode-more (lo ∷ hi ∷ rest) more h =
    elim (Bool-cases (ltb (lo + hi * 256) 1 || ltb max_frame_len (lo + hi * 256))) [
      | inl y ↦ rw y refl
      | inr y ↦ elim (Bool-cases (ltb (length rest) (lo + hi * 256))) [
        | inl z ↦ absurd (h (rw (y, z) refl))
        | inr z ↦
            let z' : ltb (length (rest ++ more)) (lo + hi * 256) ≡ false =
              ground (arith, z, length-append {0} rest more) in
            rw (y, z, z')
              (decode_frame-more (lo + hi * 256) rest more (ground (arith, y)) (ground (arith, z)))
      ]
    ]

finish_read-some : (r : Read Msg) (k : ℕ) → finish_read r k ≢ need_more
finish_read-some (got x rest) k e = cc e
finish_read-some refused k e = cc e
finish_read-some overrun k e = cc e

decode_frame-some : (flen : ℕ) (rest : List ℕ) → decode_frame flen rest ≢ need_more
unfolding decode_frame
decode_frame-some flen [] e = cc e
decode_frame-some flen (type ∷ rest) e =
    elim (Bool-cases (size_ok (payload_size type) (flen - 1))) [
      | inl y ↦
          finish_read-some (read_payload type (flen - 1) (take (flen - 1) rest)) (2 + flen)
            (rw y at e)
      | inr y ↦ cc (rw y at e)
    ]

-- A buffer that holds as much as the largest frame is never told to wait for more.
pub decode-full : (buf : List ℕ) → 2 + max_frame_len ≤ length buf → decode buf ≢ need_more
unfolding decode
decode-full [] h = absurd (omega arith)
decode-full (lo ∷ []) h = absurd (omega arith)
decode-full (lo ∷ hi ∷ rest) h =
    elim (Bool-cases (ltb (lo + hi * 256) 1 || ltb max_frame_len (lo + hi * 256))) [
      | inl y ↦ rw y λ e. cc e
      | inr y ↦
          let z : ltb (length rest) (lo + hi * 256) ≡ false = ground (arith, y) in
          rw (y, z) (decode_frame-some (lo + hi * 256) rest)
    ]
