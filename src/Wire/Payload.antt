-- ===== src/Wire/Payload.antt =====
-- The bytes that `dw_encode` of core/protocol.c writes behind the type, and the messages whose
-- fields fit their types.
use deadweight.Prelude.{
  ℕ, zero, suc, ◌/◌, ◌%◌, ◌^◌, ◌≤◌, ◌<◌, ◌≡◌, refl, ap, arith, List, [], ◌∷◌, ◌++◌, ◌==◌,
  if◌then◌else◌, none, some, length, u8,
}
use deadweight.Prelude.{ℤ, pos, negsuc, ◌≤ℤ◌}
use deadweight.Wire.Message.{
  Msg, hello, queue, play, leave, ping, auth, draft_pick, draft_resume, welcome, queued,
  match_found, round_start, play_ack, play_reject, round_result, match_end, pong, draft_offer,
  draft_done, error, unknown, max_auth_token, max_token, name_len, draft_deck,
}
use deadweight.Wire.Writer.{W, w8, w16, w32, wi8, cstr, pad, wbytes, wcards, wname}
use deadweight.Wire.Encode.{write_round_start, write_round_result, write_payload}

abbrev pub le16 : ℕ → List ℕ → List ℕ
le16 v bs = v % 256 ∷ v / 256 % 256 ∷ bs

abbrev pub le32 : ℕ → List ℕ → List ℕ
le32 v bs = le16 (v % 65536) (le16 (v / 65536) bs)

abbrev pub card_bytes : List ℤ → List ℕ
card_bytes [] = []
card_bytes (c ∷ cs) = u8 c ∷ card_bytes cs

abbrev pub name_bytes : List ℕ → List ℕ
name_bytes s = pad name_len (cstr name_len s)

unfoldable pub payload : Msg → List ℕ
payload (hello proto mode kind name token) =
    proto ∷ mode ∷ kind ∷ (name_bytes name ++ (length token ∷ token))
payload (queue same_deck (some match_token)) = same_deck ∷ match_token
payload (queue same_deck none) = if same_deck == 0 then [] else 1 ∷ []
payload (play match_id round slot) = le32 match_id (round ∷ u8 slot ∷ [])
payload leave = []
payload (ping nonce) = le32 nonce []
payload (auth token) = le16 (length token) token
payload (draft_pick index mult) = index ∷ mult ∷ []
payload (draft_resume cards) = card_bytes cards
payload (welcome session_id flags) = le32 session_id (flags ∷ [])
payload (queued waiting) = le16 waiting []
payload (match_found match_id seed seat opp_name opp_kind) =
    le32 match_id (le32 seed (seat ∷ (name_bytes opp_name ++ (opp_kind ∷ []))))
payload (round_start r) =
    r.round
    ∷ u8 r.hull_you
    ∷ u8 r.hull_opp
    ∷ r.energy_you
    ∷ r.energy_opp
    ∷ (card_bytes r.hand
        ++ (r.opp_hand_size
            ∷ le16 r.deadline_ms (
                r.armor_you
                ∷ r.armor_opp
                ∷ u8 r.vault_you
                ∷ u8 r.vault_opp
                ∷ r.lock_mask
                ∷ r.status_you
                ∷ r.status_opp
                ∷ [])))
payload (play_ack match_id round) = le32 match_id (round ∷ [])
payload (play_reject match_id round reason) = le32 match_id (round ∷ reason ∷ [])
payload (round_result r) =
    r.round
    ∷ u8 r.card_you
    ∷ u8 r.card_opp
    ∷ r.dmg_you
    ∷ r.dmg_opp
    ∷ u8 r.hull_you
    ∷ u8 r.hull_opp
    ∷ u8 r.eff_you
    ∷ u8 r.eff_opp
    ∷ r.armor_you
    ∷ r.armor_opp
    ∷ u8 r.vault_you
    ∷ u8 r.vault_opp
    ∷ r.heal_you
    ∷ r.heal_opp
    ∷ r.roll_you
    ∷ r.roll_opp
    ∷ r.flags_you
    ∷ r.flags_opp
    ∷ []
payload (match_end match_id result reason) = le32 match_id (result ∷ reason ∷ [])
payload (pong nonce) = le32 nonce []
payload (draft_offer pick_no total card0 card1 left1 left2 left3) =
    pick_no ∷ total ∷ u8 card0 ∷ u8 card1 ∷ left1 ∷ left2 ∷ left3 ∷ []
payload (draft_done deck_id cards) = le32 deck_id (card_bytes cards)
payload (error code) = code ∷ []
payload (unknown type) = []

abbrev pub IsU8 : ℕ → Type 0
IsU8 v = v < 256

abbrev pub IsU32 : ℕ → Type 0
IsU32 v = v < 2 ^ 32

abbrev pub IsI8 : ℤ → Type 0
IsI8 v = (negsuc 127 ≤ℤ v) × (v ≤ℤ pos 127)

abbrev pub AreBytes : List ℕ → Type 0
AreBytes [] = Unit {0}
AreBytes (b ∷ bs) = IsU8 b × AreBytes bs

-- So many cards, each an `int8_t`.
abbrev pub AreCards : ℕ → List ℤ → Type 0
AreCards n [] = n ≡ 0
AreCards zero (c ∷ cs) = ⊥
AreCards (suc n) (c ∷ cs) = IsI8 c × AreCards n cs

-- An array of 17 bytes, with nothing but 0 from the first NUL on.
abbrev pub IsName : List ℕ → Type 0
IsName s = AreBytes s × (pad (suc name_len) (cstr name_len s) ≡ s)

-- Every field fits its C type, tokens are not too long, names have nothing behind their NUL, and a
-- flag is 0 or 1.
abbrev pub IsValid : Msg → Type 0
IsValid (hello proto mode kind name token) =
    IsU8 proto × IsU8 mode × IsU8 kind × IsName name × AreBytes token × (length token ≤ max_token)
IsValid (queue same_deck (some match_token)) =
    (same_deck ≤ 1) × AreBytes match_token × (length match_token ≡ 32)
IsValid (queue same_deck none) = same_deck ≤ 1
IsValid (play match_id round slot) = IsU32 match_id × IsU8 round × IsI8 slot
IsValid leave = Unit {0}
IsValid (ping nonce) = IsU32 nonce
IsValid (auth token) = AreBytes token × (length token ≤ max_auth_token)
IsValid (draft_pick index mult) = IsU8 index × IsU8 mult
IsValid (draft_resume cards) = AreCards draft_deck cards
IsValid (welcome session_id flags) = IsU32 session_id × IsU8 flags
IsValid (queued waiting) = waiting < 65536
IsValid (match_found match_id seed seat opp_name opp_kind) =
    IsU32 match_id × IsU32 seed × IsU8 seat × IsName opp_name × IsU8 opp_kind
IsValid (round_start r) =
    IsU8 r.round
    × IsI8 r.hull_you
    × IsI8 r.hull_opp
    × IsU8 r.energy_you
    × IsU8 r.energy_opp
    × AreCards 4 r.hand
    × IsU8 r.opp_hand_size
    × (r.deadline_ms < 65536)
    × IsU8 r.armor_you
    × IsU8 r.armor_opp
    × IsI8 r.vault_you
    × IsI8 r.vault_opp
    × IsU8 r.lock_mask
    × IsU8 r.status_you
    × IsU8 r.status_opp
IsValid (play_ack match_id round) = IsU32 match_id × IsU8 round
IsValid (play_reject match_id round reason) = IsU32 match_id × IsU8 round × IsU8 reason
IsValid (round_result r) =
    IsU8 r.round
    × IsI8 r.card_you
    × IsI8 r.card_opp
    × IsU8 r.dmg_you
    × IsU8 r.dmg_opp
    × IsI8 r.hull_you
    × IsI8 r.hull_opp
    × IsI8 r.eff_you
    × IsI8 r.eff_opp
    × IsU8 r.armor_you
    × IsU8 r.armor_opp
    × IsI8 r.vault_you
    × IsI8 r.vault_opp
    × IsU8 r.heal_you
    × IsU8 r.heal_opp
    × IsU8 r.roll_you
    × IsU8 r.roll_opp
    × IsU8 r.flags_you
    × IsU8 r.flags_opp
IsValid (match_end match_id result reason) = IsU32 match_id × IsU8 result × IsU8 reason
IsValid (pong nonce) = IsU32 nonce
IsValid (draft_offer pick_no total card0 card1 left1 left2 left3) =
    IsU8 pick_no × IsU8 total × IsI8 card0 × IsI8 card1 × IsU8 left1 × IsU8 left2 × IsU8 left3
IsValid (draft_done deck_id cards) = IsU32 deck_id × AreCards draft_deck cards
IsValid (error code) = IsU8 code
IsValid (unknown type) = ⊥

pub wbytes-append : (ps bs : List ℕ) (w : W) → wbytes (ps ++ bs) w ≡ wbytes bs (wbytes ps w)
unfolding wbytes
wbytes-append [] bs w = refl
wbytes-append (a ∷ ps) bs w = wbytes-append ps bs (w8 a w)

wcards-bytes : (cs : List ℤ) (w : W) → wcards cs w ≡ wbytes (card_bytes cs) w
unfolding wbytes wcards wi8
wcards-bytes [] w = refl
wcards-bytes (c ∷ cs) w = wcards-bytes cs (w8 (u8 c) w)

-- `dw_encode` writes the payload byte by byte.
pub write_payload-bytes :
    (m : Msg) (w : W) → IsValid m → write_payload m w ≡ some (wbytes (payload m) w)
unfolding write_payload payload wbytes w16 w32 wi8 write_round_start write_round_result wname
write_payload-bytes (hello proto mode kind name token) w v =
    rw (wbytes-append (name_bytes name)) (ground (arith, v.5))
write_payload-bytes (queue same_deck (some match_token)) w v = refl
write_payload-bytes (queue same_deck none) w v = ground arith
write_payload-bytes (play match_id round slot) w v = refl
write_payload-bytes leave w v = refl
write_payload-bytes (ping nonce) w v = refl
write_payload-bytes (auth token) w v = ground arith
write_payload-bytes (draft_pick index mult) w v = refl
write_payload-bytes (draft_resume cards) w v = ap some (wcards-bytes cards w)
write_payload-bytes (welcome session_id flags) w v = refl
write_payload-bytes (queued waiting) w v = refl
write_payload-bytes (match_found match_id seed seat opp_name opp_kind) w v =
    rw (wbytes-append (name_bytes opp_name)) refl
write_payload-bytes (round_start r) w v = rw (wbytes-append (card_bytes r.hand), wcards-bytes) refl
write_payload-bytes (play_ack match_id round) w v = refl
write_payload-bytes (play_reject match_id round reason) w v = refl
write_payload-bytes (round_result r) w v = refl
write_payload-bytes (match_end match_id result reason) w v = refl
write_payload-bytes (pong nonce) w v = refl
write_payload-bytes (draft_offer pick_no total card0 card1 left1 left2 left3) w v = refl
write_payload-bytes (draft_done deck_id cards) w v = ap some (wcards-bytes cards _)
write_payload-bytes (error code) w v = refl
write_payload-bytes (unknown type) w v = absurd v
