-- ===== src/Wire/Message.antt =====
-- core/protocol.h: the limits, the message types and `DwMsg`.
use deadweight.Prelude.{ℕ, List, Option}
use deadweight.Prelude.{ℤ}

abbrev pub proto_version : ℕ
proto_version = 3

abbrev pub max_frame_len : ℕ
max_frame_len = 1024

abbrev pub max_auth_token : ℕ
max_auth_token = 900

abbrev pub max_token : ℕ
max_token = 200

abbrev pub name_len : ℕ
name_len = 16

abbrev pub draft_deck : ℕ
draft_deck = 23

-- What DW_S_ROUND_START carries.
pub record RoundStart : Type 0 where
  pub round : ℕ
  pub hull_you : ℤ
  pub hull_opp : ℤ
  pub energy_you : ℕ
  pub energy_opp : ℕ
  pub hand : List ℤ
  pub opp_hand_size : ℕ
  pub deadline_ms : ℕ
  pub armor_you : ℕ
  pub armor_opp : ℕ
  pub vault_you : ℤ
  pub vault_opp : ℤ
  pub lock_mask : ℕ
  pub status_you : ℕ
  pub status_opp : ℕ

-- What DW_S_ROUND_RESULT carries.
pub record RoundResult : Type 0 where
  pub round : ℕ
  pub card_you : ℤ
  pub card_opp : ℤ
  pub dmg_you : ℕ
  pub dmg_opp : ℕ
  pub hull_you : ℤ
  pub hull_opp : ℤ
  pub eff_you : ℤ
  pub eff_opp : ℤ
  pub armor_you : ℕ
  pub armor_opp : ℕ
  pub vault_you : ℤ
  pub vault_opp : ℤ
  pub heal_you : ℕ
  pub heal_opp : ℕ
  pub roll_you : ℕ
  pub roll_opp : ℕ
  pub flags_you : ℕ
  pub flags_opp : ℕ

-- `DwMsg`: a constructor for each type, with the fields of its member of the union. Characters are
-- bytes. A name is the whole array of 17; a token is the array up to its length; the match token of
-- a QUEUE is its 32 characters, if it has one. `unknown` is a message of any other type.
pub data Msg : Type 0 where
  hello : (proto mode kind : ℕ) (name token : List ℕ) → Msg
  queue : (same_deck : ℕ) (match_token : Option (List ℕ)) → Msg
  play : (match_id round : ℕ) (slot : ℤ) → Msg
  leave : Msg
  ping : (nonce : ℕ) → Msg
  auth : (token : List ℕ) → Msg
  draft_pick : (index mult : ℕ) → Msg
  draft_resume : (cards : List ℤ) → Msg
  welcome : (session_id flags : ℕ) → Msg
  queued : (waiting : ℕ) → Msg
  match_found : (match_id seed seat : ℕ) (opp_name : List ℕ) (opp_kind : ℕ) → Msg
  round_start : RoundStart → Msg
  play_ack : (match_id round : ℕ) → Msg
  play_reject : (match_id round reason : ℕ) → Msg
  round_result : RoundResult → Msg
  match_end : (match_id result reason : ℕ) → Msg
  pong : (nonce : ℕ) → Msg
  draft_offer : (pick_no total : ℕ) (card0 card1 : ℤ) (left1 left2 left3 : ℕ) → Msg
  draft_done : (deck_id : ℕ) (cards : List ℤ) → Msg
  error : (code : ℕ) → Msg
  unknown : (type : ℕ) → Msg

abbrev pub type_of : Msg → ℕ
type_of (hello proto mode kind name token) = 0x01
type_of (queue same_deck match_token) = 0x02
type_of (play match_id round slot) = 0x03
type_of leave = 0x04
type_of (ping nonce) = 0x05
type_of (auth token) = 0x06
type_of (draft_pick index mult) = 0x07
type_of (draft_resume cards) = 0x08
type_of (welcome session_id flags) = 0x81
type_of (queued waiting) = 0x82
type_of (match_found match_id seed seat opp_name opp_kind) = 0x83
type_of (round_start r) = 0x84
type_of (play_ack match_id round) = 0x85
type_of (play_reject match_id round reason) = 0x86
type_of (round_result r) = 0x87
type_of (match_end match_id result reason) = 0x88
type_of (pong nonce) = 0x89
type_of (draft_offer pick_no total card0 card1 left1 left2 left3) = 0x8A
type_of (draft_done deck_id cards) = 0x8B
type_of (error code) = 0x8F
type_of (unknown type) = type
