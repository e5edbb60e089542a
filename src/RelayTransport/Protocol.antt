-- ===== src/RelayTransport/Protocol.antt =====
-- internal/relaytransport/protocol.go: the frame and the checks that every frame has to pass.
use mossward.Common.{
  ℕ, ◌+◌, ◌*◌, ◌-◌, Bool, true, false, ◌&&◌, ◌||◌, not, Option, none, some, List, [], ◌∷◌, ltb, leb,
  ◌==◌, if◌then◌else◌, length, Text, text_eq, is_empty, Result, ◌>>◌, reject_if, Time, is_zero,
  before_sub, after_add, ℤ, pos, eq_ℤ,
}

abbrev pub protocol_version : ℤ
protocol_version = pos 1

-- 4 << 20
abbrev pub maximum_ciphertext_size : ℕ
maximum_ciphertext_size = 4_194_304

-- The message kinds; `other` is any string that is none of the constants.
pub data MessageKind : Type 0 where
  agent_check_in server_reply agent_log_batch integrity_alert tamper_alert : MessageKind
  other : Text → MessageKind

pub record Frame : Type 0 where
  pub protocol_version : ℤ
  pub message_id : Text
  pub kind : MessageKind
  pub downstream_endpoint_id : Text
  pub sender_id : Text
  pub recipient_id : Text
  pub recipient_key_id : Text
  pub sequence : ℕ  -- uint64
  pub created_at : Time
  pub ephemeral_public_key : List ℕ
  pub nonce : List ℕ
  pub ciphertext : List ℕ
  pub signature : List ℕ

pub data FrameError : Type 0 where
  unsupported_version bad_message_id unsupported_kind missing_identity : FrameError
  outside_window bad_ciphertext_size bad_envelope : FrameError

unfoldable pub hex_digit : ℕ → Option ℕ
hex_digit c =
    if leb b'0' c && leb c b'9'
    then some (c - b'0')
    else if leb b'a' c && leb c b'f'
    then some (c - b'a' + 10)
    else if leb b'A' c && leb c b'F'
    then some (c - b'A' + 10)
    else none

abbrev pub hex_pair : Option ℕ → Option ℕ → Option (List ℕ) → Option (List ℕ)
hex_pair (some h) (some l) (some rest) = some ((h * 16 + l) ∷ rest)
hex_pair _ _ _ = none

-- hex.DecodeString: `none` on an odd length or a character that is no digit.
unfoldable pub hex_decode : Text → Option (List ℕ)
unfolding hex_digit
hex_decode [] = some []
hex_decode (c ∷ []) = none
hex_decode (c ∷ d ∷ s) = hex_pair (hex_digit c) (hex_digit d) (hex_decode s)

-- `err != nil || len(messageID) != 16`
abbrev pub wrong_length : Option (List ℕ) → Bool
wrong_length none = true
wrong_length (some bytes) = not (length bytes == 16)

abbrev pub kind_eq : MessageKind → MessageKind → Bool
kind_eq agent_check_in agent_check_in = true
kind_eq server_reply server_reply = true
kind_eq agent_log_batch agent_log_batch = true
kind_eq integrity_alert integrity_alert = true
kind_eq tamper_alert tamper_alert = true
kind_eq (other s) (other t) = text_eq s t
kind_eq _ _ = false

-- `ProtocolContract().AllowedMessageKinds`
abbrev pub allowed_message_kinds : List MessageKind
allowed_message_kinds =
    agent_check_in ∷ server_reply ∷ agent_log_batch ∷ integrity_alert ∷ tamper_alert ∷ []

unfoldable pub kind_in : MessageKind → List MessageKind → Bool
kind_in kind [] = false
kind_in kind (allowed ∷ rest) = kind_eq kind allowed || kind_in kind rest

unfoldable pub allowed_message_kind : MessageKind → Bool
unfolding kind_in
allowed_message_kind kind = kind_in kind allowed_message_kinds

abbrev pub missing_field : Frame → Bool
missing_field f =
    is_empty f.downstream_endpoint_id
    || is_empty f.sender_id
    || is_empty f.recipient_id
    || is_empty f.recipient_key_id
    || f.sequence == 0
    || is_zero f.created_at

abbrev pub outside_accepted_window : Time → Time → Bool
outside_accepted_window created now =
    after_add created now (pos 300_000_000_000)
    || before_sub created now (pos 2_592_000_000_000_000)

abbrev pub bad_crypto : Frame → Bool
bad_crypto f =
    not (length f.ephemeral_public_key == 32)
    || not (length f.nonce == 12)
    || ltb (length f.signature) 64
    || ltb 80 (length f.signature)

-- ValidateFrame
unfoldable pub validate_frame : Frame → Time → Result FrameError (Unit {0})
validate_frame f now = do
  reject_if (not (eq_ℤ f.protocol_version protocol_version)) unsupported_version
  reject_if (wrong_length (hex_decode f.message_id)) bad_message_id
  reject_if (not (allowed_message_kind f.kind)) unsupported_kind
  reject_if (missing_field f) missing_identity
  reject_if (outside_accepted_window f.created_at now) outside_window
  reject_if (length f.ciphertext == 0 || ltb maximum_ciphertext_size (length f.ciphertext))
      bad_ciphertext_size
  reject_if (bad_crypto f) bad_envelope
