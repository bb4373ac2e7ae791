-- ===== src/Protocol.antt =====
-- crates/faceauth-protocol/src/lib.rs: the versioned messages between clients and the daemon, and
-- the validation of service names. A transaction identifier stands for the 128 bits of its UUID;
-- a string is the list of its bytes.
pub mod Names
mod Tests
use faceauth_rs.Prelude.{
  ℕ, Bool, true, false, not, ◌&&◌, ◌||◌, Option, Result, ok, err, ◌>>◌, guard, Eq, nat_eq, ◌==◌,
  if◌then◌else◌, ltb, leb, within, arith, ◌↔◌, ◌≡◌, List, [], ◌∷◌, length, all, list_beq,
  list_beq_iff, eqb,
}

abbrev pub protocol_version : ℕ
protocol_version = 2

abbrev pub max_service_name_length : ℕ
max_service_name_length = 64

pub record Envelope {ℓ} (A : Type ℓ) : Type ℓ where
  pub version : ℕ
  pub message : A

pub data ProtocolError : Type 0 where
  unsupported_version : ℕ → ℕ → ProtocolError

module _ {ℓ} {A : Type ℓ} where
  unfoldable pub current : A → Envelope A
  current message = record { version = protocol_version; message = message }

  unfoldable pub validate_version : Envelope A → Result ProtocolError (Unit {0})
  validate_version e =
      if e.version == protocol_version
      then ok tt
      else err (unsupported_version e.version protocol_version)

abbrev pub TransactionId : Type 0
TransactionId = ℕ

pub record ServiceName : Type 0 where
  pub as_str : List ℕ

pub data ServiceNameError : Type 0 where
  empty : ServiceNameError
  too_long : ℕ → ℕ → ServiceNameError
  invalid_character : ServiceNameError

-- `byte.is_ascii_alphanumeric() || b"._-".contains(&byte)`
unfoldable pub is_name_byte : ℕ → Bool
is_name_byte b =
    (within b'0' b'9' b || (within b'A' b'Z' b || within b'a' b'z' b))
    || (b == b'.' || (b == b'_' || b == b'-'))

unfoldable pub parse : List ℕ → Result ServiceNameError ServiceName
parse value = do
  guard (not (length value == 0)) empty
  guard (not (ltb max_service_name_length (length value)))
      (too_long (length value) max_service_name_length)
  guard (all is_name_byte value) invalid_character
  ok (record { as_str = value })

abbrev service_beq : ServiceName → ServiceName → Bool
service_beq a b = list_beq a.as_str b.as_str

pub service_beq_iff : (a b : ServiceName) → (service_beq a b ≡ true) ↔ (a ≡ b)
service_beq_iff a b = ground (arith, list_beq_iff a.as_str b.as_str)

instance abbrev pub service_eq : Eq ServiceName
service_eq = record { beq = service_beq; beq_iff = service_beq_iff }

pub data AuthenticationPurpose : Type 0 where
  test screen_unlock login polkit sudo : AuthenticationPurpose

abbrev purpose_beq : AuthenticationPurpose → AuthenticationPurpose → Bool
purpose_beq test test = true
purpose_beq screen_unlock screen_unlock = true
purpose_beq login login = true
purpose_beq polkit polkit = true
purpose_beq sudo sudo = true
purpose_beq _ _ = false

pub purpose_beq_iff : (a b : AuthenticationPurpose) → (purpose_beq a b ≡ true) ↔ (a ≡ b)
purpose_beq_iff a b = ground arith

instance abbrev pub purpose_eq : Eq AuthenticationPurpose
purpose_eq = record { beq = purpose_beq; beq_iff = purpose_beq_iff }

pub record RequestContext : Type 0 where
  pub transaction_id : TransactionId
  pub target_uid : ℕ
  pub service : ServiceName
  pub purpose : AuthenticationPurpose

pub data Request : Type 0 where
  authenticate : RequestContext → Request
  cancel : TransactionId → Request

pub data DecisionCode : Type 0 where
  accepted infrared_missing visible_missing insufficient_quality : DecisionCode
  passive_liveness_failed active_challenge_failed face_mismatch : DecisionCode
  cancelled timed_out internal_error : DecisionCode

unfoldable pub is_accepted : DecisionCode → Bool
is_accepted accepted = true
is_accepted _ = false

pub data RejectionCode : Type 0 where
  unauthorized_peer service_not_allowed not_enrolled : RejectionCode
  camera_unavailable busy service_unavailable : RejectionCode

pub data ProgressCode : Type 0 where
  position_face hold_still blink turn_left turn_right return_to_center processing : ProgressCode

pub data Response : Type 0 where
  started : TransactionId → Response
  progress : TransactionId → ProgressCode → Response
  completed : TransactionId → DecisionCode → Response
  rejected : Option TransactionId → RejectionCode → Response
