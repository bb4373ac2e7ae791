-- ===== src/Policy.antt =====
-- crates/faceauth-core/src/policy.rs: the capture policy, the authentication policy and the
-- decision that it takes on evidence. `f32` is a type with an instance of `Float`; timestamps are
-- `u64`. Each `validate` and `accepts` keeps the order of the source's early returns.
pub mod Pairing
pub mod Decision
mod Tests
use Prim.Native.String.{String}
use faceauth_rs.Prelude.{
  ℕ, Bool, true, false, not, ◌&&◌, Option, none, some, Result, ok, err, ◌>>◌, guard, Eq, nat_eq,
  ◌!=◌, if◌then◌else◌, ltb, arith, ◌↔◌, ◌≡◌,
}
use faceauth_rs.Prelude.Word.{abs_diff}
use faceauth_rs.Prelude.Float.{Float, is_unit}

pub data CaptureModality : Type 0 where
  infrared visible : CaptureModality

abbrev modality_beq : CaptureModality → CaptureModality → Bool
modality_beq infrared infrared = true
modality_beq visible visible = true
modality_beq _ _ = false

pub modality_beq_iff : (a b : CaptureModality) → (modality_beq a b ≡ true) ↔ (a ≡ b)
modality_beq_iff a b = ground arith

instance abbrev pub modality_eq : Eq CaptureModality
modality_eq = record { beq = modality_beq; beq_iff = modality_beq_iff }

pub record CapturePair : Type 0 where
  pub infrared_timestamp_micros : ℕ
  pub visible_timestamp_micros : Option ℕ

pub record CapturePolicy : Type 0 where
  pub require_infrared : Bool
  pub require_visible : Bool
  pub max_pair_skew_micros : ℕ

pub data PolicyError : Type 0 where
  infrared_required pair_skew_must_be_positive visible_frame_required : PolicyError
  frame_pair_too_far_apart : ℕ → ℕ → PolicyError
  invalid_unit_score : String → PolicyError
  password_fallback_required : PolicyError

abbrev pub default_capture_policy : CapturePolicy
default_capture_policy = record {
  require_infrared = true;
  require_visible = true;
  max_pair_skew_micros = 100000;
}

unfoldable pub validate_capture : CapturePolicy → Result PolicyError (Unit {0})
validate_capture p = do
  guard p.require_infrared infrared_required
  guard (p.max_pair_skew_micros != 0) pair_skew_must_be_positive

-- The `let … else` of `accepts`, after validation.
accepts_timing : CapturePolicy → ℕ → Option ℕ → Result PolicyError (Unit {0})
accepts_timing p infrared_timestamp none =
    if p.require_visible then err visible_frame_required else ok tt
accepts_timing p infrared_timestamp (some visible_timestamp) =
    let skew = abs_diff infrared_timestamp visible_timestamp in
    if ltb p.max_pair_skew_micros skew
    then err (frame_pair_too_far_apart skew p.max_pair_skew_micros)
    else ok tt

unfoldable pub accepts : CapturePolicy → CapturePair → Result PolicyError (Unit {0})
unfolding validate_capture accepts_timing
accepts p pair = do
  validate_capture p
  accepts_timing p pair.infrared_timestamp_micros pair.visible_timestamp_micros

pub data LivenessLevel : Type 0 where
  passive passive_and_active : LivenessLevel

abbrev is_active_level : LivenessLevel → Bool
is_active_level passive = false
is_active_level passive_and_active = true

pub data ObservationStatus : Type 0 where
  missing observed : ObservationStatus

abbrev is_observed : ObservationStatus → Bool
is_observed missing = false
is_observed observed = true

pub data CheckStatus : Type 0 where
  not_performed failed passed : CheckStatus

abbrev is_passed : CheckStatus → Bool
is_passed passed = true
is_passed _ = false

pub data DecisionReason : Type 0 where
  accepted infrared_missing visible_missing insufficient_quality : DecisionReason
  passive_liveness_failed active_challenge_failed face_mismatch : DecisionReason

abbrev pub is_accepted_reason : DecisionReason → Bool
is_accepted_reason accepted = true
is_accepted_reason _ = false

pub record AuthenticationDecision : Type 0 where
  pub is_accepted : Bool
  pub reason : DecisionReason

pub record AuthPolicy (W : Type 0) : Type 0 where
  pub capture : CapturePolicy
  pub liveness : LivenessLevel
  pub minimum_similarity : W
  pub minimum_quality : W
  pub password_fallback : Bool

pub record AuthenticationEvidence (W : Type 0) : Type 0 where
  pub similarity : W
  pub quality : W
  pub infrared_status : ObservationStatus
  pub visible_status : ObservationStatus
  pub passive_liveness : CheckStatus
  pub active_challenge : CheckStatus

module _ {W : Type 0} ⦃f : Float W⦄ where
  abbrev pub default_auth_policy : AuthPolicy W
  default_auth_policy = record {
    capture = default_capture_policy;
    liveness = passive_and_active;
    minimum_similarity = f.milli 550;
    minimum_quality = f.milli 650;
    password_fallback = true;
  }

  validate_unit_score : String → W → Result PolicyError (Unit {0})
  validate_unit_score field value = guard (is_unit value) (invalid_unit_score field)

  unfoldable pub validate : AuthPolicy W → Result PolicyError (Unit {0})
  unfolding validate_capture validate_unit_score
  validate p = do
    validate_capture p.capture
    validate_unit_score "minimum_similarity" p.minimum_similarity
    validate_unit_score "minimum_quality" p.minimum_quality
    guard p.password_fallback password_fallback_required

  -- The `if … else if` ladder of `evaluate`.
  unfoldable pub decide_reason : AuthPolicy W → AuthenticationEvidence W → DecisionReason
  decide_reason p e =
      if not (is_observed e.infrared_status)
      then infrared_missing
      else if p.capture.require_visible && not (is_observed e.visible_status)
      then visible_missing
      else if f.lt e.quality p.minimum_quality
      then insufficient_quality
      else if not (is_passed e.passive_liveness)
      then passive_liveness_failed
      else if is_active_level p.liveness && not (is_passed e.active_challenge)
      then active_challenge_failed
      else if f.lt e.similarity p.minimum_similarity
      then face_mismatch
      else accepted

  unfoldable pub evaluate :
      AuthPolicy W → AuthenticationEvidence W → Result PolicyError AuthenticationDecision
  unfolding validate_unit_score
  evaluate p e = do
    validate p
    validate_unit_score "similarity" e.similarity
    validate_unit_score "quality" e.quality
    let reason = decide_reason p e
    ok (record { is_accepted = is_accepted_reason reason; reason = reason })
