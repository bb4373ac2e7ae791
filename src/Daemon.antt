-- ===== src/Daemon.antt =====
-- crates/faceauth-daemon/src/lib.rs: the evidence of an authentication, its evaluation against the
-- stored template, and the completion of the transaction. A template source is the function that
-- its trait asks for; `f32` is a type with instances of `Float` and `Arithmetic`.
pub mod Evidence
pub mod Boundary
pub mod Admission
pub mod Coordination
pub mod Endings
pub mod Completions
pub mod Turns
pub mod Stops
pub mod Supervisor
pub mod Shutdown
pub mod Clock
pub mod Grace
pub mod Exits
pub mod Blame
pub mod Tests
mod SupervisorTests
use faceauth_rs.Prelude.{
  ℕ, Bool, true, false, not, ◌&&◌, ◌||◌, Option, none, some, Result, ok, err, ◌>>=◌, ◌>>◌, guard,
  lift_err, nat_eq, bytes_eq, ◌==◌, ◌!=◌, if◌then◌else◌, all, any, length, List, [], ◌∷◌,
}
use faceauth_rs.Prelude.Exec
use faceauth_rs.Prelude.Exec.{Exec}
use faceauth_rs.Prelude.Float.{Float, Arithmetic, is_unit}
use faceauth_rs.Policy.{
  CapturePair, PolicyError, CheckStatus, observed, DecisionReason, AuthenticationDecision,
  AuthPolicy, accepts, evaluate,
}
use faceauth_rs.Protocol.{TransactionId, Response, DecisionCode}
use faceauth_rs.Liveness.{ChallengeProgress}
use faceauth_rs.Session.{ConnectionToken, SessionError, World, target_uid, complete}
use faceauth_rs.Storage.{
  StorageError, TemplateRecord, format_version, is_ascii_hexdigit, is_ascii_uppercase,
  require_compatibility,
}
use faceauth_rs.Model.{
  ModelRole, role_eq, passive_liveness_infrared, passive_liveness_visible, passive_liveness_fusion,
}
use faceauth_rs.Inference.{
  InferenceError, FaceEmbedding, PassiveLivenessScore, from_normalized_template, passes, similarity,
}

pub data BiometricComparisonError (P K : Type 0) : Type 0 where
  storage : StorageError P K → BiometricComparisonError P K
  inference : InferenceError → BiometricComparisonError P K

pub data AuthenticationPipelineError (P K : Type 0) : Type 0 where
  invalid_passive_pad_policy passive_pad_evidence_invalid : AuthenticationPipelineError P K
  policy : PolicyError → AuthenticationPipelineError P K
  comparison : BiometricComparisonError P K → AuthenticationPipelineError P K
  inference : InferenceError → AuthenticationPipelineError P K

pub record PassivePadPolicy (W : Type 0) : Type 0 where
  pub infrared_compatibility_sha256 : List ℕ
  pub minimum_infrared_probability : W
  pub visible_compatibility_sha256 : List ℕ
  pub minimum_visible_probability : W
  pub fusion : Option (List ℕ × W)

pub record AuthenticationObservation (W : Type 0) : Type 0 where
  pub timing : CapturePair
  pub quality : W
  pub embedding : FaceEmbedding W
  pub passive_liveness : List (PassiveLivenessScore W)
  pub active_challenge : ChallengeProgress

unfoldable pub valid_digest : List ℕ → Bool
valid_digest value =
    (length value == 64) && (all is_ascii_hexdigit value && not (any is_ascii_uppercase value))

-- `template_from_embedding`
unfoldable pub template_from_embedding : {W : Type 0} → ℕ → FaceEmbedding W → TemplateRecord W
template_from_embedding uid embedding = record {
  schema_version = format_version;
  uid = uid;
  model_compatibility_sha256 = embedding.compatibility_sha256;
  embedding = embedding.values;
}

-- `const fn decision_code`
unfoldable pub decision_code : DecisionReason → DecisionCode
decision_code DecisionReason.accepted = DecisionCode.accepted
decision_code DecisionReason.infrared_missing = DecisionCode.infrared_missing
decision_code DecisionReason.visible_missing = DecisionCode.visible_missing
decision_code DecisionReason.insufficient_quality = DecisionCode.insufficient_quality
decision_code DecisionReason.passive_liveness_failed = DecisionCode.passive_liveness_failed
decision_code DecisionReason.active_challenge_failed = DecisionCode.active_challenge_failed
decision_code DecisionReason.face_mismatch = DecisionCode.face_mismatch

-- `if passed { CheckStatus::Passed } else { CheckStatus::Failed }`
abbrev pub check_status : Bool → CheckStatus
check_status true = CheckStatus.passed
check_status false = CheckStatus.failed

-- `observation.active_challenge == ChallengeProgress::Passed`
abbrev pub is_passed_challenge : ChallengeProgress → Bool
is_passed_challenge ChallengeProgress.passed = true
is_passed_challenge _ = false

-- `scores.iter().filter(|score| score.role() == role)`
unfoldable pub with_role :
    {W : Type 0} → ModelRole → List (PassiveLivenessScore W) → List (PassiveLivenessScore W)
with_role role [] = []
with_role role (s ∷ ss) = let rest = with_role role ss in if s.role == role then s ∷ rest else rest

module _ {W : Type 0} ⦃f : Float W⦄ where
  unfoldable pub valid_probability : W → Bool
  valid_probability value = is_unit value

  unfoldable pub is_valid_fusion : Option (List ℕ × W) → Bool
  is_valid_fusion none = true
  is_valid_fusion (some (digest, minimum)) = valid_digest digest && valid_probability minimum

  module _ {P K : Type 0} where
    -- `PassivePadPolicy::validate`
    unfoldable pub validate_pad :
        PassivePadPolicy W → Result (AuthenticationPipelineError P K) (Unit {0})
    validate_pad p =
        guard
          (valid_digest p.infrared_compatibility_sha256
            && (valid_probability p.minimum_infrared_probability
                && (valid_digest p.visible_compatibility_sha256
                    && (valid_probability p.minimum_visible_probability
                        && is_valid_fusion p.fusion))))
          invalid_passive_pad_policy

    -- The only match of the iterator, if it is the only one
    abbrev pub only :
        List (PassiveLivenessScore W)
        → List ℕ
        → Result (AuthenticationPipelineError P K) (PassiveLivenessScore W)
    only (score ∷ []) compatibility_sha256 =
        if score.compatibility_sha256 != compatibility_sha256
        then err passive_pad_evidence_invalid
        else ok score
    only _ compatibility_sha256 = err passive_pad_evidence_invalid

    unfoldable pub exact_pad_score :
        List (PassiveLivenessScore W)
        → ModelRole
        → List ℕ
        → Result (AuthenticationPipelineError P K) (PassiveLivenessScore W)
    exact_pad_score scores role compatibility_sha256 =
        only (with_role role scores) compatibility_sha256

    -- The `if let` on the fusion model
    unfoldable pub fusion_passed :
        List (PassiveLivenessScore W)
        → Option (List ℕ × W)
        → Result (AuthenticationPipelineError P K) Bool
    fusion_passed scores none = ok (not (any (λ s. s.role == passive_liveness_fusion) scores))
    fusion_passed scores (some (digest, minimum)) = do
      score ← exact_pad_score scores passive_liveness_fusion digest
      lift_err inference (passes score minimum)

    -- The last expression of `accepts`: `&&` leaves the visible score alone once the infrared one
    -- fails.
    unfoldable pub verdict :
        PassiveLivenessScore W
        → PassiveLivenessScore W
        → Bool
        → W
        → W
        → Result (AuthenticationPipelineError P K) Bool
    verdict infrared visible fused minimum_infrared minimum_visible = do
      infrared_passed ← lift_err inference (passes infrared minimum_infrared)
      visible_passed ←
          (if not infrared_passed
            then ok false
            else lift_err inference (passes visible minimum_visible))
      ok (visible_passed && fused)

    -- `PassivePadPolicy::accepts`
    unfoldable pub accepts_pad :
        PassivePadPolicy W
        → List (PassiveLivenessScore W)
        → Result (AuthenticationPipelineError P K) Bool
    accepts_pad p scores = do
      validate_pad p
      infrared ← exact_pad_score scores passive_liveness_infrared p.infrared_compatibility_sha256
      visible ← exact_pad_score scores passive_liveness_visible p.visible_compatibility_sha256
      fused ← fusion_passed scores p.fusion
      verdict infrared visible fused p.minimum_infrared_probability p.minimum_visible_probability

    module _ ⦃a : Arithmetic W⦄ where
      unfoldable pub compare_template :
          TemplateRecord W → FaceEmbedding W → Result (BiometricComparisonError P K) W
      compare_template template observation = do
        lift_err storage (
            require_compatibility template observation.compatibility_sha256
              (length observation.values))
        enrolled ←
            lift_err BiometricComparisonError.inference
              (from_normalized_template template.model_compatibility_sha256 template.embedding)
        lift_err BiometricComparisonError.inference (similarity observation enrolled)

      unfoldable pub evaluate_authentication :
          AuthPolicy W
          → PassivePadPolicy W
          → TemplateRecord W
          → AuthenticationObservation W
          → Result (AuthenticationPipelineError P K) AuthenticationDecision
      evaluate_authentication rules pad template o = do
        lift_err policy (accepts rules.capture o.timing)
        score ← lift_err comparison (compare_template template o.embedding)
        alive ← accepts_pad pad o.passive_liveness
        lift_err policy (
            evaluate rules (record {
              similarity = score;
              quality = o.quality;
              infrared_status = observed;
              visible_status = observed;
              passive_liveness = check_status alive;
              active_challenge = check_status (is_passed_challenge o.active_challenge);
            }))

      -- The decision that `complete_authentication` makes on a loaded template, or on none.
      unfoldable pub completion_code :
          AuthPolicy W
          → PassivePadPolicy W
          → Result (StorageError P K) (TemplateRecord W)
          → AuthenticationObservation W
          → DecisionCode
      completion_code rules pad (err e) o = DecisionCode.internal_error
      completion_code rules pad (ok template) o =
          elim (evaluate_authentication rules pad template o) [
            | ok decision ↦ decision_code decision.reason
            | err e ↦ DecisionCode.internal_error
          ]

      unfoldable pub complete_authentication :
          (ℕ → Result (StorageError P K) (TemplateRecord W))
          → ConnectionToken
          → TransactionId
          → AuthPolicy W
          → PassivePadPolicy W
          → AuthenticationObservation W
          → ℕ
          → Exec World SessionError Response
      complete_authentication load_template connection transaction_id rules pad o now_micros w =
          elim (target_uid connection transaction_id w) [
            | err e ↦ (err e, w)
            | ok uid ↦
                complete connection transaction_id (completion_code rules pad (load_template uid) o)
                  now_micros w
          ]
