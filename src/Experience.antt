-- ===== src/Experience.antt =====
-- crates/faceauth-ui-model/src/lib.rs: the state of the user interface, and what it presents.
pub mod Updates
pub mod Story
mod Tests
use Prim.Native.String.{String}
use faceauth_rs.Prelude.{
  ℕ, Bool, true, false, not, ◌&&◌, Option, some, none, Result, ok, err, Eq, nat_eq, ◌==◌, ◌≡◌, ◌↔◌,
  eqb, eqb_iff, if◌then◌else◌, arith,
}
use faceauth_rs.Prelude.Exec.{Exec, ◌>>=◌, ◌>>◌, reads, guard, modify}
use faceauth_rs.Protocol.{TransactionId, ProgressCode, DecisionCode, RejectionCode}
use faceauth_rs.Management.{
  OperationId, ManagementProgress, ManagementResult, ManagementUpdate, progress, finished,
}

pub data ExperienceFlow : Type 0 where
  authentication : TransactionId → ExperienceFlow
  authentication_rejection : Option TransactionId → ExperienceFlow
  enrollment : OperationId → ExperienceFlow

abbrev option_beq : Option ℕ → Option ℕ → Bool
option_beq none none = true
option_beq (some a) (some b) = eqb a b
option_beq _ _ = false

abbrev flow_beq : ExperienceFlow → ExperienceFlow → Bool
flow_beq (authentication s) (authentication t) = eqb s t
flow_beq (authentication_rejection s) (authentication_rejection t) = option_beq s t
flow_beq (enrollment a) (enrollment b) = eqb a b
flow_beq _ _ = false

pub flow_beq_iff : (a b : ExperienceFlow) → (flow_beq a b ≡ true) ↔ (a ≡ b)
flow_beq_iff a b = ground arith

instance abbrev pub flow_eq : Eq ExperienceFlow
flow_eq = record { beq = flow_beq; beq_iff = flow_beq_iff }

pub data ExperienceCue : Type 0 where
  preparing position_face hold_still follow_challenge blink turn_left turn_right : ExperienceCue
  return_to_center processing : ExperienceCue

-- `ExperienceCue::token`
unfoldable pub cue_token : ExperienceCue → String
cue_token preparing = "preparing"
cue_token position_face = "position-face"
cue_token hold_still = "hold-still"
cue_token follow_challenge = "active-challenge"
cue_token blink = "blink"
cue_token turn_left = "turn-left"
cue_token turn_right = "turn-right"
cue_token return_to_center = "return-to-center"
cue_token processing = "processing"

-- `ExperienceCue::icon_name`
unfoldable pub cue_icon_name : ExperienceCue → String
cue_icon_name preparing = "view-refresh"
cue_icon_name position_face = "edit-image-face-recognize"
cue_icon_name hold_still = "media-playback-pause"
cue_icon_name follow_challenge = "system-run"
cue_icon_name blink = "face-smile"
cue_icon_name turn_left = "go-previous"
cue_icon_name turn_right = "go-next"
cue_icon_name return_to_center = "go-home"
cue_icon_name processing = "view-refresh"

-- `ExperienceCue::title_key`
unfoldable pub cue_title_key : ExperienceCue → String
cue_title_key preparing = "faceauth.cue.preparing.title"
cue_title_key position_face = "faceauth.cue.position-face.title"
cue_title_key hold_still = "faceauth.cue.hold-still.title"
cue_title_key follow_challenge = "faceauth.cue.active-challenge.title"
cue_title_key blink = "faceauth.cue.blink.title"
cue_title_key turn_left = "faceauth.cue.turn-left.title"
cue_title_key turn_right = "faceauth.cue.turn-right.title"
cue_title_key return_to_center = "faceauth.cue.return-to-center.title"
cue_title_key processing = "faceauth.cue.processing.title"

pub data ExperienceOutcome : Type 0 where
  succeeded try_again cancelled timed_out unavailable : ExperienceOutcome

-- `ExperienceOutcome::title_key`
unfoldable pub outcome_title_key : ExperienceOutcome → String
outcome_title_key succeeded = "faceauth.outcome.succeeded.title"
outcome_title_key try_again = "faceauth.outcome.try-again.title"
outcome_title_key cancelled = "faceauth.outcome.cancelled.title"
outcome_title_key timed_out = "faceauth.outcome.timed-out.title"
outcome_title_key unavailable = "faceauth.outcome.unavailable.title"

-- `ExperienceOutcome::icon_name`
unfoldable pub outcome_icon_name : ExperienceOutcome → String
outcome_icon_name succeeded = "dialog-ok-apply"
outcome_icon_name try_again = "data-warning"
outcome_icon_name cancelled = "dialog-cancel"
outcome_icon_name timed_out = "chronometer"
outcome_icon_name unavailable = "dialog-error"

-- The token that `presentation` gives to an outcome.
unfoldable pub outcome_token : ExperienceOutcome → String
outcome_token succeeded = "succeeded"
outcome_token try_again = "try-again"
outcome_token cancelled = "cancelled"
outcome_token timed_out = "timed-out"
outcome_token unavailable = "unavailable"

pub data ExperienceState : Type 0 where
  idle : ExperienceState
  active : ExperienceFlow → ExperienceCue → ExperienceState
  terminal : ExperienceFlow → ExperienceOutcome → ExperienceState

pub record ExperiencePresentation : Type 0 where
  pub token : String
  pub title_key : String
  pub icon_name : String
  pub busy : Bool
  pub show_password_fallback : Bool

pub record ExperienceModel : Type 0 where
  pub state : ExperienceState

-- `ExperienceModel::default`
abbrev pub default_model : ExperienceModel
default_model = record { state = idle }

pub data ExperienceError : Type 0 where
  busy is_idle wrong_flow is_terminal : ExperienceError

abbrev pub Change : Type 0
Change = Exec ExperienceModel ExperienceError (Unit {0})

abbrev pub enter : ExperienceState → Change
enter s = modify (λ _. record { state = s })

-- `self.state == ExperienceState::Idle`
unfoldable pub rests : ExperienceState → Bool
rests idle = true
rests _ = false

-- `self.state != Idle` gives `ExperienceError::Busy`
unfoldable pub begin : ExperienceFlow → Change
begin flow m = if rests m.state then enter (active flow preparing) m else (err busy, m)

unfoldable pub begin_authentication : TransactionId → Change
begin_authentication transaction_id = begin (authentication transaction_id)

unfoldable pub begin_enrollment : OperationId → Change
begin_enrollment operation_id = begin (enrollment operation_id)

unfoldable pub authentication_cue : ProgressCode → ExperienceCue
authentication_cue ProgressCode.position_face = position_face
authentication_cue ProgressCode.hold_still = hold_still
authentication_cue ProgressCode.blink = blink
authentication_cue ProgressCode.turn_left = turn_left
authentication_cue ProgressCode.turn_right = turn_right
authentication_cue ProgressCode.return_to_center = return_to_center
authentication_cue ProgressCode.processing = processing

unfoldable pub management_cue : ManagementProgress → ExperienceCue
management_cue ManagementProgress.preparing = preparing
management_cue ManagementProgress.position_face = position_face
management_cue ManagementProgress.hold_still = hold_still
management_cue ManagementProgress.active_challenge = follow_challenge
management_cue ManagementProgress.blink = blink
management_cue ManagementProgress.turn_left = turn_left
management_cue ManagementProgress.turn_right = turn_right
management_cue ManagementProgress.return_to_center = return_to_center
management_cue ManagementProgress.processing = processing

unfoldable pub authentication_outcome : DecisionCode → ExperienceOutcome
authentication_outcome DecisionCode.accepted = succeeded
authentication_outcome DecisionCode.cancelled = cancelled
authentication_outcome DecisionCode.timed_out = timed_out
authentication_outcome DecisionCode.internal_error = unavailable
authentication_outcome DecisionCode.infrared_missing = unavailable
authentication_outcome DecisionCode.visible_missing = unavailable
authentication_outcome DecisionCode.insufficient_quality = try_again
authentication_outcome DecisionCode.passive_liveness_failed = try_again
authentication_outcome DecisionCode.active_challenge_failed = try_again
authentication_outcome DecisionCode.face_mismatch = try_again

unfoldable pub management_outcome : ManagementResult → ExperienceOutcome
management_outcome ManagementResult.completed = succeeded
management_outcome ManagementResult.cancelled = cancelled
management_outcome ManagementResult.timed_out = timed_out
management_outcome ManagementResult.failed = unavailable

unfoldable pub require_active : ExperienceFlow → ExperienceModel → Result ExperienceError (Unit {0})
require_active expected m = elim m.state [
  | idle ↦ err is_idle
  | terminal flow outcome ↦ err is_terminal
  | active flow cue ↦ if flow == expected then ok tt else err wrong_flow
]

unfoldable pub authentication_progress : TransactionId → ProgressCode → Change
authentication_progress transaction_id code = do
  let flow = authentication transaction_id
  reads (require_active flow)
  enter (active flow (authentication_cue code))

unfoldable pub authentication_completed : TransactionId → DecisionCode → Change
authentication_completed transaction_id decision = do
  let flow = authentication transaction_id
  reads (require_active flow)
  enter (terminal flow (authentication_outcome decision))

unfoldable pub authentication_rejected : Option TransactionId → RejectionCode → Change
authentication_rejected transaction_id reason m =
    if rests m.state
    then enter (terminal (authentication_rejection transaction_id) unavailable) m
    else (err busy, m)

unfoldable pub management_update : ManagementUpdate → Change
management_update (progress operation_id code) = do
  let flow = enrollment operation_id
  reads (require_active flow)
  enter (active flow (management_cue code))
management_update (finished operation_id result) = do
  let flow = enrollment operation_id
  reads (require_active flow)
  enter (terminal flow (management_outcome result))

-- `matches!(self.state, ExperienceState::Active { .. })`
unfoldable pub is_active : ExperienceState → Bool
is_active (active flow cue) = true
is_active _ = false

unfoldable pub reset : Change
reset m = if is_active m.state then (err busy, m) else enter idle m

-- `matches!(flow, ExperienceFlow::Authentication { .. })`
unfoldable pub is_authentication : ExperienceFlow → Bool
is_authentication (authentication t) = true
is_authentication _ = false

-- `matches!(flow, Authentication { .. } | AuthenticationRejection { .. })`
unfoldable pub is_password_flow : ExperienceFlow → Bool
is_password_flow (enrollment id) = false
is_password_flow _ = true

-- `matches!(outcome, ExperienceOutcome::Succeeded)`
unfoldable pub is_succeeded : ExperienceOutcome → Bool
is_succeeded succeeded = true
is_succeeded _ = false

unfoldable pub presentation : ExperienceModel → ExperiencePresentation
presentation m = elim m.state [
  | idle ↦ record {
    token = "idle";
    title_key = "faceauth.idle.title";
    icon_name = "edit-image-face-recognize";
    busy = false;
    show_password_fallback = false;
  }
  | active flow cue ↦ record {
    token = cue_token cue;
    title_key = cue_title_key cue;
    icon_name = cue_icon_name cue;
    busy = true;
    show_password_fallback = is_authentication flow;
  }
  | terminal flow outcome ↦ record {
    token = outcome_token outcome;
    title_key = outcome_title_key outcome;
    icon_name = outcome_icon_name outcome;
    busy = false;
    show_password_fallback = is_password_flow flow && not (is_succeeded outcome);
  }
]
