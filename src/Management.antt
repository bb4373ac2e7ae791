-- ===== src/Management.antt =====
-- crates/faceauth-management/src/lib.rs: the coordinator of the one enrollment operation that
-- holds the cameras. An operation identifier is a UUID, hence a number; the one that
-- `OperationId::generate` returns is an argument of `start`. Times are `u64` microseconds.
pub mod Calls
pub mod Trace
mod Tests
use faceauth_rs.Prelude.{
  ℕ, Bool, true, false, not, ◌||◌, Option, some, none, is_some, is_some_and, Result, ok, err,
  nat_eq, bytes_eq, ◌==◌, ◌!=◌, if◌then◌else◌, ltb, leb, List, [], ◌∷◌, ok_or, map_err, to_option,
}
use faceauth_rs.Prelude as Shared
use faceauth_rs.Prelude.Exec.{Exec, ◌>>=◌, ◌>>◌, pure, reads, guard}
use faceauth_rs.Prelude.Word.{u64_mod, checked_add}
use faceauth_rs.Protocol.{purpose_eq, polkit}
use faceauth_rs.Authz.{AuthorizationGrant}

-- "faceauth-enroll"
abbrev pub enrollment_service : List ℕ
enrollment_service =
    b'f' ∷ b'a' ∷ b'c' ∷ b'e' ∷ b'a' ∷ b'u' ∷ b't' ∷ b'h' ∷ b'-' ∷ b'e' ∷ b'n' ∷ b'r' ∷ b'o' ∷ b'l'
    ∷ b'l' ∷ []

abbrev pub max_operation_duration_micros : ℕ
max_operation_duration_micros = 120000000

abbrev pub management_schema_version : ℕ
management_schema_version = 2

abbrev pub OperationId : Type 0
OperationId = ℕ

pub data ManagementError : Type 0 where
  unauthorized invalid_config deadline_overflow busy no_active_operation : ManagementError
  wrong_uid wrong_operation invalid_operation_id reserved_result : ManagementError

pub record AuthorizedEnrollment : Type 0 where
  pub target_uid : ℕ

unfoldable pub from_grant : AuthorizationGrant → Result ManagementError AuthorizedEnrollment
from_grant grant =
    if grant.peer.uid != 0
      || (grant.service.as_str != enrollment_service)
      || (grant.purpose != polkit)
    then err unauthorized
    else ok (record { target_uid = grant.target_uid })

-- `OperationId::parse`, over the UUID library's parser
unfoldable pub parse_id :
    (List ℕ → Result (Unit {0}) ℕ) → List ℕ → Result ManagementError OperationId
parse_id parse_uuid value = map_err (parse_uuid value) invalid_operation_id

pub data ManagementProgress : Type 0 where
  preparing position_face hold_still active_challenge blink turn_left turn_right :
      ManagementProgress
  return_to_center processing : ManagementProgress

pub data ManagementResult : Type 0 where
  completed cancelled timed_out failed : ManagementResult

-- `ManagementUpdate::Progress` and `ManagementUpdate::Completed`
pub data ManagementUpdate : Type 0 where
  progress : OperationId → ManagementProgress → ManagementUpdate
  finished : OperationId → ManagementResult → ManagementUpdate

pub record ManagementConfig : Type 0 where
  pub operation_duration_micros : ℕ

unfoldable pub validate : ManagementConfig → Result ManagementError (Unit {0})
validate c =
    if ltb c.operation_duration_micros 5000000
      || ltb max_operation_duration_micros c.operation_duration_micros
    then err invalid_config
    else ok tt

abbrev pub default_config : ManagementConfig
default_config = record { operation_duration_micros = 120000000 }

pub record ActiveOperation : Type 0 where
  pub id : OperationId
  pub uid : ℕ
  pub deadline_micros : ℕ

pub record ManagementCoordinator : Type 0 where
  pub config : ManagementConfig
  pub active : Option ActiveOperation

unfoldable pub new : ManagementConfig → Result ManagementError ManagementCoordinator
unfolding validate
new config = Shared.bind (validate config) (λ _. ok (record { config = config; active = none }))

-- The coordinator with another operation in its slot.
abbrev pub holding : Option ActiveOperation → ManagementCoordinator → ManagementCoordinator
holding active m = record { config = m.config; active = active }

unfoldable pub start :
    OperationId
    → AuthorizedEnrollment
    → ℕ
    → Exec ManagementCoordinator ManagementError ManagementUpdate
start fresh authorization now_micros m =
    if is_some m.active
    then (err busy, m)
    else elim (checked_add u64_mod now_micros m.config.operation_duration_micros) [
      | none ↦ (err deadline_overflow, m)
      | some deadline ↦ (
        ok (progress fresh preparing),
        holding
            (some
              (record { id = fresh; uid = authorization.target_uid; deadline_micros = deadline }))
            m,
      )
    ]

unfoldable pub verify : ℕ → OperationId → ManagementCoordinator → Result ManagementError (Unit {0})
verify uid operation_id m = Shared.bind (ok_or m.active no_active_operation) λ active.
    if active.uid != uid
    then err wrong_uid
    else if active.id != operation_id
    then err wrong_operation
    else ok tt

unfoldable pub deadline_reached : ℕ → ManagementCoordinator → Result ManagementError Bool
deadline_reached now_micros m =
    Shared.bind (ok_or m.active no_active_operation)
      λ active. ok (leb active.deadline_micros now_micros)

unfoldable pub take_terminal :
    ManagementResult → Exec ManagementCoordinator ManagementError ManagementUpdate
take_terminal result m = elim m.active [
  | none ↦ (err no_active_operation, m)
  | some operation ↦ (ok (finished operation.id result), holding none m)
]

unfoldable pub emit_progress :
    ℕ
    → OperationId
    → ManagementProgress
    → ℕ
    → Exec ManagementCoordinator ManagementError ManagementUpdate
emit_progress uid operation_id code now_micros = do
  reads (verify uid operation_id)
  reached ← reads (deadline_reached now_micros)
  if reached then take_terminal timed_out else pure (progress operation_id code)

unfoldable pub cancel :
    ℕ → OperationId → ℕ → Exec ManagementCoordinator ManagementError ManagementUpdate
cancel uid operation_id now_micros = do
  reads (verify uid operation_id)
  reached ← reads (deadline_reached now_micros)
  if reached then take_terminal timed_out else take_terminal cancelled

-- `matches!(result, ManagementResult::Cancelled | ManagementResult::TimedOut)`
unfoldable pub is_reserved_result : ManagementResult → Bool
is_reserved_result cancelled = true
is_reserved_result timed_out = true
is_reserved_result _ = false

unfoldable pub complete :
    ℕ
    → OperationId
    → ManagementResult
    → ℕ
    → Exec ManagementCoordinator ManagementError ManagementUpdate
complete uid operation_id result now_micros = do
  guard (not (is_reserved_result result)) reserved_result
  reads (verify uid operation_id)
  reached ← reads (deadline_reached now_micros)
  if reached then take_terminal timed_out else take_terminal result

unfoldable pub expire : ℕ → ManagementCoordinator → Option ManagementUpdate × ManagementCoordinator
expire now_micros m =
    if is_some_and m.active (λ operation. leb operation.deadline_micros now_micros)
    then (let (r, m') = take_terminal timed_out m in (to_option r, m'))
    else (none, m)

unfoldable pub is_busy : ManagementCoordinator → Bool
is_busy m = is_some m.active
