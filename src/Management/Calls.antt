-- ===== src/Management/Calls.antt =====
-- Who may drive an enrollment operation, and what each call of
-- crates/faceauth-management/src/lib.rs returns before and after the deadline.
use faceauth_rs.Prelude.{
  ℕ, ◌≡◌, ◌↔◌, ◌⊎◌, inl, inr, refl, Bool, false, some, none, ok, err, is_ok, Result, nat_eq,
  bytes_eq, if◌then◌else◌, leb, arith, Option-cases, list_beq_iff,
}
use faceauth_rs.Protocol.{polkit, purpose_eq, purpose_beq_iff}
use faceauth_rs.Authz.{AuthorizationGrant}
use faceauth_rs.Management.{
  ManagementCoordinator, ManagementProgress, ManagementResult, ManagementUpdate, ManagementError,
  ActiveOperation, AuthorizedEnrollment, OperationId, cancelled, timed_out, progress, finished,
  reserved_result, enrollment_service, from_grant, verify, deadline_reached, take_terminal, holding,
  is_reserved_result, emit_progress, complete, cancel,
}

-- A grant authorizes an enrollment exactly when it was issued to root, for the enrollment
-- service and with the polkit purpose, and then for the account that the grant names.
from_grant_iff :
    (grant : AuthorizationGrant) (a : AuthorizedEnrollment)
    → (from_grant grant ≡ ok a) ↔ (
        (grant.peer.uid ≡ 0)
        × (grant.service.as_str ≡ enrollment_service)
        × (grant.purpose ≡ polkit)
        × (a.target_uid ≡ grant.target_uid))
unfolding from_grant
from_grant_iff grant a = ground (
  arith,
  list_beq_iff grant.service.as_str enrollment_service,
  purpose_beq_iff grant.purpose polkit,
)

pub data Ask : Type 0 where
  progresses : ManagementProgress → Ask
  completes : ManagementResult → Ask
  cancels : Ask

abbrev pub perform :
    Ask
    → ℕ
    → OperationId
    → ℕ
    → ManagementCoordinator
    → Result ManagementError ManagementUpdate × ManagementCoordinator
perform (progresses code) uid id now = emit_progress uid id code now
perform (completes result) uid id now = complete uid id result now
perform cancels uid id now = cancel uid id now

-- The operation `id` is active on behalf of the account `uid`.
pub record IsOwned (uid : ℕ) (id : OperationId) (m : ManagementCoordinator) (a : ActiveOperation)
    : Type 0 where
  pub active : m.active ≡ some a
  pub same_uid : a.uid ≡ uid
  pub same_id : a.id ≡ id

verify-IsOwned :
    (uid : ℕ) (id : OperationId) (m : ManagementCoordinator)
    → verify uid id m ≡ ok tt
    → (a : ActiveOperation) × IsOwned uid id m a
unfolding verify
verify-IsOwned uid id m h = elim (Option-cases m.active) [
  | inl e ↦ ground arith
  | inr (a, e) ↦ (a, record { active = e; same_uid = ground arith; same_id = ground arith })
]

IsOwned-verify :
    (uid : ℕ) (id : OperationId) (m : ManagementCoordinator) (a : ActiveOperation)
    → IsOwned uid id m a
    → verify uid id m ≡ ok tt
unfolding verify
IsOwned-verify uid id m a b = ground arith

pub take_terminal_held :
    (m : ManagementCoordinator) (a : ActiveOperation) (r : ManagementResult)
    → m.active ≡ some a
    → take_terminal r m ≡ (ok (finished a.id r), holding none m)
unfolding take_terminal
take_terminal_held m a r e = ground arith

deadline_reached_held :
    (m : ManagementCoordinator) (a : ActiveOperation) (now : ℕ)
    → m.active ≡ some a
    → deadline_reached now m ≡ ok (leb a.deadline_micros now)
unfolding deadline_reached
deadline_reached_held m a now e = ground arith

-- The result with which a call ends the operation, if it does.
abbrev pub outcome :
    Ask
    → OperationId
    → Bool
    → ManagementCoordinator
    → Result ManagementError ManagementUpdate × ManagementCoordinator
outcome (progresses code) id late m =
    if late then (ok (finished id timed_out), holding none m) else (ok (progress id code), m)
outcome (completes result) id late m =
    if is_reserved_result result
    then (err reserved_result, m)
    else (ok (finished id (if late then timed_out else result)), holding none m)
outcome cancels id late m =
    (ok (finished id (if late then timed_out else cancelled)), holding none m)

-- A call that names the active operation and its account, on every branch: from the deadline on
-- it ends the operation as timed out whatever was asked; before it, progress is echoed and
-- changes nothing, a result ends the operation with that result, and a cancellation ends it as
-- cancelled. A reserved result is refused and changes nothing.
pub perform_owned :
    (o : Ask) (uid : ℕ) (id : OperationId) (now : ℕ) (m : ManagementCoordinator)
    (a : ActiveOperation)
    → IsOwned uid id m a
    → perform o uid id now m ≡ outcome o id (leb a.deadline_micros now) m
unfolding emit_progress complete cancel
perform_owned (progresses code) uid id now m a b = ground (
  arith,
  IsOwned-verify uid id m a b,
  deadline_reached_held m a now b.active,
  take_terminal_held m a timed_out b.active,
)
perform_owned (completes result) uid id now m a b = ground (
  arith,
  IsOwned-verify uid id m a b,
  deadline_reached_held m a now b.active,
  take_terminal_held m a timed_out b.active,
  take_terminal_held m a result b.active,
)
perform_owned cancels uid id now m a b = ground (
  arith,
  IsOwned-verify uid id m a b,
  deadline_reached_held m a now b.active,
  take_terminal_held m a timed_out b.active,
  take_terminal_held m a cancelled b.active,
)

-- A call that does not name both the active operation and its account fails and changes nothing.
pub perform_stranger :
    (o : Ask) (uid : ℕ) (id : OperationId) (now : ℕ) (m : ManagementCoordinator)
    → ((a : ActiveOperation) → ¬ IsOwned uid id m a)
    → ((perform o uid id now m).1 ≡ m) × (is_ok (perform o uid id now m).0 ≡ false)
unfolding emit_progress complete cancel
perform_stranger o uid id now m none_owned = refuse o (verify uid id m) refl
  where
    refuse :
        (p : Ask) (r : Result ManagementError (Unit {0}))
        → verify uid id m ≡ r
        → ((perform p uid id now m).1 ≡ m) × (is_ok (perform p uid id now m).0 ≡ false)
    refuse p (ok tt) e = let (a, b) = verify-IsOwned uid id m e in absurd (none_owned a b)
    refuse (progresses code) (err x) e = ground arith
    refuse (completes result) (err x) e = ground arith
    refuse cancels (err x) e = ground arith

-- Either the call names the active operation and its account, or it does not.
pub IsOwned-or_not :
    (uid : ℕ) (id : OperationId) (m : ManagementCoordinator)
    → ((a : ActiveOperation) × IsOwned uid id m a) ⊎ ((a : ActiveOperation) → ¬ IsOwned uid id m a)
IsOwned-or_not uid id m = split (verify uid id m) refl
  where
    split :
        (r : Result ManagementError (Unit {0}))
        → verify uid id m ≡ r
        → ((a : ActiveOperation) × IsOwned uid id m a)
          ⊎ ((a : ActiveOperation) → ¬ IsOwned uid id m a)
    split (ok tt) e = inl (verify-IsOwned uid id m e)
    split (err x) e = inr (λ a b. cc (IsOwned-verify uid id m a b))
