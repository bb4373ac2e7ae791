-- ===== src/Management/Trace.antt =====
-- Histories of the coordinator (crates/faceauth-management/src/lib.rs): which operations are
-- opened, which are answered, and who can have an operation completed.
use mathlib.Core.List.{append-nil}
use faceauth_rs.Prelude.{
  ℕ, ◌≡◌, inl, inr, ap, sym, subst, ◌∙◌, Bool, false, Option, some, none, Result, is_ok, leb,
  if◌then◌else◌, arith, List, [], ◌∷◌, ◌++◌, to_option, ◌<◌,
}
use faceauth_rs.Prelude.Ledger.{replay, replay_balance}
use faceauth_rs.Management.{
  take_terminal, ManagementCoordinator, ManagementUpdate, ManagementError, ActiveOperation,
  AuthorizedEnrollment, ManagementResult, OperationId, finished, completed, start, expire,
}
use faceauth_rs.Management.Calls.{
  Ask, progresses, completes, cancels, perform, outcome, IsOwned, perform_owned, perform_stranger,
  IsOwned-or_not,
}

pub data Call : Type 0 where
  starts : OperationId → AuthorizedEnrollment → ℕ → Call
  asks : Ask → ℕ → OperationId → ℕ → Call
  expires : ℕ → Call

abbrev pub answer : Call → ManagementCoordinator → Option ManagementUpdate × ManagementCoordinator
answer (starts fresh auth now) m = let (r, m') = start fresh auth now m in (to_option r, m')
answer (asks o uid id now) m = let (r, m') = perform o uid id now m in (to_option r, m')
answer (expires now) m = expire now m

abbrev pub step : Call → ManagementCoordinator → ManagementCoordinator
step k m = (answer k m).1

abbrev ids_if : Bool → OperationId → List OperationId
ids_if b id = if b then id ∷ [] else []

-- The operation that a call opens.
abbrev pub opens : Call → ManagementCoordinator → List OperationId
opens (starts fresh auth now) m = ids_if (is_ok (start fresh auth now m).0) fresh
opens _ m = []

abbrev finished_ids : Option ManagementUpdate → List OperationId
finished_ids (some (finished id r)) = id ∷ []
finished_ids _ = []

-- The operation that a call answers by a terminal update.
abbrev pub closes : Call → ManagementCoordinator → List OperationId
closes k m = finished_ids (answer k m).0

abbrev pub held : ManagementCoordinator → List OperationId
held m = elim m.active [ none ↦ [] | some a ↦ a.id ∷ [] ]

abbrev IsBalanced : Call → ManagementCoordinator → Type 0
IsBalanced k m = held m ++ opens k m ≡ closes k m ++ held (step k m)

starts-IsBalanced :
    (fresh : OperationId) (auth : AuthorizedEnrollment) (now : ℕ) (m : ManagementCoordinator)
    → IsBalanced (starts fresh auth now) m
unfolding start
starts-IsBalanced fresh auth now m = ground arith

expires-IsBalanced : (now : ℕ) (m : ManagementCoordinator) → IsBalanced (expires now) m
unfolding expire take_terminal
expires-IsBalanced now m = ground arith

outcome_balanced :
    (o : Ask) (id : OperationId) (late : Bool) (m : ManagementCoordinator) (a : ActiveOperation)
    → m.active ≡ some a
    → a.id ≡ id
    → held m ≡ finished_ids (to_option (outcome o id late m).0) ++ held (outcome o id late m).1
outcome_balanced (progresses code) id late m a e s = ground arith
outcome_balanced (completes r) id late m a e s = ground arith
outcome_balanced cancels id late m a e s = ground arith

call-IsBalanced : (k : Call) (m : ManagementCoordinator) → IsBalanced k m
call-IsBalanced (starts fresh auth now) m = starts-IsBalanced fresh auth now m
call-IsBalanced (asks o uid id now) m = elim (IsOwned-or_not uid id m) [
  | inl (a, b) ↦
      subst
        (λ (x : Result ManagementError ManagementUpdate × ManagementCoordinator).
          held m ++ [] ≡ finished_ids (to_option x.0) ++ held x.1)
        (sym (perform_owned o uid id now m a b))
        (append-nil _ ∙ outcome_balanced o id (leb a.deadline_micros now) m a b.active b.same_id)
  | inr stranger ↦ ground (arith, perform_stranger o uid id now m stranger, append-nil (held m))
]
call-IsBalanced (expires now) m = expires-IsBalanced now m

-- Over any history of calls, the operations that were held or opened are, in order, those that
-- were answered by a terminal update and then the one still held: none is answered twice, and
-- none is forgotten.
pub replay-held :
    (m : ManagementCoordinator) (ks : List Call)
    → let h = replay step opens closes m ks in held m ++ h.opened ≡ h.closed ++ held h.final
replay-held = replay_balance step opens closes held call-IsBalanced

-- What an owner who asks for `o` must have done to see the operation completed.
outcome-completed :
    (o : Ask) (id i : OperationId) (late : Bool) (m : ManagementCoordinator)
    → to_option (outcome o id late m).0 ≡ some (finished i completed)
    → (o ≡ completes completed) × (late ≡ false) × (id ≡ i)
outcome-completed (progresses code) id i late m h = ground arith
outcome-completed (completes r) id i late m h = ground arith
outcome-completed cancels id i late m h = ground arith

start_never_finishes :
    (fresh i : OperationId) (auth : AuthorizedEnrollment) (now : ℕ) (m : ManagementCoordinator)
    (r : ManagementResult)
    → to_option (start fresh auth now m).0 ≡ some (finished i r)
    → ⊥
unfolding start
start_never_finishes fresh i auth now m r h = ground arith

expire_never_completes :
    (now : ℕ) (m : ManagementCoordinator) (i : OperationId)
    → (expire now m).0 ≡ some (finished i completed)
    → ⊥
unfolding expire take_terminal
expire_never_completes now m i h = ground arith

-- A call that asks, as the owner of the operation `i`, to complete it before its deadline.
pub data IsCompletion (i : OperationId) (m : ManagementCoordinator) : Call → Type 0 where
  completion :
      (uid now : ℕ) (a : ActiveOperation)
      → IsOwned uid i m a
      → now < a.deadline_micros
      → IsCompletion i m (asks (completes completed) uid i now)

-- An operation is reported as completed only by a call that asks for exactly that, names the
-- operation and its account, and comes before the deadline.
pub completed_only :
    (k : Call) (m : ManagementCoordinator) (i : OperationId)
    → (answer k m).0 ≡ some (finished i completed)
    → IsCompletion i m k
completed_only (starts fresh auth now) m i h =
    absurd (start_never_finishes fresh i auth now m completed h)
completed_only (asks o uid id now) m i h = elim (IsOwned-or_not uid id m) [
  | inl (a, b) ↦
      let (asked, early, same) = outcome-completed o id i (leb a.deadline_micros now) m (
        ap (λ (x : Result ManagementError ManagementUpdate × ManagementCoordinator). to_option x.0)
          (sym (perform_owned o uid id now m a b))
        ∙ h) in
      rw (asked, sym same) (completion uid now a b (ground arith))
  | inr stranger ↦ absurd (ground (arith, perform_stranger o uid id now m stranger))
]
completed_only (expires now) m i h = absurd (expire_never_completes now m i h)
