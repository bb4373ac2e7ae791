-- ===== src/Management/Tests.antt =====
-- The coordinator at concrete histories.
use faceauth_rs.Prelude.{◌≡◌, refl, List, [], ◌∷◌, ◌++◌, some, none, ok, err, arith}
use faceauth_rs.Protocol.{polkit}
use faceauth_rs.Authz.{AuthorizationGrant}
use faceauth_rs.Management.{
  ManagementCoordinator, ActiveOperation, AuthorizedEnrollment, completed, timed_out, wrong_uid,
  busy, blink, default_config, enrollment_service, progress, finished, preparing, new, start,
  verify, deadline_reached, take_terminal, complete, cancel, expire, is_reserved_result,
}
use faceauth_rs.Management.Calls.{progresses, completes, perform, IsOwned, perform_owned}
use faceauth_rs.Management.Trace.{
  Call, starts, asks, answer, IsCompletion, step, opens, closes, held, replay-held, completed_only,
}
use faceauth_rs.Prelude.Ledger.{replay}

abbrev grant : AuthorizationGrant
grant = record {
  transaction_id = 7;
  peer = record { pid = 20; uid = 0; gid = 0 };
  target_uid = 1000;
  service = record { as_str = enrollment_service };
  purpose = polkit;
  executable = record { device = 1; inode = 2 };
}

abbrev authorized : AuthorizedEnrollment
authorized = record { target_uid = 1000 }

abbrev idle : ManagementCoordinator
idle = record { config = default_config; active = none }

abbrev operation : ActiveOperation
operation = record { id = 5; uid = 1000; deadline_micros = 120000100 }

abbrev running : ManagementCoordinator
running = record { config = default_config; active = some operation }

new_default : new default_config ≡ ok idle
unfolding new
new_default = refl

start_idle : start 5 authorized 100 idle ≡ (ok (progress 5 preparing), running)
unfolding start
start_idle = refl

start-running : start 6 authorized 100 running ≡ (err busy, running)
unfolding start
start-running = refl

cancel_other_account : cancel 1001 5 100 running ≡ (err wrong_uid, running)
unfolding cancel verify
cancel_other_account = refl

expire_late : expire 120000100 running ≡ (some (finished 5 timed_out), idle)
unfolding expire take_terminal
expire_late = refl

owned : IsOwned 1000 5 running operation
owned = record { active = refl; same_uid = refl; same_id = refl }

perform_owned_example :
    perform (completes completed) 1000 5 200 running ≡ (ok (finished 5 completed), idle)
unfolding is_reserved_result
perform_owned_example = perform_owned (completes completed) 1000 5 200 running operation owned

not-IsOwned : (a : ActiveOperation) → ¬ IsOwned 1001 5 running a
not-IsOwned a b = ground (arith, b.active, b.same_uid)

abbrev calls : List Call
calls =
    starts 5 authorized 100
    ∷ starts 6 authorized 200
    ∷ asks (progresses blink) 1000 5 300
    ∷ asks (completes completed) 1000 5 400
    ∷ starts 8 authorized 500
    ∷ []

replay-held_example :
    let h = replay step opens closes idle calls in [] ++ h.opened ≡ h.closed ++ held h.final
replay-held_example = replay-held idle calls

completed_answer :
    (answer (asks (completes completed) 1000 5 200) running).0 ≡ some (finished 5 completed)
unfolding complete verify deadline_reached take_terminal is_reserved_result
completed_answer = refl

completed_only_example : IsCompletion 5 running (asks (completes completed) 1000 5 200)
completed_only_example =
    completed_only (asks (completes completed) 1000 5 200) running 5 completed_answer
