-- ===== src/Session/Tests.antt =====
-- The session manager at concrete histories.
use faceauth_rs.Prelude.{
  ℕ, ◌<◌, ◌≡◌, ◌↔◌, refl, true, false, List, [], ◌∷◌, ◌++◌, some, none, ok, err, arith,
}
use faceauth_rs.Protocol.{polkit, accepted, timed_out, started, completed, blink}
use faceauth_rs.Authz.{AuthorizationGrant}
use faceauth_rs.Session.{
  World, SessionConfig, SessionManager, ActiveSession, wrong_connection, new, admit, is_cancelled,
  start, verify_binding, deadline_reached, take_terminal, send_progress, is_reserved, complete,
}
use faceauth_rs.Session.Calls.{
  completes, cancels, progresses, perform, IsBound, outcome, perform_bound,
}
use faceauth_rs.Prelude.Ledger.{replay}
use faceauth_rs.Session.Trace.{Call, starts, asks, step, run, open_ids, run-ids}
use faceauth_rs.Session.Tokens.{fresh, IsLive, token_iff, accepted_only}

abbrev grant : AuthorizationGrant
grant = record {
  transaction_id = 7;
  peer = record { pid = 20; uid = 0; gid = 0 };
  target_uid = 1000;
  service = record { as_str = b's' ∷ [] };
  purpose = polkit;
  executable = record { device = 1; inode = 2 };
}

abbrev config : SessionConfig
config = record { transaction_duration_micros = 15000000 }

abbrev manager : SessionManager
manager = record { config = config; active = none }

new_manager : new config ≡ ok manager
unfolding new
new_manager = refl

abbrev session : ActiveSession
session = record { grant = grant; connection = 3; deadline_micros = 15000100; cancellation = 0 }

abbrev busy_world : World
busy_world = record {
  manager = record { config = config; active = some session };
  cells = false ∷ [];
}

start_manager : start grant 3 100 (fresh manager) ≡ (ok (started 7), busy_world)
unfolding start admit
start_manager = refl

bound : IsBound 3 7 busy_world session
bound = record { active = refl; same_connection = refl; same_transaction = refl }

-- A match that arrives after the deadline is answered as a timeout.
complete_late : (complete 3 7 accepted 15000100 busy_world).0 ≡ ok (completed 7 timed_out)
unfolding complete verify_binding deadline_reached take_terminal is_reserved
complete_late = refl

complete_elsewhere : (complete 4 7 accepted 200 busy_world).0 ≡ err wrong_connection
unfolding complete verify_binding is_reserved
complete_elsewhere = refl

perform_bound_example :
    perform cancels 3 7 200 busy_world ≡ outcome cancels 7 false session busy_world
perform_bound_example = perform_bound cancels 3 7 200 busy_world session bound

abbrev history : List Call
history =
    starts grant 3 100
    ∷ asks (progresses blink) 3 7 200
    ∷ asks (completes accepted) 3 7 300
    ∷ starts (record grant { transaction_id = 8 }) 4 400
    ∷ []

run-ids_example :
    (run (fresh manager) history).opened
    ≡ (run (fresh manager) history).closed
      ++ open_ids (run (fresh manager) history).final.manager.active
run-ids_example = run-ids (fresh manager) history

history_cells : (run (fresh manager) history).final.cells ≡ true ∷ false ∷ []
unfolding replay start admit send_progress complete verify_binding deadline_reached take_terminal
    is_reserved
history_cells = refl

token_iff_example :
    (is_cancelled (run (fresh manager) history).final 1 ≡ false)
    ↔ IsLive (run (fresh manager) history).final.manager.active 1
unfolding replay start admit send_progress complete verify_binding deadline_reached take_terminal
    is_reserved
token_iff_example = token_iff config manager history 1 new_manager (omega arith)

complete_early :
    (step (asks (completes accepted) 3 7 300) busy_world).0 ≡ some (completed 7 accepted)
unfolding complete verify_binding deadline_reached take_terminal is_reserved
complete_early = refl

accepted_only_example :
    (c : ℕ) × (now : ℕ) × (a : ActiveSession) × (asks (completes accepted) 3 7 300
      ≡ asks (completes accepted) c 7 now)
    × IsBound c 7 busy_world a
    × (now < a.deadline_micros)
accepted_only_example =
    accepted_only (asks (completes accepted) 3 7 300) busy_world 7 complete_early
