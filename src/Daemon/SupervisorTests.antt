-- ===== src/Daemon/SupervisorTests.antt =====
-- Runs of the supervisor (crates/faceauth-daemon/src/supervision.rs), and its theorems at them.
use faceauth_rs.Daemon.Supervisor.{
  SupervisorError, ServiceSupervisor, event, service_exited, SupervisorRound, notice, ask_external,
  failure_of, first_of, propagate, take_event, take_received, final_answer, mark_started,
  is_overdue, close_pass, supervise_once, supervise, run_until, into_error, ServiceOutcome,
}
use faceauth_rs.Daemon.Exits.{IsBlamed}
use faceauth_rs.Daemon.Blame.{run_until-blames}
use faceauth_rs.Daemon.Supervisor.{ServiceReceived}
use faceauth_rs.Daemon.Grace.{IsEarly, run_until-returns}
use faceauth_rs.Prelude.{
  ℕ, ◌≡◌, ◌++◌, refl, true, false, some, inl, is_some, arith, err, List, [], ◌∷◌,
}
use faceauth_rs.Prelude.Float.{milli_float, milli_arithmetic}

abbrev capture_service : List ℕ
capture_service = 99 ∷ 97 ∷ 109 ∷ []

abbrev supervisor : ServiceSupervisor
supervisor = record {
  config = record { poll_interval = 25000; shutdown_grace = 5000000; max_services = 8 };
  requested = false;
  sender = true;
  services = record { name = capture_service; handle = true; stopped = false } ∷ [];
}

abbrev service_returns : SupervisorRound
service_returns = record {
  asked_first = false;
  external = false;
  external_at = 0;
  asked_waiting = false;
  received = event (record { index = 0; outcome = ServiceOutcome.completed });
  joined = true;
  asked_handling = false;
  failed_at = 100;
  asked_last = false;
  noticed_at = 100;
  checked_at = 100;
}

supervisor_ends :
    run_until (service_returns ∷ []) supervisor ≡ some (err (service_exited capture_service))
unfolding run_until supervise supervise_once notice ask_external take_received take_event propagate
    failure_of first_of close_pass final_answer mark_started is_overdue into_error
supervisor_ends = refl

abbrev nothing_happens : SupervisorRound
nothing_happens = record service_returns { received = ServiceReceived.timeout }

abbrev too_late : SupervisorRound
too_late = record nothing_happens { checked_at = 5000100 }

-- With a second service, which does not stop
abbrev two_services : ServiceSupervisor
two_services = record supervisor {
  services =
      supervisor.services
      ++ record { name = 110 ∷ 101 ∷ 116 ∷ []; handle = true; stopped = false } ∷ [];
}

run_until-blames_example :
    (x : SupervisorError) × (run_until
        (nothing_happens ∷ service_returns ∷ nothing_happens ∷ too_late ∷ [])
        two_services
      ≡ some (err x))
    × IsBlamed capture_service ServiceOutcome.completed x
run_until-blames_example =
    let early : IsEarly 5000000 5000100 service_returns = record {
      external_early = omega arith;
      failed_early = omega arith;
      noticed_early = omega arith;
    } in
    let later : IsEarly 5000000 5000100 nothing_happens = record {
      external_early = omega arith;
      failed_early = omega arith;
      noticed_early = omega arith;
    } in
    run_until-blames (nothing_happens ∷ []) (nothing_happens ∷ []) service_returns too_late
      two_services capture_service ServiceOutcome.completed refl
      (record { unasked = refl; silent = refl }, tt)
      (record {
        unasked = (refl, refl, refl);
        index = 0;
        service = record { name = capture_service; handle = true; stopped = false };
        received = refl;
        found = refl;
        named = refl;
        runs = refl;
        joined = inl refl;
      })
      (early, (later, tt))

abbrev callback_asks : SupervisorRound
callback_asks = record service_returns {
  external = true;
  external_at = 1000;
  received = ServiceReceived.timeout;
  failed_at = 0;
  noticed_at = 0;
}

abbrev grace_over : SupervisorRound
grace_over = record callback_asks { checked_at = 5001000 }

run_until-returns_example :
    is_some (run_until (callback_asks ∷ callback_asks ∷ grace_over ∷ []) supervisor) ≡ true
run_until-returns_example =
    let early : IsEarly 5000000 5001000 callback_asks = record {
      external_early = omega arith;
      failed_early = omega arith;
      noticed_early = omega arith;
    } in
    run_until-returns (callback_asks ∷ callback_asks ∷ []) grace_over supervisor
      (early, (early, tt)) refl
