-- ===== src/Daemon/Supervisor.antt =====
-- crates/faceauth-daemon/src/supervision.rs: the supervisor of the daemon's services. Times are in
-- microseconds. The shutdown token is a flag; a round of the loop has what the clock, the channel
-- and the other holders of the token do in one pass.
use faceauth_rs.Prelude.{
  ℕ, suc, ◌-◌, Bool, true, false, not, ◌&&◌, ◌||◌, Option, none, some, is_some, is_some_and, Result,
  ok, err, ◌>>◌, guard, nat_eq, bytes_eq, ◌==◌, if◌then◌else◌, ltb, leb, within, all, any, length,
  get_elem?, set, List, [], ◌∷◌, ◌++◌,
}
use faceauth_rs.Storage.{IoError}

abbrev pub max_service_name_bytes : ℕ
max_service_name_bytes = 64

abbrev pub absolute_max_services : ℕ
absolute_max_services = 16

pub record SupervisorConfig : Type 0 where
  pub poll_interval : ℕ
  pub shutdown_grace : ℕ
  pub max_services : ℕ

-- What the text of `PendingFailure::trigger` says
pub data Trigger : Type 0 where
  exited_unexpectedly has_failed has_panicked : List ℕ → Trigger
  channel_closed : Trigger

pub data SupervisorError : Type 0 where
  invalid_config invalid_service_name : SupervisorError
  duplicate_service : List ℕ → SupervisorError
  too_many_services : ℕ → SupervisorError
  shutdown_already_requested : SupervisorError
  spawn_failed : List ℕ → IoError → SupervisorError
  no_services : SupervisorError
  service_exited : List ℕ → SupervisorError
  service_failed : List ℕ → List ℕ → SupervisorError
  service_panicked : List ℕ → SupervisorError
  event_channel_closed invalid_service_event : SupervisorError
  shutdown_timeout : Option Trigger → List (List ℕ) → SupervisorError

pub record SupervisorReport : Type 0 where
  pub services_started : ℕ
  pub services_stopped : ℕ
  pub completion_order : List (List ℕ)

pub data ServiceOutcome : Type 0 where
  completed panicked : ServiceOutcome
  failed : List ℕ → ServiceOutcome

pub record ServiceEvent : Type 0 where
  pub index : ℕ
  pub outcome : ServiceOutcome

-- `handle`: there is a thread to join.
pub record ServiceState : Type 0 where
  pub name : List ℕ
  pub handle : Bool
  pub stopped : Bool

pub data PendingFailure : Type 0 where
  exited : List ℕ → PendingFailure
  failure : List ℕ → List ℕ → PendingFailure
  panic : List ℕ → PendingFailure
  closed : PendingFailure

unfoldable pub trigger : PendingFailure → Trigger
trigger (exited service) = exited_unexpectedly service
trigger (failure service detail) = has_failed service
trigger (panic service) = has_panicked service
trigger closed = channel_closed

unfoldable pub into_error : PendingFailure → SupervisorError
into_error (exited service) = service_exited service
into_error (failure service detail) = service_failed service detail
into_error (panic service) = service_panicked service
into_error closed = event_channel_closed

-- `requested` is the flag of the shutdown token, `sender` tells whether the supervisor holds one.
pub record ServiceSupervisor : Type 0 where
  pub config : SupervisorConfig
  pub requested : Bool
  pub sender : Bool
  pub services : List ServiceState

unfoldable pub validate_supervisor : SupervisorConfig → Result SupervisorError (Unit {0})
validate_supervisor c =
    if not (within 1000 100000 c.poll_interval)
      || not (within 10000 30000000 c.shutdown_grace)
      || not (within 1 absolute_max_services c.max_services)
    then err invalid_config
    else ok tt

unfoldable pub new_supervisor : SupervisorConfig → Result SupervisorError ServiceSupervisor
new_supervisor c = do
  validate_supervisor c
  ok (record { config = c; requested = false; sender = true; services = [] })

unfoldable pub validate_service_name : List ℕ → Result SupervisorError (Unit {0})
validate_service_name name =
    if (length name == 0)
      || ltb max_service_name_bytes (length name)
      || not (all (λ byte. within 97 122 byte || within 48 57 byte || (byte == 45)) name)
    then err invalid_service_name
    else ok tt

-- What the operating system answers to `thread::Builder::spawn`
abbrev started_thread :
    List ℕ
    → ServiceSupervisor
    → Result IoError (Unit {0})
    → Result SupervisorError ServiceSupervisor
started_thread name s (err source) = err (spawn_failed name source)
started_thread name s (ok thread) = ok (record s {
  services = s.services ++ record { name = name; handle = true; stopped = false } ∷ [];
})

unfoldable pub spawn :
    List ℕ
    → Result IoError (Unit {0})
    → ServiceSupervisor
    → Result SupervisorError ServiceSupervisor
spawn name thread s = do
  validate_service_name name
  guard (not (any (λ (service : ServiceState). service.name == name) s.services))
      (duplicate_service name)
  guard (not (leb s.config.max_services (length s.services)))
      (too_many_services s.config.max_services)
  guard (not s.requested) shutdown_already_requested
  guard s.sender shutdown_already_requested
  started_thread name s thread

pub data ServiceReceived : Type 0 where
  event : ServiceEvent → ServiceReceived
  timeout disconnected : ServiceReceived

-- One pass: `external` is the callback's answer, the `asked` flags tell whether another holder of
-- the token requests shutdown before the next read of the flag, and the times are those of the
-- `Instant::now()` of the pass.
pub record SupervisorRound : Type 0 where
  pub asked_first : Bool
  pub external : Bool
  pub external_at : ℕ
  pub asked_waiting : Bool
  pub received : ServiceReceived
  pub joined : Bool
  pub asked_handling : Bool
  pub failed_at : ℕ
  pub asked_last : Bool
  pub noticed_at : ℕ
  pub checked_at : ℕ

-- The variables of the loop
pub record Running : Type 0 where
  pub requested : Bool
  pub services : List ServiceState
  pub services_stopped : ℕ
  pub completion_order : List (List ℕ)
  pub shutdown_started : Option ℕ
  pub pending_failure : Option PendingFailure

unfoldable pub notice : Bool → Running → Running
notice asked s = record s { requested = s.requested || asked }

unfoldable pub ask_external : SupervisorRound → Running → Running
ask_external r s =
    if not s.requested && r.external
    then record s { requested = true; shutdown_started = some r.external_at }
    else s

abbrev pub is_panicked : ServiceOutcome → Bool
is_panicked panicked = true
is_panicked _ = false

unfoldable pub failure_of : Bool → List ℕ → ServiceOutcome → Option PendingFailure
failure_of requested name completed = if not requested then some (exited name) else none
failure_of requested name (failed detail) = some (failure name detail)
failure_of requested name panicked = some (panic name)

-- The first failure is kept, and requests the shutdown.
unfoldable pub first_of : Option PendingFailure → Option PendingFailure → Option PendingFailure
first_of none next = next
first_of (some kept) next = some kept

unfoldable pub propagate : SupervisorRound → Option PendingFailure → Running → Running
propagate r next s =
    let kept = record s { pending_failure = first_of s.pending_failure next } in
    let asked = notice r.asked_handling kept in
    if is_some kept.pending_failure && not asked.requested
    then record asked { requested = true; shutdown_started = some r.failed_at }
    else asked

-- The arm of an event
unfoldable pub take_event :
    SupervisorRound → ServiceEvent → Running → Result SupervisorError Running
take_event r e s = elim (get_elem? s.services e.index) [
  | none ↦ err invalid_service_event
  | some service ↦
      if service.stopped || (service.handle && (not r.joined && not (is_panicked e.outcome)))
      then err invalid_service_event
      else ok (
          propagate r (failure_of s.requested service.name e.outcome) (record s {
            services = set s.services e.index (record service { handle = false; stopped = true });
            services_stopped = suc s.services_stopped;
            completion_order = s.completion_order ++ service.name ∷ [];
          }))
]

-- The match on `recv_timeout`
unfoldable pub take_received :
    SupervisorRound → ServiceReceived → Running → Result SupervisorError Running
take_received r (event e) s = take_event r e s
take_received r timeout s = ok s
take_received r disconnected s = ok (propagate r (some closed) s)

unfoldable pub final_answer : ℕ → Running → Result SupervisorError SupervisorReport
final_answer started s = elim s.pending_failure [
  | some p ↦ err (into_error p)
  | none ↦ ok (record {
    services_started = started;
    services_stopped = s.services_stopped;
    completion_order = s.completion_order;
  })
]

unfoldable pub mark_started : SupervisorRound → Running → Running
mark_started r s =
    if s.requested && not (is_some s.shutdown_started)
    then record s { shutdown_started = some r.noticed_at }
    else s

abbrev pub remaining_services : List ServiceState → List (List ℕ)
remaining_services [] = []
remaining_services (service ∷ rest) =
    let names = remaining_services rest in
    if not service.stopped then service.name ∷ names else names

unfoldable pub is_overdue : ℕ → SupervisorRound → Running → Bool
is_overdue grace r s =
    is_some_and s.shutdown_started (λ started. leb grace (r.checked_at - started))

abbrev pub trigger_of : Option PendingFailure → Option Trigger
trigger_of none = none
trigger_of (some p) = some (trigger p)

-- The rest of a pass: an `err` is what the loop returns.
unfoldable pub close_pass :
    ℕ → ℕ → SupervisorRound → Running → Result (Result SupervisorError SupervisorReport) Running
close_pass grace started r s =
    let marked = mark_started r (notice r.asked_last s) in
    if s.services_stopped == started
    then err (final_answer started s)
    else if is_overdue grace r marked
    then err (
        err (
          shutdown_timeout (trigger_of marked.pending_failure)
            (remaining_services marked.services)))
    else ok marked

unfoldable pub supervise_once :
    ℕ → ℕ → SupervisorRound → Running → Result (Result SupervisorError SupervisorReport) Running
supervise_once grace started r s =
    elim (take_received r r.received
      (notice r.asked_waiting (ask_external r (notice r.asked_first s)))) [
        | err e ↦ err (err e)
        | ok t ↦ close_pass grace started r t
      ]

-- The loop: `none` when the rounds are used up
unfoldable pub supervise :
    ℕ → ℕ → List SupervisorRound → Running → Option (Result SupervisorError SupervisorReport)
supervise grace started [] s = none
supervise grace started (r ∷ rest) s = elim (supervise_once grace started r s) [
  | err result ↦ some result
  | ok t ↦ supervise grace started rest t
]

unfoldable pub run_until :
    List SupervisorRound → ServiceSupervisor → Option (Result SupervisorError SupervisorReport)
run_until rounds s =
    if length s.services == 0
    then some (err no_services)
    else supervise s.config.shutdown_grace (length s.services) rounds (record {
      requested = s.requested;
      services = s.services;
      services_stopped = 0;
      completion_order = [];
      shutdown_started = none;
      pending_failure = none;
    })
