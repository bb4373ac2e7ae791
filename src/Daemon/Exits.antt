-- ===== src/Daemon/Exits.antt =====
-- What the first service that ends leaves pending, pass by pass (crates/faceauth-daemon/src/supervision.rs).
use faceauth_rs.Prelude.{
  ℕ, suc, ◌≡◌, refl, ap, subst, Bool, true, false, not, ◌&&◌, ◌||◌, Option, none, some, is_some,
  Result, ok, err, Result-cases, Bool-cases, Option-cases, ◌⊎◌, inl, inr, nat_eq, ◌==◌, get_elem?,
  set, List, [], ◌∷◌, ◌++◌, arith,
}
use faceauth_rs.Daemon.Supervisor.{
  SupervisorError, service_exited, service_failed, service_panicked, invalid_service_event,
  shutdown_timeout, Trigger, exited_unexpectedly, has_failed, has_panicked, SupervisorReport,
  ServiceOutcome, completed, failed, panicked, ServiceState, PendingFailure, trigger, into_error,
  ServiceReceived, event, timeout, disconnected, SupervisorRound, Running, closed, is_panicked,
  notice, ask_external, failure_of, first_of, propagate, take_event, take_received, final_answer,
  mark_started, remaining_services, is_overdue, close_pass, supervise_once, supervise,
}
use faceauth_rs.Daemon.Shutdown.{is_asked}
use faceauth_rs.Daemon.Clock.{waiting}

-- The error of a run that the end of a service begins
abbrev exit_error : List ℕ → ServiceOutcome → SupervisorError
exit_error name completed = service_exited name
exit_error name (failed detail) = service_failed name detail
exit_error name panicked = service_panicked name

abbrev exit_trigger : List ℕ → ServiceOutcome → Trigger
exit_trigger name completed = exited_unexpectedly name
exit_trigger name (failed detail) = has_failed name
exit_trigger name panicked = has_panicked name

-- The error names what ended first, or a later event was not one of a running service.
abbrev pub IsBlamed : List ℕ → ServiceOutcome → SupervisorError → Type 0
IsBlamed name outcome x =
    (x ≡ exit_error name outcome)
    ⊎ (((names : List (List ℕ)) × (x ≡ shutdown_timeout (some (exit_trigger name outcome)) names))
        ⊎ (x ≡ invalid_service_event))

-- A pass in which nobody asks and no service ends
pub record IsQuiet (r : SupervisorRound) : Type 0 where
  pub unasked : is_asked r ≡ false
  pub silent : r.received ≡ timeout

-- A pass in which a running service ends, before anybody asks; unless it panicked, its thread is
-- joined.
pub record IsExit (services : List ServiceState) (name : List ℕ) (outcome : ServiceOutcome)
    (r : SupervisorRound) : Type 0 where
  pub unasked : (r.asked_first ≡ false) × (r.external ≡ false) × (r.asked_waiting ≡ false)
  pub index : ℕ
  pub service : ServiceState
  pub received : r.received ≡ event (record { index = index; outcome = outcome })
  pub found : get_elem? services index ≡ some service
  pub named : service.name ≡ name
  pub runs : service.stopped ≡ false
  pub joined : (r.joined ≡ true) ⊎ (outcome ≡ panicked)

abbrev pub idle : List ServiceState → Running
idle services = record {
  requested = false;
  services = services;
  services_stopped = 0;
  completion_order = [];
  shutdown_started = none;
  pending_failure = none;
}

-- What a service that ends unasked leaves pending
abbrev pub pending_of : List ℕ → ServiceOutcome → PendingFailure
pending_of name completed = PendingFailure.exited name
pending_of name (failed detail) = PendingFailure.failure name detail
pending_of name panicked = PendingFailure.panic name

pub failure_of-pending :
    (name : List ℕ) (o : ServiceOutcome) → failure_of false name o ≡ some (pending_of name o)
unfolding failure_of
failure_of-pending name o = ground arith

into_error-exit :
    (name : List ℕ) (o : ServiceOutcome) → into_error (pending_of name o) ≡ exit_error name o
unfolding into_error
into_error-exit name o = ground arith

trigger-exit :
    (name : List ℕ) (o : ServiceOutcome) → trigger (pending_of name o) ≡ exit_trigger name o
unfolding trigger
trigger-exit name o = ground arith

pub quiet_pass :
    (grace n : ℕ) (r : SupervisorRound) (services : List ServiceState)
    → IsQuiet r
    → supervise_once grace (suc n) r (idle services) ≡ ok (idle services)
unfolding supervise_once notice ask_external take_received close_pass mark_started is_overdue
quiet_pass grace n r services q =
    let first : r.asked_first ≡ false = ground (arith, q.unasked) in
    let outside : r.external ≡ false = ground (arith, q.unasked) in
    let waits : r.asked_waiting ≡ false = ground (arith, q.unasked) in
    let last : r.asked_last ≡ false = ground (arith, q.unasked) in
    let going : (0 == suc n) ≡ false = ground arith in
    rw (supervise_once, first, outside, waits, q.silent, going, last) refl

pub waiting_idle :
    (services : List ServiceState) (name : List ℕ) (o : ServiceOutcome) (r : SupervisorRound)
    → IsExit services name o r
    → waiting r (idle services) ≡ idle services
unfolding notice ask_external
waiting_idle services name o r x = rw (x.unasked.0, x.unasked.1, x.unasked.2) refl

-- The exit is pending.
abbrev pub Blames : List ℕ → ServiceOutcome → Running → Type 0
Blames name o s = s.pending_failure ≡ some (pending_of name o)

module _ (name : List ℕ) (o : ServiceOutcome) where
  notice-Blames : (asked : Bool) (s : Running) → Blames name o s → Blames name o (notice asked s)
  unfolding notice
  notice-Blames asked s h = h

  ask_external-Blames :
      (r : SupervisorRound) (s : Running) → Blames name o s → Blames name o (ask_external r s)
  unfolding ask_external
  ask_external-Blames r s h = elim (Bool-cases (not s.requested && r.external)) [
    | inl e ↦ rw e h
    | inr e ↦ rw e h
  ]

  mark_started-Blames :
      (r : SupervisorRound) (s : Running) → Blames name o s → Blames name o (mark_started r s)
  unfolding mark_started
  mark_started-Blames r s h = elim (Bool-cases (s.requested && not (is_some s.shutdown_started))) [
    | inl e ↦ rw e h
    | inr e ↦ rw e h
  ]

  propagate-Blames :
      (r : SupervisorRound) (next : Option PendingFailure) (s : Running)
      → first_of s.pending_failure next ≡ some (pending_of name o)
      → Blames name o (propagate r next s)
  unfolding propagate notice
  propagate-Blames r next s h =
      elim (Bool-cases
        (is_some (first_of s.pending_failure next) && not (s.requested || r.asked_handling))) [
          | inl e ↦ rw e h
          | inr e ↦ rw e h
        ]

  propagate-kept :
      (r : SupervisorRound) (next : Option PendingFailure) (s : Running)
      → Blames name o s
      → Blames name o (propagate r next s)
  unfolding first_of
  propagate-kept r next s h = propagate-Blames r next s (ap (λ p. first_of p next) h)

  -- An event on a run that blames the exit
  abbrev Taken : Result SupervisorError Running → Type 0
  Taken (err x) = x ≡ invalid_service_event
  Taken (ok t) = Blames name o t

  take_received-Taken :
      (r : SupervisorRound) (x : ServiceReceived) (s : Running)
      → Blames name o s
      → Taken (take_received r x s)
  unfolding take_received take_event
  take_received-Taken r timeout s h = h
  take_received-Taken r disconnected s h = propagate-kept r (some closed) s h
  take_received-Taken r (event e) s h = elim (Option-cases (get_elem? s.services e.index)) [
    | inl e₁ ↦ rw (take_received, take_event, e₁) refl
    | inr (service, e₁) ↦
        elim (Bool-cases
          (service.stopped || (service.handle && (not r.joined && not (is_panicked e.outcome))))) [
            | inl e₂ ↦ rw (take_received, take_event, e₁, e₂) refl
            | inr e₂ ↦
                rw (take_received, take_event, e₁, e₂)
                  (propagate-kept r (failure_of s.requested service.name e.outcome)
                    (record s {
                      services =
                          set s.services e.index
                            (record service { handle = false; stopped = true });
                      services_stopped = suc s.services_stopped;
                      completion_order = s.completion_order ++ service.name ∷ [];
                    })
                    h)
          ]
  ]

  -- What a pass leaves: an error that blames the exit, or a run that does
  abbrev Passed : Result (Result SupervisorError SupervisorReport) Running → Type 0
  Passed (err (ok report)) = ⊥
  Passed (err (err x)) = IsBlamed name o x
  Passed (ok t) = Blames name o t

  close_pass-Passed :
      (grace started : ℕ) (r : SupervisorRound) (s : Running)
      → Blames name o s
      → Passed (close_pass grace started r s)
  unfolding close_pass final_answer
  close_pass-Passed grace started r s h =
      let marked = mark_started r (notice r.asked_last s) in
      let still = mark_started-Blames r (notice r.asked_last s) (notice-Blames r.asked_last s h) in
      elim (Bool-cases (s.services_stopped == started)) [
        | inl e ↦ rw (e, h) (inl (into_error-exit name o))
        | inr e ↦ elim (Bool-cases (is_overdue grace r marked)) [
          | inl e₁ ↦
              rw (e, e₁, still)
                (inr (
                  inl (
                    remaining_services marked.services,
                    ap (λ t. shutdown_timeout (some t) (remaining_services marked.services))
                        (trigger-exit name o),
                  )))
          | inr e₁ ↦ rw (e, e₁) still
        ]
      ]

  pub supervise_once-Passed :
      (grace started : ℕ) (r : SupervisorRound) (s : Running)
      → Taken (take_received r r.received (waiting r s))
      → Passed (supervise_once grace started r s)
  unfolding supervise_once
  supervise_once-Passed grace started r s h =
      elim (Result-cases (take_received r r.received (waiting r s))) [
        | inl (t, e) ↦
            rw (supervise_once, e) (close_pass-Passed grace started r t (subst Taken e h))
        | inr (x, e) ↦ rw (supervise_once, e) (inr (inr (subst Taken e h)))
      ]

  -- A run that has returned blames the exit.
  abbrev pub Ended : Option (Result SupervisorError SupervisorReport) → Type 0
  Ended none = Unit
  Ended (some (ok report)) = ⊥
  Ended (some (err x)) = IsBlamed name o x

  pub pass_ends :
      (grace started : ℕ) (rest : List SupervisorRound)
      (x : Result (Result SupervisorError SupervisorReport) Running)
      → Passed x
      → ((t : Running) → Blames name o t → Ended (supervise grace started rest t))
      → Ended (elim x [ err y ↦ some y | ok t ↦ supervise grace started rest t ])
  pass_ends grace started rest (err (ok report)) h later = elim h [ ]
  pass_ends grace started rest (err (err x)) h later = h
  pass_ends grace started rest (ok t) h later = later t h

  pub supervise-Ended :
      (grace started : ℕ) (rounds : List SupervisorRound) (s : Running)
      → Blames name o s
      → Ended (supervise grace started rounds s)
  unfolding supervise
  supervise-Ended grace started [] s h = tt
  supervise-Ended grace started (r ∷ rest) s h =
      pass_ends grace started rest (supervise_once grace started r s)
        (supervise_once-Passed grace started r s (
          take_received-Taken r r.received (waiting r s) (
            notice-Blames r.asked_waiting (ask_external r (notice r.asked_first s))
              (ask_external-Blames r (notice r.asked_first s) (notice-Blames r.asked_first s h)))))
        (λ t k. supervise-Ended grace started rest t k)
