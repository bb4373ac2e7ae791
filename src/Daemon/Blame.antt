-- ===== src/Daemon/Blame.antt =====
-- What the first service that ends makes of a run (crates/faceauth-daemon/src/supervision.rs).
use faceauth_rs.Prelude.{
  ℕ, suc, ◌≤◌, ◌≡◌, refl, ap, subst, ◌∙◌, true, false, not, ◌&&◌, ◌||◌, Option, none, some, is_some,
  Result, ok, err, Result-cases, Bool-cases, inl, inr, nat_eq, ◌==◌, All, length, set, List, [],
  ◌∷◌, ◌++◌, arith,
}
use faceauth_rs.Daemon.Supervisor.{
  SupervisorError, SupervisorReport, ServiceOutcome, ServiceState, ServiceSupervisor, event,
  SupervisorRound, Running, is_panicked, notice, first_of, propagate, take_event, take_received,
  supervise_once, supervise, run_until,
}
use faceauth_rs.Daemon.Clock.{mark_started-requested, notice-requested, waiting}
use faceauth_rs.Daemon.Grace.{IsEarly, close_pass-goes, pass_goes, supervise-returns}
use faceauth_rs.Daemon.Exits.{
  IsBlamed, IsQuiet, IsExit, idle, pending_of, failure_of-pending, quiet_pass, waiting_idle, Blames,
  supervise_once-Passed, Ended, pass_ends, supervise-Ended,
}

module _ (name : List ℕ) (o : ServiceOutcome) where
  -- The run once the end of the service is counted
  abbrev counted : List ServiceState → ℕ → ServiceState → Running
  counted services index service = record {
    requested = false;
    services = set services index (record service { handle = false; stopped = true });
    services_stopped = 1;
    completion_order = service.name ∷ [];
    shutdown_started = none;
    pending_failure = none;
  }

  exit_taken :
      (services : List ServiceState) (r : SupervisorRound) (x : IsExit services name o r)
      → take_received r r.received (waiting r (idle services))
        ≡ ok (propagate r (some (pending_of name o)) (counted services x.index x.service))
  unfolding take_received take_event
  exit_taken services r x =
      let sound : (x.service.stopped || (x.service.handle && (not r.joined && not (is_panicked o))))
          ≡ false =
        ground (arith, x.runs, x.joined) in
      ap (λ v. take_received r v (waiting r (idle services))) x.received
      ∙ ap (take_received r (event (record { index = x.index; outcome = o })))
          (waiting_idle services name o r x)
      ∙ rw (take_received, take_event, x.found, sound, x.named, failure_of-pending name o) refl

  propagate_exit :
      (r : SupervisorRound) (s : Running)
      → s.pending_failure ≡ none
      → let u = propagate r (some (pending_of name o)) s in Blames name o u × (u.requested ≡ true)
  unfolding propagate notice first_of
  propagate_exit r s h = elim (Bool-cases (s.requested || r.asked_handling)) [
    | inl e ↦ rw (propagate, h, e) (refl, refl)
    | inr e ↦ rw (propagate, h, e) (refl, refl)
  ]

  -- A run whose service ends in its first pass has returned by the time that its shutdown may
  -- take, and blames that end.
  exit-Ended :
      (grace started end : ℕ) (services : List ServiceState) (r : SupervisorRound)
      (xs : List SupervisorRound) (last : SupervisorRound)
      → IsExit services name o r
      → end ≤ last.checked_at
      → IsEarly grace end r
      → All (IsEarly grace end) xs
      → let run = supervise grace started (r ∷ xs ++ last ∷ []) (idle services) in
        Ended name o run × (is_some run ≡ true)
  unfolding supervise supervise_once
  exit-Ended grace started end services r xs last x late early others =
      let u = propagate r (some (pending_of name o)) (counted services x.index x.service) in
      let taken = exit_taken services r x in
      let (blames, requested) = propagate_exit r (counted services x.index x.service) refl in
      let passed = supervise_once-Passed name o grace started r (idle services) (rw taken blames) in
      elim (Result-cases (supervise_once grace started r (idle services))) [
        | inr (result, e) ↦ (
          pass_ends name o grace started (xs ++ last ∷ [])
              (supervise_once grace started r (idle services)) passed
              (λ t k. supervise-Ended name o grace started (xs ++ last ∷ []) t k),
          rw (supervise, e) refl,
        )
        | inl (t, e) ↦
            let marked = close_pass-goes grace end started r u t (ground arith) in
            let asked =
              subst (λ (v : Running). (v.requested ≡ true) × (is_some v.shutdown_started ≡ true))
                marked
                (mark_started-requested r (notice r.asked_last u)
                  (notice-requested r.asked_last u requested)) in
            let (bounded, after) =
              pass_goes grace end started r (idle services) t early (λ k h. absurd (ground arith))
                e in
            (
              pass_ends name o grace started (xs ++ last ∷ [])
                  (supervise_once grace started r (idle services)) passed
                  (λ v k. supervise-Ended name o grace started (xs ++ last ∷ []) v k),
              rw (supervise, e)
                  (supervise-returns grace end started xs last t late others bounded (inl asked)),
            )
      ]

quiet_passes :
    (grace n : ℕ) (before rest : List SupervisorRound) (services : List ServiceState)
    → All IsQuiet before
    → supervise grace (suc n) (before ++ rest) (idle services)
      ≡ supervise grace (suc n) rest (idle services)
unfolding supervise
quiet_passes grace n [] rest services h = refl
quiet_passes grace n (r ∷ before) rest services (q, qs) =
    rw (supervise, quiet_pass grace n r services q) (quiet_passes grace n before rest services qs)

-- The answer of a run that is over, with its reason
Ended-error :
    (name : List ℕ) (o : ServiceOutcome) (run : Option (Result SupervisorError SupervisorReport))
    → Ended name o run
    → is_some run ≡ true
    → (x : SupervisorError) × (run ≡ some (err x)) × IsBlamed name o x
Ended-error name o none h k = absurd (ground arith)
Ended-error name o (some (ok report)) h k = elim h [ ]
Ended-error name o (some (err x)) h k = (x, refl, h)

-- If nobody asks for the shutdown before it, the first service that returns, fails or panics ends
-- the whole run: by the first pass whose check of the clock comes the grace time after every time
-- noted from that end on, the run has returned an error, whatever the others do then. The error is
-- the one of that service and of how it ended; or that the others did not stop in time, with that
-- end as its trigger; or that a later event was not one of a running service. The event of the
-- first is one of a running service whose thread is joined, unless it panicked.
pub run_until-blames :
    (before xs : List SupervisorRound) (r last : SupervisorRound) (s : ServiceSupervisor)
    (name : List ℕ) (outcome : ServiceOutcome)
    → s.requested ≡ false
    → All IsQuiet before
    → IsExit s.services name outcome r
    → All (IsEarly s.config.shutdown_grace last.checked_at) (r ∷ xs)
    → (x : SupervisorError) × (run_until (before ++ (r ∷ xs ++ last ∷ [])) s ≡ some (err x))
      × IsBlamed name outcome x
unfolding run_until
run_until-blames before xs r last s name outcome h quiet x (early, others) = go s.services refl
  where
    grace : ℕ
    grace = s.config.shutdown_grace

    rounds : List SupervisorRound
    rounds = before ++ (r ∷ xs ++ last ∷ [])

    go :
        (services : List ServiceState)
        → s.services ≡ services
        → (y : SupervisorError) × (run_until rounds s ≡ some (err y)) × IsBlamed name outcome y
    go [] e = absurd (ground (arith, e, x.found))
    go (service ∷ rest) e =
        let all = quiet_passes grace (length rest) before (r ∷ xs ++ last ∷ []) s.services quiet in
        let (ended, over) =
          exit-Ended name outcome grace (suc (length rest)) last.checked_at s.services r xs last x
            (omega arith) early others in
        let (y, same, blamed) = Ended-error name outcome _ ended over in
        let full : (length (service ∷ rest) == 0) ≡ false = ground arith in
        (
          y,
          rw (run_until, h, e, full)
              (subst (λ l. supervise grace (suc (length rest)) rounds (idle l) ≡ some (err y)) e
                (all ∙ same)),
          blamed,
        )
