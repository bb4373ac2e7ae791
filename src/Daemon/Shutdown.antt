-- ===== src/Daemon/Shutdown.antt =====
-- How a run of the supervisor ends (crates/faceauth-daemon/src/supervision.rs).
use faceauth_rs.Prelude.{
  ℕ, zero, suc, ◌≡◌, refl, ap, ◌∙◌, Bool, true, false, not, ◌&&◌, ◌||◌, Option, none, some, is_some,
  is_ok, Result, ok, err, Result-cases, Bool-cases, Option-cases, ◌⊎◌, inl, inr, nat_eq, ◌==◌, All,
  length, get_elem?, set, subst, List, [], ◌∷◌, ◌++◌, arith,
}
use faceauth_rs.Daemon.Supervisor.{
  SupervisorError, SupervisorReport, ServiceEvent, ServiceOutcome, ServiceSupervisor,
  PendingFailure, ServiceReceived, event, timeout, disconnected, SupervisorRound, Running,
  is_panicked, closed, notice, ask_external, failure_of, first_of, propagate, take_event,
  take_received, final_answer, mark_started, is_overdue, close_pass, supervise_once, supervise,
  run_until,
}

-- Whether anybody asks for the shutdown in the round
abbrev pub is_asked : SupervisorRound → Bool
is_asked r = r.asked_first || r.external || r.asked_waiting || r.asked_handling || r.asked_last

-- A failure is pending, or nobody asked yet and nothing stopped.
abbrev IsDoomed : Running → Type 0
IsDoomed s = (is_some s.pending_failure ≡ true) ⊎ ((s.requested ≡ false) × (s.services_stopped ≡ 0))

failure_of_unasked : (name : List ℕ) (o : ServiceOutcome) → is_some (failure_of false name o) ≡ true
unfolding failure_of
failure_of_unasked name o = ground arith

first_of-some :
    (kept next : Option PendingFailure)
    → (is_some kept ≡ true) ⊎ (is_some next ≡ true)
    → is_some (first_of kept next) ≡ true
unfolding first_of
first_of-some none next h = ground arith
first_of-some (some kept) next h = refl

doomed_next :
    (s : Running) (name : List ℕ) (o : ServiceOutcome)
    → IsDoomed s
    → (is_some s.pending_failure ≡ true) ⊎ (is_some (failure_of s.requested name o) ≡ true)
doomed_next s name o (inl h) = inl h
doomed_next s name o (inr (h, k)) =
    inr (ap (λ b. is_some (failure_of b name o)) h ∙ failure_of_unasked name o)

propagate-pending :
    (r : SupervisorRound) (next : Option PendingFailure) (s : Running)
    → (is_some s.pending_failure ≡ true) ⊎ (is_some next ≡ true)
    → is_some (propagate r next s).pending_failure ≡ true
unfolding propagate notice
propagate-pending r next s h =
    let still = first_of-some s.pending_failure next h in
    elim (Bool-cases
      (is_some (first_of s.pending_failure next) && not (s.requested || r.asked_handling))) [
        | inl e ↦ rw e still
        | inr e ↦ rw e still
      ]

take_event-pending :
    (r : SupervisorRound) (e : ServiceEvent) (s t : Running)
    → IsDoomed s
    → take_event r e s ≡ ok t
    → is_some t.pending_failure ≡ true
unfolding take_event
take_event-pending r e s t d h = elim (Option-cases (get_elem? s.services e.index)) [
  | inl e₁ ↦ absurd (ground arith)
  | inr (service, e₁) ↦
      elim (Bool-cases
        (service.stopped || (service.handle && (not r.joined && not (is_panicked e.outcome))))) [
          | inl e₂ ↦ absurd (ground arith)
          | inr e₂ ↦
              let counted : Running = record s {
                services =
                    set s.services e.index (record service { handle = false; stopped = true });
                services_stopped = suc s.services_stopped;
                completion_order = s.completion_order ++ service.name ∷ [];
              } in
              let next = failure_of s.requested service.name e.outcome in
              let same : propagate r next counted ≡ t = ground arith in
              rw⁻¹ same (propagate-pending r next counted (doomed_next s service.name e.outcome d))
        ]
]

final_answer-err :
    (started : ℕ) (s : Running)
    → is_some s.pending_failure ≡ true
    → is_ok (final_answer started s) ≡ false
unfolding final_answer
final_answer-err started s h = ground arith

take_received-IsDoomed :
    (r : SupervisorRound) (x : ServiceReceived) (s t : Running)
    → IsDoomed s
    → take_received r x s ≡ ok t
    → IsDoomed t
unfolding take_received
take_received-IsDoomed r (event e) s t d h = inl (take_event-pending r e s t d h)
take_received-IsDoomed r timeout s t d h = let same : s ≡ t = ground arith in subst IsDoomed same d
take_received-IsDoomed r disconnected s t d h =
    let same : propagate r (some closed) s ≡ t = ground arith in
    inl (rw⁻¹ same (propagate-pending r (some closed) s (inr refl)))

mark_started-IsDoomed :
    (r : SupervisorRound) (s : Running) → IsDoomed s → IsDoomed (mark_started r s)
unfolding mark_started
mark_started-IsDoomed r s d = elim (Bool-cases (s.requested && not (is_some s.shutdown_started))) [
  | inl e ↦ rw e d
  | inr e ↦ rw e d
]

notice-IsDoomed :
    (asked : Bool) (s : Running) → asked ≡ false → IsDoomed s → IsDoomed (notice asked s)
unfolding notice
notice-IsDoomed asked s h (inl k) = inl k
notice-IsDoomed asked s h (inr (k, l)) = inr (ground arith, l)

ask_external-idle : (r : SupervisorRound) (s : Running) → r.external ≡ false → ask_external r s ≡ s
unfolding ask_external
ask_external-idle r s h = elim (Bool-cases s.requested) [
  | inl e ↦ ground arith
  | inr e ↦ ground arith
]

before_wait :
    (r : SupervisorRound) (s : Running)
    → is_asked r ≡ false
    → IsDoomed s
    → IsDoomed (notice r.asked_waiting (ask_external r (notice r.asked_first s)))
before_wait r s h d =
    notice-IsDoomed r.asked_waiting (ask_external r (notice r.asked_first s)) (ground arith) (
      rw (ask_external-idle r (notice r.asked_first s) (ground arith))
        (notice-IsDoomed r.asked_first s (ground arith) d))

-- What a pass may leave: a failure for an answer, or a run that is doomed still
abbrev Fails : Result (Result SupervisorError SupervisorReport) Running → Type 0
Fails (err result) = is_ok result ≡ false
Fails (ok t) = IsDoomed t

answer_fails :
    (started : ℕ) (s : Running)
    → IsDoomed s
    → (s.services_stopped == suc started) ≡ true
    → is_ok (final_answer (suc started) s) ≡ false
answer_fails started s (inl h) e = final_answer-err (suc started) s h
answer_fails started s (inr (h, k)) e = absurd (ground arith)

close_pass-Fails :
    (grace started : ℕ) (r : SupervisorRound) (s : Running)
    → is_asked r ≡ false
    → IsDoomed s
    → Fails (close_pass grace (suc started) r s)
unfolding close_pass
close_pass-Fails grace started r s h d =
    let marked = mark_started r (notice r.asked_last s) in
    let still =
      mark_started-IsDoomed r (notice r.asked_last s)
        (notice-IsDoomed r.asked_last s (ground arith) d) in
    elim (Bool-cases (s.services_stopped == suc started)) [
      | inl e ↦ rw e (answer_fails started s d e)
      | inr e ↦ elim (Bool-cases (is_overdue grace r marked)) [
        | inl e₁ ↦ rw (e, e₁) refl
        | inr e₁ ↦ rw (e, e₁) still
      ]
    ]

supervise_once-Fails :
    (grace started : ℕ) (r : SupervisorRound) (s : Running)
    → is_asked r ≡ false
    → IsDoomed s
    → Fails (supervise_once grace (suc started) r s)
unfolding supervise_once
supervise_once-Fails grace started r s h d =
    let ready = notice r.asked_waiting (ask_external r (notice r.asked_first s)) in
    elim (Result-cases (take_received r r.received ready)) [
      | inl (t, e) ↦
          rw (supervise_once, e)
            (close_pass-Fails grace started r t h
              (take_received-IsDoomed r r.received ready t (before_wait r s h d) e))
      | inr (x, e) ↦ rw (supervise_once, e) refl
    ]

supervise-fails :
    (grace started : ℕ) (rounds : List SupervisorRound) (s : Running)
    (result : Result SupervisorError SupervisorReport)
    → All (λ r. is_asked r ≡ false) rounds
    → IsDoomed s
    → supervise grace (suc started) rounds s ≡ some result
    → is_ok result ≡ false
unfolding supervise
supervise-fails grace started [] s result h d e = absurd (ground arith)
supervise-fails grace started (r ∷ rest) s result (h, hs) d e =
    go (supervise_once grace (suc started) r s) (supervise_once-Fails grace started r s h d)
      (λ t k e₁. supervise-fails grace started rest t result hs k e₁) e
  where
    go :
        (x : Result (Result SupervisorError SupervisorReport) Running)
        → Fails x
        → ((t : Running)
            → IsDoomed t
            → supervise grace (suc started) rest t ≡ some result
            → is_ok result ≡ false)
        → elim x [ err y ↦ some y | ok t ↦ supervise grace (suc started) rest t ] ≡ some result
        → is_ok result ≡ false
    go (err y) k later e₁ = let same : y ≡ result = ground arith in rw⁻¹ same k
    go (ok t) k later e₁ = later t k e₁

nonzero : (n : ℕ) → (n == 0) ≡ false → (m : ℕ) × (n ≡ suc m)
nonzero zero h = absurd (ground arith)
nonzero (suc m) h = (m, refl)

-- The variables of a loop that begins
abbrev pub fresh : ServiceSupervisor → Running
fresh s = record {
  requested = s.requested;
  services = s.services;
  services_stopped = 0;
  completion_order = [];
  shutdown_started = none;
  pending_failure = none;
}

-- Unless the callback or another holder of the token asks for the shutdown, no run of a supervisor
-- that returns ends well.
run_until-fails :
    (rounds : List SupervisorRound) (s : ServiceSupervisor)
    (result : Result SupervisorError SupervisorReport)
    → s.requested ≡ false
    → All (λ r. is_asked r ≡ false) rounds
    → run_until rounds s ≡ some result
    → is_ok result ≡ false
unfolding run_until
run_until-fails rounds s result h quiet e = elim (Bool-cases (length s.services == 0)) [
  | inl e₁ ↦ ground arith
  | inr e₁ ↦
      let (n, size) = nonzero (length s.services) e₁ in
      let begun : supervise s.config.shutdown_grace (length s.services) rounds (fresh s)
          ≡ some result =
        ground arith in
      supervise-fails s.config.shutdown_grace n rounds (fresh s) result quiet (inr (h, refl))
        (subst (λ k. supervise s.config.shutdown_grace k rounds (fresh s) ≡ some result) size begun)
]
