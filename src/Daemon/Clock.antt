-- ===== src/Daemon/Clock.antt =====
-- What the parts of a pass do to the shutdown flag and its time
-- (crates/faceauth-daemon/src/supervision.rs).
use faceauth_rs.Prelude.{
  ℕ, suc, ◌≡◌, refl, ap, sym, subst, ◌∙◌, Bool, true, false, not, ◌&&◌, ◌||◌, Option, some, is_some,
  ok, Bool-cases, Option-cases, ◌⊎◌, inl, inr, nat_eq, get_elem?, set, [], ◌∷◌, ◌++◌, arith,
}
use faceauth_rs.Daemon.Supervisor.{
  PendingFailure, ServiceReceived, event, timeout, disconnected, SupervisorRound, Running,
  is_panicked, closed, notice, ask_external, failure_of, first_of, propagate, take_event,
  take_received, mark_started,
}

-- Once the shutdown began, its time stands.
abbrev pub Since : ℕ → Running → Type 0
Since t s = (s.requested ≡ true) × (s.shutdown_started ≡ some t)

pub notice-Since : (asked : Bool) (s : Running) (t : ℕ) → Since t s → Since t (notice asked s)
unfolding notice
notice-Since asked s t (h, k) = (ground arith, k)

pub ask_external-Since :
    (r : SupervisorRound) (s : Running) (t : ℕ) → Since t s → Since t (ask_external r s)
unfolding ask_external
ask_external-Since r s t (h, k) = elim (Bool-cases (not s.requested && r.external)) [
  | inl e ↦ absurd (ground arith)
  | inr e ↦ rw e (h, k)
]

pub propagate-Since :
    (r : SupervisorRound) (next : Option PendingFailure) (s : Running) (t : ℕ)
    → Since t s
    → Since t (propagate r next s)
unfolding propagate notice
propagate-Since r next s t (h, k) =
    elim (Bool-cases
      (is_some (first_of s.pending_failure next) && not (s.requested || r.asked_handling))) [
        | inl e ↦ absurd (ground arith)
        | inr e ↦ rw e (ground arith, k)
      ]

pub mark_started-Since :
    (r : SupervisorRound) (s : Running) (t : ℕ) → Since t s → Since t (mark_started r s)
unfolding mark_started
mark_started-Since r s t (h, k) =
    elim (Bool-cases (s.requested && not (is_some s.shutdown_started))) [
      | inl e ↦ absurd (ground arith)
      | inr e ↦ rw e (h, k)
    ]

-- What a pass makes of the state before it: an event is counted, and a failure is propagated.
pub counted_by :
    (r : SupervisorRound) (x : ServiceReceived) (s u : Running)
    → take_received r x s ≡ ok u
    → (s ≡ u)
      ⊎ ((v : Running) × (next : Option PendingFailure) × (v.requested ≡ s.requested)
          × (v.shutdown_started ≡ s.shutdown_started)
          × (propagate r next v ≡ u))
unfolding take_received take_event
counted_by r timeout s u h = inl (ground arith)
counted_by r disconnected s u h = inr (s, some closed, refl, refl, ground arith)
counted_by r (event e) s u h = elim (Option-cases (get_elem? s.services e.index)) [
  | inl e₁ ↦ absurd (ground arith)
  | inr (service, e₁) ↦
      elim (Bool-cases
        (service.stopped || (service.handle && (not r.joined && not (is_panicked e.outcome))))) [
          | inl e₂ ↦ absurd (ground arith)
          | inr e₂ ↦
              let counted : Running = record s {
                services =
                    set s.services e.index (record service { handle = false; stopped = true });
                services_stopped = suc s.services_stopped;
                completion_order = s.completion_order ++ service.name ∷ [];
              } in
              inr (counted, failure_of s.requested service.name e.outcome, refl, refl, ground arith)
        ]
]

pub take_received-Since :
    (r : SupervisorRound) (x : ServiceReceived) (s u : Running) (t : ℕ)
    → take_received r x s ≡ ok u
    → Since t s
    → Since t u
take_received-Since r x s u t h (k, l) = elim (counted_by r x s u h) [
  | inl same ↦ subst (Since t) same (k, l)
  | inr (v, next, e₁, e₂, same) ↦ subst (Since t) same (propagate-Since r next v t (e₁ ∙ k, e₂ ∙ l))
]

-- Whoever asked, the flag stays set.
pub propagate-requested :
    (r : SupervisorRound) (next : Option PendingFailure) (s : Running)
    → s.requested ≡ true
    → (propagate r next s).requested ≡ true
unfolding propagate notice
propagate-requested r next s h =
    elim (Bool-cases
      (is_some (first_of s.pending_failure next) && not (s.requested || r.asked_handling))) [
        | inl e ↦ rw e refl
        | inr e ↦ ground arith
      ]

pub take_received-requested :
    (r : SupervisorRound) (x : ServiceReceived) (s u : Running)
    → take_received r x s ≡ ok u
    → s.requested ≡ true
    → u.requested ≡ true
take_received-requested r x s u h k = elim (counted_by r x s u h) [
  | inl same ↦ sym (ap (λ (v : Running). v.requested) same) ∙ k
  | inr (v, next, e₁, e₂, same) ↦
      sym (ap (λ (w : Running). w.requested) same) ∙ propagate-requested r next v (e₁ ∙ k)
]

pub notice-requested :
    (asked : Bool) (s : Running) → s.requested ≡ true → (notice asked s).requested ≡ true
unfolding notice
notice-requested asked s h = ground arith

pub ask_external-requested :
    (r : SupervisorRound) (s : Running)
    → (s.requested ≡ true) ⊎ (r.external ≡ true)
    → (ask_external r s).requested ≡ true
unfolding ask_external
ask_external-requested r s h = elim (Bool-cases (not s.requested && r.external)) [
  | inl e ↦ rw e refl
  | inr e ↦ rw e (ground arith)
]

pub mark_started-requested :
    (r : SupervisorRound) (s : Running)
    → s.requested ≡ true
    → ((mark_started r s).requested ≡ true) × (is_some (mark_started r s).shutdown_started ≡ true)
unfolding mark_started
mark_started-requested r s h = elim (Bool-cases (s.requested && not (is_some s.shutdown_started))) [
  | inl e ↦ rw e (h, refl)
  | inr e ↦ rw e (h, ground arith)
]

pub asked_before :
    (r : SupervisorRound) (s : Running)
    → (s.requested ≡ true) ⊎ (r.external ≡ true)
    → ((notice r.asked_first s).requested ≡ true) ⊎ (r.external ≡ true)
asked_before r s (inl h) = inl (notice-requested r.asked_first s h)
asked_before r s (inr h) = inr h

-- The state in which a round waits
abbrev pub waiting : SupervisorRound → Running → Running
waiting r s = notice r.asked_waiting (ask_external r (notice r.asked_first s))
