-- ===== src/Daemon/Grace.antt =====
-- How long a run of the supervisor lasts (crates/faceauth-daemon/src/supervision.rs).
use faceauth_rs.Prelude.{
  ℕ, ◌+◌, ◌-◌, ◌≤◌, ◌≡◌, refl, sym, subst, ◌∙◌, Bool, true, not, ◌&&◌, ◌||◌, Option, some, is_some,
  Result, ok, err, Result-cases, Bool-cases, Option-cases, ◌⊎◌, inl, inr, nat_eq, ◌==◌, any, All,
  length, le→leb, List, [], ◌∷◌, ◌++◌, arith,
}
use faceauth_rs.Daemon.Supervisor.{
  SupervisorError, SupervisorReport, ServiceSupervisor, PendingFailure, ServiceReceived,
  SupervisorRound, Running, notice, ask_external, first_of, propagate, take_received, mark_started,
  is_overdue, close_pass, supervise_once, supervise, run_until,
}
use faceauth_rs.Daemon.Shutdown.{fresh}
use faceauth_rs.Daemon.Clock.{
  Since, waiting, notice-Since, ask_external-Since, mark_started-Since, counted_by,
  take_received-Since, take_received-requested, notice-requested, ask_external-requested,
  mark_started-requested, asked_before,
}

module _ (grace end : ℕ) where
  -- The times of the round lie the grace before the end.
  pub record IsEarly (r : SupervisorRound) : Type 0 where
    pub external_early : r.external_at + grace ≤ end
    pub failed_early : r.failed_at + grace ≤ end
    pub noticed_early : r.noticed_at + grace ≤ end

  abbrev pub Bounded : Running → Type 0
  Bounded s = (t : ℕ) → s.shutdown_started ≡ some t → t + grace ≤ end

  ask_external-Bounded :
      (r : SupervisorRound) (s : Running) → IsEarly r → Bounded s → Bounded (ask_external r s)
  unfolding ask_external
  ask_external-Bounded r s early b t h = elim (Bool-cases (not s.requested && r.external)) [
    | inl e ↦ let same : r.external_at ≡ t = ground arith in omega (arith, early.external_early)
    | inr e ↦ b t (ground arith)
  ]

  propagate-Bounded :
      (r : SupervisorRound) (next : Option PendingFailure) (s : Running)
      → IsEarly r
      → Bounded s
      → Bounded (propagate r next s)
  unfolding propagate notice
  propagate-Bounded r next s early b t h =
      elim (Bool-cases
        (is_some (first_of s.pending_failure next) && not (s.requested || r.asked_handling))) [
          | inl e ↦ let same : r.failed_at ≡ t = ground arith in omega (arith, early.failed_early)
          | inr e ↦ b t (ground arith)
        ]

  mark_started-Bounded :
      (r : SupervisorRound) (s : Running) → IsEarly r → Bounded s → Bounded (mark_started r s)
  unfolding mark_started
  mark_started-Bounded r s early b t h =
      elim (Bool-cases (s.requested && not (is_some s.shutdown_started))) [
        | inl e ↦ let same : r.noticed_at ≡ t = ground arith in omega (arith, early.noticed_early)
        | inr e ↦ b t (ground arith)
      ]

  notice-Bounded : (asked : Bool) (s : Running) → Bounded s → Bounded (notice asked s)
  unfolding notice
  notice-Bounded asked s b t h = b t h

  take_received-Bounded :
      (r : SupervisorRound) (x : ServiceReceived) (s u : Running)
      → IsEarly r
      → take_received r x s ≡ ok u
      → Bounded s
      → Bounded u
  take_received-Bounded r x s u early h b = elim (counted_by r x s u h) [
    | inl same ↦ subst Bounded same b
    | inr (v, next, e₁, e₂, same) ↦
        subst Bounded same (propagate-Bounded r next v early (λ t k. b t (sym e₂ ∙ k)))
  ]

  pub close_pass-goes :
      (started : ℕ) (r : SupervisorRound) (s t : Running)
      → close_pass grace started r s ≡ ok t
      → mark_started r (notice r.asked_last s) ≡ t
  unfolding close_pass
  close_pass-goes started r s t h = elim (Bool-cases (s.services_stopped == started)) [
    | inl e ↦ absurd (ground arith)
    | inr e ↦ elim (Bool-cases (is_overdue grace r (mark_started r (notice r.asked_last s)))) [
      | inl e₁ ↦ absurd (ground arith)
      | inr e₁ ↦ ground arith
    ]
  ]

  -- A pass that goes on leaves times that are early, and the time of a shutdown that was asked for.
  pub pass_goes :
      (started : ℕ) (r : SupervisorRound) (s t : Running)
      → IsEarly r
      → Bounded s
      → supervise_once grace started r s ≡ ok t
      → Bounded t
        × (((s.requested ≡ true) ⊎ (r.external ≡ true))
            → (t.requested ≡ true) × (is_some t.shutdown_started ≡ true))
  unfolding supervise_once
  pass_goes started r s t early b h =
      elim (Result-cases (take_received r r.received (waiting r s))) [
        | inr (x, e) ↦ absurd (ground arith)
        | inl (u, e) ↦
            let marked = close_pass-goes started r u t (ground arith) in
            let before = notice-Bounded r.asked_waiting (ask_external r (notice r.asked_first s)) (
              ask_external-Bounded r (notice r.asked_first s) early
                (notice-Bounded r.asked_first s b)) in
            (
              subst Bounded marked (
                  mark_started-Bounded r (notice r.asked_last u) early (
                    notice-Bounded r.asked_last u
                      (take_received-Bounded r r.received (waiting r s) u early e before))),
              λ asked.
                  subst
                    (λ (v : Running). (v.requested ≡ true) × (is_some v.shutdown_started ≡ true))
                    marked
                    (mark_started-requested r (notice r.asked_last u) (
                      notice-requested r.asked_last u (
                        take_received-requested r r.received (waiting r s) u e (
                          notice-requested r.asked_waiting (ask_external r (notice r.asked_first s))
                            (ask_external-requested r (notice r.asked_first s)
                              (asked_before r s asked)))))),
            )
      ]

  overdue :
      (r : SupervisorRound) (s : Running) (t : ℕ)
      → t + grace ≤ r.checked_at
      → Since t s
      → is_overdue grace r s ≡ true
  unfolding is_overdue
  overdue r s t late (h, k) = rw k (le→leb grace (r.checked_at - t) (omega arith))

  close_pass-returns :
      (started : ℕ) (r : SupervisorRound) (s u : Running) (t : ℕ)
      → t + grace ≤ r.checked_at
      → Since t s
      → ¬ (close_pass grace started r s ≡ ok u)
  unfolding close_pass
  close_pass-returns started r s u t late since h =
      let late_now =
        overdue r (mark_started r (notice r.asked_last s)) t late
          (mark_started-Since r (notice r.asked_last s) t (notice-Since r.asked_last s t since)) in
      elim (Bool-cases (s.services_stopped == started)) [
        | inl e ↦ ground arith
        | inr e ↦ ground arith
      ]

  last_pass :
      (started : ℕ) (r : SupervisorRound) (s u : Running) (t : ℕ)
      → t + grace ≤ r.checked_at
      → Since t s
      → ¬ (supervise_once grace started r s ≡ ok u)
  unfolding supervise_once
  last_pass started r s u t late since h =
      elim (Result-cases (take_received r r.received (waiting r s))) [
        | inr (x, e) ↦ ground arith
        | inl (v, e) ↦
            close_pass-returns started r v u t late
              (take_received-Since r r.received (waiting r s) v t e (
                notice-Since r.asked_waiting (ask_external r (notice r.asked_first s)) t (
                  ask_external-Since r (notice r.asked_first s) t
                    (notice-Since r.asked_first s t since))))
              (ground arith)
      ]

  supervise-err :
      (started : ℕ) (r : SupervisorRound) (rest : List SupervisorRound) (s : Running)
      (result : Result SupervisorError SupervisorReport)
      → supervise_once grace started r s ≡ err result
      → is_some (supervise grace started (r ∷ rest) s) ≡ true
  unfolding supervise
  supervise-err started r rest s result h = rw (supervise, h) refl

  supervise-ok :
      (started : ℕ) (r : SupervisorRound) (rest : List SupervisorRound) (s t : Running)
      → supervise_once grace started r s ≡ ok t
      → is_some (supervise grace started rest t) ≡ true
      → is_some (supervise grace started (r ∷ rest) s) ≡ true
  unfolding supervise
  supervise-ok started r rest s t h k = rw (supervise, h) k

  asked_or_later :
      (r : SupervisorRound) (rest : List SupervisorRound) (s t : Running)
      → (((s.requested ≡ true) ⊎ (r.external ≡ true))
          → (t.requested ≡ true) × (is_some t.shutdown_started ≡ true))
      → ((s.requested ≡ true) × (is_some s.shutdown_started ≡ true))
        ⊎ (any (λ (x : SupervisorRound). x.external) (r ∷ rest) ≡ true)
      → ((t.requested ≡ true) × (is_some t.shutdown_started ≡ true))
        ⊎ (any (λ (x : SupervisorRound). x.external) rest ≡ true)
  asked_or_later r rest s t after (inl (h, k)) = inl (after (inl h))
  asked_or_later r rest s t after (inr h) = elim (Bool-cases r.external) [
    | inl e ↦ inl (after (inr e))
    | inr e ↦ inr (ground arith)
  ]

  pub supervise-returns :
      (started : ℕ) (xs : List SupervisorRound) (last : SupervisorRound) (s : Running)
      → end ≤ last.checked_at
      → All IsEarly xs
      → Bounded s
      → ((s.requested ≡ true) × (is_some s.shutdown_started ≡ true))
        ⊎ (any (λ (x : SupervisorRound). x.external) xs ≡ true)
      → is_some (supervise grace started (xs ++ last ∷ []) s) ≡ true
  supervise-returns started [] last s late early b (inr h) = absurd (ground arith)
  supervise-returns started [] last s late early b (inl (h, k)) =
      elim (Option-cases s.shutdown_started) [
        | inl e ↦ absurd (ground arith)
        | inr (t, e) ↦ elim (Result-cases (supervise_once grace started last s)) [
          | inl (u, e₁) ↦ absurd (last_pass started last s u t (omega (arith, b t e)) (h, e) e₁)
          | inr (result, e₁) ↦ supervise-err started last [] s result e₁
        ]
      ]
  supervise-returns started (r ∷ rest) last s late (early, others) b asked =
      elim (Result-cases (supervise_once grace started r s)) [
        | inr (result, e) ↦ supervise-err started r (rest ++ last ∷ []) s result e
        | inl (t, e) ↦
            let (b₁, after) = pass_goes started r s t early b e in
            supervise-ok started r (rest ++ last ∷ []) s t e (
              supervise-returns started rest last t late others b₁
                (asked_or_later r rest s t after asked))
      ]

-- A run in which the callback asks for the shutdown in some pass has returned by the first pass
-- whose check of the clock comes the grace time after every time noted in the passes before it,
-- whatever the services do.
pub run_until-returns :
    (xs : List SupervisorRound) (last : SupervisorRound) (s : ServiceSupervisor)
    → All (IsEarly s.config.shutdown_grace last.checked_at) xs
    → any (λ (x : SupervisorRound). x.external) xs ≡ true
    → is_some (run_until (xs ++ last ∷ []) s) ≡ true
unfolding run_until
run_until-returns xs last s early asked = elim (Bool-cases (length s.services == 0)) [
  | inl e ↦ rw e refl
  | inr e ↦ rw e (
      supervise-returns s.config.shutdown_grace last.checked_at (length s.services) xs last
        (fresh s) (omega arith) early (λ t h. absurd (ground arith)) (inr asked))
]
