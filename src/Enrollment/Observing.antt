-- ===== src/Enrollment/Observing.antt =====
-- Any observations keep an enrollment sound (crates/faceauth-enrollment/src/lib.rs).
use faceauth_rs.Prelude.{
  ℕ, ◌+◌, ◌≡◌, refl, subst, true, false, none, Result, ok, err, bind-eq-ok, ok_or, Bool-cases, inl,
  inr, nat_eq, bytes_eq, List, [], ◌∷◌, arith,
}
use faceauth_rs.Prelude.Word.{u64_mod, checked_add}
use faceauth_rs.Prelude.Float.{Float, Arithmetic}
use faceauth_rs.Enrollment.{
  EnrollmentError, session_failed, deadline_overflow, EnrollmentConfig, EnrollmentObservation,
  EnrollmentSession, is_terminal, validate_config, start_enrollment, observe_inner, close_on,
  observe,
}
use faceauth_rs.Enrollment.Samples.{IsSound}
use faceauth_rs.Enrollment.Binding.{observe_inner-IsSound}

module _ {W : Type 0} ⦃f : Float W⦄ ⦃a : Arithmetic W⦄ (P K : Type 0) where
  -- The session after a sequence of calls of `observe`
  abbrev pub observe_all :
      List (EnrollmentObservation W) → EnrollmentSession W → EnrollmentSession W
  observe_all [] s = s
  observe_all (o ∷ os) s = observe_all os (observe {P = P} {K = K} o s).1

  pub observe-closed :
      (o : EnrollmentObservation W) (s : EnrollmentSession W)
      → s.terminal_failure ≡ true
      → observe {P = P} {K = K} o s ≡ (err session_failed, s)
  unfolding observe
  observe-closed o s h = ground arith

  pub observe-open :
      (o : EnrollmentObservation W) (s : EnrollmentSession W)
      → s.terminal_failure ≡ false
      → observe {P = P} {K = K} o s ≡ close_on (observe_inner {P = P} {K = K} o s)
  unfolding observe
  observe-open o s h = ground arith

  module _ (c : EnrollmentConfig W) (uid issued : ℕ) where
    closed-IsSound :
        (s : EnrollmentSession W)
        → IsSound P K c uid issued s
        → IsSound P K c uid issued (record s { terminal_failure = true })
    closed-IsSound s i = record {
      configured = i.configured;
      owned = i.owned;
      issued_at = i.issued_at;
      deadline = i.deadline;
      last = i.last;
      bounded = i.bounded;
      qualities = i.qualities;
      yaws = i.yaws;
      sharp = i.sharp;
      posed = i.posed;
      contract = i.contract;
      alike = i.alike;
    }

    close_on-IsSound :
        (r : Result (EnrollmentError P K) (Unit {0}) × EnrollmentSession W)
        → IsSound P K c uid issued r.1
        → IsSound P K c uid issued (close_on r).1
    close_on-IsSound (ok u, s) i = i
    close_on-IsSound (err e, s) i = elim (Bool-cases (is_terminal e)) [
      | inl h ↦ rw h (closed-IsSound s i)
      | inr h ↦ rw h i
    ]

    observe-IsSound :
        (o : EnrollmentObservation W) (s : EnrollmentSession W)
        → IsSound P K c uid issued s
        → IsSound P K c uid issued (observe {P = P} {K = K} o s).1
    observe-IsSound o s i = elim (Bool-cases s.terminal_failure) [
      | inl h ↦ rw (observe-closed o s h) i
      | inr h ↦ rw (observe-open o s h) (
          close_on-IsSound (observe_inner {P = P} {K = K} o s)
            (observe_inner-IsSound P K c uid issued o s i))
    ]

    pub observe_all-IsSound :
        (os : List (EnrollmentObservation W)) (s : EnrollmentSession W)
        → IsSound P K c uid issued s
        → IsSound P K c uid issued (observe_all os s)
    observe_all-IsSound [] s i = i
    observe_all-IsSound (o ∷ os) s i =
        observe_all-IsSound os (observe {P = P} {K = K} o s).1 (observe-IsSound o s i)

    fresh-IsSound :
        (d : ℕ)
        → d ≡ issued + c.duration_micros
        → IsSound P K c uid issued (record {
          config = c;
          uid = uid;
          issued_at_micros = issued;
          deadline_micros = d;
          last_timestamp_micros = none;
          compatibility_sha256 = none;
          dimension = none;
          samples = [];
          sample_qualities = [];
          sample_yaws = [];
          terminal_failure = false;
        })
    fresh-IsSound d h = record {
      configured = refl;
      owned = refl;
      issued_at = refl;
      deadline = h;
      last = λ t e. absurd (ground arith);
      bounded = omega arith;
      qualities = refl;
      yaws = refl;
      sharp = tt;
      posed = tt;
      contract = inl refl;
      alike = tt;
    }

    pub start-IsSound :
        (s : EnrollmentSession W)
        → start_enrollment {P = P} {K = K} c uid issued ≡ ok s
        → IsSound P K c uid issued s
    unfolding start_enrollment
    start-IsSound s h =
        let (u, valid, h₁) = bind-eq-ok (validate_config {P = P} {K = K} c) _ h in
        let (d, sum, h₂) =
          bind-eq-ok
            (ok_or {E = EnrollmentError P K} (checked_add u64_mod issued c.duration_micros)
              deadline_overflow)
            _ h₁ in
        let d_eq : d ≡ issued + c.duration_micros = ground arith in
        subst (IsSound P K c uid issued) (ground arith) (fresh-IsSound d d_eq)

    -- After any observations of an enrollment that was started, whatever each of them answered: the
    -- configuration, the account and the deadline are those of the start; at most the configured
    -- number of samples is held, each with a quality that is a unit score and reaches the minimum
    -- and with a yaw between -90 and 90 degrees; all samples have the dimension of the bound
    -- contract; each two are at least as similar as the configuration asks; and the last timestamp
    -- lies strictly between the start and the deadline.
    pub start-observe_all-IsSound :
        (s : EnrollmentSession W) (os : List (EnrollmentObservation W))
        → start_enrollment {P = P} {K = K} c uid issued ≡ ok s
        → IsSound P K c uid issued (observe_all os s)
    start-observe_all-IsSound s os h = observe_all-IsSound os s (start-IsSound s h)
