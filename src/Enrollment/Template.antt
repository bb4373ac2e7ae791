-- ===== src/Enrollment/Template.antt =====
-- How an enrollment ends: closed by a failure, or in a template
-- (crates/faceauth-enrollment/src/lib.rs).
use faceauth_rs.Prelude.{
  ℕ, zero, suc, lift_err, lift_err-ok, ◌+◌, ◌<◌, ◌≤◌, ◌≡◌, refl, ap, sym, subst, ◌∙◌, true, false,
  not, ◌||◌, some, Result, ok, err, bind-eq-ok, bind-guard, bind-ok_or, ok_or-ok, Bool-cases,
  Option-cases, inl, inr, nat_eq, bytes_eq, ltb, leb, length, List, [], ◌∷◌, arith,
}
use faceauth_rs.Prelude.Float.{Float, Arithmetic}
use faceauth_rs.Storage.{TemplateRecord, validate_template, format_version, squared_norm}
use faceauth_rs.Enrollment.Samples.{IsSound}
use faceauth_rs.Enrollment.{
  EnrollmentError, session_failed, EnrollmentConfig, EnrollmentObservation, EnrollmentSession,
  is_terminal, start_enrollment, observe_inner, close_on, observe, finish, replicate, add_weighted,
  aggregate, divide_all, normalize, has_required_pose_coverage, insufficient_samples,
  insufficient_pose_coverage, deadline_elapsed, aggregate_invalid, storage,
}
use faceauth_rs.Enrollment.Samples.{IsSound}
use faceauth_rs.Enrollment.Observing.{
  observe_all, observe-closed, observe-open, observe_all-IsSound, start-IsSound,
}

module _ {W : Type 0} ⦃f : Float W⦄ ⦃a : Arithmetic W⦄ (P K : Type 0) where
  finish_closed :
      (now_micros : ℕ) (s : EnrollmentSession W)
      → s.terminal_failure ≡ true
      → finish {P = P} {K = K} now_micros s ≡ err session_failed
  unfolding finish
  finish_closed now_micros s h = ground arith

  observe_all_closed :
      (os : List (EnrollmentObservation W)) (s : EnrollmentSession W)
      → s.terminal_failure ≡ true
      → observe_all P K os s ≡ s
  observe_all_closed [] s h = refl
  observe_all_closed (o ∷ os) s h = rw (observe-closed P K o s h) (observe_all_closed os s h)

  close_on-closes :
      (r : Result (EnrollmentError P K) (Unit {0}) × EnrollmentSession W) (e : EnrollmentError P K)
      → (close_on r).0 ≡ err e
      → is_terminal e ≡ true
      → (close_on r).1.terminal_failure ≡ true
  close_on-closes (ok u, s) e h t = absurd (ground arith)
  close_on-closes (err x, s) e h t =
      let same : x ≡ e = ground arith in rw (ap is_terminal same ∙ t) refl

  observe-shuts :
      (o : EnrollmentObservation W) (s : EnrollmentSession W) (e : EnrollmentError P K)
      → (observe {P = P} {K = K} o s).0 ≡ err e
      → is_terminal e ≡ true
      → (observe {P = P} {K = K} o s).1.terminal_failure ≡ true
  observe-shuts o s e h t = elim (Bool-cases s.terminal_failure) [
    | inl shut ↦ rw (observe-closed P K o s shut) shut
    | inr open_before ↦
        let step = observe-open P K o s open_before in
        rw step (
          close_on-closes (observe_inner {P = P} {K = K} o s) e
            (ap (λ (r : Result (EnrollmentError P K) (Unit {0}) × EnrollmentSession W). r.0)
                (sym step)
              ∙ h)
            t)
  ]

  -- An observation that fails for anything but its quality closes the enrollment for good: no
  -- later observation is accepted or changes anything, and no template comes of it.
  pub observe-closes :
      (o p : EnrollmentObservation W) (os : List (EnrollmentObservation W))
      (s : EnrollmentSession W) (e : EnrollmentError P K) (now_micros : ℕ)
      → (observe {P = P} {K = K} o s).0 ≡ err e
      → is_terminal e ≡ true
      → let t = (observe {P = P} {K = K} o s).1 in
        (observe {P = P} {K = K} p (observe_all P K os t) ≡ (err session_failed, t))
        × (finish {P = P} {K = K} now_micros (observe_all P K os t) ≡ err session_failed)
  observe-closes o p os s e now_micros h t =
      let after = (observe {P = P} {K = K} o s).1 in
      let shut = observe-shuts o s e h t in
      let still = observe_all_closed os after shut in
      (rw still (observe-closed P K p after shut), rw still (finish_closed now_micros after shut))

  add_weighted-length :
      (weight : W) (sums values next : List W)
      → add_weighted weight sums values ≡ some next
      → length next ≡ length sums
  unfolding add_weighted
  add_weighted-length weight [] values next h = ground arith
  add_weighted-length weight (x ∷ xs) [] next h = ground arith
  add_weighted-length weight (x ∷ xs) (v ∷ vs) next h =
      elim (Option-cases (add_weighted weight xs vs)) [
        | inl e ↦ absurd (ground arith)
        | inr (rest, e) ↦ ground (arith, add_weighted-length weight xs vs rest e)
      ]

  aggregate-length :
      (sums : List W) (total : W) (samples : List (List W)) (qualities result : List W) (sum : W)
      → aggregate sums total samples qualities ≡ some (result, sum)
      → length result ≡ length sums
  unfolding aggregate
  aggregate-length sums total [] qualities result sum h = ground arith
  aggregate-length sums total (x ∷ xs) [] result sum h = ground arith
  aggregate-length sums total (x ∷ xs) (q ∷ qs) result sum h =
      elim (Option-cases (add_weighted q sums x)) [
        | inl e ↦ absurd (ground arith)
        | inr (next, e) ↦
            aggregate-length next (a.add total q) xs qs result sum (ground arith)
            ∙ add_weighted-length q sums x next e
      ]

  divide_all-length :
      (norm : W) (values divided : List W)
      → divide_all norm values ≡ some divided
      → length divided ≡ length values
  unfolding divide_all
  divide_all-length norm [] divided h = ground arith
  divide_all-length norm (v ∷ vs) divided h = elim (Option-cases (divide_all norm vs)) [
    | inl e ↦ absurd (ground arith)
    | inr (rest, e) ↦ ground (arith, divide_all-length norm vs rest e)
  ]

  length-replicate : (n : ℕ) (x : W) → length (replicate n x) ≡ n
  length-replicate zero x = refl
  length-replicate (suc n) x = ap suc (length-replicate n x)

  normalize-length :
      (values unit : List W)
      → normalize {P = P} {K = K} values ≡ ok unit
      → length unit ≡ length values
  unfolding normalize
  normalize-length values unit h =
      let (squared, e, h₁) = bind-ok_or (squared_norm (f.lit 0) values) aggregate_invalid _ h in
      let norm = a.sqrt squared in
      let (large, h₂) =
        bind-guard (not (not (f.is_finite norm) || f.le norm a.epsilon)) aggregate_invalid _ h₁ in
      divide_all-length norm values unit (ok_or-ok (divide_all norm values) aggregate_invalid h₂)

  -- What a template that was made rests on
  pub record IsMade (c : EnrollmentConfig W) (uid issued now_micros : ℕ) (s : EnrollmentSession W)
      (r : TemplateRecord W) : Type 0 where
    pub unfailed : s.terminal_failure ≡ false
    pub in_time : now_micros < issued + c.duration_micros
    pub enough : c.minimum_samples ≤ length s.samples
    pub spread : has_required_pose_coverage s ≡ true
    pub owner : r.uid ≡ uid
    pub contract : s.compatibility_sha256 ≡ some r.model_compatibility_sha256
    pub dimension : s.dimension ≡ some (length r.embedding)
    pub valid : validate_template {P = P} {K = K} r ≡ ok tt

  module _ (c : EnrollmentConfig W) (uid issued : ℕ) where
    finish-IsMade :
        (now_micros : ℕ) (s : EnrollmentSession W) (r : TemplateRecord W)
        → IsSound P K c uid issued s
        → finish {P = P} {K = K} now_micros s ≡ ok r
        → IsMade c uid issued now_micros s r
    unfolding finish
    finish-IsMade now_micros s r i h =
        let (open_still, k₁) = bind-guard (not s.terminal_failure) session_failed _ h in
        let (timely, k₂) =
          bind-guard (not (leb s.deadline_micros now_micros)) deadline_elapsed _ k₁ in
        let required = s.config.minimum_samples in
        let (many, k₃) =
          bind-guard (not (ltb (length s.samples) required))
            (insufficient_samples (length s.samples) required) _ k₂ in
        let (spread, k₄) =
          bind-guard (has_required_pose_coverage s) insufficient_pose_coverage _ k₃ in
        let (d, sized, k₅) = bind-ok_or s.dimension (insufficient_samples 0 required) _ k₄ in
        let ((sums, total), summed, k₆) =
          bind-ok_or (aggregate (replicate d (f.lit 0)) (f.lit 0) s.samples s.sample_qualities)
            aggregate_invalid _ k₅ in
        let (weighted, k₇) =
          bind-guard (not (not (f.is_finite total) || f.le total a.epsilon)) aggregate_invalid _
            k₆ in
        let (unit, normal, k₈) = bind-eq-ok (normalize {P = P} {K = K} sums) _ k₇ in
        let (digest, bound, k₉) = bind-ok_or s.compatibility_sha256 aggregate_invalid _ k₈ in
        let made : TemplateRecord W = record {
          schema_version = format_version;
          uid = s.uid;
          model_compatibility_sha256 = digest;
          embedding = unit;
        } in
        let (u, valid, same) = bind-eq-ok (lift_err storage (validate_template made)) _ k₉ in
        let sizes : length unit ≡ d =
          normalize-length sums unit normal
          ∙ (aggregate-length (replicate d (f.lit 0)) (f.lit 0) s.samples s.sample_qualities sums
                total summed
              ∙ length-replicate d (f.lit 0)) in
        let least : s.config.minimum_samples ≤ length s.samples = ground arith in
        let early : now_micros < s.deadline_micros = ground arith in
        subst (IsMade c uid issued now_micros s) (ground arith) (record {
          unfailed = ground arith;
          in_time = omega (arith, early, i.deadline);
          enough =
              subst (λ (m : EnrollmentConfig W). m.minimum_samples ≤ length s.samples) i.configured
                least;
          spread = spread;
          owner = i.owned;
          contract = bound;
          dimension = sized ∙ ap some (sym sizes);
          valid = lift_err-ok storage (validate_template made) valid;
        })

    -- A template that comes of an enrollment that was started, after any observations, is a valid
    -- record of the account of the start, with the digest and the dimension of the bound model
    -- contract; and then no observation closed the enrollment, the deadline has not passed, enough
    -- samples are held and they cover the configured range of yaws.
    pub start-finish-IsMade :
        (s : EnrollmentSession W) (os : List (EnrollmentObservation W)) (now_micros : ℕ)
        (r : TemplateRecord W)
        → start_enrollment {P = P} {K = K} c uid issued ≡ ok s
        → finish {P = P} {K = K} now_micros (observe_all P K os s) ≡ ok r
        → IsMade c uid issued now_micros (observe_all P K os s) r
    start-finish-IsMade s os now_micros r h =
        finish-IsMade now_micros (observe_all P K os s) r
          (observe_all-IsSound P K c uid issued os s (start-IsSound P K c uid issued s h))
