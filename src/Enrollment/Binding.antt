-- ===== src/Enrollment/Binding.antt =====
-- One observation keeps an enrollment sound (crates/faceauth-enrollment/src/lib.rs).
use faceauth_rs.Prelude.{
  All-snoc, Pairwise-snoc, length-snoc, ℕ, ◌<◌, ◌≡◌, refl, ap, sym, subst, false, ◌||◌, some, ok,
  Result-cases, Bool-cases, Option-cases, inl, inr, nat_eq, bytes_eq, ◌!=◌, leb, length, All, List,
  [], arith,
}
use faceauth_rs.Prelude.Float.{Float, Arithmetic}
use faceauth_rs.Inference.{FaceEmbedding}
use faceauth_rs.Enrollment.{
  EnrollmentConfig, EnrollmentObservation, EnrollmentSession, push_sample, validate_observation,
  check_identity, bind_contract, observe_inner,
}
use faceauth_rs.Enrollment.Samples.{
  IsAlike, IsBound, IsSound, IsFit, check_identity-IsAlike, validate_observation-IsFit,
  bind_contract-binds, bind_contract-samples,
}

module _ {W : Type 0} ⦃f : Float W⦄ ⦃a : Arithmetic W⦄ (P K : Type 0) where
  module _ (c : EnrollmentConfig W) (uid issued : ℕ) where
    rebound-IsSound :
        (s : EnrollmentSession W) (e : FaceEmbedding W)
        → IsSound P K c uid issued s
        → s.samples ≡ []
        → IsSound P K c uid issued (record s {
          compatibility_sha256 = some e.compatibility_sha256;
          dimension = some (length e.values);
        })
    rebound-IsSound s e i empty = record {
      configured = i.configured;
      owned = i.owned;
      issued_at = i.issued_at;
      deadline = i.deadline;
      last = i.last;
      bounded = i.bounded;
      qualities = i.qualities;
      yaws = i.yaws;
      sharp = i.sharp;
      posed = i.posed;
      contract = inl empty;
      alike = i.alike;
    }

    bind_contract-IsSound :
        (s b : EnrollmentSession W) (e : FaceEmbedding W)
        → IsSound P K c uid issued s
        → bind_contract {P = P} {K = K} s e ≡ ok b
        → IsSound P K c uid issued b
    unfolding bind_contract
    bind_contract-IsSound s b e i h = elim i.contract [
      | inr (digest, d, e₁, e₂, same) ↦
          elim (Bool-cases ((digest != e.compatibility_sha256) || (d != length e.values))) [
            | inl e₃ ↦ absurd (ground arith)
            | inr e₃ ↦ subst (IsSound P K c uid issued) (ground arith) i
          ]
      | inl empty ↦ elim (Option-cases s.compatibility_sha256) [
        | inl e₁ ↦ subst (IsSound P K c uid issued) (ground arith) (rebound-IsSound s e i empty)
        | inr (digest, e₁) ↦ elim (Option-cases s.dimension) [
          | inl e₂ ↦ subst (IsSound P K c uid issued) (ground arith) (rebound-IsSound s e i empty)
          | inr (d, e₂) ↦
              elim (Bool-cases ((digest != e.compatibility_sha256) || (d != length e.values))) [
                | inl e₃ ↦ absurd (ground arith)
                | inr e₃ ↦ subst (IsSound P K c uid issued) (ground arith) i
              ]
        ]
      ]
    ]

    same_dimension :
        (b : EnrollmentSession W) (o : EnrollmentObservation W)
        → b.dimension ≡ some (length o.embedding.values)
        → IsBound P K b
        → All (λ x. length x ≡ length o.embedding.values) b.samples
    same_dimension b o h (inl empty) =
        subst (All (λ x. length x ≡ length o.embedding.values)) (sym empty) tt
    same_dimension b o h (inr (digest, d, e₁, e₂, same)) =
        let sizes : d ≡ length o.embedding.values = ground arith in
        subst (λ n. All (λ (x : List W). length x ≡ n) b.samples) sizes same

    push-IsSound :
        (b : EnrollmentSession W) (o : EnrollmentObservation W)
        → IsSound P K c uid issued b
        → IsFit P K c issued o
        → (b.compatibility_sha256 ≡ some o.embedding.compatibility_sha256)
        → (b.dimension ≡ some (length o.embedding.values))
        → length b.samples < c.maximum_samples
        → All (λ x. IsAlike P K c.minimum_sample_similarity x o.embedding.values) b.samples
        → IsSound P K c uid issued (push_sample o b)
    unfolding push_sample
    push-IsSound b o i fit digest dimension room near = record {
      configured = i.configured;
      owned = i.owned;
      issued_at = i.issued_at;
      deadline = i.deadline;
      last = λ t e.
          let same : o.timestamp_micros ≡ t = ground arith in
          (omega (arith, fit.later), omega (arith, fit.in_time));
      bounded = omega (arith, length-snoc b.samples o.embedding.values);
      qualities = omega (
        arith,
        i.qualities,
        length-snoc b.samples o.embedding.values,
        length-snoc b.sample_qualities o.quality,
      );
      yaws = omega (
        arith,
        i.yaws,
        length-snoc b.samples o.embedding.values,
        length-snoc b.sample_yaws o.yaw_degrees,
      );
      sharp = All-snoc _ b.sample_qualities o.quality i.sharp (fit.unit_quality, fit.enough);
      posed = All-snoc _ b.sample_yaws o.yaw_degrees i.posed fit.pose;
      contract = inr (
        o.embedding.compatibility_sha256,
        length o.embedding.values,
        digest,
        dimension,
        All-snoc _ b.samples o.embedding.values (same_dimension b o dimension i.contract) refl,
      );
      alike = Pairwise-snoc _ b.samples o.embedding.values i.alike near;
    }

    not_full :
        (s : EnrollmentSession W)
        → IsSound P K c uid issued s
        → leb s.config.maximum_samples (length s.samples) ≡ false
        → length s.samples < c.maximum_samples
    not_full s i room =
        let below : length s.samples < s.config.maximum_samples = ground arith in
        subst (λ (m : EnrollmentConfig W). length s.samples < m.maximum_samples) i.configured below

    pub observe_inner-IsSound :
        (o : EnrollmentObservation W) (s : EnrollmentSession W)
        → IsSound P K c uid issued s
        → IsSound P K c uid issued (observe_inner {P = P} {K = K} o s).1
    unfolding observe_inner
    observe_inner-IsSound o s i = elim (Result-cases (validate_observation {P = P} {K = K} s o)) [
      | inr (x, e) ↦ rw (observe_inner, e) i
      | inl (u, e) ↦ elim (Bool-cases (leb s.config.maximum_samples (length s.samples))) [
        | inl full ↦ rw (observe_inner, e, full) i
        | inr room ↦ elim (Result-cases (bind_contract {P = P} {K = K} s o.embedding)) [
          | inr (x, e₁) ↦ rw (observe_inner, e, room, e₁) i
          | inl (b, e₁) ↦
              let bound = bind_contract-IsSound s b o.embedding i e₁ in
              elim (Result-cases (
                check_identity {P = P} {K = K} b.config.minimum_sample_similarity b.samples
                  o.embedding.values)) [
                    | inr (x, e₂) ↦ rw (observe_inner, e, room, e₁, e₂) bound
                    | inl (v, e₂) ↦
                        rw (observe_inner, e, room, e₁, e₂)
                          (push-IsSound b o bound
                            (validate_observation-IsFit P K c uid issued s o i e)
                            (bind_contract-binds P K s b o.embedding e₁).0
                            (bind_contract-binds P K s b o.embedding e₁).1
                            (omega (
                              arith,
                              ap length (bind_contract-samples P K s b o.embedding e₁),
                              not_full s i room,
                            ))
                            (subst
                              (λ (m : EnrollmentConfig W).
                                All
                                  (λ x.
                                    IsAlike P K m.minimum_sample_similarity x o.embedding.values)
                                  b.samples)
                              bound.configured
                              (check_identity-IsAlike P K b.config.minimum_sample_similarity
                                b.samples o.embedding.values e₂)))
                  ]
        ]
      ]
    ]
