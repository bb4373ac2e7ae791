-- ===== src/Enrollment/Samples.antt =====
-- What an enrollment holds after any observations (crates/faceauth-enrollment/src/lib.rs).
use faceauth_rs.Prelude.{
  Pairwise, ℕ, ◌+◌, ◌<◌, ◌≤◌, ◌≡◌, ap, sym, subst, ◌∙◌, true, false, ◌||◌, some, ok, bind-eq-ok,
  Bool-cases, Option-cases, eq_of_beq, ◌⊎◌, inl, inr, nat_eq, bytes_eq, ◌!=◌, length, All, List, [],
  ◌∷◌, arith,
}
use faceauth_rs.Prelude.Float.{Float, Arithmetic, spans, is_unit}
use faceauth_rs.Inference.{FaceEmbedding}
use faceauth_rs.Enrollment.{
  EnrollmentConfig, EnrollmentObservation, EnrollmentSession, validate_observation, mapped_cosine,
  check_identity, bind_contract,
}

module _ {W : Type 0} ⦃f : Float W⦄ ⦃a : Arithmetic W⦄ (P K : Type 0) where
  -- The mapped cosine of two samples is defined and reaches the minimum.
  pub record IsAlike (least : W) (x y : List W) : Type 0 where
    pub similarity : W
    pub computed : mapped_cosine {P = P} {K = K} x y ≡ ok similarity
    pub reaches : f.lt similarity least ≡ false

  -- No sample yet, or samples of one dimension, that of the bound contract
  abbrev pub IsBound : EnrollmentSession W → Type 0
  IsBound s =
      (s.samples ≡ [])
      ⊎ ((digest : List ℕ) × (d : ℕ) × (s.compatibility_sha256 ≡ some digest)
          × (s.dimension ≡ some d)
          × All (λ (x : List W). length x ≡ d) s.samples)

  pub record IsSound (c : EnrollmentConfig W) (uid issued : ℕ) (s : EnrollmentSession W)
      : Type 0 where
    pub configured : s.config ≡ c
    pub owned : s.uid ≡ uid
    pub issued_at : s.issued_at_micros ≡ issued
    pub deadline : s.deadline_micros ≡ issued + c.duration_micros
    pub last :
        (t : ℕ) → s.last_timestamp_micros ≡ some t → (issued < t) × (t < issued + c.duration_micros)
    pub bounded : length s.samples ≤ c.maximum_samples
    pub qualities : length s.sample_qualities ≡ length s.samples
    pub yaws : length s.sample_yaws ≡ length s.samples
    pub sharp :
        All (λ q. (is_unit q ≡ true) × (f.lt q c.minimum_quality ≡ false)) s.sample_qualities
    pub posed : All (λ y. spans (f.neg (f.lit 90)) (f.lit 90) y ≡ true) s.sample_yaws
    pub contract : IsBound s
    pub alike : Pairwise (IsAlike c.minimum_sample_similarity) s.samples

  pub check_identity-IsAlike :
      (least : W) (xs : List (List W)) (y : List W)
      → check_identity {P = P} {K = K} least xs y ≡ ok tt
      → All (λ x. IsAlike least x y) xs
  unfolding check_identity
  check_identity-IsAlike least [] y h = tt
  check_identity-IsAlike least (x ∷ xs) y h =
      let (similarity, computed, h₁) = bind-eq-ok (mapped_cosine {P = P} {K = K} x y) _ h in
      elim (Bool-cases (f.lt similarity least)) [
        | inl e ↦ absurd (ground arith)
        | inr e ↦ (
          record { similarity = similarity; computed = computed; reaches = e },
          check_identity-IsAlike least xs y (ground arith),
        )
      ]

  pub record IsFit (c : EnrollmentConfig W) (issued : ℕ) (o : EnrollmentObservation W)
      : Type 0 where
    pub later : issued < o.timestamp_micros
    pub in_time : o.timestamp_micros < issued + c.duration_micros
    pub unit_quality : is_unit o.quality ≡ true
    pub enough : f.lt o.quality c.minimum_quality ≡ false
    pub pose : spans (f.neg (f.lit 90)) (f.lit 90) o.yaw_degrees ≡ true

  pub validate_observation-IsFit :
      (c : EnrollmentConfig W) (uid issued : ℕ) (s : EnrollmentSession W)
      (o : EnrollmentObservation W)
      → IsSound c uid issued s
      → validate_observation {P = P} {K = K} s o ≡ ok tt
      → IsFit c issued o
  unfolding validate_observation
  validate_observation-IsFit c uid issued s o i h =
      let later : s.issued_at_micros < o.timestamp_micros = ground arith in
      let in_time : o.timestamp_micros < s.deadline_micros = ground arith in
      let enough : f.lt o.quality s.config.minimum_quality ≡ false = ground arith in
      record {
        later = omega (arith, i.issued_at);
        in_time = omega (arith, i.deadline);
        unit_quality = ground arith;
        enough =
            subst (λ (m : EnrollmentConfig W). f.lt o.quality m.minimum_quality ≡ false)
              i.configured enough;
        pose = ground arith;
      }

  pub bind_contract-binds :
      (s b : EnrollmentSession W) (e : FaceEmbedding W)
      → bind_contract {P = P} {K = K} s e ≡ ok b
      → (b.compatibility_sha256 ≡ some e.compatibility_sha256)
        × (b.dimension ≡ some (length e.values))
  unfolding bind_contract
  bind_contract-binds s b e h = elim (Option-cases s.compatibility_sha256) [
    | inl e₁ ↦ (ground arith, ground arith)
    | inr (digest, e₁) ↦ elim (Option-cases s.dimension) [
      | inl e₂ ↦ (ground arith, ground arith)
      | inr (d, e₂) ↦
          elim (Bool-cases ((digest != e.compatibility_sha256) || (d != length e.values))) [
            | inl e₃ ↦ absurd (ground arith)
            | inr e₃ ↦
                let same : s ≡ b = ground arith in
                let digests : digest ≡ e.compatibility_sha256 =
                  eq_of_beq digest e.compatibility_sha256 (ground arith) in
                let sizes : d ≡ length e.values = eq_of_beq d (length e.values) (ground arith) in
                (
                  sym (ap (λ (x : EnrollmentSession W). x.compatibility_sha256) same)
                      ∙ e₁
                      ∙ ap some digests,
                  sym (ap (λ (x : EnrollmentSession W). x.dimension) same) ∙ e₂ ∙ ap some sizes,
                )
          ]
    ]
  ]

  pub bind_contract-samples :
      (s b : EnrollmentSession W) (e : FaceEmbedding W)
      → bind_contract {P = P} {K = K} s e ≡ ok b
      → b.samples ≡ s.samples
  unfolding bind_contract
  bind_contract-samples s b e h = elim (Option-cases s.compatibility_sha256) [
    | inl e₁ ↦ ground arith
    | inr (digest, e₁) ↦ elim (Option-cases s.dimension) [
      | inl e₂ ↦ ground arith
      | inr (d, e₂) ↦ ground arith
    ]
  ]
