-- ===== src/Enrollment.antt =====
-- crates/faceauth-enrollment/src/lib.rs: an enrollment collects derived samples of a face, and ends in one
-- template. `f32` is a type with instances of `Float` and `Arithmetic`.
pub mod Samples
pub mod Binding
pub mod Observing
pub mod Template
mod Tests
use faceauth_rs.Prelude.{
  ℕ, zero, suc, ◌-◌, Bool, true, false, not, ◌&&◌, ◌||◌, Option, none, some, is_some_and, Result,
  ok, err, ◌>>=◌, ◌>>◌, guard, ok_or, lift_err, nat_eq, bytes_eq, ◌==◌, ◌!=◌, if◌then◌else◌, ltb,
  leb, within, length, List, [], ◌∷◌, ◌++◌,
}
use faceauth_rs.Prelude.Exec.{Exec}
use faceauth_rs.Prelude.Word.{u64_mod, checked_add}
use faceauth_rs.Prelude.Float.{Float, Arithmetic, spans, is_unit}
use faceauth_rs.Storage.{
  StorageError, TemplateRecord, format_version, squared_norm, validate_template,
}
use faceauth_rs.Inference.{InferenceError, FaceEmbedding, dot_product, clamp}

abbrev pub max_enrollment_samples : ℕ
max_enrollment_samples = 16

pub data EnrollmentError (P K : Type 0) : Type 0 where
  invalid_config deadline_overflow stale_observation insufficient_quality : EnrollmentError P K
  invalid_pose liveness_required embedding_invalid embedding_incompatible : EnrollmentError P K
  inconsistent_identity sample_limit_reached deadline_elapsed : EnrollmentError P K
  insufficient_samples : ℕ → ℕ → EnrollmentError P K
  insufficient_pose_coverage aggregate_invalid session_failed : EnrollmentError P K
  inference : InferenceError → EnrollmentError P K
  storage : StorageError P K → EnrollmentError P K

-- `is_terminal_observation_failure`
unfoldable pub is_terminal : {P K : Type 0} → EnrollmentError P K → Bool
is_terminal insufficient_quality = false
is_terminal _ = true

pub record EnrollmentConfig (W : Type 0) : Type 0 where
  pub duration_micros : ℕ
  pub minimum_samples : ℕ
  pub maximum_samples : ℕ
  pub minimum_quality : W
  pub minimum_sample_similarity : W
  pub minimum_sample_interval_micros : ℕ
  pub minimum_yaw_span_degrees : W

pub record EnrollmentObservation (W : Type 0) : Type 0 where
  pub embedding : FaceEmbedding W
  pub quality : W
  pub passive_liveness_passed : Bool
  pub active_liveness_passed : Bool
  pub timestamp_micros : ℕ
  pub yaw_degrees : W

pub record EnrollmentSession (W : Type 0) : Type 0 where
  pub config : EnrollmentConfig W
  pub uid : ℕ
  pub issued_at_micros : ℕ
  pub deadline_micros : ℕ
  pub last_timestamp_micros : Option ℕ
  pub compatibility_sha256 : Option (List ℕ)
  pub dimension : Option ℕ
  pub samples : List (List W)
  pub sample_qualities : List W
  pub sample_yaws : List W
  pub terminal_failure : Bool

-- `vec![0.0_f32; dimension]`
abbrev pub replicate : {W : Type 0} → ℕ → W → List W
replicate zero x = []
replicate (suc n) x = x ∷ replicate n x

module _ {W : Type 0} ⦃f : Float W⦄ ⦃a : Arithmetic W⦄ where
  -- `iter().copied().reduce(…)`
  abbrev pub reduce : (W → W → W) → List W → Option W
  reduce op [] = none
  reduce op (x ∷ []) = some x
  reduce op (x ∷ y ∷ rest) = reduce op (op x y ∷ rest)

  unfoldable pub has_required_pose_coverage : EnrollmentSession W → Bool
  has_required_pose_coverage s = is_some_and (reduce a.minimum s.sample_yaws) λ least.
      is_some_and (reduce a.maximum s.sample_yaws)
        λ most. f.le s.config.minimum_yaw_span_degrees (a.sub most least)

  unfoldable pub ready_to_finish : EnrollmentSession W → Bool
  ready_to_finish s =
      not s.terminal_failure
      && (leb s.config.minimum_samples (length s.samples) && has_required_pose_coverage s)

  unfoldable pub is_full : EnrollmentSession W → Bool
  is_full s = leb s.config.maximum_samples (length s.samples)

  -- The inner loop of `finish`: one weighted sample is added to the sums.
  unfoldable pub add_weighted : W → (sums values : List W) → Option (List W)
  add_weighted weight (s ∷ ss) (v ∷ vs) =
      let next = a.mul_add v weight s in
      let rest = add_weighted weight ss vs in
      if f.is_finite next then elim rest [ none ↦ none | some xs ↦ some (next ∷ xs) ] else none
  add_weighted weight sums _ = some sums

  -- The outer loop of `finish`: the sums and the total weight over the pairs of the `zip`
  unfoldable pub aggregate :
      (sums : List W) (total : W) (samples : List (List W)) (qualities : List W)
      → Option (List W × W)
  aggregate sums total (x ∷ xs) (weight ∷ qs) = elim (add_weighted weight sums x) [
    | none ↦ none
    | some next ↦ aggregate next (a.add total weight) xs qs
  ]
  aggregate sums total _ _ = some (sums, total)

  -- The loop of `normalize`
  unfoldable pub divide_all : W → List W → Option (List W)
  divide_all norm [] = some []
  divide_all norm (v ∷ vs) =
      let next = a.div v norm in
      let rest = divide_all norm vs in
      if f.is_finite next then elim rest [ none ↦ none | some xs ↦ some (next ∷ xs) ] else none

  -- The pushes at the end of `observe_inner`
  unfoldable pub push_sample : EnrollmentObservation W → EnrollmentSession W → EnrollmentSession W
  push_sample o s = record s {
    samples = s.samples ++ o.embedding.values ∷ [];
    sample_qualities = s.sample_qualities ++ o.quality ∷ [];
    sample_yaws = s.sample_yaws ++ o.yaw_degrees ∷ [];
    last_timestamp_micros = some o.timestamp_micros;
  }

  module _ {P K : Type 0} where
    unfoldable pub validate_config : EnrollmentConfig W → Result (EnrollmentError P K) (Unit {0})
    validate_config c =
        if not (within 5000000 120000000 c.duration_micros)
          || not (within 3 max_enrollment_samples c.minimum_samples)
          || ltb c.maximum_samples c.minimum_samples
          || ltb max_enrollment_samples c.maximum_samples
          || not (is_unit c.minimum_quality)
          || not (is_unit c.minimum_sample_similarity)
          || not (within 50000 5000000 c.minimum_sample_interval_micros)
          || not (f.is_finite c.minimum_yaw_span_degrees)
          || not (spans (f.lit 5) (f.lit 60) c.minimum_yaw_span_degrees)
        then err invalid_config
        else ok tt

    -- `EnrollmentSession::start`
    unfoldable pub start_enrollment :
        EnrollmentConfig W → ℕ → ℕ → Result (EnrollmentError P K) (EnrollmentSession W)
    start_enrollment config uid issued_at_micros = do
      validate_config config
      deadline ←
          ok_or (checked_add u64_mod issued_at_micros config.duration_micros) deadline_overflow
      ok (record {
        config = config;
        uid = uid;
        issued_at_micros = issued_at_micros;
        deadline_micros = deadline;
        last_timestamp_micros = none;
        compatibility_sha256 = none;
        dimension = none;
        samples = [];
        sample_qualities = [];
        sample_yaws = [];
        terminal_failure = false;
      })

    unfoldable pub validate_observation :
        EnrollmentSession W → EnrollmentObservation W → Result (EnrollmentError P K) (Unit {0})
    validate_observation s o = do
      guard
          (not (
            leb o.timestamp_micros s.issued_at_micros
            || leb s.deadline_micros o.timestamp_micros
            || is_some_and s.last_timestamp_micros (λ previous. leb o.timestamp_micros previous)
            || is_some_and s.last_timestamp_micros (λ previous.
              ltb (o.timestamp_micros - previous) s.config.minimum_sample_interval_micros)))
          stale_observation
      guard (not (not (is_unit o.quality) || f.lt o.quality s.config.minimum_quality))
          insufficient_quality
      guard
          (not (
            not (f.is_finite o.yaw_degrees)
            || not (spans (f.neg (f.lit 90)) (f.lit 90) o.yaw_degrees)))
          invalid_pose
      guard (not (not o.passive_liveness_passed || not o.active_liveness_passed)) liveness_required
      guard (within 32 4096 (length o.embedding.values)) embedding_invalid

    unfoldable pub mapped_cosine : List W → List W → Result (EnrollmentError P K) W
    mapped_cosine left right = do
      guard (not (length left != length right)) embedding_incompatible
      cosine ← ok_or (dot_product (f.lit 0) left right) embedding_invalid
      ok (a.mul_add (clamp (f.neg (f.lit 1)) (f.lit 1) cosine) (f.milli 500) (f.milli 500))

    -- The loop over the samples that are there
    unfoldable pub check_identity :
        W → List (List W) → List W → Result (EnrollmentError P K) (Unit {0})
    check_identity minimum [] values = ok tt
    check_identity minimum (x ∷ xs) values = do
      similarity ← mapped_cosine x values
      guard (not (f.lt similarity minimum)) inconsistent_identity
      check_identity minimum xs values

    -- The model contract of the first sample binds the later ones.
    unfoldable pub bind_contract :
        EnrollmentSession W → FaceEmbedding W → Result (EnrollmentError P K) (EnrollmentSession W)
    bind_contract s e = elim s.compatibility_sha256 [
      | none ↦ ok (record s {
        compatibility_sha256 = some e.compatibility_sha256;
        dimension = some (length e.values);
      })
      | some digest ↦ elim s.dimension [
        | none ↦ ok (record s {
          compatibility_sha256 = some e.compatibility_sha256;
          dimension = some (length e.values);
        })
        | some dimension ↦
            if (digest != e.compatibility_sha256) || (dimension != length e.values)
            then err embedding_incompatible
            else ok s
      ]
    ]

    -- `observe_inner`: a contract that was bound stays bound when a later check fails.
    unfoldable pub observe_inner :
        EnrollmentObservation W
        → EnrollmentSession W
        → Result (EnrollmentError P K) (Unit {0}) × EnrollmentSession W
    observe_inner o s = elim (validate_observation s o) [
      | err e ↦ (err e, s)
      | ok valid ↦
          if leb s.config.maximum_samples (length s.samples)
          then (err sample_limit_reached, s)
          else elim (bind_contract s o.embedding) [
            | err e ↦ (err e, s)
            | ok bound ↦
                elim (check_identity bound.config.minimum_sample_similarity bound.samples
                  o.embedding.values) [
                    | err e ↦ (err e, bound)
                    | ok same ↦ (ok tt, push_sample o bound)
                  ]
          ]
    ]

    -- A terminal error closes the session.
    abbrev pub close_on :
        Result (EnrollmentError P K) (Unit {0}) × EnrollmentSession W
        → Result (EnrollmentError P K) (Unit {0}) × EnrollmentSession W
    close_on (ok done, s) = (ok done, s)
    close_on (err e, s) = (err e, if is_terminal e then record s { terminal_failure = true } else s)

    -- `EnrollmentSession::observe`
    unfoldable pub observe :
        EnrollmentObservation W
        → EnrollmentSession W
        → Result (EnrollmentError P K) (Unit {0}) × EnrollmentSession W
    observe o s =
        if s.terminal_failure then (err session_failed, s) else close_on (observe_inner o s)

    unfoldable pub normalize : List W → Result (EnrollmentError P K) (List W)
    normalize values = do
      squared ← ok_or (squared_norm (f.lit 0) values) aggregate_invalid
      let norm = a.sqrt squared
      guard (not (not (f.is_finite norm) || f.le norm a.epsilon)) aggregate_invalid
      ok_or (divide_all norm values) aggregate_invalid

    -- `EnrollmentSession::finish`
    unfoldable pub finish :
        ℕ → EnrollmentSession W → Result (EnrollmentError P K) (TemplateRecord W)
    finish now_micros s = do
      guard (not s.terminal_failure) session_failed
      guard (not (leb s.deadline_micros now_micros)) deadline_elapsed
      guard (not (ltb (length s.samples) s.config.minimum_samples))
          (insufficient_samples (length s.samples) s.config.minimum_samples)
      guard (has_required_pose_coverage s) insufficient_pose_coverage
      dimension ← ok_or s.dimension (insufficient_samples 0 s.config.minimum_samples)
      (sums, total) ←
          ok_or (aggregate (replicate dimension (f.lit 0)) (f.lit 0) s.samples s.sample_qualities)
            aggregate_invalid
      guard (not (not (f.is_finite total) || f.le total a.epsilon)) aggregate_invalid
      embedding ← normalize sums
      digest ← ok_or s.compatibility_sha256 aggregate_invalid
      let made : TemplateRecord W = record {
        schema_version = format_version;
        uid = s.uid;
        model_compatibility_sha256 = digest;
        embedding = embedding;
      }
      lift_err storage (validate_template made)
      ok made
