-- ===== src/Enrollment/Tests.antt =====
-- An enrollment of three observations of one face, at concrete numbers.
use faceauth_rs.Prelude.{ℕ, ◌≡◌, refl, true, false, none, ok, err, List, [], ◌∷◌}
use faceauth_rs.Prelude.Float.{Milli, Milli.pos, Milli.neg, milli_float, milli_arithmetic, is_unit}
use faceauth_rs.Storage.{TemplateRecord, format_version, validate_template, squared_norm, strays}
use faceauth_rs.Inference.{FaceEmbedding, dot_product}
use faceauth_rs.Enrollment.{
  liveness_required, session_failed, is_terminal, EnrollmentConfig, EnrollmentObservation,
  EnrollmentSession, replicate, has_required_pose_coverage, add_weighted, aggregate, divide_all,
  push_sample, validate_config, start_enrollment, validate_observation, mapped_cosine,
  check_identity, bind_contract, observe_inner, observe, normalize, finish,
}
use faceauth_rs.Enrollment.Samples.{IsSound}
use faceauth_rs.Enrollment.Observing.{observe_all, start-observe_all-IsSound}
use faceauth_rs.Enrollment.Template.{IsMade, observe-closes, start-finish-IsMade}

abbrev rules : EnrollmentConfig Milli
rules = record {
  duration_micros = 30000000;
  minimum_samples = 3;
  maximum_samples = 5;
  minimum_quality = pos 700;
  minimum_sample_similarity = pos 900;
  minimum_sample_interval_micros = 250000;
  minimum_yaw_span_degrees = pos 15000;
}

abbrev digest : List ℕ
digest =
    let eight = λ (rest : List ℕ). 97 ∷ 97 ∷ 97 ∷ 97 ∷ 97 ∷ 97 ∷ 97 ∷ 97 ∷ rest in
    eight (eight (eight (eight (eight (eight (eight (eight [])))))))

abbrev face : FaceEmbedding Milli
face = record { compatibility_sha256 = digest; values = pos 1000 ∷ replicate 31 (pos 0) }

abbrev seen_at : ℕ → Milli → EnrollmentObservation Milli
seen_at timestamp_micros yaw = record {
  embedding = face;
  quality = pos 900;
  passive_liveness_passed = true;
  active_liveness_passed = true;
  timestamp_micros = timestamp_micros;
  yaw_degrees = yaw;
}

abbrev spoof : EnrollmentObservation Milli
spoof = record (seen_at 2500000 (pos 0)) { passive_liveness_passed = false }

abbrev seen : List (EnrollmentObservation Milli)
seen = seen_at 2000000 (neg 10000) ∷ seen_at 3000000 (pos 0) ∷ seen_at 4000000 (pos 10000) ∷ []

abbrev opened : EnrollmentSession Milli
opened = record {
  config = rules;
  uid = 1000;
  issued_at_micros = 1000000;
  deadline_micros = 31000000;
  last_timestamp_micros = none;
  compatibility_sha256 = none;
  dimension = none;
  samples = [];
  sample_qualities = [];
  sample_yaws = [];
  terminal_failure = false;
}

abbrev made : TemplateRecord Milli
made = record {
  schema_version = format_version;
  uid = 1000;
  model_compatibility_sha256 = digest;
  embedding = face.values;
}

opened_eq : start_enrollment {P = ℕ} {K = ℕ} rules 1000 1000000 ≡ ok opened
unfolding start_enrollment validate_config is_unit
opened_eq = refl

made_eq : finish {P = ℕ} {K = ℕ} 5000000 (observe_all ℕ ℕ seen opened) ≡ ok made
unfolding observe observe_inner validate_observation is_unit bind_contract check_identity
    mapped_cosine dot_product push_sample is_terminal finish has_required_pose_coverage aggregate
    add_weighted normalize squared_norm divide_all validate_template strays
made_eq = refl

start-observe_all-IsSound_example : IsSound ℕ ℕ rules 1000 1000000 (observe_all ℕ ℕ seen opened)
start-observe_all-IsSound_example =
    start-observe_all-IsSound ℕ ℕ rules 1000 1000000 opened seen opened_eq

start-finish-IsMade_example :
    IsMade ℕ ℕ rules 1000 1000000 5000000 (observe_all ℕ ℕ seen opened) made
start-finish-IsMade_example =
    start-finish-IsMade ℕ ℕ rules 1000 1000000 opened seen 5000000 made opened_eq made_eq

spoofed : (observe {P = ℕ} {K = ℕ} spoof opened).0 ≡ err liveness_required
unfolding observe observe_inner validate_observation is_unit
spoofed = refl

observe-closes_example :
    let t = (observe {P = ℕ} {K = ℕ} spoof opened).1 in
    (observe {P = ℕ} {K = ℕ} spoof (observe_all ℕ ℕ seen t) ≡ (err session_failed, t))
    × (finish {P = ℕ} {K = ℕ} 5000000 (observe_all ℕ ℕ seen t) ≡ err session_failed)
unfolding is_terminal
observe-closes_example =
    observe-closes ℕ ℕ spoof spoof seen opened liveness_required 5000000 spoofed refl
