-- ===== src/Policy/Tests.antt =====
-- Runs of the policy, and its theorems at concrete policies and evidence.
use faceauth_rs.Prelude.{◌≡◌, refl, ◌↔◌, some, false, ok, err}
use faceauth_rs.Prelude.Float.{Milli, pos, nan, milli_float, is_unit}
use faceauth_rs.Policy.{
  CapturePair, AuthPolicy, AuthenticationEvidence, default_capture_policy, default_auth_policy,
  observed, passed, failed, active_challenge_failed, invalid_unit_score, frame_pair_too_far_apart,
  accepts, validate, evaluate, decide_reason,
}
use faceauth_rs.Policy.Decision.{accepting, IsWellFormed, Passes, evaluate_accepts_iff}

abbrev skewed : CapturePair
skewed = record { infrared_timestamp_micros = 1000000; visible_timestamp_micros = some 1100001 }

abbrev paired : CapturePair
paired = record { infrared_timestamp_micros = 1000000; visible_timestamp_micros = some 1100000 }

-- paired_frames_must_be_close_in_monotonic_time
accepts-skewed :
    accepts default_capture_policy skewed ≡ err (frame_pair_too_far_apart 100001 100000)
unfolding accepts
accepts-skewed = refl

abbrev passing_evidence : AuthenticationEvidence Milli
passing_evidence = record {
  similarity = pos 800;
  quality = pos 800;
  infrared_status = observed;
  visible_status = observed;
  passive_liveness = passed;
  active_challenge = passed;
}

abbrev policy : AuthPolicy Milli
policy = default_auth_policy

evaluate_passing : evaluate policy passing_evidence ≡ ok accepting
unfolding evaluate validate decide_reason is_unit
evaluate_passing = refl

-- active_liveness_cannot_be_skipped_by_a_high_match_score
evaluate_unacted :
    evaluate policy (record passing_evidence { active_challenge = failed })
    ≡ ok (record { is_accepted = false; reason = active_challenge_failed })
unfolding evaluate validate decide_reason is_unit
evaluate_unacted = refl

evaluate_nan :
    evaluate policy (record passing_evidence { similarity = nan })
    ≡ err (invalid_unit_score "similarity")
unfolding evaluate validate is_unit
evaluate_nan = refl

evaluate_accepts_iff_example :
    (evaluate policy passing_evidence ≡ ok accepting)
    ↔ (IsWellFormed policy passing_evidence × Passes policy passing_evidence)
evaluate_accepts_iff_example = evaluate_accepts_iff policy passing_evidence
