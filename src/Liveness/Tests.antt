-- ===== src/Liveness/Tests.antt =====
-- The challenge at a concrete configuration, with readings in thousandths.
use faceauth_rs.Prelude.{
  ℕ, ◌+◌, ◌*◌, ◌≤◌, ◌≡◌, refl, Bool, false, List, [], ◌∷◌, some, none, ok, err, length,
}
use faceauth_rs.Prelude.Float.{Milli, pos, neg, milli_float}
use faceauth_rs.Policy.{accepts}
use faceauth_rs.Liveness.{
  ChallengeConfig, ChallengeObservation, ChallengeSession, Phase, blink, passed, random,
  random_action, scores_valid, yaw_valid, validate_config, measurement_valid, validate_observation,
  timestamp, with_action, observe_cancellable, check_fresh, consume, advance, observe_action,
  observe_recovery, is_neutral, action_observed,
}
use faceauth_rs.Liveness.Story.{InRecovery}
use faceauth_rs.Liveness.Progress.{rank}
use faceauth_rs.Liveness.History.{IsTimely, watch, passed_evidence, observe-rank}

abbrev config : ChallengeConfig Milli
config = record {
  max_pair_skew_micros = 100000;
  duration_micros = 10000000;
  max_observations = 100;
  open_eye_threshold = pos 700;
  closed_eye_threshold = pos 300;
  neutral_yaw_degrees = pos 10000;
  turn_yaw_degrees = pos 20000;
  action_consecutive_observations = 2;
  minimum_action_duration_micros = 30000;
  recovery_consecutive_observations = 2;
}

-- Frame number `n` of a camera with 25 frames a second.
abbrev frame : ℕ → Milli → ChallengeObservation Milli
frame n openness = record {
  timing = record {
    infrared_timestamp_micros = 1000000 + n * 40000;
    visible_timestamp_micros = some (1000000 + n * 40000);
  };
  infrared_sequence = n;
  visible_sequence = n;
  face_count = 1;
  eye_openness = openness;
  yaw_degrees = neg 999;
}

-- Open, closed for two frames, open for two; the fourth frame is sent twice.
abbrev calls : List (Bool × ChallengeObservation Milli)
calls =
    (false, frame 1 (pos 900))
    ∷ (false, frame 2 (pos 100))
    ∷ (false, frame 3 (pos 200))
    ∷ (false, frame 4 (pos 800))
    ∷ (false, frame 4 (pos 800))
    ∷ (false, frame 5 (pos 900))
    ∷ []

abbrev session : ChallengeSession Milli
session = record {
  config = config;
  requested = blink;
  issued_at_micros = 1000000;
  deadline_micros = 11000000;
  observations = 0;
  last_timestamp_micros = none;
  last_sequences = none;
  phase = Phase.baseline;
  action_streak = 0;
  action_streak_started_at_micros = none;
  recovery_streak = 0;
}

with_action-session : with_action config 1000000 blink ≡ ok session
unfolding with_action validate_config scores_valid yaw_valid
with_action-session = refl

watch-calls : (watch calls session []).0.phase ≡ passed
unfolding watch observe_cancellable check_fresh validate_observation measurement_valid accepts
    timestamp consume advance observe_action observe_recovery is_neutral action_observed
watch-calls = refl

passed_evidence_example :
    let h = (watch calls session []).1 in
    (count : ℕ) × InRecovery config blink count h
    × (2 ≤ count)
    × IsTimely 1000000 11000000 h
    × (length h ≤ 100)
passed_evidence_example =
    passed_evidence config 1000000 blink session calls with_action-session watch-calls

observe-rank_example :
    (0 ≤ rank (observe_cancellable false (frame 1 (pos 900)) session).1.phase)
    × (rank (observe_cancellable false (frame 1 (pos 900)) session).1.phase ≤ 1)
observe-rank_example = observe-rank false (frame 1 (pos 900)) session

random_action_255 : random_action (some 255 ∷ some 0 ∷ []) ≡ some (ok blink)
unfolding random_action
random_action_255 = refl

random_action_fails : random_action (none ∷ []) ≡ some (err random)
unfolding random_action
random_action_fails = refl
