-- ===== src/Liveness.antt =====
-- crates/faceauth-liveness/src/lib.rs: the randomized active-liveness challenge. The random bytes
-- that `getrandom` supplies are a list, `none` for a failure of the source. Counters keep their
-- machine widths, `u16` for observations and `u8` for streaks.
pub mod Story
pub mod Phases
pub mod History
pub mod Progress
pub mod Actions
mod Tests
use faceauth_rs.Prelude.{
  ℕ, ◌+◌, ◌%◌, Bool, true, false, not, ◌&&◌, ◌||◌, Option, some, none, is_some_and, Result, ok, err,
  ◌>>=◌, ◌>>◌, Eq, nat_eq, ◌==◌, ◌!=◌, if◌then◌else◌, ltb, leb, max, within, List, [], ◌∷◌, ok_or,
  guard, bind, map_err, is_ok,
}
use faceauth_rs.Prelude.Word.{u8_mod, u16_mod, u64_mod, checked_add, saturating_add, saturating_sub}
use faceauth_rs.Prelude.Float.{Float, spans}
use faceauth_rs.Policy.{CapturePair, CapturePolicy, accepts}

pub data ChallengeAction : Type 0 where
  blink turn_left turn_right : ChallengeAction

pub data ChallengeError : Type 0 where
  invalid_config cancelled deadline_overflow random : ChallengeError
  visible_frame_required invalid_frame_pair : ChallengeError
  single_face_required : ℕ → ChallengeError
  invalid_measurement non_increasing_timestamp predates_challenge : ChallengeError
  repeated_camera_frame expired observation_budget_exhausted already_completed : ChallengeError

action_of_byte : ℕ → ChallengeAction
action_of_byte byte =
    if byte % 3 == 0 then blink else if byte % 3 == 1 then turn_left else turn_right

-- `ChallengeAction::random`: bytes are drawn until one is below 255. `none` is a draw that the
-- given bytes do not settle.
unfoldable pub random_action : List (Option ℕ) → Option (Result ChallengeError ChallengeAction)
unfolding action_of_byte
random_action [] = none
random_action (none ∷ rest) = some (err random)
random_action (some byte ∷ rest) =
    let again = random_action rest in
    if ltb byte 255 then some (ok (action_of_byte byte)) else again

pub record ChallengeConfig (W : Type 0) : Type 0 where
  pub max_pair_skew_micros : ℕ
  pub duration_micros : ℕ
  pub max_observations : ℕ
  pub open_eye_threshold : W
  pub closed_eye_threshold : W
  pub neutral_yaw_degrees : W
  pub turn_yaw_degrees : W
  pub action_consecutive_observations : ℕ
  pub minimum_action_duration_micros : ℕ
  pub recovery_consecutive_observations : ℕ

pub record ChallengeObservation (W : Type 0) : Type 0 where
  pub timing : CapturePair
  pub infrared_sequence : ℕ
  pub visible_sequence : ℕ
  pub face_count : ℕ
  pub eye_openness : W
  pub yaw_degrees : W

pub data ChallengeProgress : Type 0 where
  baseline_required : ChallengeProgress
  action_required : ChallengeAction → ChallengeProgress
  recovery_required passed : ChallengeProgress

pub data Phase : Type 0 where
  baseline action recovery passed : Phase

abbrev pub is_passed_phase : Phase → Bool
is_passed_phase Phase.passed = true
is_passed_phase _ = false

pub record ChallengeSession (W : Type 0) : Type 0 where
  pub config : ChallengeConfig W
  pub requested : ChallengeAction
  pub issued_at_micros : ℕ
  pub deadline_micros : ℕ
  pub observations : ℕ
  pub last_timestamp_micros : Option ℕ
  pub last_sequences : Option (ℕ × ℕ)
  pub phase : Phase
  pub action_streak : ℕ
  pub action_streak_started_at_micros : Option ℕ
  pub recovery_streak : ℕ

-- `*started.get_or_insert(at)`
abbrev pub inserted : Option ℕ → ℕ → ℕ
inserted none at = at
inserted (some started) at = started

module _ {W : Type 0} ⦃f : Float W⦄ where
  pub scores_valid : ChallengeConfig W → Bool
  scores_valid c =
      f.is_finite c.open_eye_threshold
      && (f.is_finite c.closed_eye_threshold
          && (spans (f.lit 0) (f.lit 1) c.open_eye_threshold
              && (spans (f.lit 0) (f.lit 1) c.closed_eye_threshold
                  && f.lt c.closed_eye_threshold c.open_eye_threshold)))

  pub yaw_valid : ChallengeConfig W → Bool
  yaw_valid c =
      f.is_finite c.neutral_yaw_degrees
      && (f.is_finite c.turn_yaw_degrees
          && (spans (f.lit 0) (f.lit 45) c.neutral_yaw_degrees
              && (spans (f.lit 5) (f.lit 75) c.turn_yaw_degrees
                  && f.lt c.neutral_yaw_degrees c.turn_yaw_degrees)))

  unfoldable pub validate_config : ChallengeConfig W → Result ChallengeError (Unit {0})
  validate_config c =
      if (c.max_pair_skew_micros == 0)
        || (not (within 1000000 30000000 c.duration_micros)
            || (not (within 3 300 c.max_observations)
                || (not (within 2 15 c.action_consecutive_observations)
                    || (not (within 2 15 c.recovery_consecutive_observations)
                        || (not (within 20000 2000000 c.minimum_action_duration_micros)
                            || (leb c.duration_micros c.minimum_action_duration_micros
                                || (ltb c.max_observations (
                                      c.action_consecutive_observations
                                      + c.recovery_consecutive_observations + 1)
                                    || (not (scores_valid c) || not (yaw_valid c)))))))))
      then err invalid_config
      else ok tt

  unfoldable pub timestamp : ChallengeObservation W → Result ChallengeError ℕ
  timestamp o = do
    visible ← ok_or o.timing.visible_timestamp_micros visible_frame_required
    ok (max o.timing.infrared_timestamp_micros visible)

  pub measurement_valid : ChallengeObservation W → Bool
  measurement_valid o =
      f.is_finite o.eye_openness
      && (spans (f.lit 0) (f.lit 1) o.eye_openness
          && (f.is_finite o.yaw_degrees && spans (f.neg (f.lit 90)) (f.lit 90) o.yaw_degrees))

  unfoldable pub validate_observation :
      ChallengeObservation W → ℕ → Result ChallengeError (Unit {0})
  validate_observation o skew = do
    map_err
        (accepts
          (record { require_infrared = true; require_visible = true; max_pair_skew_micros = skew })
          o.timing)
        invalid_frame_pair
    guard (o.face_count == 1) (single_face_required o.face_count)
    guard (measurement_valid o) invalid_measurement

  unfoldable pub with_action :
      ChallengeConfig W → ℕ → ChallengeAction → Result ChallengeError (ChallengeSession W)
  with_action c issued_at_micros requested = do
    validate_config c
    deadline ← ok_or (checked_add u64_mod issued_at_micros c.duration_micros) deadline_overflow
    ok (record {
      config = c;
      requested = requested;
      issued_at_micros = issued_at_micros;
      deadline_micros = deadline;
      observations = 0;
      last_timestamp_micros = none;
      last_sequences = none;
      phase = baseline;
      action_streak = 0;
      action_streak_started_at_micros = none;
      recovery_streak = 0;
    })

  -- `begin`, on the bytes that the random source supplies
  unfoldable pub begin :
      ChallengeConfig W → ℕ → List (Option ℕ) → Option (Result ChallengeError (ChallengeSession W))
  begin c issued_at_micros bytes = elim (random_action bytes) [
    | none ↦ none
    | some drawn ↦ some (bind drawn (with_action c issued_at_micros))
  ]

  unfoldable pub progress : ChallengeSession W → ChallengeProgress
  progress s = elim s.phase [
    | Phase.baseline ↦ baseline_required
    | Phase.action ↦ action_required s.requested
    | Phase.recovery ↦ recovery_required
    | Phase.passed ↦ ChallengeProgress.passed
  ]

  -- `self` enters by its `config` and its `action`.
  unfoldable pub action_observed :
      ChallengeConfig W → ChallengeAction → ChallengeObservation W → Bool
  action_observed c blink o = f.le o.eye_openness c.closed_eye_threshold
  action_observed c turn_left o = f.le o.yaw_degrees (f.neg c.turn_yaw_degrees)
  action_observed c turn_right o = f.le c.turn_yaw_degrees o.yaw_degrees

  unfoldable pub observe_action :
      ChallengeObservation W → ℕ → ChallengeSession W → ChallengeSession W
  observe_action o at s =
      if not (action_observed s.config s.requested o)
      then record s { action_streak = 0; action_streak_started_at_micros = none }
      else let started = inserted s.action_streak_started_at_micros at in
        let streak = saturating_add u8_mod s.action_streak 1 in
        let counted : ChallengeSession W = record s {
          action_streak_started_at_micros = some started;
          action_streak = streak;
        } in
        if leb s.config.action_consecutive_observations streak
          && leb s.config.minimum_action_duration_micros (saturating_sub at started)
        then record counted { phase = recovery; recovery_streak = 0 }
        else counted

  unfoldable pub observe_recovery : Bool → ChallengeSession W → ChallengeSession W
  observe_recovery neutral s =
      if not neutral
      then record s { recovery_streak = 0 }
      else let streak = saturating_add u8_mod s.recovery_streak 1 in
        let counted : ChallengeSession W = record s { recovery_streak = streak } in
        if leb s.config.recovery_consecutive_observations streak
        then record counted { phase = Phase.passed }
        else counted

  unfoldable pub is_neutral : ChallengeConfig W → ChallengeObservation W → Bool
  is_neutral c o =
      f.le c.open_eye_threshold o.eye_openness && f.le (f.abs o.yaw_degrees) c.neutral_yaw_degrees

  -- The `match self.phase` that ends `observe_cancellable`.
  unfoldable pub advance : ChallengeObservation W → ℕ → ChallengeSession W → ChallengeSession W
  advance o at s = elim s.phase [
    | Phase.baseline ↦ if is_neutral s.config o then record s { phase = action } else s
    | Phase.action ↦ observe_action o at s
    | Phase.recovery ↦ observe_recovery (is_neutral s.config o) s
    | Phase.passed ↦ s
  ]

  -- The checks of `observe_cancellable` before it changes the session, and the timestamp.
  unfoldable pub check_fresh : ChallengeObservation W → ChallengeSession W → Result ChallengeError ℕ
  check_fresh o s = do
    validate_observation o s.config.max_pair_skew_micros
    at ← timestamp o
    guard (not (ltb at s.issued_at_micros)) predates_challenge
    guard (not (ltb s.deadline_micros at)) expired
    guard (not (is_some_and s.last_timestamp_micros (λ last. leb at last))) non_increasing_timestamp
    guard
        (not (
          is_some_and s.last_sequences
            (λ last. (last.0 == o.infrared_sequence) || (last.1 == o.visible_sequence))))
        repeated_camera_frame
    ok at

  -- The budget, the bookkeeping and the step, once the observation is known to be fresh.
  unfoldable pub consume :
      ChallengeObservation W
      → ℕ
      → ChallengeSession W
      → Result ChallengeError ChallengeProgress × ChallengeSession W
  consume o at s = elim (checked_add u16_mod s.observations 1) [
    | none ↦ (err observation_budget_exhausted, s)
    | some count ↦
        let counted : ChallengeSession W = record s { observations = count } in
        let stamped : ChallengeSession W = record counted {
          last_timestamp_micros = some at;
          last_sequences = some (o.infrared_sequence, o.visible_sequence);
        } in
        if ltb s.config.max_observations count
        then (err observation_budget_exhausted, counted)
        else (ok (progress (advance o at stamped)), advance o at stamped)
  ]

  -- `should_cancel` is the answer of the callback, which is asked once.
  unfoldable pub observe_cancellable :
      Bool
      → ChallengeObservation W
      → ChallengeSession W
      → Result ChallengeError ChallengeProgress × ChallengeSession W
  observe_cancellable should_cancel o s =
      if should_cancel
      then (err cancelled, s)
      else if is_passed_phase s.phase
      then (err already_completed, s)
      else elim (check_fresh o s) [ ok at ↦ consume o at s | err e ↦ (err e, s) ]

  unfoldable pub observe :
      ChallengeObservation W
      → ChallengeSession W
      → Result ChallengeError ChallengeProgress × ChallengeSession W
  observe o s = observe_cancellable false o s
