-- ===== src/Liveness/Progress.antt =====
-- How the challenge session (crates/faceauth-liveness/src/lib.rs) moves through its phases, and
-- which observations it counts.
use faceauth_rs.Prelude.{
  ℕ, ◌+◌, ◌≤◌, ◌<◌, ◌≡◌, ◌⊎◌, inl, inr, refl, ◌∙◌, Bool, true, false, some, ok, err, arith,
  Bool-cases, ltb, is_ok, Result-cases,
}
use faceauth_rs.Prelude.Word.{u16_mod}
use faceauth_rs.Prelude.Float.{Float}
use faceauth_rs.Liveness.{
  ChallengeObservation, ChallengeSession, ChallengeError, Phase, action, recovery, progress,
  observe_action, observe_recovery, is_neutral, advance, check_fresh, consume, observe_cancellable,
  is_passed_phase, validate_observation, timestamp, observation_budget_exhausted, already_completed,
}

abbrev pub rank : Phase → ℕ
rank Phase.baseline = 0
rank Phase.action = 1
rank Phase.recovery = 2
rank Phase.passed = 3

module _ {W : Type 0} ⦃f : Float W⦄ where
  observe_action-rank :
      (o : ChallengeObservation W) (at : ℕ) (s : ChallengeSession W)
      → s.phase ≡ action
      → (1 ≤ rank (observe_action o at s).phase) × (rank (observe_action o at s).phase ≤ 2)
  unfolding observe_action
  observe_action-rank o at s h = ground arith

  observe_recovery-rank :
      (n : Bool) (s : ChallengeSession W)
      → s.phase ≡ recovery
      → (2 ≤ rank (observe_recovery n s).phase) × (rank (observe_recovery n s).phase ≤ 3)
  unfolding observe_recovery
  observe_recovery-rank n s h = ground arith

  pub advance-rank :
      (o : ChallengeObservation W) (at : ℕ) (s : ChallengeSession W)
      → (rank s.phase ≤ rank (advance o at s).phase)
        × (rank (advance o at s).phase ≤ rank s.phase + 1)
  unfolding advance
  advance-rank o at s =
      ground (arith, observe_action-rank o at s, observe_recovery-rank (is_neutral s.config o) s)

  pub record SameConfig (s t : ChallengeSession W) : Type 0 where
    pub config : t.config ≡ s.config
    pub requested : t.requested ≡ s.requested
    pub issued : t.issued_at_micros ≡ s.issued_at_micros
    pub deadline : t.deadline_micros ≡ s.deadline_micros

  -- What the steps leave alone.
  pub record SameFrame (s t : ChallengeSession W) : Type 0 where
    pub frame : SameConfig s t
    pub count : t.observations ≡ s.observations
    pub last : t.last_timestamp_micros ≡ s.last_timestamp_micros

  observe_action-SameFrame :
      (o : ChallengeObservation W) (at : ℕ) (s : ChallengeSession W)
      → SameFrame s (observe_action o at s)
  unfolding observe_action
  observe_action-SameFrame o at s = ground arith

  observe_recovery-SameFrame :
      (n : Bool) (s : ChallengeSession W) → SameFrame s (observe_recovery n s)
  unfolding observe_recovery
  observe_recovery-SameFrame n s = ground arith

  pub advance-SameFrame :
      (o : ChallengeObservation W) (at : ℕ) (s : ChallengeSession W) → SameFrame s (advance o at s)
  unfolding advance
  advance-SameFrame o at s =
      ground (
        arith,
        observe_action-SameFrame o at s,
        observe_recovery-SameFrame (is_neutral s.config o) s,
      )

  -- The session that an admitted observation finds.
  abbrev pub stamped : ChallengeObservation W → ℕ → ChallengeSession W → ChallengeSession W
  stamped o at s = record s {
    observations = s.observations + 1;
    last_timestamp_micros = some at;
    last_sequences = some (o.infrared_sequence, o.visible_sequence);
  }

  -- What `check_fresh` finds out about an observation that it lets through.
  pub record IsFresh (o : ChallengeObservation W) (at : ℕ) (s : ChallengeSession W) : Type 0 where
    pub measured : validate_observation o s.config.max_pair_skew_micros ≡ ok tt
    pub stamped_at : timestamp o ≡ ok at
    pub after_issue : s.issued_at_micros ≤ at
    pub before_deadline : at ≤ s.deadline_micros
    pub later : (last : ℕ) → s.last_timestamp_micros ≡ some last → last < at

  check_fresh-IsFresh :
      (o : ChallengeObservation W) (at : ℕ) (s : ChallengeSession W)
      → check_fresh o s ≡ ok at
      → IsFresh o at s
  unfolding check_fresh
  check_fresh-IsFresh o at s h = ground arith

  -- What a refused observation leaves alone: all but the count of observations.
  pub record SameStory (s t : ChallengeSession W) : Type 0 where
    pub frame : SameConfig s t
    pub phase : t.phase ≡ s.phase
    pub streak : t.action_streak ≡ s.action_streak
    pub since : t.action_streak_started_at_micros ≡ s.action_streak_started_at_micros
    pub recovered : t.recovery_streak ≡ s.recovery_streak
    pub last : t.last_timestamp_micros ≡ s.last_timestamp_micros
    pub count : s.observations ≤ t.observations

  -- An observation is admitted if it is fresh, within the budget, and the challenge is not over.
  pub record Admitted (o : ChallengeObservation W) (at : ℕ) (s : ChallengeSession W) : Type 0 where
    pub fresh : IsFresh o at s
    pub open_phase : is_passed_phase s.phase ≡ false
    pub budget : s.observations + 1 ≤ s.config.max_observations

  consume_within :
      (o : ChallengeObservation W) (at : ℕ) (s : ChallengeSession W)
      → ltb (s.observations + 1) u16_mod ≡ true
      → ltb s.config.max_observations (s.observations + 1) ≡ false
      → consume o at s
        ≡ (ok (progress (advance o at (stamped o at s))), advance o at (stamped o at s))
  unfolding consume
  consume_within o at s h k = ground arith

  consume_overflows :
      (o : ChallengeObservation W) (at : ℕ) (s : ChallengeSession W)
      → ltb (s.observations + 1) u16_mod ≡ false
      → consume o at s ≡ (err observation_budget_exhausted, s)
  unfolding consume
  consume_overflows o at s h = ground arith

  consume_exhausted :
      (o : ChallengeObservation W) (at : ℕ) (s : ChallengeSession W)
      → ltb (s.observations + 1) u16_mod ≡ true
      → ltb s.config.max_observations (s.observations + 1) ≡ true
      → consume o at s
        ≡ (err observation_budget_exhausted, record s { observations = s.observations + 1 })
  unfolding consume
  consume_exhausted o at s h k = ground arith

  SameStory-refl : (s : ChallengeSession W) → SameStory s s
  SameStory-refl s = ground arith

  SameStory-counted :
      (s : ChallengeSession W) → SameStory s (record s { observations = s.observations + 1 })
  SameStory-counted s = ground arith

  consume_cases :
      (o : ChallengeObservation W) (at : ℕ) (s : ChallengeSession W)
      → ((s.observations + 1 ≤ s.config.max_observations)
          × (consume o at s
              ≡ (ok (progress (advance o at (stamped o at s))), advance o at (stamped o at s))))
        ⊎ ((is_ok (consume o at s).0 ≡ false) × SameStory s (consume o at s).1)
  consume_cases o at s = elim (Bool-cases (ltb (s.observations + 1) u16_mod)) [
    | inl h ↦ elim (Bool-cases (ltb s.config.max_observations (s.observations + 1))) [
      | inl k ↦ inr (rw (consume_exhausted o at s h k) (refl, SameStory-counted s))
      | inr k ↦ inl (ground arith, consume_within o at s h k)
    ]
    | inr h ↦ inr (rw (consume_overflows o at s h) (refl, SameStory-refl s))
  ]

  observe_over :
      (o : ChallengeObservation W) (s : ChallengeSession W)
      → is_passed_phase s.phase ≡ true
      → observe_cancellable false o s ≡ (err already_completed, s)
  unfolding observe_cancellable
  observe_over o s h = rw h refl

  observe_stale :
      (o : ChallengeObservation W) (s : ChallengeSession W) (e : ChallengeError)
      → is_passed_phase s.phase ≡ false
      → check_fresh o s ≡ err e
      → observe_cancellable false o s ≡ (err e, s)
  unfolding observe_cancellable
  observe_stale o s e h k = ground arith

  observe_consumes :
      (o : ChallengeObservation W) (at : ℕ) (s : ChallengeSession W)
      → is_passed_phase s.phase ≡ false
      → check_fresh o s ≡ ok at
      → observe_cancellable false o s ≡ consume o at s
  unfolding observe_cancellable
  observe_consumes o at s h e = ground arith

  -- An observation is either admitted, and the session advances by it, or it is refused, and the
  -- session keeps its phase, its streaks and its last timestamp.
  pub observe_cases :
      (stop : Bool) (o : ChallengeObservation W) (s : ChallengeSession W)
      → ((at : ℕ) × Admitted o at s
          × (observe_cancellable stop o s
              ≡ (ok (progress (advance o at (stamped o at s))), advance o at (stamped o at s))))
        ⊎ ((is_ok (observe_cancellable stop o s).0 ≡ false)
            × SameStory s (observe_cancellable stop o s).1)
  observe_cases true o s = inr (unfold observe_cancellable in (refl, SameStory-refl s))
  observe_cases false o s = elim (Bool-cases (is_passed_phase s.phase)) [
    | inl over ↦ rw (observe_over o s over) (inr (refl, SameStory-refl s))
    | inr open_phase ↦ elim (Result-cases (check_fresh o s)) [
      | inl (at, e) ↦ elim (consume_cases o at s) [
        | inl (budget, c) ↦ inl (
          at,
          record { fresh = check_fresh-IsFresh o at s e; open_phase = open_phase; budget = budget },
          observe_consumes o at s open_phase e ∙ c,
        )
        | inr (refused, same) ↦ rw (observe_consumes o at s open_phase e) (inr (refused, same))
      ]
      | inr (e, h) ↦ rw (observe_stale o s e open_phase h) (inr (refl, SameStory-refl s))
    ]
  ]
