-- ===== src/Liveness/History.antt =====
-- A whole challenge (crates/faceauth-liveness/src/lib.rs): any number of calls of
-- `observe_cancellable` on a session that `with_action` made, some refused and some admitted.
use faceauth_rs.Prelude.{
  ℕ, ◌+◌, ◌≤◌, ◌<◌, ◌≡◌, inl, inr, refl, sym, ap, ◌∙◌, subst, Bool, Option, some, none, ok, err,
  Result, is_ok, if◌then◌else◌, arith, List, [], ◌∷◌, length,
}
use faceauth_rs.Prelude.Float.{Float}
use faceauth_rs.Liveness.{
  ChallengeAction, ChallengeConfig, ChallengeObservation, ChallengeSession, baseline, passed,
  timestamp, with_action, advance, observe_cancellable,
}
use faceauth_rs.Liveness.Story.{Seen, Story, InRecovery}
use faceauth_rs.Liveness.Progress.{
  SameConfig, SameStory, Admitted, stamped, advance-SameFrame, observe_cases, advance-rank, rank,
}
use faceauth_rs.Liveness.Phases.{Told, advance-Told}

abbrev pub ok_or_zero : {E : Type 0} → Result E ℕ → ℕ
ok_or_zero (ok n) = n
ok_or_zero (err e) = 0

-- An observation within the bounds, and before the one that came after it.
abbrev pub IsEarlier : {W : Type 0} → ℕ → List (Seen W) → Type 0
IsEarlier at [] = Unit {0}
IsEarlier at (y ∷ ys) = y.at < at

-- The timestamps, newest first, lie between the bounds and strictly fall.
abbrev pub IsTimely : {W : Type 0} → ℕ → ℕ → List (Seen W) → Type 0
IsTimely lo hi [] = Unit {0}
IsTimely lo hi (x ∷ xs) = (lo ≤ x.at) × (x.at ≤ hi) × IsEarlier x.at xs × IsTimely lo hi xs

-- The session remembers the newest timestamp.
abbrev LastIs : {W : Type 0} → Option ℕ → List (Seen W) → Type 0
LastIs last [] = last ≡ none
LastIs last (x ∷ xs) = last ≡ some x.at

module _ {W : Type 0} ⦃f : Float W⦄ where
  abbrev pub seen : ChallengeObservation W → Seen W
  seen o = record { observation = o; at = ok_or_zero (timestamp o) }

  -- The calls are made in order; an admitted observation joins the history.
  unfoldable pub watch :
      List (Bool × ChallengeObservation W)
      → ChallengeSession W
      → List (Seen W)
      → ChallengeSession W × List (Seen W)
  watch [] s h = (s, h)
  watch ((stop, o) ∷ rest) s h =
      let r = observe_cancellable stop o s in watch rest r.1 (if is_ok r.0 then seen o ∷ h else h)

  record Kept (s₀ s : ChallengeSession W) (h : List (Seen W)) : Type 0 where
    pub frame : SameConfig s₀ s
    pub told : Told s h
    pub timely : IsTimely s.issued_at_micros s.deadline_micros h
    pub last : LastIs s.last_timestamp_micros h
    pub counted : length h ≤ s.observations
    pub budget : length h ≤ s.config.max_observations

  SameConfig-trans : {s t u : ChallengeSession W} → SameConfig s t → SameConfig t u → SameConfig s u
  SameConfig-trans p q = record {
    config = q.config ∙ p.config;
    requested = q.requested ∙ p.requested;
    issued = q.issued ∙ p.issued;
    deadline = q.deadline ∙ p.deadline;
  }

  IsTimely-bounds :
      {lo lo' hi hi' : ℕ} (h : List (Seen W))
      → lo ≡ lo'
      → hi ≡ hi'
      → IsTimely lo hi h
      → IsTimely lo' hi' h
  IsTimely-bounds {lo' = lo'} {hi = hi} h p q t =
      subst (λ b. IsTimely lo' b h) q (subst (λ b. IsTimely b hi h) p t)

  IsEarlier-last :
      (at : ℕ) (last : Option ℕ) (h : List (Seen W))
      → LastIs last h
      → ((t : ℕ) → last ≡ some t → t < at)
      → IsEarlier at h
  IsEarlier-last at last [] l later = tt
  IsEarlier-last at last (x ∷ xs) l later = later x.at l

  Admitted-Kept :
      (s₀ s : ChallengeSession W) (o : ChallengeObservation W) (at : ℕ) (h : List (Seen W))
      → Admitted o at s
      → Kept s₀ s h
      → Kept s₀ (advance o at (stamped o at s)) (record { observation = o; at = at } ∷ h)
  Admitted-Kept s₀ s o at h a k =
      let step = advance-SameFrame o at (stamped o at s) in
      let same = step.frame in
      let t = advance o at (stamped o at s) in
      let max_kept = ap (λ (c : ChallengeConfig W). c.max_observations) same.config in
      record {
        frame = record {
          config = same.config ∙ k.frame.config;
          requested = same.requested ∙ k.frame.requested;
          issued = same.issued ∙ k.frame.issued;
          deadline = same.deadline ∙ k.frame.deadline;
        };
        told = advance-Told o at (stamped o at s) h a.open_phase k.told;
        timely =
            IsTimely-bounds (record { observation = o; at = at } ∷ h) (sym same.issued)
              (sym same.deadline)
              (
                a.fresh.after_issue,
                a.fresh.before_deadline,
                IsEarlier-last at s.last_timestamp_micros h k.last a.fresh.later,
                k.timely,
              );
        last = step.last;
        counted = omega (arith, step.count, k.counted);
        budget = omega (arith, max_kept, a.budget, k.counted);
      }

  Told-SameStory :
      {s t : ChallengeSession W} (h : List (Seen W)) → SameStory s t → Told s h → Told t h
  Told-SameStory {s} {t} h same told =
      rw
        (
          same.frame.config, same.frame.requested, same.phase, same.streak, same.since,
          same.recovered,
        )
        told

  refused-Kept :
      (s₀ s t : ChallengeSession W) (h : List (Seen W)) → SameStory s t → Kept s₀ s h → Kept s₀ t h
  refused-Kept s₀ s t h same k =
      let max_kept = ap (λ (c : ChallengeConfig W). c.max_observations) same.frame.config in
      record {
        frame = SameConfig-trans k.frame same.frame;
        told = Told-SameStory h same k.told;
        timely = rw (same.frame.issued, same.frame.deadline) k.timely;
        last = rw same.last k.last;
        counted = omega (arith, same.count, k.counted);
        budget = omega (arith, max_kept, k.budget);
      }

  call-Kept :
      (stop : Bool) (o : ChallengeObservation W) (s₀ s : ChallengeSession W) (h : List (Seen W))
      → Kept s₀ s h
      → let r = observe_cancellable stop o s in Kept s₀ r.1 (if is_ok r.0 then seen o ∷ h else h)
  call-Kept stop o s₀ s h k = elim (observe_cases stop o s) [
    | inl (at, a, e) ↦ rw (e, a.fresh.stamped_at) (Admitted-Kept s₀ s o at h a k)
    | inr (refused, same) ↦ rw refused (refused-Kept s₀ s _ h same k)
  ]

  watch-Kept :
      (calls : List (Bool × ChallengeObservation W)) (s₀ s : ChallengeSession W) (h : List (Seen W))
      → Kept s₀ s h
      → Kept s₀ (watch calls s h).0 (watch calls s h).1
  unfolding watch
  watch-Kept [] s₀ s h k = k
  watch-Kept ((stop, o) ∷ rest) s₀ s h k = watch-Kept rest s₀ _ _ (call-Kept stop o s₀ s h k)

  -- What a session is when it begins.
  record Begun (c : ChallengeConfig W) (issued : ℕ) (requested : ChallengeAction)
      (s : ChallengeSession W) : Type 0 where
    pub config : s.config ≡ c
    pub action : s.requested ≡ requested
    pub issue : s.issued_at_micros ≡ issued
    pub deadline : s.deadline_micros ≡ issued + c.duration_micros
    pub first : (s.phase ≡ baseline) × (s.observations ≡ 0)
    pub idle : (s.action_streak ≡ 0) × (s.action_streak_started_at_micros ≡ none)
    pub unseen : s.last_timestamp_micros ≡ none

  with_action-Begun :
      (c : ChallengeConfig W) (issued : ℕ) (requested : ChallengeAction) (s : ChallengeSession W)
      → with_action c issued requested ≡ ok s
      → Begun c issued requested s
  unfolding with_action
  with_action-Begun c issued requested s h = ground arith

  Begun-Kept :
      {c : ChallengeConfig W} {issued : ℕ} {requested : ChallengeAction} (s : ChallengeSession W)
      → Begun c issued requested s
      → Kept s s []
  Begun-Kept s b = record {
    frame = record { config = refl; requested = refl; issued = refl; deadline = refl };
    told =
        subst
          (λ p.
            Story s.config s.requested p s.action_streak s.action_streak_started_at_micros
              s.recovery_streak [])
          (sym b.first.0) b.idle;
    timely = tt;
    last = b.unseen;
    counted = omega arith;
    budget = omega arith;
  }

  -- A challenge that has passed did so on admitted observations, at most as many as configured,
  -- whose timestamps strictly rise from the issue to the deadline, and which hold in this order: a
  -- neutral pose; then the requested action in consecutive observations, as many and for as long as
  -- configured; then the configured number of consecutive neutral poses, the last ones admitted.
  pub passed_evidence :
      (c : ChallengeConfig W) (issued : ℕ) (requested : ChallengeAction) (s : ChallengeSession W)
      (calls : List (Bool × ChallengeObservation W))
      → with_action c issued requested ≡ ok s
      → (watch calls s []).0.phase ≡ passed
      → let h = (watch calls s []).1 in
        (count : ℕ) × InRecovery c requested count h
        × (c.recovery_consecutive_observations ≤ count)
        × IsTimely issued (issued + c.duration_micros) h
        × (length h ≤ c.max_observations)
  passed_evidence c issued requested s calls made over =
      let b = with_action-Begun c issued requested s made in
      let k = watch-Kept calls s s [] (Begun-Kept s b) in
      let t = (watch calls s []).0 in
      let h = (watch calls s []).1 in
      let config = k.frame.config ∙ b.config in
      let action = k.frame.requested ∙ b.action in
      let story =
        subst
          (λ p.
            Story t.config t.requested p t.action_streak t.action_streak_started_at_micros
              t.recovery_streak h)
          over k.told in
      (
        t.recovery_streak,
        subst (λ d. InRecovery d requested t.recovery_streak h) config
            (subst (λ r. InRecovery t.config r t.recovery_streak h) action story.0),
        subst (λ d. d.recovery_consecutive_observations ≤ t.recovery_streak) config story.1,
        IsTimely-bounds h (k.frame.issued ∙ b.issue) (k.frame.deadline ∙ b.deadline) k.timely,
        subst (λ d. length h ≤ d.max_observations) config k.budget,
      )

  -- One call never moves the challenge back, and never past more than one phase.
  pub observe-rank :
      (stop : Bool) (o : ChallengeObservation W) (s : ChallengeSession W)
      → (rank s.phase ≤ rank (observe_cancellable stop o s).1.phase)
        × (rank (observe_cancellable stop o s).1.phase ≤ rank s.phase + 1)
  observe-rank stop o s = elim (observe_cases stop o s) [
    | inl (at, a, e) ↦ rw e (advance-rank o at (stamped o at s))
    | inr (refused, same) ↦ rw same.phase (omega arith, omega arith)
  ]
