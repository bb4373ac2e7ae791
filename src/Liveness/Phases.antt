-- ===== src/Liveness/Phases.antt =====
-- Each step of the challenge (crates/faceauth-liveness/src/lib.rs) carries the story of its evidence
-- on.
use faceauth_rs.Prelude.{
  ℕ, ◌+◌, ◌-◌, ◌≤◌, ◌≡◌, inl, inr, refl, sym, ap, ◌∙◌, subst, Bool, true, false, some, none, arith,
  Bool-cases, leb, if◌then◌else◌, leb→le, ◌&&◌, List, ◌∷◌,
}
use faceauth_rs.Prelude.Word.{u8_mod, saturating_add}
use faceauth_rs.Prelude.Float.{Float}
use faceauth_rs.Liveness.{
  ChallengeObservation, ChallengeSession, Phase, baseline, action, recovery, action_observed,
  observe_action, observe_recovery, is_neutral, advance, inserted, is_passed_phase,
}
use faceauth_rs.Liveness.Story.{
  Seen, Story, InStreak, InRecovery, InStreak-start, InStreak-break, InStreak-extend,
  InStreak-perform, InRecovery-break, InRecovery-extend,
}

saturating-le-suc : (n : ℕ) → saturating_add u8_mod n 1 ≤ n + 1
saturating-le-suc n = ground arith

module _ {W : Type 0} ⦃f : Float W⦄ where
  -- The story of a session, told by its own configuration and action.
  abbrev pub Told : ChallengeSession W → List (Seen W) → Type 0
  Told s h =
      Story s.config s.requested s.phase s.action_streak s.action_streak_started_at_micros
        s.recovery_streak h

  -- The session after one more observation of the action, still waiting for more.
  abbrev prolonged : ℕ → ChallengeSession W → ChallengeSession W
  prolonged at s = record s {
    action_streak = saturating_add u8_mod s.action_streak 1;
    action_streak_started_at_micros = some (inserted s.action_streak_started_at_micros at);
  }

  observe_action_breaks :
      (o : ChallengeObservation W) (at : ℕ) (s : ChallengeSession W)
      → action_observed s.config s.requested o ≡ false
      → observe_action o at s
        ≡ record s { action_streak = 0; action_streak_started_at_micros = none }
  unfolding observe_action
  observe_action_breaks o at s h = ground arith

  abbrev is_long_enough : ℕ → ChallengeSession W → Bool
  is_long_enough at s =
      leb s.config.action_consecutive_observations (saturating_add u8_mod s.action_streak 1)
      && leb s.config.minimum_action_duration_micros
          (at - inserted s.action_streak_started_at_micros at)

  observe_action_performs :
      (o : ChallengeObservation W) (at : ℕ) (s : ChallengeSession W)
      → action_observed s.config s.requested o ≡ true
      → is_long_enough at s ≡ true
      → observe_action o at s ≡ record (prolonged at s) { phase = recovery; recovery_streak = 0 }
  unfolding observe_action
  observe_action_performs o at s h k = ground arith

  observe_action_prolongs :
      (o : ChallengeObservation W) (at : ℕ) (s : ChallengeSession W)
      → action_observed s.config s.requested o ≡ true
      → is_long_enough at s ≡ false
      → observe_action o at s ≡ prolonged at s
  unfolding observe_action
  observe_action_prolongs o at s h k = ground arith

  long-parts :
      (at : ℕ) (s : ChallengeSession W)
      → is_long_enough at s ≡ true
      → (s.config.action_consecutive_observations ≤ saturating_add u8_mod s.action_streak 1)
        × (s.config.minimum_action_duration_micros
            ≤ at - inserted s.action_streak_started_at_micros at)
  long-parts at s h = ground arith

  observe_action-Told :
      (o : ChallengeObservation W) (at : ℕ) (s : ChallengeSession W) (h : List (Seen W))
      → s.phase ≡ action
      → InStreak s.config s.requested s.action_streak s.action_streak_started_at_micros h
      → Told (observe_action o at s) (record { observation = o; at = at } ∷ h)
  observe_action-Told o at s h e story =
      let x : Seen W = record { observation = o; at = at } in
      let le = saturating-le-suc s.action_streak in
      elim (Bool-cases (action_observed s.config s.requested o)) [
        | inr no_action ↦ rw (observe_action_breaks o at s no_action) (
            subst (λ p. Story s.config s.requested p 0 none s.recovery_streak (x ∷ h)) (sym e)
              (InStreak-break s.config s.requested x story))
        | inl acted ↦ elim (Bool-cases (is_long_enough at s)) [
          | inl long ↦
              let (many, lasting) = long-parts at s long in
              rw (observe_action_performs o at s acted long)
                (InStreak-perform s.config s.requested x _ acted le many lasting story)
          | inr short ↦ rw (observe_action_prolongs o at s acted short) (
              subst
                (λ p.
                  Story s.config s.requested p (prolonged at s).action_streak
                    (prolonged at s).action_streak_started_at_micros s.recovery_streak (x ∷ h))
                (sym e) (InStreak-extend s.config s.requested x _ acted le story))
        ]
      ]

  observe_recovery_breaks :
      (s : ChallengeSession W) → observe_recovery false s ≡ record s { recovery_streak = 0 }
  unfolding observe_recovery
  observe_recovery_breaks s = refl

  abbrev steadied : ChallengeSession W → ChallengeSession W
  steadied s = record s { recovery_streak = saturating_add u8_mod s.recovery_streak 1 }

  observe_recovery_passes :
      (s : ChallengeSession W)
      → leb s.config.recovery_consecutive_observations (steadied s).recovery_streak ≡ true
      → observe_recovery true s ≡ record (steadied s) { phase = Phase.passed }
  unfolding observe_recovery
  observe_recovery_passes s h = ground arith

  observe_recovery_waits :
      (s : ChallengeSession W)
      → leb s.config.recovery_consecutive_observations (steadied s).recovery_streak ≡ false
      → observe_recovery true s ≡ steadied s
  unfolding observe_recovery
  observe_recovery_waits s h = ground arith

  observe_recovery-Told :
      (o : ChallengeObservation W) (at : ℕ) (s : ChallengeSession W) (h : List (Seen W))
      → s.phase ≡ recovery
      → InRecovery s.config s.requested s.recovery_streak h
      → Told (observe_recovery (is_neutral s.config o) s) (record { observation = o; at = at } ∷ h)
  observe_recovery-Told o at s h e story =
      let x : Seen W = record { observation = o; at = at } in
      let le = saturating-le-suc s.recovery_streak in
      let stays = λ (n : ℕ).
        subst
          (λ p.
            Story s.config s.requested p s.action_streak s.action_streak_started_at_micros n
              (x ∷ h))
          (sym e) in
      elim (Bool-cases (is_neutral s.config o)) [
        | inr moved ↦
            rw (moved, observe_recovery_breaks s)
              (stays 0 (InRecovery-break s.config s.requested x story))
        | inl still ↦
            let steady = InRecovery-extend s.config s.requested x _ still le story in
            elim (Bool-cases
              (leb s.config.recovery_consecutive_observations (steadied s).recovery_streak)) [
                | inl done ↦ rw (still, observe_recovery_passes s done) (steady, leb→le _ _ done)
                | inr more ↦ rw (still, observe_recovery_waits s more) (stays _ steady)
              ]
      ]

  advance_baseline :
      (o : ChallengeObservation W) (at : ℕ) (s : ChallengeSession W)
      → s.phase ≡ baseline
      → advance o at s ≡ (if is_neutral s.config o then record s { phase = action } else s)
  unfolding advance
  advance_baseline o at s e = ground arith

  advance_action :
      (o : ChallengeObservation W) (at : ℕ) (s : ChallengeSession W)
      → s.phase ≡ action
      → advance o at s ≡ observe_action o at s
  unfolding advance
  advance_action o at s e = ground arith

  advance_recovery :
      (o : ChallengeObservation W) (at : ℕ) (s : ChallengeSession W)
      → s.phase ≡ recovery
      → advance o at s ≡ observe_recovery (is_neutral s.config o) s
  unfolding advance
  advance_recovery o at s e = ground arith

  baseline-Told :
      (o : ChallengeObservation W) (at : ℕ) (s : ChallengeSession W) (h : List (Seen W))
      → s.phase ≡ baseline
      → (s.action_streak ≡ 0) × (s.action_streak_started_at_micros ≡ none)
      → Told
          (if is_neutral s.config o then record s { phase = action } else s)
          (record { observation = o; at = at } ∷ h)
  baseline-Told o at s h e story =
      let x : Seen W = record { observation = o; at = at } in
      elim (Bool-cases (is_neutral s.config o)) [
        | inl still ↦ rw (still, story.0, story.1) (InStreak-start s.config s.requested x h still)
        | inr moved ↦ rw moved (
            subst
              (λ p.
                Story s.config s.requested p s.action_streak s.action_streak_started_at_micros
                  s.recovery_streak (x ∷ h))
              (sym e) story)
      ]

  -- One admitted observation carries the story on.
  pub advance-Told :
      (o : ChallengeObservation W) (at : ℕ) (s : ChallengeSession W) (h : List (Seen W))
      → is_passed_phase s.phase ≡ false
      → Told s h
      → Told (advance o at s) (record { observation = o; at = at } ∷ h)
  advance-Told o at s h going story = by_phase s.phase refl story
    where
      by_phase :
          (p : Phase)
          → s.phase ≡ p
          → Story s.config s.requested p s.action_streak s.action_streak_started_at_micros
              s.recovery_streak h
          → Told (advance o at s) (record { observation = o; at = at } ∷ h)
      by_phase Phase.baseline e told =
          rw (advance_baseline o at s e) (baseline-Told o at s h e told)
      by_phase Phase.action e told =
          rw (advance_action o at s e) (observe_action-Told o at s h e told)
      by_phase Phase.recovery e told =
          rw (advance_recovery o at s e) (observe_recovery-Told o at s h e told)
      by_phase Phase.passed e told = absurd (cc (ap is_passed_phase (sym e) ∙ going))
