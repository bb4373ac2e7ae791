-- ===== src/Liveness/Story.antt =====
-- The evidence that a challenge (crates/faceauth-liveness/src/lib.rs) rests on in each phase, read
-- off the history of the observations that the session admitted.
use faceauth_rs.Prelude.{
  ℕ, ◌+◌, ◌-◌, ◌≤◌, ◌≡◌, refl, sym, ap, subst, true, Option, some, none, arith, List, [], ◌∷◌, ◌++◌,
  length, All,
}
use faceauth_rs.Prelude.Float.{Float}
use faceauth_rs.Liveness.{
  ChallengeAction, ChallengeConfig, ChallengeObservation, Phase, action_observed, is_neutral,
  inserted,
}

-- An admitted observation, with its timestamp. Histories hold the newest one first.
pub record Seen (W : Type 0) : Type 0 where
  pub observation : ChallengeObservation W
  pub at : ℕ

-- The oldest observation of a streak is the one at which the streak is said to have begun.
abbrev pub BeganAt : {W : Type 0} → Option ℕ → List (Seen W) → Type 0
BeganAt none streak = streak ≡ []
BeganAt {W} (some began) streak =
    (newer : List (Seen W)) × (oldest : Seen W) × (streak ≡ newer ++ oldest ∷ [])
    × (oldest.at ≡ began)

module _ {W : Type 0} ⦃f : Float W⦄ (c : ChallengeConfig W) (requested : ChallengeAction) where
  abbrev pub IsNeutral : Seen W → Type 0
  IsNeutral x = is_neutral c x.observation ≡ true

  abbrev pub IsActed : Seen W → Type 0
  IsActed x = action_observed c requested x.observation ≡ true

  -- The history holds a neutral observation.
  pub record HasBaseline (h : List (Seen W)) : Type 0 where
    pub newer : List (Seen W)
    pub neutral : Seen W
    pub older : List (Seen W)
    pub split : h ≡ newer ++ neutral ∷ older
    pub centered : IsNeutral neutral

  -- The newest observations are a streak of the requested action, after a neutral one.
  pub record InStreak (count : ℕ) (began : Option ℕ) (h : List (Seen W)) : Type 0 where
    pub streak : List (Seen W)
    pub before : List (Seen W)
    pub split : h ≡ streak ++ before
    pub acted : All IsActed streak
    pub counted : count ≤ length streak
    pub since : BeganAt began streak
    pub based : HasBaseline before

  -- Some consecutive observations showed the requested action, as many as required and for as long
  -- as required, after a neutral one.
  pub record HasAction (h : List (Seen W)) : Type 0 where
    pub newer : List (Seen W)
    pub newest : Seen W
    pub streak : List (Seen W)
    pub oldest : Seen W
    pub front : List (Seen W)
    pub before : List (Seen W)
    pub split : h ≡ newer ++ ((newest ∷ streak) ++ before)
    pub acted : All IsActed (newest ∷ streak)
    pub enough : c.action_consecutive_observations ≤ length (newest ∷ streak)
    pub ends : newest ∷ streak ≡ front ++ oldest ∷ []
    pub lasting : c.minimum_action_duration_micros ≤ newest.at - oldest.at
    pub based : HasBaseline before

  -- The newest observations are neutral, after the action.
  pub record InRecovery (count : ℕ) (h : List (Seen W)) : Type 0 where
    pub streak : List (Seen W)
    pub before : List (Seen W)
    pub split : h ≡ streak ++ before
    pub centered : All IsNeutral streak
    pub counted : count ≤ length streak
    pub performed : HasAction before

  -- What the history holds in each phase.
  abbrev pub Story : Phase → ℕ → Option ℕ → ℕ → List (Seen W) → Type 0
  Story Phase.baseline streak began recovered h = (streak ≡ 0) × (began ≡ none)
  Story Phase.action streak began recovered h = InStreak streak began h
  Story Phase.recovery streak began recovered h = InRecovery recovered h
  Story Phase.passed streak began recovered h =
      InRecovery recovered h × (c.recovery_consecutive_observations ≤ recovered)

  HasAction-older : (x : Seen W) {h : List (Seen W)} → HasAction h → HasAction (x ∷ h)
  HasAction-older x a = record {
    newer = x ∷ a.newer;
    newest = a.newest;
    streak = a.streak;
    oldest = a.oldest;
    front = a.front;
    before = a.before;
    split = ap (◌∷◌ x) a.split;
    acted = a.acted;
    enough = a.enough;
    ends = a.ends;
    lasting = a.lasting;
    based = a.based;
  }

  HasBaseline-older : (x : Seen W) {h : List (Seen W)} → HasBaseline h → HasBaseline (x ∷ h)
  HasBaseline-older x b = record {
    newer = x ∷ b.newer;
    neutral = b.neutral;
    older = b.older;
    split = ap (◌∷◌ x) b.split;
    centered = b.centered;
  }

  HasBaseline-append :
      (xs : List (Seen W)) {h : List (Seen W)} → HasBaseline h → HasBaseline (xs ++ h)
  HasBaseline-append [] b = b
  HasBaseline-append (x ∷ xs) b = HasBaseline-older x (HasBaseline-append xs b)

  HasAction-append : (xs : List (Seen W)) {h : List (Seen W)} → HasAction h → HasAction (xs ++ h)
  HasAction-append [] a = a
  HasAction-append (x ∷ xs) a = HasAction-older x (HasAction-append xs a)

  -- A neutral observation opens the wait for the action.
  pub InStreak-start : (x : Seen W) (h : List (Seen W)) → IsNeutral x → InStreak 0 none (x ∷ h)
  InStreak-start x h n = record {
    streak = [];
    before = x ∷ h;
    split = refl;
    acted = tt;
    counted = omega arith;
    since = refl;
    based = record { newer = []; neutral = x; older = h; split = refl; centered = n };
  }

  -- Another observation breaks the streak.
  pub InStreak-break :
      (x : Seen W) {n : ℕ} {began : Option ℕ} {h : List (Seen W)}
      → InStreak n began h
      → InStreak 0 none (x ∷ h)
  InStreak-break x {h = h} s = record {
    streak = [];
    before = x ∷ h;
    split = refl;
    acted = tt;
    counted = omega arith;
    since = refl;
    based =
        HasBaseline-older x (subst HasBaseline (sym s.split) (HasBaseline-append s.streak s.based));
  }

  BeganAt-extend :
      (x : Seen W) (began : Option ℕ) (streak : List (Seen W))
      → BeganAt began streak
      → BeganAt (some (inserted began x.at)) (x ∷ streak)
  BeganAt-extend x none streak e = ([], x, ap (◌∷◌ x) e, refl)
  BeganAt-extend x (some t) streak (newer, oldest, e, same) =
      (x ∷ newer, oldest, ap (◌∷◌ x) e, same)

  -- An observation of the action lengthens the streak.
  pub InStreak-extend :
      (x : Seen W) (m : ℕ) {n : ℕ} {began : Option ℕ} {h : List (Seen W)}
      → IsActed x
      → m ≤ n + 1
      → InStreak n began h
      → InStreak m (some (inserted began x.at)) (x ∷ h)
  InStreak-extend x m {began = began} a le s = record {
    streak = x ∷ s.streak;
    before = s.before;
    split = ap (◌∷◌ x) s.split;
    acted = (a, s.acted);
    counted = omega (arith, s.counted);
    since = BeganAt-extend x began s.streak s.since;
    based = s.based;
  }

  -- A streak that is long enough in count and in time performs the action.
  pub InStreak-perform :
      (x : Seen W) (m : ℕ) {n : ℕ} {began : Option ℕ} {h : List (Seen W)}
      → IsActed x
      → m ≤ n + 1
      → c.action_consecutive_observations ≤ m
      → c.minimum_action_duration_micros ≤ x.at - inserted began x.at
      → InStreak n began h
      → InRecovery 0 (x ∷ h)
  InStreak-perform x m {began = began} {h = h} a le many long s =
      let (front, oldest, ends, at) = BeganAt-extend x began s.streak s.since in
      record {
        streak = [];
        before = x ∷ h;
        split = refl;
        centered = tt;
        counted = omega arith;
        performed = record {
          newer = [];
          newest = x;
          streak = s.streak;
          oldest = oldest;
          front = front;
          before = s.before;
          split = ap (◌∷◌ x) s.split;
          acted = (a, s.acted);
          enough = omega (arith, s.counted);
          ends = ends;
          lasting = omega arith;
          based = s.based;
        };
      }

  pub InRecovery-break :
      (x : Seen W) {n : ℕ} {h : List (Seen W)} → InRecovery n h → InRecovery 0 (x ∷ h)
  InRecovery-break x {h = h} r = record {
    streak = [];
    before = x ∷ h;
    split = refl;
    centered = tt;
    counted = omega arith;
    performed =
        HasAction-older x (subst HasAction (sym r.split) (HasAction-append r.streak r.performed));
  }

  pub InRecovery-extend :
      (x : Seen W) (m : ℕ) {n : ℕ} {h : List (Seen W)}
      → IsNeutral x
      → m ≤ n + 1
      → InRecovery n h
      → InRecovery m (x ∷ h)
  InRecovery-extend x m a le r = record {
    streak = x ∷ r.streak;
    before = r.before;
    split = ap (◌∷◌ x) r.split;
    centered = (a, r.centered);
    counted = omega (arith, r.counted);
    performed = r.performed;
  }
