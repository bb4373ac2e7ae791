-- ===== src/Liveness/Actions.antt =====
-- The draw of a random action (crates/faceauth-liveness/src/lib.rs).
use faceauth_rs.Prelude.{
  ℕ, zero, suc, ◌≡◌, refl, Bool, true, false, some, none, [], ◌∷◌, ok, err, if◌then◌else◌,
}
use faceauth_rs.Liveness.{ChallengeAction, blink, turn_left, turn_right, random_action}

abbrev pub same_action : ChallengeAction → ChallengeAction → Bool
same_action blink blink = true
same_action turn_left turn_left = true
same_action turn_right turn_right = true
same_action _ _ = false

-- Does a draw that starts with this byte end with this action?
abbrev pub draws : ChallengeAction → ℕ → Bool
draws a byte = elim (random_action (some byte ∷ [])) [
  | some r ↦ elim r [ ok b ↦ same_action a b | err e ↦ false ]
  | none ↦ false
]

pub count_below : ℕ → (ℕ → Bool) → ℕ
count_below zero p = 0
count_below (suc n) p = let rest = count_below n p in if p n then suc rest else rest

-- The draw is unbiased: of the 256 values of a byte, each action is drawn by exactly 85, and the
-- one byte that is left is drawn again.
random_action_unbiased : (a : ChallengeAction) → count_below 256 (draws a) ≡ 85
unfolding count_below random_action
random_action_unbiased blink = refl
random_action_unbiased turn_left = refl
random_action_unbiased turn_right = refl
