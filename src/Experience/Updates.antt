-- ===== src/Experience/Updates.antt =====
-- Which updates reach the visible flow (crates/faceauth-ui-model/src/lib.rs).
use faceauth_rs.Prelude.{
  ◌≡◌, ◌⊎◌, inl, inr, refl, ap, ◌∙◌, false, ok, is_ok, ◌==◌, arith, Bool-cases,
}
use faceauth_rs.Protocol.{TransactionId, ProgressCode, DecisionCode}
use faceauth_rs.Management.{ManagementUpdate, progress, finished}
use faceauth_rs.Experience.{
  ExperienceFlow, ExperienceCue, ExperienceState, ExperienceModel, Change, authentication,
  enrollment, idle, active, terminal, flow_eq, flow_beq_iff, authentication_cue, management_cue,
  authentication_outcome, management_outcome, require_active, authentication_progress,
  authentication_completed, management_update,
}

-- The updates that a daemon sends for a running flow.
pub data Update : Type 0 where
  progressed : TransactionId → ProgressCode → Update
  decided : TransactionId → DecisionCode → Update
  managed : ManagementUpdate → Update

abbrev pub apply : Update → Change
apply (progressed t code) = authentication_progress t code
apply (decided t decision) = authentication_completed t decision
apply (managed u) = management_update u

abbrev pub flow_of : Update → ExperienceFlow
flow_of (progressed t code) = authentication t
flow_of (decided t decision) = authentication t
flow_of (managed (progress id code)) = enrollment id
flow_of (managed (finished id result)) = enrollment id

-- The state that an update leads to.
abbrev pub target : Update → ExperienceState
target (progressed t code) = active (authentication t) (authentication_cue code)
target (decided t decision) = terminal (authentication t) (authentication_outcome decision)
target (managed (progress id code)) = active (enrollment id) (management_cue code)
target (managed (finished id result)) = terminal (enrollment id) (management_outcome result)

abbrev pub Runs : ExperienceFlow → ExperienceModel → Type 0
Runs flow m = (cue : ExperienceCue) × (m.state ≡ active flow cue)

require_active-Runs :
    (flow : ExperienceFlow) (m : ExperienceModel) → Runs flow m → require_active flow m ≡ ok tt
unfolding require_active
require_active-Runs flow m (cue, e) = ground (arith, flow_beq_iff flow flow)

require_active_refuses :
    (flow : ExperienceFlow) (m : ExperienceModel)
    → ¬ Runs flow m
    → is_ok (require_active flow m) ≡ false
unfolding require_active
require_active_refuses flow m h = split m.state refl
  where
    split : (s : ExperienceState) → m.state ≡ s → is_ok (require_active flow m) ≡ false
    split idle e = ground arith
    split (terminal f outcome) e = ground arith
    split (active f cue) e = elim (Bool-cases (f == flow)) [
      | inl same ↦ absurd (h (cue, e ∙ ap (λ g. active g cue) ((flow_beq_iff f flow).0 same)))
      | inr other ↦ ground arith
    ]

-- Either the flow is running, or it is not.
Runs-or_not : (flow : ExperienceFlow) (m : ExperienceModel) → Runs flow m ⊎ (¬ Runs flow m)
Runs-or_not flow m = split m.state refl
  where
    split : (s : ExperienceState) → m.state ≡ s → Runs flow m ⊎ (¬ Runs flow m)
    split idle e = inr (λ r. ground (arith, r.1))
    split (terminal f outcome) e = inr (λ r. ground (arith, r.1))
    split (active f cue) e = elim (Bool-cases (f == flow)) [
      | inl same ↦ inl (cue, e ∙ ap (λ g. active g cue) ((flow_beq_iff f flow).0 same))
      | inr other ↦ inr (λ r. ground (arith, r.1, flow_beq_iff flow flow))
    ]

apply-Runs :
    (u : Update) (m : ExperienceModel)
    → Runs (flow_of u) m
    → apply u m ≡ (ok tt, record { state = target u })
unfolding authentication_progress authentication_completed management_update
apply-Runs (progressed t code) m r = ground (arith, require_active-Runs (authentication t) m r)
apply-Runs (decided t d) m r = ground (arith, require_active-Runs (authentication t) m r)
apply-Runs (managed (progress id code)) m r =
    ground (arith, require_active-Runs (enrollment id) m r)
apply-Runs (managed (finished id result)) m r =
    ground (arith, require_active-Runs (enrollment id) m r)

apply_refuses :
    (u : Update) (m : ExperienceModel)
    → ¬ Runs (flow_of u) m
    → ((apply u m).1 ≡ m) × (is_ok (apply u m).0 ≡ false)
unfolding authentication_progress authentication_completed management_update
apply_refuses (progressed t code) m h =
    ground (arith, require_active_refuses (authentication t) m h)
apply_refuses (decided t d) m h = ground (arith, require_active_refuses (authentication t) m h)
apply_refuses (managed (progress id code)) m h =
    ground (arith, require_active_refuses (enrollment id) m h)
apply_refuses (managed (finished id result)) m h =
    ground (arith, require_active_refuses (enrollment id) m h)

-- An update takes effect exactly when its own flow is running: then the model goes to the state
-- that the update describes. Otherwise it fails and the model stays as it is.
pub apply-flow_of :
    (u : Update) (m : ExperienceModel)
    → (Runs (flow_of u) m × (apply u m ≡ (ok tt, record { state = target u })))
      ⊎ ((¬ Runs (flow_of u) m) × ((apply u m).1 ≡ m) × (is_ok (apply u m).0 ≡ false))
apply-flow_of u m = elim (Runs-or_not (flow_of u) m) [
  | inl r ↦ inl (r, apply-Runs u m r)
  | inr h ↦ let (same, refused) = apply_refuses u m h in inr (h, same, refused)
]
