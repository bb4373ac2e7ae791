-- ===== src/Experience/Story.antt =====
-- Histories of the user interface (crates/faceauth-ui-model/src/lib.rs): when it shows success,
-- and when it hides the password.
use faceauth_rs.Prelude.{
  ◌≡◌, ◌⊎◌, inl, inr, refl, ap, sym, subst, ◌∙◌, false, Option, Result, arith, List, [], ◌∷◌,
  Bool-cases,
}
use faceauth_rs.Protocol.{TransactionId, DecisionCode, RejectionCode, accepted}
use faceauth_rs.Management.{OperationId, progress, finished}
use faceauth_rs.Experience.{
  ExperienceCue, ExperienceState, ExperienceOutcome, ExperienceModel, Change, authentication,
  authentication_rejection, enrollment, idle, active, terminal, succeeded, default_model, begin,
  begin_authentication, begin_enrollment, authentication_rejected, reset, rests, is_active,
  authentication_outcome, presentation, is_authentication, is_password_flow, is_succeeded,
}
use faceauth_rs.Experience.Updates.{
  Update, progressed, decided, managed, apply, flow_of, target, Runs, apply-flow_of,
}

pub data Event : Type 0 where
  begins : TransactionId → Event
  enrolls : OperationId → Event
  updates : Update → Event
  rejects : Option TransactionId → RejectionCode → Event
  resets : Event

abbrev pub handle : Event → Change
handle (begins t) = begin_authentication t
handle (enrolls id) = begin_enrollment id
handle (updates u) = apply u
handle (rejects t code) = authentication_rejected t code
handle resets = reset

-- The model after a history of events; one that is refused changes nothing.
unfoldable pub after : ExperienceModel → List Event → ExperienceModel
after m [] = m
after m (k ∷ ks) = after (handle k m).1 ks

-- The acceptance of the transaction `t` is still to come.
pub data Awaits (t : TransactionId) : List Event → Type 0 where
  now : {ks : List Event} → Awaits t (updates (decided t accepted) ∷ ks)
  later : {k : Event} {ks : List Event} → Awaits t ks → Awaits t (k ∷ ks)

-- The transaction `t` is begun and, later, accepted.
pub data IsAccepted (t : TransactionId) : List Event → Type 0 where
  begun : {ks : List Event} → Awaits t ks → IsAccepted t (begins t ∷ ks)
  before : {k : Event} {ks : List Event} → IsAccepted t ks → IsAccepted t (k ∷ ks)

abbrev pub success : TransactionId → ExperienceState
success t = terminal (authentication t) succeeded

outcome-succeeded : (d : DecisionCode) → authentication_outcome d ≡ succeeded → d ≡ accepted
unfolding authentication_outcome
outcome-succeeded d h = ground arith

target-success : (u : Update) (t : TransactionId) → target u ≡ success t → u ≡ decided t accepted
target-success (progressed s code) t h = ground arith
target-success (decided s d) t h = ground (arith, outcome-succeeded d)
target-success (managed (progress id code)) t h = ground arith
target-success (managed (finished id result)) t h = ground arith

target-active :
    (u : Update) (t : TransactionId) (cue : ExperienceCue)
    → target u ≡ active (authentication t) cue
    → flow_of u ≡ authentication t
target-active (progressed s code) t cue h = ground arith
target-active (decided s d) t cue h = ground arith
target-active (managed (progress id code)) t cue h = ground arith
target-active (managed (finished id result)) t cue h = ground arith

-- How an event can lead to a shown success.
success_from :
    (k : Event) (m : ExperienceModel) (t : TransactionId)
    → (handle k m).1.state ≡ success t
    → (m.state ≡ success t) ⊎ ((k ≡ updates (decided t accepted)) × Runs (authentication t) m)
unfolding begin begin_authentication begin_enrollment authentication_rejected reset
success_from (begins s) m t h = inl (ground arith)
success_from (enrolls id) m t h = inl (ground arith)
success_from (updates u) m t h = elim (apply-flow_of u m) [
  | inl (r, e) ↦
      let which =
        target-success u t (ap (λ (x : Result _ _ × ExperienceModel). x.1.state) (sym e) ∙ h) in
      inr (ap updates which, ground (arith, r, which))
  | inr (idler, same, refused) ↦ inl (ground (arith, same))
]
success_from (rejects s code) m t h = inl (ground arith)
success_from resets m t h = inl (ground arith)

-- How an event can lead to a running authentication.
active_from :
    (k : Event) (m : ExperienceModel) (t : TransactionId) (cue : ExperienceCue)
    → (handle k m).1.state ≡ active (authentication t) cue
    → Runs (authentication t) m ⊎ (k ≡ begins t)
unfolding begin begin_authentication begin_enrollment authentication_rejected reset
active_from (begins s) m t cue h = elim (Bool-cases (rests m.state)) [
  | inl free ↦ inr (ground arith)
  | inr taken ↦ inl (cue, ground arith)
]
active_from (enrolls id) m t cue h = inl (cue, ground arith)
active_from (updates u) m t cue h = elim (apply-flow_of u m) [
  | inl (r, e) ↦
      let which =
        target-active u t cue (ap (λ (x : Result _ _ × ExperienceModel). x.1.state) (sym e) ∙ h) in
      inl (subst (λ f. Runs f m) which r)
  | inr (idler, same, refused) ↦ inl (cue, ground (arith, same))
]
active_from (rejects s code) m t cue h = inl (cue, ground arith)
active_from resets m t cue h = inl (cue, ground arith)

-- Where a success that is shown in the end can come from.
abbrev Origin : TransactionId → ExperienceModel → List Event → Type 0
Origin t m ks =
    (m.state ≡ success t) ⊎ ((Runs (authentication t) m × Awaits t ks) ⊎ IsAccepted t ks)

Origin-step :
    (t : TransactionId) (k : Event) (m : ExperienceModel) (ks : List Event)
    → Origin t (handle k m).1 ks
    → Origin t m (k ∷ ks)
Origin-step t k m ks (inl shown) = elim (success_from k m t shown) [
  | inl already ↦ inl already
  | inr (which, r) ↦ inr (inl (r, subst (λ e. Awaits t (e ∷ ks)) (sym which) now))
]
Origin-step t k m ks (inr (inl ((cue, r), a))) = elim (active_from k m t cue r) [
  | inl running ↦ inr (inl (running, later a))
  | inr which ↦ inr (inr (subst (λ e. IsAccepted t (e ∷ ks)) (sym which) (begun a)))
]
Origin-step t k m ks (inr (inr done)) = inr (inr (before done))

success-Origin :
    (t : TransactionId) (m : ExperienceModel) (ks : List Event)
    → (after m ks).state ≡ success t
    → Origin t m ks
unfolding after
success-Origin t m [] h = inl h
success-Origin t m (k ∷ ks) h = Origin-step t k m ks (success-Origin t (handle k m).1 ks h)

-- The interface shows success for an authentication only if, among the events since it was made,
-- that transaction was begun and, later, its acceptance was reported.
pub success-IsAccepted :
    (t : TransactionId) (ks : List Event)
    → (after default_model ks).state ≡ success t
    → IsAccepted t ks
success-IsAccepted t ks h = elim (success-Origin t default_model ks h) [
  | inl shown ↦ ground arith
  | inr (inl ((cue, r), a)) ↦ ground arith
  | inr (inr done) ↦ done
]

-- No authentication rejection is ever running, nor succeeds.
abbrev IsSound : ExperienceState → Type 0
IsSound (active (authentication_rejection t) cue) = ⊥
IsSound (terminal (authentication_rejection t) succeeded) = ⊥
IsSound _ = Unit

target-IsSound : (u : Update) → IsSound (target u)
target-IsSound (progressed t code) = tt
target-IsSound (decided t d) = tt
target-IsSound (managed (progress id code)) = tt
target-IsSound (managed (finished id result)) = tt

step-IsSound : (k : Event) (m : ExperienceModel) → IsSound m.state → IsSound (handle k m).1.state
unfolding begin begin_authentication begin_enrollment authentication_rejected reset
step-IsSound (begins s) m h = elim (Bool-cases (rests m.state)) [
  | inl free ↦ rw free tt
  | inr taken ↦ rw taken h
]
step-IsSound (enrolls id) m h = elim (Bool-cases (rests m.state)) [
  | inl free ↦ rw free tt
  | inr taken ↦ rw taken h
]
step-IsSound (updates u) m h = elim (apply-flow_of u m) [
  | inl (r, e) ↦
      subst (λ (x : Result _ _ × ExperienceModel). IsSound x.1.state) (sym e) (target-IsSound u)
  | inr (idler, same, refused) ↦ subst (λ (x : ExperienceModel). IsSound x.state) (sym same) h
]
step-IsSound (rejects s code) m h = elim (Bool-cases (rests m.state)) [
  | inl free ↦ rw free tt
  | inr taken ↦ rw taken h
]
step-IsSound resets m h = elim (Bool-cases (is_active m.state)) [
  | inl running ↦ rw running h
  | inr over ↦ rw over tt
]

after-IsSound :
    (m : ExperienceModel) (ks : List Event) → IsSound m.state → IsSound (after m ks).state
unfolding after
after-IsSound m [] h = h
after-IsSound m (k ∷ ks) h = after-IsSound (handle k m).1 ks (step-IsSound k m h)

-- What an interface that hides the password shows.
pub data HidesPassword (ks : List Event) : ExperienceState → Type 0 where
  at_rest : HidesPassword ks idle
  enrolling :
      (id : OperationId) (cue : ExperienceCue) → HidesPassword ks (active (enrollment id) cue)
  enrolled :
      (id : OperationId) (o : ExperienceOutcome) → HidesPassword ks (terminal (enrollment id) o)
  unlocked : (t : TransactionId) → IsAccepted t ks → HidesPassword ks (success t)

hides_from :
    (ks : List Event) (s : ExperienceState)
    → ((t : TransactionId) → s ≡ success t → IsAccepted t ks)
    → IsSound s
    → (presentation (record { state = s })).show_password_fallback ≡ false
    → HidesPassword ks s
unfolding presentation is_authentication is_password_flow is_succeeded
hides_from ks idle accepts sound h = at_rest
hides_from ks (active (enrollment id) cue) accepts sound h = enrolling id cue
hides_from ks (active (authentication t) cue) accepts sound h = ground arith
hides_from ks (active (authentication_rejection t) cue) accepts sound h = absurd sound
hides_from ks (terminal (enrollment id) o) accepts sound h = enrolled id o
hides_from ks (terminal (authentication t) succeeded) accepts sound h = unlocked t (accepts t refl)
hides_from ks (terminal f o) accepts sound h = ground arith

-- After any history of events on a new model, the interface hides the password only while it is
-- at rest, while it shows an enrollment, or after a success of a transaction that was begun and
-- then reported as accepted.
pub presentation-HidesPassword :
    (ks : List Event)
    → (presentation (after default_model ks)).show_password_fallback ≡ false
    → HidesPassword ks (after default_model ks).state
presentation-HidesPassword ks h =
    hides_from ks (after default_model ks).state (λ t shown. success-IsAccepted t ks shown)
      (after-IsSound default_model ks tt) h
