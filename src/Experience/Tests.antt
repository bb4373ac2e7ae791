-- ===== src/Experience/Tests.antt =====
-- The user interface at concrete histories.
use faceauth_rs.Prelude.{◌≡◌, refl, false, List, [], ◌∷◌, none, err}
use faceauth_rs.Protocol.{ProgressCode, accepted, not_enrolled}
use faceauth_rs.Experience.{
  ExperienceModel, preparing, authentication, active, busy, default_model, wrong_flow, begin,
  begin_authentication, authentication_outcome, require_active, authentication_progress,
  authentication_completed, authentication_rejected, reset, rests, is_active, presentation,
  is_password_flow, is_succeeded,
}
use faceauth_rs.Experience.Updates.{decided}
use faceauth_rs.Experience.Story.{
  Event, begins, updates, rejects, after, success, HidesPassword, presentation-HidesPassword,
}

abbrev running : ExperienceModel
running = record { state = active (authentication 7) preparing }

begin_twice : begin_authentication 8 running ≡ (err busy, running)
unfolding begin begin_authentication rests
begin_twice = refl

wrong_transaction : authentication_progress 8 ProgressCode.blink running ≡ (err wrong_flow, running)
unfolding authentication_progress require_active
wrong_transaction = refl

reset-running : reset running ≡ (err busy, running)
unfolding reset is_active
reset-running = refl

abbrev events : List Event
events = begins 7 ∷ rejects none not_enrolled ∷ updates (decided 7 accepted) ∷ begins 9 ∷ []

events_succeed : (after default_model events).state ≡ success 7
unfolding after begin begin_authentication authentication_completed authentication_rejected
    require_active rests authentication_outcome
events_succeed = refl

events_hide : (presentation (after default_model events)).show_password_fallback ≡ false
unfolding after begin begin_authentication authentication_completed authentication_rejected
    require_active rests authentication_outcome presentation is_password_flow is_succeeded
events_hide = refl

presentation-HidesPassword_example : HidesPassword events (after default_model events).state
presentation-HidesPassword_example = presentation-HidesPassword events events_hide
