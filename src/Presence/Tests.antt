-- ===== src/Presence/Tests.antt =====
-- The presence cache and the activity registry at concrete histories.
use faceauth_rs.Prelude.{◌≡◌, refl, true, ok, List, [], ◌∷◌, zero}
use faceauth_rs.Prelude.Word.{pos}
use faceauth_rs.Presence.{
  PresenceSnapshot, default_cache, in_contract, validate_snapshot, update, clear, should_prewarm,
  authentication, enrollment, current,
}
use faceauth_rs.Presence.Hints.{Refresh, updates, clears, refreshed}
use faceauth_rs.Presence.Activities.{
  Step, acquires, drops, replay, start, activity_of, current-replay,
}

abbrev seen : PresenceSnapshot
seen = record { available = true; present = true; raw_value = pos 12; observed_at_micros = 500 }

abbrev seen_before : PresenceSnapshot
seen_before = record seen { observed_at_micros = 400 }

abbrev history : List Refresh
history = clears ∷ updates seen ∷ updates seen_before ∷ []

history_prewarms : should_prewarm 900 1000 (refreshed default_cache history) ≡ ok true
unfolding refreshed update clear validate_snapshot in_contract should_prewarm
history_prewarms = refl

abbrev steps : List Step
steps = acquires authentication ∷ acquires enrollment ∷ drops zero ∷ []

current-replay_example :
    current (replay start steps).counts ≡ ok (activity_of (replay start steps).held)
current-replay_example = current-replay steps
