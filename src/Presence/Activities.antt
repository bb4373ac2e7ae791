-- ===== src/Presence/Activities.antt =====
-- The activities that are leased (`CaptureActivityRegistry` of
-- crates/faceauth-presence/src/lib.rs), over histories of acquisitions and drops.
use faceauth_rs.Prelude.{
  ℕ, zero, suc, ◌+◌, ◌≡◌, inl, inr, refl, false, Option, none, some, Result, ok, err, List, [], ◌∷◌,
  Option-cases, ltb, if◌then◌else◌, arith,
}
use faceauth_rs.Presence.{
  CaptureActivity, idle, authentication, enrollment, ActivityCounts, PresenceError, no_activity,
  counter, set_counter, acquire, current, drop_lease,
}

pub record World : Type 0 where
  pub counts : ActivityCounts
  pub held : List CaptureActivity

pub data Step : Type 0 where
  acquires : CaptureActivity → Step
  drops : ℕ → Step

-- The activity at a place, and the others.
abbrev pick : List CaptureActivity → ℕ → Option (CaptureActivity × List CaptureActivity)
pick [] i = none
pick (a ∷ ls) zero = some (a, ls)
pick (a ∷ ls) (suc i) = elim (pick ls i) [ none ↦ none | some (x, rest) ↦ some (x, a ∷ rest) ]

unfoldable pub acquired : Result PresenceError CaptureActivity × ActivityCounts → World → World
acquired (ok lease, c) w = record { counts = c; held = lease ∷ w.held }
acquired (err e, c) w = record { counts = c; held = w.held }

unfoldable pub step : Step → World → World
step (acquires a) w = acquired (acquire a w.counts) w
step (drops i) w = elim (pick w.held i) [
  | none ↦ w
  | some (a, rest) ↦ record { counts = drop_lease a w.counts; held = rest }
]

unfoldable pub replay : World → List Step → World
replay w [] = w
replay w (k ∷ ks) = replay (step k w) ks

abbrev pub start : World
start = record { counts = no_activity; held = [] }

abbrev counts_as : CaptureActivity → CaptureActivity → ℕ
counts_as authentication authentication = 1
counts_as enrollment enrollment = 1
counts_as _ _ = 0

-- How many of the leases are for the activity.
abbrev pub leases_for : CaptureActivity → List CaptureActivity → ℕ
leases_for a [] = 0
leases_for a (l ∷ ls) = counts_as a l + leases_for a ls

pub record IsCounted (w : World) : Type 0 where
  pub usable : w.counts.poisoned ≡ false
  pub authenticating : w.counts.authentications ≡ leases_for authentication w.held
  pub enrolling : w.counts.enrollments ≡ leases_for enrollment w.held

leases_for-pick :
    (b : CaptureActivity) (ls : List CaptureActivity) (i : ℕ) (a : CaptureActivity)
    (rest : List CaptureActivity)
    → pick ls i ≡ some (a, rest)
    → leases_for b ls ≡ counts_as b a + leases_for b rest
leases_for-pick b [] i a rest h = cc
leases_for-pick b (l ∷ ls) zero a rest h = ground arith
leases_for-pick b (l ∷ ls) (suc i) a rest h = elim (Option-cases (pick ls i)) [
  | inl e ↦ ground arith
  | inr ((x, others), e) ↦ ground (arith, leases_for-pick b ls i x others e)
]

acquire-IsCounted :
    (a : CaptureActivity) (w : World) → IsCounted w → IsCounted (step (acquires a) w)
unfolding step acquire acquired counter set_counter
acquire-IsCounted idle w h = record {
  usable = ground arith;
  authenticating = ground arith;
  enrolling = ground arith;
}
acquire-IsCounted authentication w h = record {
  usable = ground arith;
  authenticating = ground arith;
  enrolling = ground arith;
}
acquire-IsCounted enrollment w h = record {
  usable = ground arith;
  authenticating = ground arith;
  enrolling = ground arith;
}

drop_lease-IsCounted :
    (a : CaptureActivity) (rest : List CaptureActivity) (w : World)
    → IsCounted w
    → leases_for authentication w.held ≡ counts_as authentication a + leases_for authentication rest
    → leases_for enrollment w.held ≡ counts_as enrollment a + leases_for enrollment rest
    → IsCounted (record { counts = drop_lease a w.counts; held = rest })
unfolding drop_lease counter set_counter
drop_lease-IsCounted idle rest w h p q = record {
  usable = ground arith;
  authenticating = ground arith;
  enrolling = ground arith;
}
drop_lease-IsCounted authentication rest w h p q = record {
  usable = ground arith;
  authenticating = ground arith;
  enrolling = ground arith;
}
drop_lease-IsCounted enrollment rest w h p q = record {
  usable = ground arith;
  authenticating = ground arith;
  enrolling = ground arith;
}

drop-IsCounted : (i : ℕ) (w : World) → IsCounted w → IsCounted (step (drops i) w)
unfolding step
drop-IsCounted i w h = elim (Option-cases (pick w.held i)) [
  | inl e ↦ rw (step, e) h
  | inr ((a, rest), e) ↦
      rw (step, e)
        (drop_lease-IsCounted a rest w h (leases_for-pick authentication w.held i a rest e)
          (leases_for-pick enrollment w.held i a rest e))
]

replay-IsCounted : (w : World) (ks : List Step) → IsCounted w → IsCounted (replay w ks)
unfolding replay
replay-IsCounted w [] h = h
replay-IsCounted w (acquires a ∷ ks) h =
    replay-IsCounted (step (acquires a) w) ks (acquire-IsCounted a w h)
replay-IsCounted w (drops i ∷ ks) h = replay-IsCounted (step (drops i) w) ks (drop-IsCounted i w h)

-- What the leases that are held amount to: an enrollment goes before an authentication.
abbrev pub activity_of : List CaptureActivity → CaptureActivity
activity_of ls =
    if ltb 0 (leases_for enrollment ls)
    then enrollment
    else if ltb 0 (leases_for authentication ls)
    then authentication
    else idle

-- After any history of acquisitions and drops on a new registry, the activity that is published
-- is that of the leases still held: enrollment if one of them is for enrollment, else
-- authentication if one of them is for authentication, else idle.
pub current-replay :
    (ks : List Step) → current (replay start ks).counts ≡ ok (activity_of (replay start ks).held)
unfolding current
current-replay ks =
    let counted =
      replay-IsCounted start ks
        (record { usable = refl; authenticating = refl; enrolling = refl }) in
    ground (arith, counted.usable, counted.authenticating, counted.enrolling)
