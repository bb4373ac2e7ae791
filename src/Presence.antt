-- ===== src/Presence.antt =====
-- crates/faceauth-presence/src/lib.rs: the cached presence hint and the registry of capture
-- activities. The state behind each mutex has a flag `poisoned` that makes every lock fail. The
-- bus client that obtains a snapshot is outside: a snapshot is an argument of `update`.
pub mod Hints
pub mod Activities
mod Tests
use faceauth_rs.Prelude.{
  ℕ, ◌-◌, Bool, true, false, not, ◌&&◌, ◌||◌, Option, none, some, is_some_and, Result, ok, err,
  nat_eq, ◌==◌, if◌then◌else◌, ltb, leb,
}
use faceauth_rs.Prelude.Exec.{Exec, ◌>>=◌, ◌>>◌, reads, guard, modify}
use faceauth_rs.Prelude.Word.{ℤ, pos, negsuc, u64_mod, checked_add, checked_sub, saturating_sub}

pub data PresenceError : Type 0 where
  dbus : ℕ → PresenceError
  invalid_state stale_observation invalid_freshness clock_rollback : PresenceError
  state_poisoned invalid_activity activity_overflow : PresenceError

pub record PresenceSnapshot : Type 0 where
  pub available : Bool
  pub present : Bool
  pub raw_value : ℤ
  pub observed_at_micros : ℕ

-- `(-1_000_000..=1_000_000).contains(&self.raw_value)`
unfoldable pub in_contract : ℤ → Bool
in_contract (pos n) = leb n 1000000
in_contract (negsuc n) = ltb n 1000000

unfoldable pub validate_snapshot : PresenceSnapshot → Result PresenceError (Unit {0})
validate_snapshot s = if not (in_contract s.raw_value) then err invalid_state else ok tt

pub record PresenceCache : Type 0 where
  pub poisoned : Bool
  pub state : Option PresenceSnapshot

abbrev pub default_cache : PresenceCache
default_cache = record { poisoned = false; state = none }

unfoldable pub update : PresenceSnapshot → Exec PresenceCache PresenceError (Unit {0})
update snapshot c =
    (do
      reads (λ _. validate_snapshot snapshot)
      guard (not c.poisoned) state_poisoned
      guard
          (not (
            is_some_and c.state
              (λ previous. leb snapshot.observed_at_micros previous.observed_at_micros)))
          stale_observation
      modify (λ d. record { poisoned = d.poisoned; state = some snapshot }))
      c

unfoldable pub clear : Exec PresenceCache PresenceError (Unit {0})
clear c =
    if c.poisoned
    then (err state_poisoned, c)
    else (ok tt, record { poisoned = c.poisoned; state = none })

unfoldable pub should_prewarm : ℕ → ℕ → PresenceCache → Result PresenceError Bool
should_prewarm now_micros maximum_age_micros c =
    if (maximum_age_micros == 0) || ltb 60000000 maximum_age_micros
    then err invalid_freshness
    else if c.poisoned
    then err state_poisoned
    else elim c.state [
      | none ↦ ok false
      | some snapshot ↦ elim (checked_sub now_micros snapshot.observed_at_micros) [
        | none ↦ err clock_rollback
        | some age ↦ ok (snapshot.available && snapshot.present && leb age maximum_age_micros)
      ]
    ]

pub data CaptureActivity : Type 0 where
  idle authentication enrollment : CaptureActivity

-- `ActivityCounts`, with the flag of its mutex
pub record ActivityCounts : Type 0 where
  pub poisoned : Bool
  pub authentications : ℕ
  pub enrollments : ℕ

abbrev pub no_activity : ActivityCounts
no_activity = record { poisoned = false; authentications = 0; enrollments = 0 }

-- The counter of an activity; `idle` has none.
unfoldable pub counter : CaptureActivity → ActivityCounts → Option ℕ
counter idle c = none
counter authentication c = some c.authentications
counter enrollment c = some c.enrollments

unfoldable pub set_counter : CaptureActivity → ℕ → ActivityCounts → ActivityCounts
set_counter idle n c = c
set_counter authentication n c = record c { authentications = n }
set_counter enrollment n c = record c { enrollments = n }

-- `usize` is 64 bits wide. The lease that is returned is its activity.
unfoldable pub acquire :
    CaptureActivity → ActivityCounts → Result PresenceError CaptureActivity × ActivityCounts
acquire activity c = elim (counter activity c) [
  | none ↦ (err invalid_activity, c)
  | some n ↦ if c.poisoned then (err state_poisoned, c) else elim (checked_add u64_mod n 1) [
    | none ↦ (err activity_overflow, c)
    | some m ↦ (ok activity, set_counter activity m c)
  ]
]

unfoldable pub current : ActivityCounts → Result PresenceError CaptureActivity
current c =
    if c.poisoned
    then err state_poisoned
    else ok (
        if ltb 0 c.enrollments
        then enrollment
        else if ltb 0 c.authentications
        then authentication
        else idle)

-- `Drop for CaptureActivityLease`
unfoldable pub drop_lease : CaptureActivity → ActivityCounts → ActivityCounts
drop_lease activity c = if c.poisoned then c else elim (counter activity c) [
  | none ↦ c
  | some n ↦ set_counter activity (saturating_sub n 1) c
]
