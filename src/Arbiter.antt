-- ===== src/Arbiter.antt =====
-- crates/faceauth-daemon/src/resource.rs: the arbiter that gives the cameras and the model
-- sessions to one transaction or operation at a time. The state behind the shared mutex is a
-- record whose flag `poisoned` makes every lock fail; a lease is the record that its owner holds.
pub mod Leases
mod Tests
use faceauth_rs.Prelude.{
  ℕ, Bool, true, false, Option, none, some, is_some_and, Result, ok, err, nat_eq, ◌==◌,
  if◌then◌else◌,
}
use faceauth_rs.Prelude.Word.{u64_mod, checked_add}
use faceauth_rs.Protocol.{TransactionId}
use faceauth_rs.Management.{OperationId}

pub data BiometricResourceOwner : Type 0 where
  authentication : TransactionId → BiometricResourceOwner
  enrollment : OperationId → BiometricResourceOwner

-- `ActiveLease`, and the part of a `BiometricResourceLease` that is not the shared state
pub record Lease : Type 0 where
  pub generation : ℕ
  pub owner : BiometricResourceOwner

pub record ArbiterState : Type 0 where
  pub poisoned : Bool
  pub next_generation : ℕ
  pub active : Option Lease

pub data BiometricResourceError : Type 0 where
  busy : BiometricResourceOwner → BiometricResourceError
  unavailable : BiometricResourceError

-- `BiometricResourceArbiter::default`
abbrev pub fresh_arbiter : ArbiterState
fresh_arbiter = record { poisoned = false; next_generation = 0; active = none }

grant_lease :
    ℕ → BiometricResourceOwner → ArbiterState → Result BiometricResourceError Lease × ArbiterState
grant_lease generation owner s =
    let lease : Lease = record { generation = generation; owner = owner } in
    (ok lease, record { poisoned = s.poisoned; next_generation = generation; active = some lease })

-- `BiometricResourceArbiter::try_acquire`
unfoldable pub try_acquire :
    BiometricResourceOwner → ArbiterState → Result BiometricResourceError Lease × ArbiterState
unfolding grant_lease
try_acquire owner s = if s.poisoned then (err unavailable, s) else elim s.active [
  | some lease ↦ (err (busy lease.owner), s)
  | none ↦ elim (checked_add u64_mod s.next_generation 1) [
    | none ↦ (err unavailable, s)
    | some generation ↦ grant_lease generation owner s
  ]
]

-- `BiometricResourceArbiter::owner`
unfoldable pub current_owner :
    ArbiterState → Result BiometricResourceError (Option BiometricResourceOwner)
current_owner s =
    if s.poisoned
    then err unavailable
    else ok (elim s.active [ none ↦ none | some lease ↦ some lease.owner ])

-- `Drop for BiometricResourceLease`
unfoldable pub release : Lease → ArbiterState → ArbiterState
release lease s =
    if s.poisoned
    then s
    else if is_some_and s.active (λ held. held.generation == lease.generation)
    then record { poisoned = s.poisoned; next_generation = s.next_generation; active = none }
    else s
