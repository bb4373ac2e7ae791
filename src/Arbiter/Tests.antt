-- ===== src/Arbiter/Tests.antt =====
-- The arbiter at a concrete history.
use faceauth_rs.Prelude.{zero, ◌≡◌, ◌⊎◌, refl, none, some, ok, List, [], ◌∷◌}
use faceauth_rs.Arbiter.{
  Lease, authentication, enrollment, fresh_arbiter, try_acquire, release, current_owner,
}
use faceauth_rs.Arbiter.Leases.{
  Step, acquires, drops, acquired, step, replay, start, current_owner-replay,
}

abbrev steps : List Step
steps =
    acquires (authentication 7)
    ∷ acquires (enrollment 5)
    ∷ drops zero
    ∷ acquires (enrollment 5)
    ∷ []

-- The enrollment waits for nobody: it is refused at first, and gets the second generation later.
steps_leave : replay start steps ≡ (
    let lease : Lease = record { generation = 2; owner = enrollment 5 } in
    record {
      arbiter = record {
        poisoned = fresh_arbiter.poisoned;
        next_generation = 2;
        active = some lease;
      };
      held = lease ∷ [];
    })
unfolding replay step acquired try_acquire release
steps_leave = refl

current_owner-replay_example :
    let w = replay start steps in
    ((w.held ≡ []) × (current_owner w.arbiter ≡ ok none))
    ⊎ ((lease : Lease) × (w.held ≡ lease ∷ []) × (current_owner w.arbiter ≡ ok (some lease.owner)))
current_owner-replay_example = current_owner-replay steps
