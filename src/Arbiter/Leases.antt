-- ===== src/Arbiter/Leases.antt =====
-- Histories of acquisitions and drops (crates/faceauth-daemon/src/resource.rs): who holds a lease.
use faceauth_rs.Prelude.{
  ℕ, zero, suc, ◌+◌, ◌<◌, ◌≡◌, ◌↔◌, ◌⊎◌, inl, inr, refl, true, false, Option, none, some, Result,
  ok, err, List, [], ◌∷◌, Option-cases, is_ok, arith,
}
use faceauth_rs.Prelude.Word.{u64_mod}
use faceauth_rs.Arbiter.{
  BiometricResourceOwner, BiometricResourceError, Lease, ArbiterState, fresh_arbiter, try_acquire,
  release, current_owner,
}

-- The arbiter, and the leases that are held: a lease is held from its acquisition to its drop.
pub record World : Type 0 where
  pub arbiter : ArbiterState
  pub held : List Lease

pub data Step : Type 0 where
  acquires : BiometricResourceOwner → Step
  drops : ℕ → Step

-- The lease at a place, and the leases without it.
abbrev pick : List Lease → ℕ → Option (Lease × List Lease)
pick [] i = none
pick (l ∷ ls) zero = some (l, ls)
pick (l ∷ ls) (suc i) = elim (pick ls i) [ none ↦ none | some (x, rest) ↦ some (x, l ∷ rest) ]

unfoldable pub acquired : Result BiometricResourceError Lease × ArbiterState → World → World
acquired (ok lease, s) w = record { arbiter = s; held = lease ∷ w.held }
acquired (err e, s) w = record { arbiter = s; held = w.held }

unfoldable pub step : Step → World → World
step (acquires owner) w = acquired (try_acquire owner w.arbiter) w
step (drops i) w = elim (pick w.held i) [
  | none ↦ w
  | some (lease, rest) ↦ record { arbiter = release lease w.arbiter; held = rest }
]

unfoldable pub replay : World → List Step → World
replay w [] = w
replay w (k ∷ ks) = replay (step k w) ks

abbrev leases_of : Option Lease → List Lease
leases_of none = []
leases_of (some lease) = lease ∷ []

-- The leases that are held are exactly the one that the arbiter has as active.
pub record IsExclusive (w : World) : Type 0 where
  pub usable : w.arbiter.poisoned ≡ false
  pub exact : w.held ≡ leases_of w.arbiter.active

abbrev pub start : World
start = record { arbiter = fresh_arbiter; held = [] }

acquire-IsExclusive :
    (owner : BiometricResourceOwner) (w : World)
    → IsExclusive w
    → IsExclusive (step (acquires owner) w)
unfolding step try_acquire acquired
acquire-IsExclusive owner w h = record { usable = ground arith; exact = ground arith }

drop-IsExclusive : (i : ℕ) (w : World) → IsExclusive w → IsExclusive (step (drops i) w)
unfolding step release
drop-IsExclusive zero w h = record { usable = ground arith; exact = ground arith }
drop-IsExclusive (suc i) w h = record { usable = ground arith; exact = ground arith }

replay-IsExclusive : (w : World) (ks : List Step) → IsExclusive w → IsExclusive (replay w ks)
unfolding replay
replay-IsExclusive w [] h = h
replay-IsExclusive w (acquires owner ∷ ks) h =
    replay-IsExclusive (step (acquires owner) w) ks (acquire-IsExclusive owner w h)
replay-IsExclusive w (drops i ∷ ks) h =
    replay-IsExclusive (step (drops i) w) ks (drop-IsExclusive i w h)

start-IsExclusive : (ks : List Step) → IsExclusive (replay start ks)
start-IsExclusive ks = replay-IsExclusive start ks (record { usable = refl; exact = refl })

Exclusive_owner :
    (w : World)
    → IsExclusive w
    → ((w.held ≡ []) × (current_owner w.arbiter ≡ ok none))
      ⊎ ((lease : Lease) × (w.held ≡ lease ∷ [])
          × (current_owner w.arbiter ≡ ok (some lease.owner)))
unfolding current_owner
Exclusive_owner w h = elim (Option-cases w.arbiter.active) [
  | inl e ↦ inl (ground arith, ground arith)
  | inr (lease, e) ↦ inr (lease, ground arith, ground arith)
]

-- After any history of acquisitions and drops on a new arbiter, either no lease is held and the
-- arbiter names no owner, or exactly one is held and the arbiter names its owner.
pub current_owner-replay :
    (ks : List Step)
    → let w = replay start ks in
      ((w.held ≡ []) × (current_owner w.arbiter ≡ ok none))
      ⊎ ((lease : Lease) × (w.held ≡ lease ∷ [])
          × (current_owner w.arbiter ≡ ok (some lease.owner)))
current_owner-replay ks = Exclusive_owner (replay start ks) (start-IsExclusive ks)

IsExclusive-acquires :
    (w : World) (owner : BiometricResourceOwner)
    → IsExclusive w
    → (is_ok (try_acquire owner w.arbiter).0 ≡ true)
      ↔ ((w.held ≡ []) × (w.arbiter.next_generation + 1 < u64_mod))
unfolding try_acquire
IsExclusive-acquires w owner h = ground arith

-- After any history of acquisitions and drops on a new arbiter, an owner acquires a lease exactly
-- when no lease is held and the generation counter can still grow.
pub try_acquire-replay :
    (ks : List Step) (owner : BiometricResourceOwner)
    → let w = replay start ks in
      (is_ok (try_acquire owner w.arbiter).0 ≡ true)
      ↔ ((w.held ≡ []) × (w.arbiter.next_generation + 1 < u64_mod))
try_acquire-replay ks owner = IsExclusive-acquires (replay start ks) owner (start-IsExclusive ks)
