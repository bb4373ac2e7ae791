-- ===== src/Daemon/Stops.antt =====
-- The loop of a connection ends (crates/faceauth-daemon/src/lib.rs).
use faceauth_rs.Prelude.{
  ◌++◌, ℕ, ◌≡◌, inl, inr, refl, subst, Bool, true, false, Option, none, some, Result, ok, nat_eq,
  ◌==◌, List, [], ◌∷◌, arith, Bool-cases,
}
use faceauth_rs.Prelude.Exec.{Exec, ◌>>=◌, pure, bind_post}
use faceauth_rs.Protocol.{TransactionId, Response}
use faceauth_rs.Authz.{AuthorizationPolicy}
use faceauth_rs.Session.{ConnectionToken}
use faceauth_rs.Daemon.Boundary.{BoundaryError, Connected, PeerStream, send_engine_failure}
use faceauth_rs.Prelude.Float.{Float, Arithmetic}
use faceauth_rs.Policy.{AuthPolicy}
use faceauth_rs.Storage.{StorageError, TemplateRecord}
use faceauth_rs.Daemon.{PassivePadPolicy}
use faceauth_rs.Daemon.Boundary.{send_completion}
use faceauth_rs.Daemon.Coordination.{
  Evidence, progressed, finished, Received, updated, timeout, disconnected, Round, fail_engine,
  take_result, take_update, go_on, turn, run,
}

abbrev pub goes_on : Result BoundaryError (Option Response) → Bool
goes_on (ok none) = true
goes_on _ = false

-- The update after which the engine has no more to say: its result, the end of its channel, or an
-- update of another transaction
abbrev pub IsLast : {W : Type 0} → TransactionId → Received W → Type 0
IsLast t (updated (finished u result)) = Unit
IsLast t (updated (progressed u p)) = (u == t) ≡ false
IsLast t timeout = ⊥
IsLast t disconnected = Unit

returned :
    {S : Type 0} (m : Exec S BoundaryError Response) (b : S)
    → goes_on ((m >>= λ x. pure (some x)) b).0 ≡ false
returned m b =
    bind_post (λ z. goes_on z.0 ≡ false) m (λ x. pure (some x)) b (λ x t e. refl) (λ x t e. refl)

module _ {P K W : Type 0} ⦃f : Float W⦄ ⦃n : Arithmetic W⦄
    (templates : ℕ → Result (StorageError P K) (TemplateRecord W)) (rules : AuthPolicy W)
    (pad : PassivePadPolicy W) {S : Type 0} (stream : PeerStream S) (policy : AuthorizationPolicy)
    (c : ConnectionToken) (t : TransactionId) where
  result_stops :
      (r : Round W) (result : Option (Evidence W)) (b : Connected S)
      → goes_on (take_result stream policy templates rules pad c t r result b).0 ≡ false
  unfolding take_result fail_engine
  result_stops r none b = returned (send_engine_failure stream c t r.update_at) b
  result_stops r (some e) b =
      returned
        (send_completion stream templates c e.transaction_id rules pad e.observation
          e.completed_at_micros)
        b

  failure_stops :
      (r : Round W) (b : Connected S)
      → goes_on (fail_engine stream policy templates rules pad c t r b).0 ≡ false
  unfolding fail_engine
  failure_stops r b = returned (send_engine_failure stream c t r.update_at) b

  update_stops :
      (r : Round W) (u : Received W) (b : Connected S)
      → IsLast t u
      → goes_on (take_update stream policy templates rules pad c t r u b).0 ≡ false
  unfolding take_update
  update_stops r (updated (progressed s p)) b last = rw (take_update, last) (failure_stops r b)
  update_stops r (updated (finished s result)) b last = elim (Bool-cases (s == t)) [
    | inl e ↦ rw (take_update, e) (result_stops r result b)
    | inr e ↦ rw (take_update, e) (failure_stops r b)
  ]
  update_stops r timeout b last = elim last [ ]
  update_stops r disconnected b last = failure_stops r b

  -- The loop returns once the engine has sent its result, has closed its channel, or has sent an
  -- update of another transaction, whatever came before and whatever the client does: with such a
  -- round among those that it is given, it does not run on.
  pub run-stops :
      (before : List (Round W)) (r : Round W) (after : List (Round W)) (b : Connected S)
      → IsLast t r.received
      → goes_on (run stream policy templates rules pad c t (before ++ r ∷ after) b).0 ≡ false
  unfolding run turn
  run-stops [] r after b last =
      bind_post (λ z. goes_on z.0 ≡ false)
        (take_update stream policy templates rules pad c t r r.received)
        (go_on (run stream policy templates rules pad c t after)) b
        (λ o d e.
          ended_here o d (subst (λ z. goes_on z.0 ≡ false) e (update_stops r r.received b last)))
        (λ x d e. refl)
    where
      ended_here :
          (o : Option Response) (d : Connected S)
          → goes_on (ok o) ≡ false
          → goes_on (go_on (run stream policy templates rules pad c t after) o d).0 ≡ false
      ended_here none d h = ground arith
      ended_here (some x) d h = refl
  run-stops (x ∷ before) r after b last =
      bind_post (λ z. goes_on z.0 ≡ false)
        (take_update stream policy templates rules pad c t x x.received)
        (go_on (run stream policy templates rules pad c t (before ++ r ∷ after))) b
        (λ o d e. later (λ k. run-stops before r after k last) o d) (λ y d e. refl)
    where
      later :
          ((k : Connected S)
            → goes_on (run stream policy templates rules pad c t (before ++ r ∷ after) k).0 ≡ false)
          → (o : Option Response) (d : Connected S)
          → goes_on (go_on (run stream policy templates rules pad c t (before ++ r ∷ after)) o d).0
            ≡ false
      later ih none d = ih d
      later ih (some y) d = refl
