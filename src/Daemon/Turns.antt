-- ===== src/Daemon/Turns.antt =====
-- The loop of a connection (crates/faceauth-daemon/src/lib.rs), pass by pass: what each pass leaves of the
-- session that it serves.
use faceauth_rs.Prelude.{
  ℕ, ◌≡◌, ◌⊎◌, inl, inr, refl, ap, sym, subst, ◌∙◌, Bool, true, false, Option, none, some, Result,
  ok, err, nat_eq, ◌==◌, if◌then◌else◌, List, [], ◌∷◌, arith, Result-cases, Bool-cases,
}
use faceauth_rs.Prelude.Exec.{Exec, ◌>>=◌, pure, bind_post}
use faceauth_rs.Protocol.{TransactionId, Response, ProgressCode}
use faceauth_rs.Authz.{AuthorizationPolicy}
use faceauth_rs.Session.{
  ConnectionToken, SessionError, ActiveSession, World, start, is_reserved, complete,
}
use faceauth_rs.Session
use faceauth_rs.Daemon.Coordination.{is_completed}
use faceauth_rs.Session.Calls.{IsBound, cancels, perform_bound}
use faceauth_rs.Daemon.Boundary.{
  BoundaryError, Connected, PeerStream, handle_one, send_progress, send_engine_failure,
}
use faceauth_rs.Prelude.Float.{Float, Arithmetic}
use faceauth_rs.Policy.{AuthPolicy}
use faceauth_rs.Storage.{StorageError, TemplateRecord}
use faceauth_rs.Session.{verify_binding, target_uid, cancellation_token}
use faceauth_rs.Daemon.{PassivePadPolicy}
use faceauth_rs.Daemon.Boundary.{send_completion}
use faceauth_rs.Daemon.Coordination.{
  Evidence, progressed, finished, Received, updated, timeout, disconnected, Round, drain, end_with,
  abandon, after_request, after_poll, poll_input, fail_engine, take_progress, take_result,
  take_update, go_on, turn, run, authentication_job, coordinate_started_authentication,
}
use faceauth_rs.Daemon.Endings.{IsFree, IsEnded, Fate, failure-Fate, report-Fate, request-Fate}
use faceauth_rs.Daemon.Completions.{derived-Fate}

cancel-IsFree :
    (c : ConnectionToken) (t : TransactionId) (now : ℕ) (w : World)
    → IsFree w
    → IsFree (Session.cancel c t now w).1
unfolding Session.cancel verify_binding
cancel-IsFree c t now w h = ground arith

module _ (c : ConnectionToken) (t : TransactionId) (a : ActiveSession) where
  -- The loop goes on with the session held, or returns the terminal response with it freed.
  abbrev pub Settles : Result BoundaryError (Option Response) → World → Type 0
  Settles (ok none) w = IsBound c t w a
  Settles (ok (some r)) w = IsEnded t r w
  Settles (err e) w = IsFree w ⊎ IsBound c t w a

  cancel_over :
      (now : ℕ) (w : World) → IsFree w ⊎ IsBound c t w a → IsFree (Session.cancel c t now w).1
  cancel_over now w (inl free) = cancel-IsFree c t now w free
  cancel_over now w (inr bound) = rw (perform_bound cancels c t now w a bound) refl

  module _ {P K W : Type 0} ⦃f : Float W⦄ ⦃n : Arithmetic W⦄
      (templates : ℕ → Result (StorageError P K) (TemplateRecord W)) (rules : AuthPolicy W)
      (pad : PassivePadPolicy W) where
    module _ {S : Type 0} (stream : PeerStream S) (policy : AuthorizationPolicy) where
      abbrev Settled : Exec (Connected S) BoundaryError (Option Response) → Connected S → Type 0
      Settled m b = Settles (m b).0 (m b).1.sessions

      end_settles :
          (r : Round W) (x : Response) (b : Connected S)
          → IsEnded t x b.sessions
          → Settled (end_with stream policy templates rules pad c t r x) b
      unfolding end_with
      end_settles r x b h = elim (Result-cases (drain 400 r.drained)) [
        | inl (u, e) ↦ rw (end_with, e) h
        | inr (y, e) ↦ rw (end_with, e) (inl h.1)
      ]

      abandon_settles :
          (r : Round W) (x : BoundaryError) (b : Connected S)
          → IsFree b.sessions ⊎ IsBound c t b.sessions a
          → Settled (abandon stream policy templates rules pad c t r x) b
      unfolding abandon
      abandon_settles r x b h = elim (Result-cases (drain 400 r.drained)) [
        | inl (u, e) ↦ rw (abandon, e) (inl (cancel_over r.cancel_at b.sessions h))
        | inr (y, e) ↦ rw (abandon, e) (inl (cancel_over r.cancel_at b.sessions h))
      ]

      after_request_settles :
          (r : Round W) (res : Result BoundaryError Response) (b : Connected S)
          → Fate c t a true res b.sessions
          → Settled (after_request stream policy templates rules pad c t r res) b
      unfolding after_request
      after_request_settles r (err x) b h = abandon_settles r x b h
      after_request_settles r (ok x) b h = elim h [
        | inl over ↦
            let closed : is_completed x ≡ true = ap is_completed over.0.1 in
            rw (after_request, closed) (end_settles r x b over)
        | inr (go, still, bound) ↦ rw (after_request, still) bound
      ]

      after_poll_settles :
          (r : Round W) (res : Result BoundaryError Bool) (b : Connected S)
          → IsBound c t b.sessions a
          → Settled (after_poll stream policy templates rules pad c t r res) b
      unfolding after_poll
      after_poll_settles r (err x) b h = abandon_settles r x b (inr h)
      after_poll_settles r (ok false) b h = h
      after_poll_settles r (ok true) b h =
          after_request_settles r (handle_one stream policy r.kernel c r.request_at b).0 _
            (request-Fate c t a stream policy r.kernel r.request_at b h)

      poll_settles :
          (r : Round W) (b : Connected S)
          → IsBound c t b.sessions a
          → Settled (poll_input stream policy templates rules pad c t r) b
      unfolding poll_input
      poll_settles r b h = after_poll_settles r _ _ h

      -- A response that ends the transaction ends the pass.
      returned_settles :
          (m : Exec (Connected S) BoundaryError Response) (b : Connected S)
          → Fate c t a false (m b).0 (m b).1.sessions
          → Settled (m >>= λ x. pure (some x)) b
      returned_settles m b h =
          bind_post (λ z. Settles z.0 z.1.sessions) m (λ x. pure (some x)) b
            (λ x after e. elim (subst (λ z. Fate c t a false z.0 z.1.sessions) e h) [
              | inl over ↦ over
              | inr (go, still, bound) ↦ absurd (ground arith)
            ])
            (λ x after e. subst (λ z. Fate c t a false z.0 z.1.sessions) e h)

      fail_settles :
          (r : Round W) (b : Connected S)
          → IsBound c t b.sessions a
          → Settled (fail_engine stream policy templates rules pad c t r) b
      unfolding fail_engine
      fail_settles r b h =
          returned_settles (send_engine_failure stream c t r.update_at) b
            (failure-Fate c t a stream r.update_at b h)

      progress_settles :
          (r : Round W) (p : ProgressCode) (b : Connected S)
          → IsBound c t b.sessions a
          → Settled (take_progress stream policy templates rules pad c t r p) b
      unfolding take_progress
      progress_settles r p b h =
          bind_post (λ z. Settles z.0 z.1.sessions) (send_progress stream c t p r.update_at)
            (λ x.
              if is_completed x
              then end_with stream policy templates rules pad c t r x
              else poll_input stream policy templates rules pad c t r)
            b
            (λ x after e.
              elim (subst (λ z. Fate c t a true z.0 z.1.sessions) e
                (report-Fate c t a stream p r.update_at b h)) [
                  | inl over ↦
                      let closed : is_completed x ≡ true = ap is_completed over.0.1 in
                      rw closed (end_settles r x after over)
                  | inr (go, still, bound) ↦ rw still (poll_settles r after bound)
                ])
            (λ x after e.
              subst (λ z. Fate c t a true z.0 z.1.sessions) e
                (report-Fate c t a stream p r.update_at b h))

      result_settles :
          (r : Round W) (result : Option (Evidence W)) (b : Connected S)
          → IsBound c t b.sessions a
          → Settled (take_result stream policy templates rules pad c t r result) b
      unfolding take_result
      result_settles r none b h = fail_settles r b h
      result_settles r (some e) b h =
          returned_settles
            (send_completion stream templates c e.transaction_id rules pad e.observation
              e.completed_at_micros)
            b
            (derived-Fate c t a templates rules pad stream e.transaction_id e.observation
              e.completed_at_micros b h)

      update_settles :
          (r : Round W) (u : Received W) (b : Connected S)
          → IsBound c t b.sessions a
          → Settled (take_update stream policy templates rules pad c t r u) b
      unfolding take_update
      update_settles r (updated (progressed s p)) b h = elim (Bool-cases (s == t)) [
        | inl e ↦ rw (take_update, e) (progress_settles r p b h)
        | inr e ↦ rw (take_update, e) (fail_settles r b h)
      ]
      update_settles r (updated (finished s result)) b h = elim (Bool-cases (s == t)) [
        | inl e ↦ rw (take_update, e) (result_settles r result b h)
        | inr e ↦ rw (take_update, e) (fail_settles r b h)
      ]
      update_settles r timeout b h = poll_settles r b h
      update_settles r disconnected b h = fail_settles r b h

      run_settles :
          (rounds : List (Round W)) (b : Connected S)
          → IsBound c t b.sessions a
          → Settled (run stream policy templates rules pad c t rounds) b
      unfolding run turn
      run_settles [] b h = h
      run_settles (r ∷ rest) b h =
          let here = update_settles r r.received b h in
          bind_post (λ z. Settles z.0 z.1.sessions)
            (take_update stream policy templates rules pad c t r r.received)
            (go_on (run stream policy templates rules pad c t rest)) b
            (λ o after e.
              next (run_settles rest) o after (subst (λ z. Settles z.0 z.1.sessions) e here))
            (λ x after e. subst (λ z. Settles z.0 z.1.sessions) e here)
        where
          next :
              ((d : Connected S)
                → IsBound c t d.sessions a
                → Settled (run stream policy templates rules pad c t rest) d)
              → (o : Option Response) (after : Connected S) → Settles (ok o) after.sessions
              → Settled (go_on (run stream policy templates rules pad c t rest) o) after
          next ih none after h₁ = ih after h₁
          next ih (some x) after h₁ = h₁

      job_keeps :
          (b : Connected S)
          → (authentication_job stream policy templates rules pad c t b).1.sessions ≡ b.sessions
      unfolding authentication_job
      job_keeps b = elim (Result-cases (target_uid c t b.sessions)) [
        | inr (x, e) ↦ ground arith
        | inl (uid, e) ↦ ground arith
      ]

      -- A started transaction on the connection that holds it: whatever the engine, the client, the
      -- kernel and the clock do, a return without an error hands over a terminal response for just
      -- that transaction with the session freed, and as long as the loop goes on the session is held
      -- as it was. After an error the session is free, or still the one it was.
      pub coordinate-Settles :
          (submitted : Bool) (now : ℕ) (rounds : List (Round W)) (b : Connected S)
          → IsBound c t b.sessions a
          → let (r, after) =
              coordinate_started_authentication stream policy templates rules pad c t submitted now
                rounds b in
            Settles r after.sessions
      unfolding coordinate_started_authentication
      coordinate-Settles submitted now rounds b h =
          bind_post (λ z. Settles z.0 z.1.sessions)
            (authentication_job stream policy templates rules pad c t)
            (λ u.
              if submitted
              then run stream policy templates rules pad c t rounds
              else (send_engine_failure stream c t now >>= λ x. pure (some x)))
            b (λ u after e. started submitted after (kept e)) (λ x after e. inr (kept e))
        where
          kept :
              {x : Result BoundaryError (Unit {0})} {after : Connected S}
              → authentication_job stream policy templates rules pad c t b ≡ (x, after)
              → IsBound c t after.sessions a
          kept e =
              subst (λ w. IsBound c t w a)
                (sym (job_keeps b)
                  ∙ ap (λ (z : Result BoundaryError (Unit {0}) × Connected S). z.1.sessions) e)
                h

          started :
              (taken : Bool) (after : Connected S)
              → IsBound c t after.sessions a
              → Settled
                  (if taken
                    then run stream policy templates rules pad c t rounds
                    else (send_engine_failure stream c t now >>= λ x. pure (some x)))
                  after
          started true after h₁ = run_settles rounds after h₁
          started false after h₁ =
              returned_settles (send_engine_failure stream c t now) after
                (failure-Fate c t a stream now after h₁)
