-- ===== src/Daemon/Coordination.antt =====
-- `coordinate_authentication_connection` of crates/faceauth-daemon/src/lib.rs: the loop that takes the
-- engine's updates and the client's requests in turn. A round has what the engine's channel, the
-- kernel and the clock answer in one pass of the loop; a run is a list of rounds.
use faceauth_rs.Prelude.{
  ℕ, zero, suc, Bool, true, false, Option, none, some, Result, ok, err, nat_eq, ◌==◌, if◌then◌else◌,
  List, [], ◌∷◌,
}
use faceauth_rs.Prelude.Exec.{Exec, ◌>>=◌, ◌>>◌, pure, fail, reads, attempt}
use faceauth_rs.Prelude.Float.{Float, Arithmetic}
use faceauth_rs.Policy.{AuthPolicy}
use faceauth_rs.Protocol.{TransactionId, Response, completed, ProgressCode}
use faceauth_rs.Authz.{AuthorizationPolicy}
use faceauth_rs.Session.{ConnectionToken, SessionError, target_uid, cancellation_token}
use faceauth_rs.Session
use faceauth_rs.Storage.{StorageError, TemplateRecord}
use faceauth_rs.Daemon.{PassivePadPolicy, AuthenticationObservation}
use faceauth_rs.Daemon.Boundary.{
  PeerStream, BoundaryError, engine_stopped, Connected, Kernel, on_stream, on_sessions, handle_one,
  send_progress, send_engine_failure, send_completion,
}

abbrev pub max_cancel_drain_polls : ℕ
max_cancel_drain_polls = 400

-- `DerivedAuthenticationEvidence`
pub record Evidence (W : Type 0) : Type 0 where
  pub transaction_id : TransactionId
  pub observation : AuthenticationObservation W
  pub completed_at_micros : ℕ

-- `AuthenticationEngineUpdate`: `none` is a failure of the engine.
pub data Update (W : Type 0) : Type 0 where
  progressed : TransactionId → ProgressCode → Update W
  finished : TransactionId → Option (Evidence W) → Update W

-- What `recv_timeout` returns
pub data Received (W : Type 0) : Type 0 where
  updated : Update W → Received W
  timeout disconnected : Received W

pub record Round (W : Type 0) : Type 0 where
  pub received : Received W
  pub drained : ℕ → Received W
  pub kernel : Kernel
  pub update_at : ℕ
  pub request_at : ℕ
  pub cancel_at : ℕ

-- `drain_cancelled_engine`, with the polls that are left
unfoldable pub drain : {W : Type 0} → ℕ → (ℕ → Received W) → Result BoundaryError (Unit {0})
drain zero polls = err engine_stopped
drain (suc n) polls =
    let rest = drain n (λ i. polls (suc i)) in
    elim (polls 0) [ updated (finished t r) ↦ ok tt | disconnected ↦ err engine_stopped | _ ↦ rest ]

abbrev pub is_completed : Response → Bool
is_completed (completed t d) = true
is_completed _ = false

-- The next pass, unless one has returned
abbrev pub go_on :
    {S : Type 0}
    → Exec S BoundaryError (Option Response)
    → Option Response
    → Exec S BoundaryError (Option Response)
go_on rest none = rest
go_on rest (some response) = pure (some response)

module _ {S : Type 0} (stream : PeerStream S) {P K W : Type 0} ⦃f : Float W⦄ ⦃a : Arithmetic W⦄
    (authorization : AuthorizationPolicy)
    (templates : ℕ → Result (StorageError P K) (TemplateRecord W)) (rules : AuthPolicy W)
    (pad : PassivePadPolicy W) (connection : ConnectionToken) (transaction_id : TransactionId) where
  abbrev drain_all : Round W → Exec (Connected S) BoundaryError (Unit {0})
  drain_all r = reads (λ _. drain max_cancel_drain_polls r.drained)

  -- The engine is drained once the session has ended.
  unfoldable pub end_with : Round W → Response → Exec (Connected S) BoundaryError (Option Response)
  end_with r response = do drain_all r; pure (some response)

  -- An error of the connection cancels the session first.
  unfoldable pub abandon :
      Round W → BoundaryError → Exec (Connected S) BoundaryError (Option Response)
  abandon r e = do
    cancelled ← attempt (on_sessions stream (Session.cancel connection transaction_id r.cancel_at))
    drain_all r
    fail e

  -- The match on the result of `handle_one`
  unfoldable pub after_request :
      Round W → Result BoundaryError Response → Exec (Connected S) BoundaryError (Option Response)
  after_request r (ok response) = if is_completed response then end_with r response else pure none
  after_request r (err e) = abandon r e

  -- The match on `has_pending_input`
  unfoldable pub after_poll :
      Round W → Result BoundaryError Bool → Exec (Connected S) BoundaryError (Option Response)
  after_poll r (ok false) = pure none
  after_poll r (ok true) = do
    handled ← attempt (handle_one stream authorization r.kernel connection r.request_at)
    after_request r handled
  after_poll r (err e) = abandon r e

  unfoldable pub poll_input : Round W → Exec (Connected S) BoundaryError (Option Response)
  poll_input r = do
    pending ← attempt (on_stream stream stream.has_pending_input)
    after_poll r pending

  -- An update that is not the transaction's, or the end of the channel
  unfoldable pub fail_engine : Round W → Exec (Connected S) BoundaryError (Option Response)
  fail_engine r = do
    response ← send_engine_failure stream connection transaction_id r.update_at
    pure (some response)

  unfoldable pub take_progress :
      Round W → ProgressCode → Exec (Connected S) BoundaryError (Option Response)
  take_progress r progress = do
    response ← send_progress stream connection transaction_id progress r.update_at
    if is_completed response then end_with r response else poll_input r

  unfoldable pub take_result :
      Round W → Option (Evidence W) → Exec (Connected S) BoundaryError (Option Response)
  take_result r none = fail_engine r
  take_result r (some evidence) = do
    response ←
        send_completion stream templates connection evidence.transaction_id rules pad
          evidence.observation evidence.completed_at_micros
    pure (some response)

  -- The match on the update
  unfoldable pub take_update :
      Round W → Received W → Exec (Connected S) BoundaryError (Option Response)
  take_update r (updated (progressed t progress)) =
      if t == transaction_id then take_progress r progress else fail_engine r
  take_update r (updated (finished t result)) =
      if t == transaction_id then take_result r result else fail_engine r
  take_update r timeout = poll_input r
  take_update r disconnected = fail_engine r

  -- One pass of the loop: `none` goes on.
  unfoldable pub turn : Round W → Exec (Connected S) BoundaryError (Option Response)
  turn r = take_update r r.received

  -- The loop: `none` when the rounds are used up.
  unfoldable pub run : List (Round W) → Exec (Connected S) BoundaryError (Option Response)
  run [] = pure none
  run (r ∷ rest) = turn r >>= go_on (run rest)

  -- `AuthenticationJob::from_session`
  unfoldable pub authentication_job : Exec (Connected S) BoundaryError (Unit {0})
  authentication_job = do
    uid ← on_sessions stream (reads (target_uid connection transaction_id))
    token ← on_sessions stream (reads (cancellation_token connection transaction_id))
    pure tt

  -- `submitted` tells whether the engine took the job.
  unfoldable pub coordinate_started_authentication :
      Bool → ℕ → List (Round W) → Exec (Connected S) BoundaryError (Option Response)
  coordinate_started_authentication submitted now_micros rounds = do
    authentication_job
    if submitted then run rounds else (do
      response ← send_engine_failure stream connection transaction_id now_micros
      pure (some response))
