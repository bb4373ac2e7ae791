-- ===== src/Daemon/Boundary.antt =====
-- `BoundaryService` of crates/faceauth-daemon/src/lib.rs: one request of a connection through executable
-- verification, authorization and the session manager, and the responses that end a transaction.
-- The stream of a connection is an interface, which crates/faceauth-transport fills.
use faceauth_rs.Prelude.{ℕ, Bool, Option, some, Result, ok, err}
use faceauth_rs.Prelude.Exec.{Exec, ◌>>=◌, ◌>>◌, pure, on_part}
use faceauth_rs.Prelude.Float.{Float, Arithmetic}
use faceauth_rs.Policy.{AuthPolicy}
use faceauth_rs.Protocol.{
  TransactionId, Request, authenticate, cancel, Response, rejected, ProgressCode, internal_error,
  RequestContext, RejectionCode, busy, service_unavailable, service_not_allowed, unauthorized_peer,
}
use faceauth_rs.Transport.{PeerIdentity, TransportError}
use faceauth_rs.Authz.{AuthorizationPolicy, AuthorizationGrant, AuthorizationError, authorize}
use faceauth_rs.Authz.Executable.{PidField, Metadata, from_peer}
use faceauth_rs.Session.{ConnectionToken, SessionError, World, start, complete}
use faceauth_rs.Session
use faceauth_rs.Storage.{StorageError, TemplateRecord}
use faceauth_rs.Daemon.{PassivePadPolicy, AuthenticationObservation, complete_authentication}

-- `PeerStream`
pub record PeerStream (S : Type 0) : Type 0 where
  pub peer : PeerIdentity
  pub read_message : Exec S TransportError Request
  pub write_message : Response → Exec S TransportError (Unit {0})
  pub has_pending_input : Exec S TransportError Bool

pub data BoundaryError : Type 0 where
  transport : TransportError → BoundaryError
  session : SessionError → BoundaryError
  engine_stopped : BoundaryError

-- The sessions of the service, with the stream that it serves.
pub record Connected (S : Type 0) : Type 0 where
  pub sessions : World
  pub stream : S

-- What the kernel answers about the executable of a peer.
pub record Kernel : Type 0 where
  pub before : PidField
  pub file : Option (Option Metadata)
  pub after : PidField

pub data ExecutableOrAuthorizationError : Type 0 where
  executable : ExecutableOrAuthorizationError
  authorization : AuthorizationError → ExecutableOrAuthorizationError

-- `VerifiedExecutable::from_peer(…).and_then(|executable| self.authorization.authorize(…))`
unfoldable pub grant_for :
    AuthorizationPolicy
    → PeerIdentity
    → Kernel
    → RequestContext
    → Result ExecutableOrAuthorizationError AuthorizationGrant
grant_for policy peer kernel context =
    elim (from_peer peer kernel.before kernel.file kernel.after) [
      | err e ↦ err executable
      | ok verified ↦ elim (authorize policy peer (some verified) context) [
        | ok grant ↦ ok grant
        | err e ↦ err (authorization e)
      ]
    ]

-- The rejections that each error becomes
unfoldable pub grant_rejection : ExecutableOrAuthorizationError → RejectionCode
grant_rejection (authorization AuthorizationError.service_not_allowed) = service_not_allowed
grant_rejection _ = unauthorized_peer

unfoldable pub start_rejection : SessionError → RejectionCode
start_rejection SessionError.busy = busy
start_rejection _ = service_unavailable

unfoldable pub cancel_rejection : SessionError → RejectionCode
cancel_rejection SessionError.wrong_connection = unauthorized_peer
cancel_rejection SessionError.wrong_transaction = unauthorized_peer
cancel_rejection _ = service_unavailable

-- The response to a call of the session manager: its own, or a rejection.
abbrev pub or_rejected :
    TransactionId
    → (SessionError → RejectionCode)
    → Result SessionError Response × World
    → Response × World
or_rejected transaction_id rejection (ok response, w) = (response, w)
or_rejected transaction_id rejection (err e, w) = (rejected (some transaction_id) (rejection e), w)

-- The `match request` of `handle_one`
unfoldable pub respond :
    AuthorizationPolicy
    → PeerIdentity
    → Kernel
    → ConnectionToken
    → ℕ
    → Request
    → World
    → Response × World
respond policy peer kernel connection now_micros (authenticate context) w =
    elim (grant_for policy peer kernel context) [
      | ok grant ↦
          or_rejected context.transaction_id start_rejection (start grant connection now_micros w)
      | err e ↦ (rejected (some context.transaction_id) (grant_rejection e), w)
    ]
respond policy peer kernel connection now_micros (cancel transaction_id) w =
    or_rejected transaction_id cancel_rejection
      (Session.cancel connection transaction_id now_micros w)

module _ {S : Type 0} (stream : PeerStream S) where
  abbrev pub on_stream : {A : Type 0} → Exec S TransportError A → Exec (Connected S) BoundaryError A
  on_stream m =
      on_part (λ (b : Connected S). b.stream) (λ t b. record { sessions = b.sessions; stream = t })
        transport m

  abbrev pub on_sessions :
      {A : Type 0} → Exec World SessionError A → Exec (Connected S) BoundaryError A
  on_sessions m =
      on_part (λ (b : Connected S). b.sessions) (λ w b. record { sessions = w; stream = b.stream })
        session m

  -- A step on the sessions that cannot fail
  abbrev pub answer : (World → Response × World) → Exec (Connected S) BoundaryError Response
  answer m b = let (r, w) = m b.sessions in (ok r, record { sessions = w; stream = b.stream })

  -- A response is written, and returned.
  unfoldable pub deliver : Response → Exec (Connected S) BoundaryError Response
  deliver response = do on_stream (stream.write_message response); pure response

  unfoldable pub handle_one :
      AuthorizationPolicy → Kernel → ConnectionToken → ℕ → Exec (Connected S) BoundaryError Response
  handle_one policy kernel connection now_micros = do
    request ← on_stream stream.read_message
    response ← answer (respond policy stream.peer kernel connection now_micros request)
    deliver response

  unfoldable pub send_progress :
      ConnectionToken → TransactionId → ProgressCode → ℕ → Exec (Connected S) BoundaryError Response
  send_progress connection transaction_id progress now_micros = do
    response ← on_sessions (Session.send_progress connection transaction_id progress now_micros)
    deliver response

  unfoldable pub send_engine_failure :
      ConnectionToken → TransactionId → ℕ → Exec (Connected S) BoundaryError Response
  send_engine_failure connection transaction_id now_micros = do
    response ← on_sessions (complete connection transaction_id internal_error now_micros)
    deliver response

  module _ {P K W : Type 0} ⦃f : Float W⦄ ⦃a : Arithmetic W⦄ where
    unfoldable pub send_completion :
        (ℕ → Result (StorageError P K) (TemplateRecord W))
        → ConnectionToken
        → TransactionId
        → AuthPolicy W
        → PassivePadPolicy W
        → AuthenticationObservation W
        → ℕ
        → Exec (Connected S) BoundaryError Response
    send_completion templates connection transaction_id rules pad o now_micros = do
      response ←
          on_sessions
            (complete_authentication templates connection transaction_id rules pad o now_micros)
      deliver response
