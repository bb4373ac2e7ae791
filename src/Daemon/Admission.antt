-- ===== src/Daemon/Admission.antt =====
-- What it takes to start a transaction (crates/faceauth-daemon/src/lib.rs).
use faceauth_rs.Prelude.{
  ℕ, ◌≡◌, inl, inr, refl, ap, Bool, true, false, none, some, Result, ok, err, is_ok, arith,
  Result-cases, Option-cases, length,
}
use faceauth_rs.Prelude.Word.{u64_mod, checked_add}
use faceauth_rs.Protocol.{TransactionId, Request, authenticate, Response, started, RequestContext}
use faceauth_rs.Transport.{PeerIdentity}
use faceauth_rs.Authz.{AuthorizationPolicy, AuthorizationGrant, VerifiedExecutable, authorize}
use faceauth_rs.Authz.Executable.{from_peer}
use faceauth_rs.Session.{ConnectionToken, SessionError, ActiveSession, World, start, admit}
use faceauth_rs.Session
use faceauth_rs.Session.Calls.{cancels, perform_bound, perform_foreign, owner_or_stranger}
use faceauth_rs.Daemon.Boundary.{
  Kernel, grant_for, or_rejected, start_rejection, cancel_rejection, respond,
}

-- A transaction that was admitted: its caller's executable was verified, the policy granted it,
-- no session was held, and the session that is held now is its own.
pub record IsAdmitted (policy : AuthorizationPolicy) (peer : PeerIdentity) (kernel : Kernel)
    (c : ConnectionToken) (q : Request) (u : TransactionId) (before after : World) : Type 0 where
  pub context : RequestContext
  pub asked : q ≡ authenticate context
  pub verified : VerifiedExecutable
  pub identified : from_peer peer kernel.before kernel.file kernel.after ≡ ok verified
  pub grant : AuthorizationGrant
  pub granted : authorize policy peer (some verified) context ≡ ok grant
  pub named : u ≡ grant.transaction_id
  pub free : before.manager.active ≡ none
  pub session : ActiveSession
  pub held : after.manager.active ≡ some session
  pub own_grant : session.grant ≡ grant
  pub own_connection : session.connection ≡ c

is_started : Response → Bool
is_started (started u) = true
is_started _ = false

cancel_no_start :
    (c : ConnectionToken) (t : TransactionId) (now : ℕ) (w : World)
    → is_started (or_rejected t cancel_rejection (Session.cancel c t now w)).0 ≡ false
unfolding is_started
cancel_no_start c t now w = elim (owner_or_stranger c t w) [
  | inl (s, own) ↦ rw (perform_bound cancels c t now w s own) refl
  | inr foreign ↦ refused (Session.cancel c t now w) (perform_foreign cancels c t now w foreign).1
]
  where
    refused :
        (z : Result SessionError Response × World)
        → is_ok z.0 ≡ false
        → is_started (or_rejected t cancel_rejection z).0 ≡ false
    refused (ok r, v) h = absurd (ground arith)
    refused (err e, v) h = refl

grant_for-ok :
    (policy : AuthorizationPolicy) (peer : PeerIdentity) (kernel : Kernel)
    (context : RequestContext) (grant : AuthorizationGrant)
    → grant_for policy peer kernel context ≡ ok grant
    → (verified : VerifiedExecutable) × (from_peer peer kernel.before kernel.file kernel.after
        ≡ ok verified)
      × (authorize policy peer (some verified) context ≡ ok grant)
unfolding grant_for
grant_for-ok policy peer kernel context grant h =
    elim (Result-cases (from_peer peer kernel.before kernel.file kernel.after)) [
      | inr (x, e) ↦ absurd (ground arith)
      | inl (verified, e) ↦ elim (Result-cases (authorize policy peer (some verified) context)) [
        | inr (x, e₁) ↦ absurd (ground arith)
        | inl (g, e₁) ↦ (verified, e, ground arith)
      ]
    ]

record Started (grant : AuthorizationGrant) (c : ConnectionToken) (u : TransactionId)
    (before after : World) : Type 0 where
  pub named : u ≡ grant.transaction_id
  pub free : before.manager.active ≡ none
  pub session : ActiveSession
  pub held : after.manager.active ≡ some session
  pub own_grant : session.grant ≡ grant
  pub own_connection : session.connection ≡ c

start-Started :
    (t u : TransactionId) (grant : AuthorizationGrant) (c : ConnectionToken) (now : ℕ) (w : World)
    → (or_rejected t start_rejection (start grant c now w)).0 ≡ started u
    → Started grant c u w (or_rejected t start_rejection (start grant c now w)).1
unfolding start admit
start-Started t u grant c now w h = elim (Option-cases w.manager.active) [
  | inr (s, e) ↦ absurd (ground arith)
  | inl e ↦
      elim (Option-cases (checked_add u64_mod now w.manager.config.transaction_duration_micros)) [
        | inl e₁ ↦ absurd (ground arith)
        | inr (deadline, e₁) ↦
            let made : ActiveSession = record {
              grant = grant;
              connection = c;
              deadline_micros = deadline;
              cancellation = length w.cells;
            } in
            record {
              named = ground arith;
              free = e;
              session = made;
              held = ground arith;
              own_grant = refl;
              own_connection = refl;
            }
      ]
]

-- Only a request to authenticate starts a transaction, and only when the kernel identifies the
-- caller's executable, the policy grants the request for it, and no session is held; the session
-- held then is the one of that grant, on that connection.
pub respond-IsAdmitted :
    (policy : AuthorizationPolicy) (peer : PeerIdentity) (kernel : Kernel) (c : ConnectionToken)
    (now : ℕ) (q : Request) (u : TransactionId) (w : World)
    → (respond policy peer kernel c now q w).0 ≡ started u
    → IsAdmitted policy peer kernel c q u w (respond policy peer kernel c now q w).1
unfolding respond is_started
respond-IsAdmitted policy peer kernel c now (Request.cancel t) u w h =
    absurd (no_start (ap is_started h) (cancel_no_start c t now w))
  where
    no_start : {b : Bool} → b ≡ true → b ≡ false → ⊥
    no_start x y = ground arith
respond-IsAdmitted policy peer kernel c now (authenticate context) u w h =
    elim (Result-cases (grant_for policy peer kernel context)) [
      | inr (x, e) ↦ absurd (ground arith)
      | inl (grant, e) ↦
          let (verified, identified, granted) = grant_for-ok policy peer kernel context grant e in
          let s = start-Started context.transaction_id u grant c now w (ground (arith, h, e)) in
          rw (respond, e)
            (record {
              context = context;
              asked = refl;
              verified = verified;
              identified = identified;
              grant = grant;
              granted = granted;
              named = s.named;
              free = s.free;
              session = s.session;
              held = s.held;
              own_grant = s.own_grant;
              own_connection = s.own_connection;
            })
    ]
