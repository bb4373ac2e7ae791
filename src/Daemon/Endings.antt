-- ===== src/Daemon/Endings.antt =====
-- How a connection ends (crates/faceauth-daemon/src/lib.rs): the transaction that it started is answered
-- by one terminal response, and the session is free again.
use faceauth_rs.Prelude.{
  ℕ, ◌≡◌, ◌⊎◌, inl, inr, refl, ap, sym, subst, Bool, true, false, none, Result, ok, err, nat_eq,
  if◌then◌else◌, arith, is_ok, lift_err, Result-cases, leb,
}
use faceauth_rs.Prelude.Exec.{Exec, ◌>>=◌, pure, bind_post}
use faceauth_rs.Protocol.{
  TransactionId, Request, authenticate, Response, completed, ProgressCode, DecisionCode, timed_out,
}
use faceauth_rs.Authz.{AuthorizationPolicy, AuthorizationGrant}
use faceauth_rs.Transport.{PeerIdentity}
use faceauth_rs.Session.{
  ConnectionToken, SessionError, ActiveSession, World, start, is_reserved, complete,
}
use faceauth_rs.Session
use faceauth_rs.Daemon.Coordination.{is_completed}
use faceauth_rs.Session.Calls.{
  IsBound, progresses, completes, cancels, outcome, perform_bound, perform_foreign,
  owner_or_stranger,
}
use faceauth_rs.Daemon.Boundary.{
  BoundaryError, Connected, Kernel, or_rejected, cancel_rejection, respond, grant_for, PeerStream,
  on_stream, on_sessions, answer, deliver, session, handle_one, send_progress, send_engine_failure,
}

abbrev pub IsFree : World → Type 0
IsFree w = w.manager.active ≡ none

-- The transaction is answered for good, and no session is held.
abbrev pub IsEnded : TransactionId → Response → World → Type 0
IsEnded t r w = ((d : DecisionCode) × (r ≡ completed t d)) × IsFree w

module _ (c : ConnectionToken) (t : TransactionId) (a : ActiveSession) where
  -- The transaction has ended, or its session is as it was; the latter with a response that is not
  -- terminal, and only where the call allows it.
  abbrev pub Fate : {E : Type 0} → Bool → Result E Response → World → Type 0
  Fate go (ok r) w = IsEnded t r w ⊎ ((go ≡ true) × (is_completed r ≡ false) × IsBound c t w a)
  Fate go (err e) w = IsFree w ⊎ IsBound c t w a

  progress-Fate :
      (p : ProgressCode) (late : Bool) (w : World)
      → IsBound c t w a
      → Fate true (outcome (progresses p) t late a w).0 (outcome (progresses p) t late a w).1
  progress-Fate p true w b = inl ((timed_out, refl), refl)
  progress-Fate p false w b = inr (refl, refl, b)

  complete-Fate :
      (d : DecisionCode) (late : Bool) (w : World)
      → is_reserved d ≡ false
      → Fate false (outcome (completes d) t late a w).0 (outcome (completes d) t late a w).1
  complete-Fate d late w e = rw e (inl ((_, refl), refl))

  start_busy :
      (grant : AuthorizationGrant) (now : ℕ) (w : World)
      → IsBound c t w a
      → start grant c now w ≡ (err SessionError.busy, w)
  unfolding start
  start_busy grant now w b = rw b.active refl

  pub cancel-Fate :
      (u : TransactionId) (now : ℕ) (w : World)
      → IsBound c t w a
      → let (r, after) = or_rejected u cancel_rejection (Session.cancel c u now w) in
        Fate {E = BoundaryError} true (ok r) after
  cancel-Fate u now w b = elim (owner_or_stranger c u w) [
    | inl (s, own) ↦
        let same : u ≡ t = ground arith in
        let code = if leb s.deadline_micros now then timed_out else DecisionCode.cancelled in
        rw (perform_bound cancels c u now w s own)
          (inl ((code, ap (λ x. completed x code) same), refl))
    | inr foreign ↦ refused (Session.cancel c u now w) (perform_foreign cancels c u now w foreign)
  ]
    where
      refused :
          (z : Result SessionError Response × World)
          → (z.1 ≡ w) × (is_ok z.0 ≡ false)
          → Fate {E = BoundaryError} true
              (ok (or_rejected u cancel_rejection z).0)
              (or_rejected u cancel_rejection z).1
      refused (ok r, v) h = absurd (ground arith)
      refused (err e, v) h = inr (refl, refl, subst (λ x. IsBound c t x a) (sym h.0) b)

  kept-Fate :
      (policy : AuthorizationPolicy) (peer : PeerIdentity) (kernel : Kernel) (now : ℕ) (q : Request)
      (w : World)
      → IsBound c t w a
      → let (r, after) = respond policy peer kernel c now q w in
        Fate {E = BoundaryError} true (ok r) after
  unfolding respond
  kept-Fate policy peer kernel now (authenticate context) w b =
      elim (Result-cases (grant_for policy peer kernel context)) [
        | inl (grant, e) ↦ rw (respond, e, start_busy grant now w b) (inr (refl, refl, b))
        | inr (x, e) ↦ rw (respond, e) (inr (refl, refl, b))
      ]
  kept-Fate policy peer kernel now (Request.cancel u) w b = cancel-Fate u now w b

  module _ {S : Type 0} (stream : PeerStream S) where
    on_sessions-Fate :
        (go : Bool) (m : Exec World SessionError Response) (b : Connected S)
        → Fate go (m b.sessions).0 (m b.sessions).1
        → Fate go (on_sessions stream m b).0 (on_sessions stream m b).1.sessions
    on_sessions-Fate go m b h = by_result (m b.sessions) h
      where
        by_result :
            (z : Result SessionError Response × World)
            → Fate go z.0 z.1
            → Fate go (lift_err session z.0) z.1
        by_result (ok r, w) h = h
        by_result (err e, w) h = h

    deliver-Fate :
        (go : Bool) (r : Response) (b : Connected S)
        → Fate {E = BoundaryError} go (ok r) b.sessions
        → Fate go (deliver stream r b).0 (deliver stream r b).1.sessions
    unfolding deliver
    deliver-Fate go r b h =
        bind_post (λ z. Fate go z.0 z.1.sessions) (on_stream stream (stream.write_message r))
          (λ u. pure r) b
          (λ u after e. subst (λ w. Fate {E = BoundaryError} go (ok r) w) (same_sessions after e) h)
          (λ x after e.
            subst (λ w. IsFree w ⊎ IsBound c t w a) (same_sessions after e)
              (elim h [ inl over ↦ inl over.1 | inr kept ↦ inr kept.2 ]))
      where
        same_sessions :
            {x : Result BoundaryError (Unit {0})} (after : Connected S)
            → on_stream stream (stream.write_message r) b ≡ (x, after)
            → b.sessions ≡ after.sessions
        same_sessions after e =
            ap (λ (z : Result BoundaryError (Unit {0}) × Connected S). z.1.sessions) e

    pub sent-Fate :
        (go : Bool) (m : Exec World SessionError Response) (b : Connected S)
        → Fate go (m b.sessions).0 (m b.sessions).1
        → let (r, after) = (on_sessions stream m >>= deliver stream) b in Fate go r after.sessions
    sent-Fate go m b h =
        bind_post (λ z. Fate go z.0 z.1.sessions) (on_sessions stream m) (deliver stream) b
          (λ r after e.
            deliver-Fate go r after
              (subst (λ z. Fate go z.0 z.1.sessions) e (on_sessions-Fate go m b h)))
          (λ x after e. subst (λ z. Fate go z.0 z.1.sessions) e (on_sessions-Fate go m b h))

    pub failure-Fate :
        (now : ℕ) (b : Connected S)
        → IsBound c t b.sessions a
        → let (r, after) = send_engine_failure stream c t now b in Fate false r after.sessions
    unfolding send_engine_failure is_reserved
    failure-Fate now b h = sent-Fate false (complete c t DecisionCode.internal_error now) b (
        rw (perform_bound (completes DecisionCode.internal_error) c t now b.sessions a h)
          (complete-Fate DecisionCode.internal_error _ b.sessions refl))

    pub report-Fate :
        (p : ProgressCode) (now : ℕ) (b : Connected S)
        → IsBound c t b.sessions a
        → let (r, after) = send_progress stream c t p now b in Fate true r after.sessions
    unfolding send_progress
    report-Fate p now b h =
        sent-Fate true (Session.send_progress c t p now) b (
          rw (perform_bound (progresses p) c t now b.sessions a h) (progress-Fate p _ b.sessions h))

    pub request-Fate :
        (policy : AuthorizationPolicy) (kernel : Kernel) (now : ℕ) (b : Connected S)
        → IsBound c t b.sessions a
        → let (r, after) = handle_one stream policy kernel c now b in Fate true r after.sessions
    unfolding handle_one
    request-Fate policy kernel now b h =
        bind_post (λ z. Fate true z.0 z.1.sessions) (on_stream stream stream.read_message)
          (λ q. answer stream (respond policy stream.peer kernel c now q) >>= deliver stream) b
          (λ q after e.
            let here = same_sessions after e in
            deliver-Fate true _ _ (
              kept-Fate policy stream.peer kernel now q after.sessions
                (subst (λ w. IsBound c t w a) here h)))
          (λ x after e. inr (subst (λ w. IsBound c t w a) (same_sessions after e) h))
      where
        same_sessions :
            {x : Result BoundaryError Request} (after : Connected S)
            → on_stream stream stream.read_message b ≡ (x, after)
            → b.sessions ≡ after.sessions
        same_sessions after e =
            ap (λ (z : Result BoundaryError Request × Connected S). z.1.sessions) e
