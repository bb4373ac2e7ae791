-- ===== src/Daemon/Completions.antt =====
-- What the end of an authentication (`complete_authentication` and `send_completion` of
-- crates/faceauth-daemon/src/lib.rs) leaves of the session that it is about.
use faceauth_rs.Prelude.{
  ℕ, ◌≡◌, inl, inr, refl, ap, sym, subst, false, Result, ok, err, nat_eq, if◌then◌else◌, arith,
  is_ok, Result-cases, leb,
}
use faceauth_rs.Protocol.{TransactionId, Response, completed, DecisionCode, timed_out}
use faceauth_rs.Session.{ConnectionToken, SessionError, ActiveSession, World, is_reserved, complete}
use faceauth_rs.Session.Calls.{
  IsBound, completes, perform_bound, perform_foreign, owner_or_stranger,
}
use faceauth_rs.Daemon.Boundary.{Connected, PeerStream}
use faceauth_rs.Prelude.Float.{Float, Arithmetic}
use faceauth_rs.Policy.{AuthPolicy, DecisionReason}
use faceauth_rs.Storage.{StorageError, TemplateRecord}
use faceauth_rs.Session.{target_uid}
use faceauth_rs.Daemon.{
  PassivePadPolicy, AuthenticationObservation, decision_code, completion_code,
  complete_authentication, evaluate_authentication,
}
use faceauth_rs.Daemon.Boundary.{send_completion}
use faceauth_rs.Daemon.Endings.{Fate, sent-Fate}

decision_code-kept : (r : DecisionReason) → is_reserved (decision_code r) ≡ false
unfolding decision_code is_reserved
decision_code-kept r = ground arith

module _ (c : ConnectionToken) (t : TransactionId) (a : ActiveSession) where
  completed-Fate :
      (u : TransactionId) (d : DecisionCode) (now : ℕ) (w : World)
      → IsBound c t w a
      → is_reserved d ≡ false
      → Fate c t a false (complete c u d now w).0 (complete c u d now w).1
  completed-Fate u d now w b free = elim (owner_or_stranger c u w) [
    | inl (s, own) ↦
        let same : u ≡ t = ground arith in
        let code = if leb s.deadline_micros now then timed_out else d in
        rw (perform_bound (completes d) c u now w s own, free)
          (inl ((code, ap (λ x. completed x code) same), refl))
    | inr foreign ↦ refused (complete c u d now w) (perform_foreign (completes d) c u now w foreign)
  ]
    where
      refused :
          (z : Result SessionError Response × World)
          → (z.1 ≡ w) × (is_ok z.0 ≡ false)
          → Fate c t a false z.0 z.1
      refused (ok r, v) h = absurd (ground arith)
      refused (err e, v) h = inr (subst (λ x. IsBound c t x a) (sym h.0) b)

  module _ {P K W : Type 0} ⦃f : Float W⦄ ⦃n : Arithmetic W⦄
      (templates : ℕ → Result (StorageError P K) (TemplateRecord W)) (rules : AuthPolicy W)
      (pad : PassivePadPolicy W) where
    completion_code-kept :
        (loaded : Result (StorageError P K) (TemplateRecord W)) (o : AuthenticationObservation W)
        → is_reserved (completion_code rules pad loaded o) ≡ false
    unfolding completion_code is_reserved
    completion_code-kept (err e) o = refl
    completion_code-kept (ok template) o =
        elim (Result-cases (evaluate_authentication {P = P} {K = K} rules pad template o)) [
          | inl (d, e) ↦ ground (arith, e, decision_code-kept d.reason)
          | inr (x, e) ↦ ground (arith, e)
        ]

    authentication-Fate :
        (u : TransactionId) (o : AuthenticationObservation W) (now : ℕ) (w : World)
        → IsBound c t w a
        → let (r, after) = complete_authentication templates c u rules pad o now w in
          Fate c t a false r after
    unfolding complete_authentication
    authentication-Fate u o now w b = elim (Result-cases (target_uid c u w)) [
      | inr (x, e) ↦ rw (complete_authentication, e) (inr b)
      | inl (uid, e) ↦
          rw (complete_authentication, e)
            (completed-Fate u _ now w b (completion_code-kept (templates uid) o))
    ]

    module _ {S : Type 0} (stream : PeerStream S) where
      pub derived-Fate :
          (u : TransactionId) (o : AuthenticationObservation W) (now : ℕ) (b : Connected S)
          → IsBound c t b.sessions a
          → let (r, after) = send_completion stream templates c u rules pad o now b in
            Fate c t a false r after.sessions
      unfolding send_completion
      derived-Fate u o now b h =
          sent-Fate c t a stream false (complete_authentication templates c u rules pad o now) b
            (authentication-Fate u o now b.sessions h)
