-- ===== src/Pam/Justified.antt =====
-- The PAM module (crates/pam-faceauth/src/lib.rs) with the daemon
-- (crates/faceauth-daemon/src/lib.rs) at the other end of its socket.
use faceauth_rs.Prelude.{
  ℕ, zero, suc, ◌≡◌, inl, inr, false, sym, ap, subst, ◌∙◌, Result, ok, All, List, [], ◌∷◌, ◌++◌,
}
use faceauth_rs.Prelude.Float.{Float, Arithmetic}
use faceauth_rs.Policy.{AuthPolicy}
use faceauth_rs.Protocol.{
  TransactionId, RequestContext, authenticate, Response, completed, DecisionCode,
}
use faceauth_rs.Session.{ConnectionToken, World, target_uid, deadline_reached}
use faceauth_rs.Storage.{StorageError, TemplateRecord}
use faceauth_rs.Daemon.{PassivePadPolicy, AuthenticationObservation, complete_authentication}
use faceauth_rs.Daemon.Evidence.{IsJustified, complete_authentication-IsJustified}
use faceauth_rs.Transport.{TransportError}
use faceauth_rs.Pam.{accepted, ClientStream, exchange, max_responses}
use faceauth_rs.Pam.Replies.{IsPending, Accepts, exchange-Accepts}

-- The responses before the last one of a transaction
abbrev pub IsUnfinished : Response → Type 0
IsUnfinished (completed t d) = ⊥
IsUnfinished _ = Unit

module _ {S : Type 0} (stream : ClientStream S) where
  -- The reads from a state give these responses.
  abbrev pub Delivers : List Response → S → Type 0
  Delivers [] s = Unit
  Delivers (r ∷ rest) s = (next : S) × (stream.read_response s ≡ (ok r, next)) × Delivers rest next

  same_read :
      (s a b : S) (x y : Response)
      → stream.read_response s ≡ (ok x, a)
      → stream.read_response s ≡ (ok y, b)
      → (x ≡ y) × (a ≡ b)
  same_read s a b x y e₁ e₂ =
      let same : Path (Result TransportError Response) (ok x) (ok y) =
        ap (λ (p : Result TransportError Response × S). p.0) (sym e₁ ∙ e₂) in
      (cc same, ap (λ (p : Result TransportError Response × S). p.1) (sym e₁ ∙ e₂))

  Accepts-delivered :
      (n : ℕ) (elapsed : ℕ → ℕ) (t u : TransactionId) (d : DecisionCode) (before : List Response)
      (s after : S)
      → All IsUnfinished before
      → Delivers (before ++ completed u d ∷ []) s
      → Accepts stream n elapsed t s after
      → completed u d ≡ completed t DecisionCode.accepted
  Accepts-delivered zero elapsed t u d before s after h delivered a = elim a [ ]
  Accepts-delivered (suc n) elapsed t u d [] s after h (next, e, done) (early, inl e₁) =
      (same_read s next after (completed u d) (completed t DecisionCode.accepted) e e₁).0
  Accepts-delivered (suc n) elapsed t u d [] s after h (next, e, done)
        (early, inr (r, next', e₁, pending, a)) =
      absurd (subst (IsPending t) (sym (same_read s next next' (completed u d) r e e₁).0) pending)
  Accepts-delivered (suc n) elapsed t u d (x ∷ before) s after (h, hs) (next, e, rest)
        (early, inl e₁) =
      absurd
        (subst IsUnfinished (same_read s next after x (completed t DecisionCode.accepted) e e₁).0 h)
  Accepts-delivered (suc n) elapsed t u d (x ∷ before) s after (h, hs) (next, e, rest)
        (early, inr (r, next', e₁, pending, a)) =
      Accepts-delivered n (λ i. elapsed (suc i)) t u d before next' after hs
        (subst (Delivers (before ++ completed u d ∷ [])) (same_read s next next' x r e e₁).1 rest) a

module _ {W : Type 0} ⦃f : Float W⦄ ⦃a : Arithmetic W⦄ (P K : Type 0) {S : Type 0}
    (stream : ClientStream S) where
  -- The client accepts a transaction that the daemon completes only if it is the one that was
  -- asked for and the completion is justified: before the deadline, on the stored template of the
  -- session's account, with evidence that passes every check of the policies.
  pub exchange-IsJustified :
      (elapsed : ℕ → ℕ) (asked : RequestContext) (s sent after : S) (before : List Response)
      (u : TransactionId) (d : DecisionCode)
      (load_template : ℕ → Result (StorageError P K) (TemplateRecord W)) (c : ConnectionToken)
      (v : TransactionId) (rules : AuthPolicy W) (pad : PassivePadPolicy W)
      (o : AuthenticationObservation W) (now_micros : ℕ) (w : World)
      → exchange stream elapsed (authenticate asked) s ≡ (accepted, after)
      → stream.write_request (authenticate asked) s ≡ (ok tt, sent)
      → All IsUnfinished before
      → Delivers stream (before ++ completed u d ∷ []) sent
      → (complete_authentication load_template c v rules pad o now_micros w).0 ≡ ok (completed u d)
      → (u ≡ asked.transaction_id)
        × (uid : ℕ) × (template : TemplateRecord W) × (target_uid c v w ≡ ok uid)
        × (load_template uid ≡ ok template)
        × (deadline_reached now_micros w ≡ ok false)
        × IsJustified P K rules pad template o
  exchange-IsJustified elapsed asked s sent after before u d load_template c v rules pad o
        now_micros w accepts written unfinished delivered answer =
      let (sent', written', a) = exchange-Accepts stream elapsed asked s after accepts in
      let same_state : sent' ≡ sent =
        ap (λ (p : Result TransportError (Unit {0}) × S). p.1) (sym written' ∙ written) in
      let same =
        Accepts-delivered stream max_responses elapsed asked.transaction_id u d before sent after
          unfinished delivered
          (subst (λ x. Accepts stream max_responses elapsed asked.transaction_id x after) same_state
            a) in
      let own : u ≡ asked.transaction_id = cc same in
      let decided : d ≡ DecisionCode.accepted = cc same in
      let (uid, template, found, loaded, timely, just) =
        complete_authentication-IsJustified P K load_template c v u rules pad o now_micros w
          (answer ∙ ap (λ x. ok (completed u x)) decided) in
      (own, uid, template, found, loaded, timely, just)
