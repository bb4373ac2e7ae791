-- ===== src/Policy/Decision.antt =====
-- What `AuthPolicy::evaluate` (crates/faceauth-core/src/policy.rs) accepts.
use faceauth_rs.Prelude.{sym, ◌≡◌, ◌↔◌, true, false, ok, arith}
use faceauth_rs.Prelude.Float.{Float, is_unit, IsOrdered}
use faceauth_rs.Policy.{
  AuthPolicy, AuthenticationEvidence, AuthenticationDecision, accepted, observed, passed,
  passive_and_active, validate, evaluate, decide_reason, is_accepted_reason,
}

abbrev pub accepting : AuthenticationDecision
accepting = record { is_accepted = true; reason = accepted }

module _ {W : Type 0} ⦃f : Float W⦄ where
  -- Every check but the range of the scores, which `evaluate` makes first.
  pub record Passes (p : AuthPolicy W) (e : AuthenticationEvidence W) : Type 0 where
    pub infrared_seen : e.infrared_status ≡ observed
    pub visible_seen : p.capture.require_visible ≡ true → e.visible_status ≡ observed
    pub clear : f.lt e.quality p.minimum_quality ≡ false
    pub alive : e.passive_liveness ≡ passed
    pub acted : p.liveness ≡ passive_and_active → e.active_challenge ≡ passed
    pub matched : f.lt e.similarity p.minimum_similarity ≡ false

  pub decide_reason-Passes :
      (p : AuthPolicy W) (e : AuthenticationEvidence W) → decide_reason p e ≡ accepted → Passes p e
  unfolding decide_reason
  decide_reason-Passes p e h = ground arith

  pub Passes-decide_reason :
      (p : AuthPolicy W) (e : AuthenticationEvidence W) → Passes p e → decide_reason p e ≡ accepted
  unfolding decide_reason
  Passes-decide_reason p e h = ground arith

  -- What `evaluate` needs before it looks at a check.
  pub record IsWellFormed (p : AuthPolicy W) (e : AuthenticationEvidence W) : Type 0 where
    pub policy_valid : validate p ≡ ok tt
    pub similarity_unit : is_unit e.similarity ≡ true
    pub quality_unit : is_unit e.quality ≡ true

  pub evaluate_ok :
      (p : AuthPolicy W) (e : AuthenticationEvidence W) {d : AuthenticationDecision}
      → evaluate p e ≡ ok d
      → IsWellFormed p e
        × (d.reason ≡ decide_reason p e)
        × (d.is_accepted ≡ is_accepted_reason (decide_reason p e))
  unfolding evaluate
  evaluate_ok p e h = ground arith

  pub evaluate_of_IsWellFormed :
      (p : AuthPolicy W) (e : AuthenticationEvidence W)
      → IsWellFormed p e
      → evaluate p e
        ≡ ok (record {
          is_accepted = is_accepted_reason (decide_reason p e);
          reason = decide_reason p e;
        })
  unfolding evaluate
  evaluate_of_IsWellFormed p e w = ground arith

  -- `evaluate` accepts exactly when the policy is valid, both scores are finite and in 0..=1, and
  -- every check passes: infrared observed, the visible frame observed if required, quality and
  -- similarity not below their minima, passive liveness passed, and the active challenge passed
  -- if the policy asks for it.
  pub evaluate_accepts_iff :
      (p : AuthPolicy W) (e : AuthenticationEvidence W)
      → (evaluate p e ≡ ok accepting) ↔ (IsWellFormed p e × Passes p e)
  evaluate_accepts_iff p e = (
    λ h. let r = evaluate_ok p e h in (r.0, decide_reason-Passes p e (sym r.1)),
    λ w. rw (evaluate_of_IsWellFormed p e w.0, Passes-decide_reason p e w.1),
  )

  -- A returned decision is flagged as accepted exactly when its reason is `accepted`, so no
  -- failing reason is ever reported together with acceptance.
  pub evaluate_flag :
      (p : AuthPolicy W) (e : AuthenticationEvidence W) {d : AuthenticationDecision}
      → evaluate p e ≡ ok d
      → (d.is_accepted ≡ true) ↔ (d.reason ≡ accepted)
  evaluate_flag p e h = ground (arith, evaluate_ok p e h)

  validate-units :
      (p : AuthPolicy W)
      → validate p ≡ ok tt
      → (is_unit p.minimum_similarity ≡ true) × (is_unit p.minimum_quality ≡ true)
  unfolding validate
  validate-units p h = ground arith

  is_unit-finite : (x : W) → is_unit x ≡ true → f.is_finite x ≡ true
  unfolding is_unit
  is_unit-finite x h = ground arith

  not_lt_weaken :
      (o : IsOrdered W) (x m s : W)
      → is_unit x ≡ true
      → is_unit m ≡ true
      → f.le s m ≡ true
      → f.lt x m ≡ false
      → f.lt x s ≡ false
  not_lt_weaken o x m s hx hm hs h =
      o.not_lt_of_le s x
        (o.le_trans s m x hs (o.le_of_not_lt x m (is_unit-finite x hx) (is_unit-finite m hm) h))

  -- Lower thresholds never turn an acceptance into a refusal: where the comparisons are ordered,
  -- evidence that a policy accepts is accepted by every valid policy that differs from it by
  -- thresholds that are no higher.
  evaluate_mono :
      (o : IsOrdered W) (p : AuthPolicy W) (e : AuthenticationEvidence W) (s q : W)
      → f.le s p.minimum_similarity ≡ true
      → f.le q p.minimum_quality ≡ true
      → validate (record p { minimum_similarity = s; minimum_quality = q }) ≡ ok tt
      → evaluate p e ≡ ok accepting
      → evaluate (record p { minimum_similarity = s; minimum_quality = q }) e ≡ ok accepting
  evaluate_mono o p e s q hs hq v h =
      let r = evaluate_ok p e h in
      let w = r.0 in
      let c = decide_reason-Passes p e (sym r.1) in
      let units = validate-units p w.policy_valid in
      (evaluate_accepts_iff _ e).1 (
        record {
          policy_valid = v;
          similarity_unit = w.similarity_unit;
          quality_unit = w.quality_unit;
        },
        record {
          infrared_seen = c.infrared_seen;
          visible_seen = c.visible_seen;
          clear = not_lt_weaken o _ _ _ w.quality_unit units.1 hq c.clear;
          alive = c.alive;
          acted = c.acted;
          matched = not_lt_weaken o _ _ _ w.similarity_unit units.0 hs c.matched;
        },
      )
