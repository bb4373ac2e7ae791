-- ===== src/Daemon/Evidence.antt =====
-- What an accepted authentication rests on (crates/faceauth-daemon/src/lib.rs).
use faceauth_rs.Prelude.{
  ℕ, ◌≡◌, refl, ap, sym, subst, ◌∙◌, Bool, true, false, Option, none, some, Result, ok, err,
  lift_err, bind-eq-ok, lift_err-ok, any, Result-cases, Bool-cases, eq_of_beq, inl, inr, List, [],
  ◌∷◌, arith, nat_eq, bytes_eq, ◌==◌,
}
use faceauth_rs.Prelude.Float.{Float, Arithmetic}
use faceauth_rs.Policy.{
  AuthPolicy, AuthenticationDecision, AuthenticationEvidence, DecisionReason, observed, CheckStatus,
  accepts, evaluate,
}
use faceauth_rs.Policy.Decision.{Passes, IsWellFormed, evaluate_ok, decide_reason-Passes}
use faceauth_rs.Protocol.{TransactionId, completed, DecisionCode}
use faceauth_rs.Session.{
  ConnectionToken, World, target_uid, complete, take_terminal, deadline_reached,
}
use faceauth_rs.Storage.{StorageError, TemplateRecord}
use faceauth_rs.Model.{
  ModelRole, passive_liveness_infrared, passive_liveness_visible, passive_liveness_fusion, role_eq,
}
use faceauth_rs.Inference.{PassiveLivenessScore, passes}
use faceauth_rs.Daemon.{
  inference, policy, comparison, PassivePadPolicy, AuthenticationObservation, decision_code,
  check_status, is_passed_challenge, with_role, validate_pad, only, exact_pad_score, fusion_passed,
  accepts_pad, compare_template, verdict, evaluate_authentication, completion_code,
  complete_authentication,
}

passed_alive : (alive : Bool) → check_status alive ≡ CheckStatus.passed → alive ≡ true
passed_alive alive h = ground arith

accepted_reason :
    (r : DecisionReason) → decision_code r ≡ DecisionCode.accepted → r ≡ DecisionReason.accepted
unfolding decision_code
accepted_reason r h = ground arith

complete-accepted :
    (c : ConnectionToken) (t u : TransactionId) (code : DecisionCode) (now_micros : ℕ) (w : World)
    → (complete c t code now_micros w).0 ≡ ok (completed u DecisionCode.accepted)
    → (code ≡ DecisionCode.accepted) × (deadline_reached now_micros w ≡ ok false)
unfolding complete take_terminal deadline_reached
complete-accepted c t u code now_micros w h = ground arith

module _ {W : Type 0} ⦃f : Float W⦄ where
  -- One score of the role, of the model required, at or above the minimum
  pub record IsProven (scores : List (PassiveLivenessScore W)) (role : ModelRole) (digest : List ℕ)
      (minimum : W) : Type 0 where
    pub score : PassiveLivenessScore W
    pub alone : with_role role scores ≡ score ∷ []
    pub model : score.compatibility_sha256 ≡ digest
    pub high : f.le minimum score.probability ≡ true

  only-ok :
      {P K : Type 0} (found : List (PassiveLivenessScore W)) (digest : List ℕ)
      (score : PassiveLivenessScore W)
      → only {P = P} {K = K} found digest ≡ ok score
      → (found ≡ score ∷ []) × (score.compatibility_sha256 ≡ digest)
  only-ok [] digest score h = absurd (ground arith)
  only-ok (x ∷ []) digest score h = elim (Bool-cases (x.compatibility_sha256 == digest)) [
    | inl e ↦
        let same : x ≡ score = ground arith in
        (
          ap (λ y. y ∷ []) same,
          sym (ap (λ (y : PassiveLivenessScore W). y.compatibility_sha256) same)
              ∙ eq_of_beq x.compatibility_sha256 digest e,
        )
    | inr e ↦ absurd (ground arith)
  ]
  only-ok (x ∷ y ∷ rest) digest score h = absurd (ground arith)

  passes-true :
      (score : PassiveLivenessScore W) (minimum : W)
      → passes score minimum ≡ ok true
      → f.le minimum score.probability ≡ true
  unfolding passes
  passes-true score minimum h = ground arith

  exact-IsProven :
      {P K : Type 0} (scores : List (PassiveLivenessScore W)) (role : ModelRole) (digest : List ℕ)
      (minimum : W) (score : PassiveLivenessScore W)
      → exact_pad_score {P = P} {K = K} scores role digest ≡ ok score
      → passes score minimum ≡ ok true
      → IsProven scores role digest minimum
  unfolding exact_pad_score
  exact-IsProven scores role digest minimum score found passed =
      let (alone, model) = only-ok (with_role role scores) digest score found in
      record {
        score = score;
        alone = alone;
        model = model;
        high = passes-true score minimum passed;
      }

  both_pass :
      {P K : Type 0} (infrared visible : PassiveLivenessScore W) (fused : Bool) (low high : W)
      → verdict {P = P} {K = K} infrared visible fused low high ≡ ok true
      → (passes infrared low ≡ ok true) × (passes visible high ≡ ok true) × (fused ≡ true)
  unfolding verdict
  both_pass infrared visible fused low high h = elim (Result-cases (passes infrared low)) [
    | inr (x, e) ↦ absurd (ground arith)
    | inl (a, e) ↦ elim (Result-cases (passes visible high)) [
      | inr (x, e₁) ↦ absurd (ground arith)
      | inl (b, e₁) ↦ (ground arith, ground arith, ground arith)
    ]
  ]

  accepts_pad-true :
      {P K : Type 0} (p : PassivePadPolicy W) (scores : List (PassiveLivenessScore W))
      → accepts_pad {P = P} {K = K} p scores ≡ ok true
      → IsProven scores passive_liveness_infrared p.infrared_compatibility_sha256
          p.minimum_infrared_probability
        × IsProven scores passive_liveness_visible p.visible_compatibility_sha256
            p.minimum_visible_probability
        × (fusion_passed {P = P} {K = K} scores p.fusion ≡ ok true)
  unfolding accepts_pad
  accepts_pad-true {P} {K} p scores h =
      let (u, valid, h₁) = bind-eq-ok (validate_pad {P = P} {K = K} p) _ h in
      let (infrared, found₁, h₂) =
        bind-eq-ok
          (exact_pad_score {P = P} {K = K} scores passive_liveness_infrared
            p.infrared_compatibility_sha256)
          _ h₁ in
      let (visible, found₂, h₃) =
        bind-eq-ok
          (exact_pad_score {P = P} {K = K} scores passive_liveness_visible
            p.visible_compatibility_sha256)
          _ h₂ in
      let (fused, found₃, h₄) = bind-eq-ok (fusion_passed {P = P} {K = K} scores p.fusion) _ h₃ in
      let parts =
        both_pass {P = P} {K = K} infrared visible fused p.minimum_infrared_probability
          p.minimum_visible_probability h₄ in
      (
        exact-IsProven scores passive_liveness_infrared p.infrared_compatibility_sha256
            p.minimum_infrared_probability infrared found₁ parts.0,
        exact-IsProven scores passive_liveness_visible p.visible_compatibility_sha256
            p.minimum_visible_probability visible found₂ parts.1,
        found₃ ∙ ap ok parts.2,
      )

  -- The score of the fusion model if one is configured, and none otherwise
  abbrev pub FusionHolds : List (PassiveLivenessScore W) → Option (List ℕ × W) → Type 0
  FusionHolds scores none = with_role passive_liveness_fusion scores ≡ []
  FusionHolds scores (some (digest, minimum)) =
      IsProven scores passive_liveness_fusion digest minimum

  none_with_role :
      (role : ModelRole) (scores : List (PassiveLivenessScore W))
      → any (λ s. s.role == role) scores ≡ false
      → with_role role scores ≡ []
  unfolding with_role
  none_with_role role [] h = refl
  none_with_role role (x ∷ xs) h = ground (arith, none_with_role role xs)

  fusion_passed-true :
      {P K : Type 0} (scores : List (PassiveLivenessScore W)) (fusion : Option (List ℕ × W))
      → fusion_passed {P = P} {K = K} scores fusion ≡ ok true
      → FusionHolds scores fusion
  unfolding fusion_passed
  fusion_passed-true scores none h = none_with_role passive_liveness_fusion scores (ground arith)
  fusion_passed-true {P} {K} scores (some (digest, minimum)) h =
      let (score, found, passed) =
        bind-eq-ok (exact_pad_score {P = P} {K = K} scores passive_liveness_fusion digest) _ h in
      exact-IsProven {P = P} {K = K} scores passive_liveness_fusion digest minimum score found
        (lift_err-ok inference (passes score minimum) passed)

  abbrev pub evidence_of : W → Bool → AuthenticationObservation W → AuthenticationEvidence W
  evidence_of score alive o = record {
    similarity = score;
    quality = o.quality;
    infrared_status = observed;
    visible_status = observed;
    passive_liveness = check_status alive;
    active_challenge = check_status (is_passed_challenge o.active_challenge);
  }

  module _ (P K : Type 0) ⦃a : Arithmetic W⦄ where
    -- What an accepted authentication rests on: paired frames within the policy, a similarity to
    -- the stored template, exact and sufficient passive liveness scores, and every check of the
    -- authentication policy.
    pub record IsJustified (rules : AuthPolicy W) (pad : PassivePadPolicy W)
        (template : TemplateRecord W) (o : AuthenticationObservation W) : Type 0 where
      pub timely : accepts rules.capture o.timing ≡ ok tt
      pub score : W
      pub compared : compare_template {P = P} {K = K} template o.embedding ≡ ok score
      pub infrared :
          IsProven o.passive_liveness passive_liveness_infrared pad.infrared_compatibility_sha256
            pad.minimum_infrared_probability
      pub visible :
          IsProven o.passive_liveness passive_liveness_visible pad.visible_compatibility_sha256
            pad.minimum_visible_probability
      pub fused : FusionHolds o.passive_liveness pad.fusion
      pub well_formed : IsWellFormed rules (evidence_of score true o)
      pub passes_checks : Passes rules (evidence_of score true o)

    evaluate_authentication-IsJustified :
        (rules : AuthPolicy W) (pad : PassivePadPolicy W) (template : TemplateRecord W)
        (o : AuthenticationObservation W) (d : AuthenticationDecision)
        → evaluate_authentication {P = P} {K = K} rules pad template o ≡ ok d
        → d.reason ≡ DecisionReason.accepted
        → IsJustified rules pad template o
    unfolding evaluate_authentication
    evaluate_authentication-IsJustified rules pad template o d h reason =
        let (u, timely, h₁) = bind-eq-ok (lift_err policy (accepts rules.capture o.timing)) _ h in
        let (score, compared, h₂) =
          bind-eq-ok (lift_err comparison (compare_template template o.embedding)) _ h₁ in
        let (alive, proven, h₃) =
          bind-eq-ok (accepts_pad {P = P} {K = K} pad o.passive_liveness) _ h₂ in
        let parts =
          evaluate_ok rules (evidence_of score alive o)
            (lift_err-ok policy (evaluate rules (evidence_of score alive o)) h₃) in
        let checks =
          decide_reason-Passes rules (evidence_of score alive o) (sym parts.1 ∙ reason) in
        let lively : alive ≡ true = passed_alive alive checks.alive in
        let pads =
          accepts_pad-true {P = P} {K = K} pad o.passive_liveness (proven ∙ ap ok lively) in
        record {
          timely = lift_err-ok policy (accepts rules.capture o.timing) timely;
          score = score;
          compared = lift_err-ok comparison (compare_template template o.embedding) compared;
          infrared = pads.0;
          visible = pads.1;
          fused = fusion_passed-true {P = P} {K = K} o.passive_liveness pad.fusion pads.2;
          well_formed = subst (λ b. IsWellFormed rules (evidence_of score b o)) lively parts.0;
          passes_checks = subst (λ b. Passes rules (evidence_of score b o)) lively checks;
        }

    completion_code-accepted :
        (rules : AuthPolicy W) (pad : PassivePadPolicy W)
        (loaded : Result (StorageError P K) (TemplateRecord W)) (o : AuthenticationObservation W)
        → completion_code rules pad loaded o ≡ DecisionCode.accepted
        → (template : TemplateRecord W) × (loaded ≡ ok template) × IsJustified rules pad template o
    unfolding completion_code
    completion_code-accepted rules pad (err e) o h = absurd (ground arith)
    completion_code-accepted rules pad (ok template) o h =
        elim (Result-cases (evaluate_authentication {P = P} {K = K} rules pad template o)) [
          | inr (x, e) ↦ absurd (ground arith)
          | inl (d, e) ↦ (
            template,
            refl,
            evaluate_authentication-IsJustified rules pad template o d e
                (accepted_reason d.reason (ground arith)),
          )
        ]

    -- A transaction is answered as accepted only before its deadline, on the template that the
    -- source gives for the account of the session, and only on justified evidence: frames paired in
    -- time, a similarity and a quality that reach the policy's minima, for each passive liveness
    -- model exactly one score, of the model configured and high enough, and the active challenge
    -- passed where the policy asks for it.
    pub complete_authentication-IsJustified :
        (load_template : ℕ → Result (StorageError P K) (TemplateRecord W)) (c : ConnectionToken)
        (t u : TransactionId) (rules : AuthPolicy W) (pad : PassivePadPolicy W)
        (o : AuthenticationObservation W) (now_micros : ℕ) (w : World)
        → (complete_authentication load_template c t rules pad o now_micros w).0
          ≡ ok (completed u DecisionCode.accepted)
        → (uid : ℕ) × (template : TemplateRecord W) × (target_uid c t w ≡ ok uid)
          × (load_template uid ≡ ok template)
          × (deadline_reached now_micros w ≡ ok false)
          × IsJustified rules pad template o
    unfolding complete_authentication
    complete_authentication-IsJustified load_template c t u rules pad o now_micros w h =
        elim (Result-cases (target_uid c t w)) [
          | inr (x, e) ↦ absurd (ground arith)
          | inl (uid, e) ↦
              let done =
                complete-accepted c t u (completion_code rules pad (load_template uid) o) now_micros
                  w (ground (arith, h, e)) in
              let (template, loaded, just) =
                completion_code-accepted rules pad (load_template uid) o done.0 in
              (uid, template, e, loaded, done.1, just)
        ]
