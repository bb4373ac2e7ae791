-- ===== src/Authz/Grants.antt =====
-- When `AuthorizationPolicy::authorize` and `BoundAuthorizationIssuer::issue`
-- (crates/faceauth-authz/src/lib.rs) issue a grant, and what the grant says.
use mathlib.Core.List.{Memᴰ}
use faceauth_rs.Prelude.{
  ℕ, ◌≡◌, ◌↔◌, ◌⊎◌, inl, inr, ◌∙◌, sym, ap, subst, Bool, true, false, Option, some, List, [], ◌∷◌,
  find, contains, ok, arith, ◌==◌, Bool-cases,
}
use faceauth_rs.Prelude.Apart.{Apart, All-Memᴰ}
use faceauth_rs.Protocol.{sudo, RequestContext, service_beq_iff, purpose_beq_iff}
use faceauth_rs.Transport.{PeerIdentity}
use faceauth_rs.Authz.{
  ExecutableFingerprint, fingerprint_eq, VerifiedExecutable, AuthorizationRule, AuthorizationPolicy,
  AuthorizationGrant, BoundAuthorizationIssuer, CallerRelation, root_only, target_user,
  root_or_target_user, relation_accepts, same_entry, serves, new, authorize, issue,
}
use faceauth_rs.Authz.Validation.{new-IsValidRules, IsValidRule}

-- Who may act for whom, as the documentation of `CallerRelation` says.
abbrev pub MayAct : CallerRelation → ℕ → ℕ → Type 0
MayAct root_only peer target = peer ≡ 0
MayAct target_user peer target = peer ≡ target
MayAct root_or_target_user peer target = (peer ≡ 0) ⊎ (peer ≡ target)

relation_accepts-MayAct :
    (c : CallerRelation) (peer target : ℕ)
    → (relation_accepts c peer target ≡ true) ↔ MayAct c peer target
unfolding relation_accepts
relation_accepts-MayAct root_only peer target = ground arith
relation_accepts-MayAct target_user peer target = ground arith
relation_accepts-MayAct root_or_target_user peer target = ground arith

find-Memᴰ {ℓ} :
    {A : Type ℓ} (p : A → Bool) (xs : List A) {a : A}
    → find p xs ≡ some a
    → Memᴰ a xs × (p a ≡ true)
find-Memᴰ p [] h = cc
find-Memᴰ p (x ∷ xs) h = elim (Bool-cases (p x)) [
  | inl e ↦ (Memᴰ.head (ground arith), ground arith)
  | inr e ↦ let r = find-Memᴰ p xs (ground arith) in (Memᴰ.tail r.0, r.1)
]

contains-Memᴰ :
    (xs : List ExecutableFingerprint) (a : ExecutableFingerprint) → contains xs a ≡ true → Memᴰ a xs
contains-Memᴰ [] a h = cc
contains-Memᴰ (x ∷ xs) a h = elim (Bool-cases (x == a)) [
  | inl e ↦ Memᴰ.head (sym ((fingerprint_eq.beq_iff x a).0 e))
  | inr e ↦ Memᴰ.tail (contains-Memᴰ xs a (ground arith))
]

Memᴰ-contains :
    (xs : List ExecutableFingerprint) {a : ExecutableFingerprint} → Memᴰ a xs → contains xs a ≡ true
Memᴰ-contains [] m = elim m [ ]
Memᴰ-contains (x ∷ xs) {a} (Memᴰ.head e) = rw ((fingerprint_eq.beq_iff x a).1 (sym e))
Memᴰ-contains (x ∷ xs) {a} (Memᴰ.tail m) = ground (arith, Memᴰ-contains xs m)

-- The grant that binds the request to the peer and the executable.
abbrev pub granted : PeerIdentity → RequestContext → VerifiedExecutable → AuthorizationGrant
granted peer request v = record {
  transaction_id = request.transaction_id;
  peer = peer;
  target_uid = request.target_uid;
  service = request.service;
  purpose = request.purpose;
  executable = v.fingerprint;
}

-- A rule of the policy that lets the peer make the request with the executable.
pub record Permits (rules : List AuthorizationRule) (peer : PeerIdentity) (v : VerifiedExecutable)
    (request : RequestContext) (rule : AuthorizationRule) : Type 0 where
  pub listed : Memᴰ rule rules
  pub same_service : rule.service ≡ request.service
  pub same_purpose : rule.purpose ≡ request.purpose
  pub related : MayAct rule.caller peer.uid request.target_uid
  pub allowed : Memᴰ v.fingerprint rule.executables

authorize_ok :
    (p : AuthorizationPolicy) (peer : PeerIdentity) (x : Option VerifiedExecutable)
    (request : RequestContext) {g : AuthorizationGrant}
    → authorize p peer x request ≡ ok g
    → (rule : AuthorizationRule) × (v : VerifiedExecutable) × (find (serves request) p.rules
        ≡ some rule)
      × (x ≡ some v)
      × (relation_accepts rule.caller peer.uid request.target_uid ≡ true)
      × (contains rule.executables v.fingerprint ≡ true)
      × (g ≡ granted peer request v)
unfolding authorize
authorize_ok p peer x request h = ground arith

serves_iff :
    (request : RequestContext) (r : AuthorizationRule)
    → (serves request r ≡ true) ↔ ((r.service ≡ request.service) × (r.purpose ≡ request.purpose))
serves_iff request r =
    ground
      (arith, service_beq_iff r.service request.service, purpose_beq_iff r.purpose request.purpose)

-- A grant is issued only on verified executable evidence and a rule of the policy for exactly
-- the requested service and purpose, which lets the peer act for the target and lists the
-- executable; the grant repeats the request, the peer and the executable.
pub authorize_sound :
    (p : AuthorizationPolicy) (peer : PeerIdentity) (x : Option VerifiedExecutable)
    (request : RequestContext) {g : AuthorizationGrant}
    → authorize p peer x request ≡ ok g
    → (rule : AuthorizationRule) × (v : VerifiedExecutable) × Permits p.rules peer v request rule
      × (x ≡ some v)
      × (g ≡ granted peer request v)
authorize_sound p peer x request h =
    let (rule, v, found, evidence, related, allowed, made) = authorize_ok p peer x request h in
    let (listed, served) = find-Memᴰ (serves request) p.rules found in
    let same = (serves_iff request rule).0 served in
    (
      rule,
      v,
      record {
        listed = listed;
        same_service = same.0;
        same_purpose = same.1;
        related = (relation_accepts-MayAct rule.caller peer.uid request.target_uid).0 related;
        allowed = contains-Memᴰ rule.executables v.fingerprint allowed;
      },
      evidence,
      made,
    )

clash_of_eq :
    (a b : AuthorizationRule)
    → a.service ≡ b.service
    → a.purpose ≡ b.purpose
    → same_entry a b ≡ false
    → ⊥
clash_of_eq a b s q h =
    ground (arith, service_beq_iff a.service b.service, purpose_beq_iff a.purpose b.purpose)

-- Where no two rules share an entry, the search finds the rule that serves the request.
find_of_Apart :
    (request : RequestContext) (rules : List AuthorizationRule) {rule : AuthorizationRule}
    → Apart same_entry rules
    → Memᴰ rule rules
    → rule.service ≡ request.service
    → rule.purpose ≡ request.purpose
    → find (serves request) rules ≡ some rule
find_of_Apart request [] apart m s q = elim m [ ]
find_of_Apart request (r ∷ rs) {rule} apart (Memᴰ.head e) s q =
    rw
      ((serves_iff request r).1 (
        ap (λ (x : AuthorizationRule). x.service) (sym e) ∙ s,
        ap (λ (x : AuthorizationRule). x.purpose) (sym e) ∙ q,
      ))
      (ap some (sym e))
find_of_Apart request (r ∷ rs) {rule} apart (Memᴰ.tail m) s q =
    elim (Bool-cases (serves request r)) [
      | inl e ↦
          let here = (serves_iff request r).0 e in
          let apart_here = All-Memᴰ (λ y. same_entry r y ≡ false) rs apart.0 m in
          absurd (clash_of_eq r rule (here.0 ∙ sym s) (here.1 ∙ sym q) apart_here)
      | inr e ↦ rw e (find_of_Apart request rs apart.1 m s q)
    ]

authorize_passes :
    (p : AuthorizationPolicy) (peer : PeerIdentity) (v : VerifiedExecutable)
    (request : RequestContext) (rule : AuthorizationRule)
    → find (serves request) p.rules ≡ some rule
    → relation_accepts rule.caller peer.uid request.target_uid ≡ true
    → contains rule.executables v.fingerprint ≡ true
    → authorize p peer (some v) request ≡ ok (granted peer request v)
unfolding authorize
authorize_passes p peer v request rule a b c = ground arith

-- A policy that `new` built refuses nobody it permits: if one of its rules permits the request,
-- the grant is issued.
pub authorize_complete :
    (rs : List AuthorizationRule) (p : AuthorizationPolicy) (peer : PeerIdentity)
    (v : VerifiedExecutable) (request : RequestContext) (rule : AuthorizationRule)
    → new rs ≡ ok p
    → Permits rs peer v request rule
    → authorize p peer (some v) request ≡ ok (granted peer request v)
authorize_complete rs p peer v request rule built permits =
    let (valid, made) = new-IsValidRules rs built in
    authorize_passes p peer v request rule
      (ap (λ (q : AuthorizationPolicy). find (serves request) q.rules) made
        ∙ find_of_Apart request rs valid.entries_distinct permits.listed permits.same_service
            permits.same_purpose)
      ((relation_accepts-MayAct rule.caller peer.uid request.target_uid).1 permits.related)
      (Memᴰ-contains rule.executables permits.allowed)

-- Under a policy that `new` built, only root is ever granted an authentication for sudo.
sudo_root_only :
    (rs : List AuthorizationRule) (p : AuthorizationPolicy) (peer : PeerIdentity)
    (x : Option VerifiedExecutable) (request : RequestContext) {g : AuthorizationGrant}
    → new rs ≡ ok p
    → authorize p peer x request ≡ ok g
    → request.purpose ≡ sudo
    → peer.uid ≡ 0
sudo_root_only rs p peer x request built h s =
    let (valid, made) = new-IsValidRules rs built in
    let (rule, v, permits, _, _) = authorize_sound p peer x request h in
    let listed = subst (λ (q : AuthorizationPolicy). Memᴰ rule q.rules) made permits.listed in
    let fits = All-Memᴰ IsValidRule rs valid.each listed in
    subst (λ c. MayAct c peer.uid request.target_uid) (fits.sudo_guarded (permits.same_purpose ∙ s))
      permits.related

-- An issuer's grants carry the fresh identifier and the requested account, and otherwise what
-- the issuer was bound to.
pub issue_bound :
    (i : BoundAuthorizationIssuer) (fresh target_uid : ℕ) {g : AuthorizationGrant}
    → issue i fresh target_uid ≡ ok g
    → (g.transaction_id ≡ fresh)
      × (g.target_uid ≡ target_uid)
      × (g.peer ≡ i.peer)
      × (g.service ≡ i.service)
      × (g.purpose ≡ i.purpose)
      × (g.executable ≡ i.executable.fingerprint)
unfolding issue authorize
issue_bound i fresh target_uid h = ground arith
