-- ===== src/Authz.antt =====
-- crates/faceauth-authz/src/lib.rs: the authorization policy, its validation, and the grants that
-- it issues. Reading a process's executable is in Authz/Executable.antt.
pub mod Validation
pub mod Grants
pub mod Executable
mod Tests
use faceauth_rs.Prelude.{
  ℕ, ◌++◌, Bool, true, false, not, ◌&&◌, ◌||◌, Option, none, some, Result, ok, err, ◌>>=◌, ◌>>◌,
  guard, Eq, nat_eq, ◌==◌, ◌!=◌, if◌then◌else◌, ltb, eqb, arith, ◌↔◌, ◌≡◌, List, [], ◌∷◌, length,
  any, find, contains, ok_or,
}
use faceauth_rs.Protocol.{
  TransactionId, ServiceName, service_eq, AuthenticationPurpose, purpose_eq, sudo, RequestContext,
}
use faceauth_rs.Transport.{PeerIdentity}

abbrev pub max_authorization_rules : ℕ
max_authorization_rules = 64

abbrev pub max_executables_per_rule : ℕ
max_executables_per_rule = 32

pub record ExecutableFingerprint : Type 0 where
  pub device : ℕ
  pub inode : ℕ

abbrev fingerprint_beq : ExecutableFingerprint → ExecutableFingerprint → Bool
fingerprint_beq a b = eqb a.device b.device && eqb a.inode b.inode

pub fingerprint_beq_iff : (a b : ExecutableFingerprint) → (fingerprint_beq a b ≡ true) ↔ (a ≡ b)
fingerprint_beq_iff a b = ground arith

instance abbrev pub fingerprint_eq : Eq ExecutableFingerprint
fingerprint_eq = record { beq = fingerprint_beq; beq_iff = fingerprint_beq_iff }

pub record VerifiedExecutable : Type 0 where
  pub fingerprint : ExecutableFingerprint

pub data CallerRelation : Type 0 where
  root_only target_user root_or_target_user : CallerRelation

abbrev is_root_only : CallerRelation → Bool
is_root_only root_only = true
is_root_only _ = false

-- `CallerRelation::accepts`
unfoldable pub relation_accepts : CallerRelation → ℕ → ℕ → Bool
relation_accepts root_only peer_uid target_uid = peer_uid == 0
relation_accepts target_user peer_uid target_uid = peer_uid == target_uid
relation_accepts root_or_target_user peer_uid target_uid =
    (peer_uid == 0) || (peer_uid == target_uid)

pub record AuthorizationRule : Type 0 where
  pub service : ServiceName
  pub purpose : AuthenticationPurpose
  pub caller : CallerRelation
  pub executables : List ExecutableFingerprint

pub record AuthorizationPolicy : Type 0 where
  pub rules : List AuthorizationRule

pub data PolicyError : Type 0 where
  invalid_rule_count : ℕ → PolicyError
  invalid_executable_count : ServiceName → ℕ → PolicyError
  duplicate_rule : ServiceName → AuthenticationPurpose → PolicyError
  duplicate_executable : ServiceName → ExecutableFingerprint → PolicyError
  sudo_must_be_root_only : PolicyError

-- The inner loop of `new`: `earlier` is `rule.executables[..fingerprint_index]`.
pub check_executables :
    ServiceName
    → List ExecutableFingerprint
    → List ExecutableFingerprint
    → Result PolicyError (Unit {0})
check_executables service earlier [] = ok tt
check_executables service earlier (x ∷ xs) =
    guard (not (contains earlier x)) (duplicate_executable service x)
    >> check_executables service (earlier ++ x ∷ []) xs

abbrev pub same_entry : AuthorizationRule → AuthorizationRule → Bool
same_entry a b = (a.service == b.service) && (a.purpose == b.purpose)

-- One round of the outer loop of `new`: `earlier` is `rules[..index]`.
pub check_rule : List AuthorizationRule → AuthorizationRule → Result PolicyError (Unit {0})
check_rule earlier rule = do
  guard
      (not
        ((length rule.executables == 0) || ltb max_executables_per_rule (length rule.executables)))
      (invalid_executable_count rule.service (length rule.executables))
  guard (not ((rule.purpose == sudo) && not (is_root_only rule.caller))) sudo_must_be_root_only
  guard (not (any (λ existing. same_entry existing rule) earlier))
      (duplicate_rule rule.service rule.purpose)
  check_executables rule.service [] rule.executables

unfoldable pub check_rules :
    List AuthorizationRule → List AuthorizationRule → Result PolicyError (Unit {0})
check_rules earlier [] = ok tt
check_rules earlier (r ∷ rs) = check_rule earlier r >> check_rules (earlier ++ r ∷ []) rs

-- `AuthorizationPolicy::new`
unfoldable pub new : List AuthorizationRule → Result PolicyError AuthorizationPolicy
new rules = do
  guard (not ((length rules == 0) || ltb max_authorization_rules (length rules)))
      (invalid_rule_count (length rules))
  check_rules [] rules
  ok (record { rules = rules })

pub data AuthorizationError : Type 0 where
  service_not_allowed executable_evidence_required executable_not_allowed : AuthorizationError
  peer_target_mismatch : ℕ → ℕ → AuthorizationError

pub record AuthorizationGrant : Type 0 where
  pub transaction_id : TransactionId
  pub peer : PeerIdentity
  pub target_uid : ℕ
  pub service : ServiceName
  pub purpose : AuthenticationPurpose
  pub executable : ExecutableFingerprint

abbrev pub serves : RequestContext → AuthorizationRule → Bool
serves request rule = (rule.service == request.service) && (rule.purpose == request.purpose)

unfoldable pub authorize :
    AuthorizationPolicy
    → PeerIdentity
    → Option VerifiedExecutable
    → RequestContext
    → Result AuthorizationError AuthorizationGrant
authorize policy peer executable request = do
  rule ← ok_or (find (serves request) policy.rules) service_not_allowed
  guard (relation_accepts rule.caller peer.uid request.target_uid)
      (peer_target_mismatch peer.uid request.target_uid)
  verified ← ok_or executable executable_evidence_required
  guard (contains rule.executables verified.fingerprint) executable_not_allowed
  ok (record {
    transaction_id = request.transaction_id;
    peer = peer;
    target_uid = request.target_uid;
    service = request.service;
    purpose = request.purpose;
    executable = verified.fingerprint;
  })

pub record BoundAuthorizationIssuer : Type 0 where
  pub policy : AuthorizationPolicy
  pub peer : PeerIdentity
  pub executable : VerifiedExecutable
  pub service : ServiceName
  pub purpose : AuthenticationPurpose

-- `fresh` is the identifier that `TransactionId::generate` returns.
unfoldable pub issue :
    BoundAuthorizationIssuer → TransactionId → ℕ → Result AuthorizationError AuthorizationGrant
issue issuer fresh target_uid =
    authorize issuer.policy issuer.peer (some issuer.executable) (record {
      transaction_id = fresh;
      target_uid = target_uid;
      service = issuer.service;
      purpose = issuer.purpose;
    })
