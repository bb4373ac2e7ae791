-- ===== src/Authz/Tests.antt =====
-- Authorization at concrete policies.
use mathlib.Core.List.{Memᴰ}
use faceauth_rs.Prelude.{Option, ◌≡◌, ◌↔◌, refl, true, List, [], ◌∷◌, some, ok, err, arith}
use faceauth_rs.Protocol.{ServiceName, RequestContext, sudo}
use faceauth_rs.Transport.{PeerIdentity}
use faceauth_rs.Authz.{
  ExecutableFingerprint, VerifiedExecutable, AuthorizationRule, AuthorizationPolicy, root_only,
  target_user, BoundAuthorizationIssuer, AuthorizationGrant, sudo_must_be_root_only,
  peer_target_mismatch, relation_accepts, check_executables, check_rule, check_rules, new,
  authorize, issue,
}
use faceauth_rs.Authz.Validation.{IsValidRules, new_iff}
use faceauth_rs.Authz.Grants.{Permits, granted, authorize_sound, authorize_complete}
use faceauth_rs.Authz.Executable.{
  Metadata, number, IsTrusted, identity, from_peer, from_verified_file, verify_pidfd,
  from_peer_sound,
}

abbrev helper : ExecutableFingerprint
helper = record { device = 8; inode = 1234 }

abbrev sudo_service : ServiceName
sudo_service = record { as_str = b's' ∷ b'u' ∷ b'd' ∷ b'o' ∷ [] }

abbrev sudo_rule : AuthorizationRule
sudo_rule = record {
  service = sudo_service;
  purpose = sudo;
  caller = root_only;
  executables = helper ∷ [];
}

abbrev rules : List AuthorizationRule
rules = sudo_rule ∷ []

abbrev policy : AuthorizationPolicy
policy = record { rules = rules }

abbrev root : PeerIdentity
root = record { pid = 77; uid = 0; gid = 0 }

abbrev request : RequestContext
request = record { transaction_id = 5; target_uid = 1000; service = sudo_service; purpose = sudo }

abbrev evidence : VerifiedExecutable
evidence = record { fingerprint = helper }

new_rules : new rules ≡ ok policy
unfolding new check_rules check_rule check_executables
new_rules = refl

new_unguarded_sudo :
    new (record sudo_rule { caller = target_user } ∷ []) ≡ err sudo_must_be_root_only
unfolding new check_rules check_rule check_executables
new_unguarded_sudo = refl

authorize-root : authorize policy root (some evidence) request ≡ ok (granted root request evidence)
unfolding authorize relation_accepts
authorize-root = refl

authorize_user :
    authorize policy (record root { uid = 1000 }) (some evidence) request
    ≡ err (peer_target_mismatch 1000 1000)
unfolding authorize relation_accepts
authorize_user = refl

new_iff_example :
    (new rules ≡ ok policy) ↔ (IsValidRules rules × (policy ≡ record { rules = rules }))
new_iff_example = new_iff rules policy

authorize_sound_example :
    (rule : AuthorizationRule) × (v : VerifiedExecutable) × Permits rules root v request rule
    × (some evidence ≡ some v)
    × (granted root request evidence ≡ granted root request v)
authorize_sound_example = authorize_sound policy root (some evidence) request authorize-root

permitted : Permits rules root evidence request sudo_rule
permitted = record {
  listed = Memᴰ.head refl;
  same_service = refl;
  same_purpose = refl;
  related = refl;
  allowed = Memᴰ.head refl;
}

authorize_complete_example :
    authorize policy root (some evidence) request ≡ ok (granted root request evidence)
authorize_complete_example =
    authorize_complete rules policy root evidence request sudo_rule new_rules permitted

abbrev issuer : BoundAuthorizationIssuer
issuer = record {
  policy = policy;
  peer = root;
  executable = evidence;
  service = sudo_service;
  purpose = sudo;
}

issue_root :
    issue issuer 9 1000 ≡ ok (granted root (record request { transaction_id = 9 }) evidence)
unfolding issue authorize relation_accepts
issue_root = refl

abbrev issued : AuthorizationGrant
issued = granted root (record request { transaction_id = 9 }) evidence

abbrev installed : Metadata
installed = record { is_file = true; uid = 0; mode = 0o100755; dev = 8; ino = 1234 }

from_peer-root : from_peer root (number 77) (some (some installed)) (number 77) ≡ ok evidence
unfolding from_peer from_verified_file verify_pidfd
from_peer-root = refl

from_peer_sound_example :
    (number 77 ≡ number root.pid)
    × (number 77 ≡ number root.pid)
    × (m : Metadata) × (Path (Option (Option Metadata)) (some (some installed)) (some (some m)))
    × IsTrusted m
    × (evidence ≡ identity m)
from_peer_sound_example =
    from_peer_sound root (number 77) (number 77) (some (some installed)) (omega arith)
      from_peer-root
