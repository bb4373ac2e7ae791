-- ===== src/Daemon/Tests.antt =====
-- The daemon at a concrete connection: a template of 32 numbers, scores of two models, and a
-- client whose messages are in a list.
use faceauth_rs.Daemon.Supervisor.{ServiceOutcome.completed}
use faceauth_rs.Daemon.Supervisor.{ServiceReceived.timeout}
use faceauth_rs.Prelude.{
  ℕ, ◌≡◌, ◌++◌, refl, true, false, none, some, Result, ok, err, List, [], ◌∷◌,
}
use faceauth_rs.Prelude.Float.{Milli, pos, milli_float, milli_arithmetic, is_unit}
use faceauth_rs.Policy.{AuthPolicy, default_auth_policy, accepts, evaluate, decide_reason}
use faceauth_rs.Policy
use faceauth_rs.Protocol.{
  ServiceName, Request, authenticate, started, completed, sudo, DecisionCode,
}
use faceauth_rs.Liveness.{ChallengeProgress}
use faceauth_rs.Transport.{PeerIdentity, io}
use faceauth_rs.Authz.{
  AuthorizationGrant, AuthorizationPolicy, authorize, relation_accepts, root_only,
}
use faceauth_rs.Authz.Executable.{number, from_peer, verify_pidfd, from_verified_file}
use faceauth_rs.Session.{
  World, ActiveSession, start, verify_binding, deadline_reached, take_terminal, is_reserved,
  complete, target_uid,
}
use faceauth_rs.Storage.{
  StorageError, TemplateRecord, validate_template, require_compatibility, squared_norm, strays,
}
use faceauth_rs.Model.{passive_liveness_infrared, passive_liveness_visible}
use faceauth_rs.Inference.{from_normalized_template, passes, dot_product, similarity}
use faceauth_rs.Daemon.{
  PassivePadPolicy, AuthenticationObservation, valid_digest, valid_probability, is_valid_fusion,
  with_role, validate_pad, exact_pad_score, fusion_passed, verdict, accepts_pad, compare_template,
  evaluate_authentication, decision_code, completion_code, complete_authentication,
}
use faceauth_rs.Daemon.Evidence.{IsJustified, complete_authentication-IsJustified}
use faceauth_rs.Daemon.Boundary.{PeerStream, Connected, Kernel, grant_for, respond}
use faceauth_rs.Daemon.Admission.{IsAdmitted, respond-IsAdmitted}
use faceauth_rs.Daemon.Coordination.{
  Round, updated, timeout, disconnected, finished, run, coordinate_started_authentication,
}
use faceauth_rs.Daemon.Turns.{Settles, coordinate-Settles}
use faceauth_rs.Daemon.Stops.{goes_on, run-stops}

abbrev digest : ℕ → List ℕ
digest b =
    let eight = λ (rest : List ℕ). b ∷ b ∷ b ∷ b ∷ b ∷ b ∷ b ∷ b ∷ rest in
    eight (eight (eight (eight (eight (eight (eight (eight [])))))))

abbrev zeros : List Milli
zeros = pos 0 ∷ pos 0 ∷ pos 0 ∷ pos 0 ∷ pos 0 ∷ pos 0 ∷ pos 0 ∷ pos 0 ∷ []

abbrev numbers : List Milli
numbers =
    pos 1000 ∷ pos 0 ∷ pos 0 ∷ pos 0 ∷ pos 0 ∷ pos 0 ∷ pos 0 ∷ pos 0 ∷ (zeros ++ (zeros ++ zeros))

abbrev pub template : TemplateRecord Milli
template = record {
  schema_version = 2;
  uid = 1000;
  model_compatibility_sha256 = digest 97;
  embedding = numbers;
}

abbrev pub templates : ℕ → Result (StorageError ℕ ℕ) (TemplateRecord Milli)
templates uid = ok template

abbrev pub pad : PassivePadPolicy Milli
pad = record {
  infrared_compatibility_sha256 = digest 98;
  minimum_infrared_probability = pos 700;
  visible_compatibility_sha256 = digest 99;
  minimum_visible_probability = pos 700;
  fusion = none;
}

abbrev pub observation : AuthenticationObservation Milli
observation = record {
  timing = record { infrared_timestamp_micros = 1000000; visible_timestamp_micros = some 1010000 };
  quality = pos 900;
  embedding = record { compatibility_sha256 = digest 97; values = numbers };
  passive_liveness =
      record {
        role = passive_liveness_infrared;
        compatibility_sha256 = digest 98;
        probability = pos 900;
      }
      ∷ record {
        role = passive_liveness_visible;
        compatibility_sha256 = digest 99;
        probability = pos 800;
      }
      ∷ [];
  active_challenge = ChallengeProgress.passed;
}

abbrev pub rules : AuthPolicy Milli
rules = default_auth_policy

abbrev pub service : ServiceName
service = record { as_str = b's' ∷ b'u' ∷ b'd' ∷ b'o' ∷ [] }

abbrev pub root : PeerIdentity
root = record { pid = 77; uid = 0; gid = 0 }

abbrev pub grant : AuthorizationGrant
grant = record {
  transaction_id = 7;
  peer = root;
  target_uid = 1000;
  service = service;
  purpose = sudo;
  executable = record { device = 8; inode = 1234 };
}

abbrev pub session : ActiveSession
session = record { grant = grant; connection = 3; deadline_micros = 15000100; cancellation = 0 }

abbrev idle : World
idle = record {
  manager = record { config = record { transaction_duration_micros = 15000000 }; active = none };
  cells = [];
}

abbrev pub serving : World
serving = record {
  manager = record {
    config = record { transaction_duration_micros = 15000000 };
    active = some session;
  };
  cells = false ∷ [];
}

pub complete_accepted :
    (complete_authentication templates 3 7 rules pad observation 200 serving).0
    ≡ ok (completed 7 DecisionCode.accepted)
unfolding complete_authentication target_uid verify_binding complete is_reserved deadline_reached
    take_terminal completion_code evaluate_authentication accepts compare_template
    require_compatibility validate_template squared_norm strays from_normalized_template similarity
    dot_product accepts_pad validate_pad valid_digest valid_probability is_valid_fusion is_unit
    exact_pad_score with_role fusion_passed verdict passes evaluate Policy.validate decide_reason
    decision_code
complete_accepted = refl

complete_authentication-IsJustified_example :
    (uid : ℕ) × (t : TemplateRecord Milli) × (target_uid 3 7 serving ≡ ok uid)
    × (templates uid ≡ ok t)
    × (deadline_reached 200 serving ≡ ok false)
    × IsJustified ℕ ℕ rules pad t observation
complete_authentication-IsJustified_example =
    complete_authentication-IsJustified ℕ ℕ templates 3 7 7 rules pad observation 200 serving
      complete_accepted

abbrev kernel : Kernel
kernel = record {
  before = number 77;
  file = some (some (record { is_file = true; uid = 0; mode = 0o755; dev = 8; ino = 1234 }));
  after = number 77;
}

abbrev policy : AuthorizationPolicy
policy = record {
  rules =
      record {
        service = service;
        purpose = sudo;
        caller = root_only;
        executables = record { device = 8; inode = 1234 } ∷ [];
      }
      ∷ [];
}

abbrev request : Request
request =
    authenticate
      (record { transaction_id = 7; target_uid = 1000; service = service; purpose = sudo })

respond-request : (respond policy root kernel 3 100 request idle).0 ≡ started 7
unfolding respond grant_for from_peer verify_pidfd from_verified_file authorize relation_accepts
    start
respond-request = refl

respond-IsAdmitted_example :
    IsAdmitted policy root kernel 3 request 7 idle (respond policy root kernel 3 100 request idle).1
respond-IsAdmitted_example =
    respond-IsAdmitted policy root kernel 3 100 request 7 idle respond-request

-- A client: its requests that are still to come
abbrev client : PeerStream (List Request)
client = record {
  peer = root;
  read_message = λ s. elim s [ [] ↦ (err io, []) | q ∷ rest ↦ (ok q, rest) ];
  write_message = λ r s. (ok tt, s);
  has_pending_input = λ s. (ok (elim s [ [] ↦ false | q ∷ rest ↦ true ]), s);
}

abbrev begun : Connected (List Request)
begun = record { sessions = serving; stream = request ∷ [] }

abbrev quiet : Round Milli
quiet = record {
  received = timeout;
  drained = λ i. disconnected;
  kernel = kernel;
  update_at = 200;
  request_at = 210;
  cancel_at = 220;
}

abbrev last : Round Milli
last = record quiet {
  received = updated (
      finished 7 (
        some
          (record { transaction_id = 7; observation = observation; completed_at_micros = 300 })));
}

coordinate-Settles_example :
    let (r, after) =
      coordinate_started_authentication client policy templates rules pad 3 7 true 200
        (quiet ∷ last ∷ [])
        begun in
    Settles 3 7 session r after.sessions
coordinate-Settles_example =
    coordinate-Settles 3 7 session templates rules pad client policy true 200 (quiet ∷ last ∷ [])
      begun (record { active = refl; same_connection = refl; same_transaction = refl })

run-stops_example :
    goes_on (run client policy templates rules pad 3 7 (quiet ∷ last ∷ []) begun).0 ≡ false
run-stops_example = run-stops templates rules pad client policy 3 7 (quiet ∷ []) last [] begun tt
