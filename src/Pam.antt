-- ===== src/Pam.antt =====
-- crates/pam-faceauth/src/lib.rs: the PAM module, a client of the daemon. What libpam, libc, the
-- socket and the clock answer are arguments.
pub mod Replies
pub mod Success
pub mod Justified
mod Tests
use faceauth_rs.Prelude.{
  ℕ, zero, suc, Bool, true, false, not, ◌&&◌, ◌||◌, Option, none, some, Result, ok, err, nat_eq,
  bytes_eq, ◌==◌, ◌!=◌, if◌then◌else◌, ltb, leb, length, contains, List, [], ◌∷◌,
}
use faceauth_rs.Prelude.Exec.{Exec}
use faceauth_rs.Protocol.{
  TransactionId, ServiceName, parse, AuthenticationPurpose, RequestContext, Request, authenticate,
  cancel, Response, started, progress, completed, rejected, is_accepted,
}
use faceauth_rs.Transport.{PeerIdentity, TransportError}

abbrev pub pam_success : ℕ
pam_success = 0

abbrev pub pam_ignore : ℕ
pam_ignore = 25

abbrev pub test_service : List ℕ
test_service =
    b'f' ∷ b'a' ∷ b'c' ∷ b'e' ∷ b'a' ∷ b'u' ∷ b't' ∷ b'h' ∷ b'-' ∷ b't' ∷ b'e' ∷ b's' ∷ b't' ∷ []

abbrev pub max_responses : ℕ
max_responses = 64

-- In microseconds
abbrev pub max_transaction_duration : ℕ
max_transaction_duration = 20000000

abbrev pub max_username_bytes : ℕ
max_username_bytes = 256

pub data PamOutcome : Type 0 where
  accepted ignore : PamOutcome

-- `PamOutcome::code`
unfoldable pub code : PamOutcome → ℕ
code accepted = pam_success
code ignore = pam_ignore

-- The client's side of a `PeerStream`: a message read is what its envelope holds.
pub record ClientStream (S : Type 0) : Type 0 where
  pub peer : PeerIdentity
  pub write_request : Request → Exec S TransportError (Unit {0})
  pub read_response : Exec S TransportError Response

-- The match on a response: `none` waits for the next one.
unfoldable pub judge : TransactionId → Response → Option PamOutcome
judge t (started received) = if received == t then none else some ignore
judge t (progress received p) = if received == t then none else some ignore
judge t (completed received decision) =
    if (received == t) && is_accepted decision then some accepted else some ignore
judge t (rejected received r) = some ignore

-- `bounded_c_string`, on the bytes before the terminator
unfoldable pub bounded_c_string : (List ℕ → Bool) → List ℕ → Option (List ℕ)
bounded_c_string is_utf8 bytes =
    if (length bytes == 0) || ltb max_username_bytes (length bytes)
    then none
    else if is_utf8 bytes
    then some bytes
    else none

module _ {S : Type 0} (stream : ClientStream S) where
  -- What a pass does with the response that was read
  abbrev pub take_response :
      TransactionId → (S → PamOutcome × S) → Result TransportError Response × S → PamOutcome × S
  take_response t rest (err e, s) = (ignore, s)
  take_response t rest (ok response, s) = elim (judge t response) [
    | none ↦ rest s
    | some outcome ↦ (outcome, s)
  ]

  -- The loop of `exchange`, with the responses that are left; `elapsed` has the time at each pass.
  unfoldable pub await_decision : ℕ → (ℕ → ℕ) → TransactionId → S → PamOutcome × S
  await_decision zero elapsed t s = (ignore, s)
  await_decision (suc n) elapsed t s =
      let rest = await_decision n (λ i. elapsed (suc i)) t in
      if leb max_transaction_duration (elapsed 0)
      then (ignore, s)
      else take_response t rest (stream.read_response s)

  abbrev pub after_write :
      (ℕ → ℕ) → TransactionId → Result TransportError (Unit {0}) × S → PamOutcome × S
  after_write elapsed t (err e, s) = (ignore, s)
  after_write elapsed t (ok sent, s) = await_decision max_responses elapsed t s

  unfoldable pub exchange : (ℕ → ℕ) → Request → S → PamOutcome × S
  exchange elapsed (authenticate context) s =
      after_write elapsed context.transaction_id (stream.write_request (authenticate context) s)
  exchange elapsed (cancel t) s = (ignore, s)

-- One call of the module: the items of libpam, the account database, the socket, a fresh
-- identifier and the clock. An item that is not there is `none`.
pub record PamHost (S : Type 0) : Type 0 where
  pub is_null : Bool
  pub argc : ℕ
  pub service_item : Option (List ℕ)
  pub user_item : Option (List ℕ)
  pub is_utf8 : List ℕ → Bool
  pub lookup_uid : List ℕ → Option ℕ
  pub connected : Option (ClientStream S)
  pub fresh_id : TransactionId
  pub elapsed : ℕ → ℕ

module _ {S : Type 0} where
  -- `pam_service` and `pam_username`
  unfoldable pub pam_item : PamHost S → Option (List ℕ) → Option (List ℕ)
  pam_item h none = none
  pam_item h (some bytes) = bounded_c_string h.is_utf8 bytes

  unfoldable pub resolve_uid : PamHost S → List ℕ → Option ℕ
  resolve_uid h username =
      if contains username 0 || ltb max_username_bytes (length username)
      then none
      else h.lookup_uid username

  -- The account that the request is for, if the module serves the call
  unfoldable pub target_of : PamHost S → Option ℕ
  target_of h = if h.is_null || (h.argc != 0) then none else elim (pam_item h h.service_item) [
    | none ↦ none
    | some service ↦
        if service != test_service
        then none
        else elim (pam_item h h.user_item) [ none ↦ none | some username ↦ resolve_uid h username ]
  ]

  unfoldable pub request_of : PamHost S → ℕ → ServiceName → Request
  request_of h target_uid service = authenticate (record {
    transaction_id = h.fresh_id;
    target_uid = target_uid;
    service = service;
    purpose = AuthenticationPurpose.test;
  })

  -- `authenticate`; a stream that is not connected leaves the state alone.
  -- The service that is parsed is the one that `target_of` compared with `test_service`.
  unfoldable pub authenticate_user : PamHost S → S → PamOutcome × S
  authenticate_user h s = elim (target_of h) [
    | none ↦ (ignore, s)
    | some target_uid ↦ elim h.connected [
      | none ↦ (ignore, s)
      | some stream ↦ if stream.peer.uid != 0 then (ignore, s) else elim (parse test_service) [
        | err e ↦ (ignore, s)
        | ok service ↦ exchange stream h.elapsed (request_of h target_uid service) s
      ]
    ]
  ]

  -- `pam_sm_authenticate`; `panics` tells whether the call unwinds.
  unfoldable pub pam_sm_authenticate : Bool → PamHost S → S → ℕ
  pam_sm_authenticate panics h s =
      if panics then code ignore else (let (outcome, after) = authenticate_user h s in code outcome)
