-- ===== src/Session.antt =====
-- crates/faceauth-session/src/lib.rs: the manager of the one active authentication transaction.
-- The `AtomicBool`s behind the cancellation tokens are the cells of a store: a token is the index
-- of its cell, so that every clone of a token reads the same cell. A connection token stands for
-- its 16 bytes. Times are `u64` microseconds.
pub mod Cells
pub mod Calls
pub mod Tokens
pub mod Trace
mod Tests
use faceauth_rs.Prelude.{
  ℕ, Bool, true, false, ◌||◌, not, Option, some, none, is_some, is_some_and, Result, ok, err, Eq,
  nat_eq, ◌==◌, ◌!=◌, if◌then◌else◌, ltb, leb, List, [], ◌∷◌, ◌++◌, length, get_or, set, ok_or,
  to_option,
}
use faceauth_rs.Prelude as Shared
use faceauth_rs.Prelude.Exec.{Exec, ◌>>=◌, ◌>>◌, pure, fail, reads, modify, guard}
use faceauth_rs.Prelude.Word.{u64_mod, checked_add}
use faceauth_rs.Protocol.{
  TransactionId, DecisionCode, cancelled, timed_out, ProgressCode, Response, started, progress,
  completed,
}
use faceauth_rs.Authz.{AuthorizationGrant}

abbrev pub default_transaction_duration_micros : ℕ
default_transaction_duration_micros = 15000000

abbrev pub max_transaction_duration_micros : ℕ
max_transaction_duration_micros = 60000000

abbrev pub ConnectionToken : Type 0
ConnectionToken = ℕ

abbrev pub CancellationToken : Type 0
CancellationToken = ℕ

pub data SessionError : Type 0 where
  invalid_config deadline_overflow busy no_active_transaction : SessionError
  wrong_connection wrong_transaction reserved_decision : SessionError

pub record SessionConfig : Type 0 where
  pub transaction_duration_micros : ℕ

unfoldable pub validate : SessionConfig → Result SessionError (Unit {0})
validate c =
    if ltb c.transaction_duration_micros 1000000
      || ltb max_transaction_duration_micros c.transaction_duration_micros
    then err invalid_config
    else ok tt

pub record ActiveSession : Type 0 where
  pub grant : AuthorizationGrant
  pub connection : ConnectionToken
  pub deadline_micros : ℕ
  pub cancellation : CancellationToken

pub record SessionManager : Type 0 where
  pub config : SessionConfig
  pub active : Option ActiveSession

-- The manager together with the store of all cells that were ever made.
pub record World : Type 0 where
  pub manager : SessionManager
  pub cells : List Bool

unfoldable pub new : SessionConfig → Result SessionError SessionManager
unfolding validate
new config = Shared.bind (validate config) (λ _. ok (record { config = config; active = none }))

-- `CancellationToken::is_cancelled`, on a token of the store
unfoldable pub is_cancelled : World → CancellationToken → Bool
is_cancelled w token = get_or w.cells token false

-- `CancellationToken::cancel`
cancel_cell : CancellationToken → World → World
cancel_cell token w = record w { cells = set w.cells token true }

set_active : Option ActiveSession → World → World
set_active active w = record w { manager = record { config = w.manager.config; active = active } }

-- The session that `start` stores, with a new cell for its token.
unfoldable pub admit : AuthorizationGrant → ConnectionToken → ℕ → World → World
admit grant connection deadline w =
    let session : ActiveSession = record {
      grant = grant;
      connection = connection;
      deadline_micros = deadline;
      cancellation = length w.cells;
    } in
    record {
      manager = record { config = w.manager.config; active = some session };
      cells = w.cells ++ false ∷ [];
    }

unfoldable pub start : AuthorizationGrant → ConnectionToken → ℕ → Exec World SessionError Response
start grant connection now_micros w =
    if is_some w.manager.active
    then (err busy, w)
    else elim (checked_add u64_mod now_micros w.manager.config.transaction_duration_micros) [
      | none ↦ (err deadline_overflow, w)
      | some deadline ↦ (ok (started grant.transaction_id), admit grant connection deadline w)
    ]

unfoldable pub verify_binding :
    ConnectionToken → TransactionId → World → Result SessionError (Unit {0})
verify_binding connection transaction_id w =
    Shared.bind (ok_or w.manager.active no_active_transaction) λ active.
      if active.connection != connection
      then err wrong_connection
      else if active.grant.transaction_id != transaction_id
      then err wrong_transaction
      else ok tt

unfoldable pub deadline_reached : ℕ → World → Result SessionError Bool
deadline_reached now_micros w =
    Shared.bind (ok_or w.manager.active no_active_transaction)
      λ active. ok (leb active.deadline_micros now_micros)

unfoldable pub take_terminal : DecisionCode → Exec World SessionError Response
unfolding cancel_cell set_active
take_terminal decision w = elim w.manager.active [
  | none ↦ (err no_active_transaction, w)
  | some active ↦ (
    ok (completed active.grant.transaction_id decision),
    cancel_cell active.cancellation (set_active none w),
  )
]

unfoldable pub send_progress :
    ConnectionToken → TransactionId → ProgressCode → ℕ → Exec World SessionError Response
send_progress connection transaction_id code now_micros = do
  reads (verify_binding connection transaction_id)
  reached ← reads (deadline_reached now_micros)
  if reached then take_terminal timed_out else pure (progress transaction_id code)

-- `matches!(decision, DecisionCode::Cancelled | DecisionCode::TimedOut)`
unfoldable pub is_reserved : DecisionCode → Bool
is_reserved cancelled = true
is_reserved timed_out = true
is_reserved _ = false

unfoldable pub complete :
    ConnectionToken → TransactionId → DecisionCode → ℕ → Exec World SessionError Response
complete connection transaction_id decision now_micros = do
  guard (not (is_reserved decision)) reserved_decision
  reads (verify_binding connection transaction_id)
  reached ← reads (deadline_reached now_micros)
  if reached then take_terminal timed_out else take_terminal decision

-- `if let Some(active) = self.active.as_ref() { active.cancellation.cancel(); }`
unfoldable pub cancel_active : World → World
unfolding cancel_cell
cancel_active w = elim w.manager.active [
  | none ↦ w
  | some active ↦ cancel_cell active.cancellation w
]

unfoldable pub cancel : ConnectionToken → TransactionId → ℕ → Exec World SessionError Response
cancel connection transaction_id now_micros = do
  reads (verify_binding connection transaction_id)
  modify cancel_active
  reached ← reads (deadline_reached now_micros)
  if reached then take_terminal timed_out else take_terminal cancelled

unfoldable pub expire : ℕ → World → Option Response × World
expire now_micros w =
    if is_some_and w.manager.active (λ active. leb active.deadline_micros now_micros)
    then (let (r, w') = take_terminal timed_out w in (to_option r, w'))
    else (none, w)

unfoldable pub is_busy : World → Bool
is_busy w = is_some w.manager.active

unfoldable pub target_uid : ConnectionToken → TransactionId → World → Result SessionError ℕ
target_uid connection transaction_id w =
    Shared.bind (verify_binding connection transaction_id w) λ _.
      Shared.bind (ok_or w.manager.active no_active_transaction)
        λ active. ok active.grant.target_uid

unfoldable pub cancellation_token :
    ConnectionToken → TransactionId → World → Result SessionError CancellationToken
cancellation_token connection transaction_id w =
    Shared.bind (verify_binding connection transaction_id w) λ _.
      Shared.bind (ok_or w.manager.active no_active_transaction) λ active. ok active.cancellation
