-- ===== src/Session/Calls.antt =====
-- The calls that name a connection and a transaction, in crates/faceauth-session/src/lib.rs: who
-- may make them, and what each returns before and after the deadline.
use faceauth_rs.Prelude.{
  ℕ, ◌≡◌, ◌⊎◌, inl, inr, refl, Bool, true, false, some, none, ok, err, is_ok, Result, if◌then◌else◌,
  leb, set, arith, Option-cases,
}
use faceauth_rs.Protocol.{
  TransactionId, DecisionCode, cancelled, timed_out, ProgressCode, Response, progress, completed,
}
use faceauth_rs.Session.Cells.{set-set}
use faceauth_rs.Session.{
  World, ConnectionToken, ActiveSession, SessionError, reserved_decision, verify_binding,
  deadline_reached, take_terminal, is_reserved, send_progress, complete, cancel, cancel_active,
}

-- What the owner of a transaction may ask for.
pub data Owned : Type 0 where
  progresses : ProgressCode → Owned
  completes : DecisionCode → Owned
  cancels : Owned

abbrev pub perform :
    Owned → ConnectionToken → TransactionId → ℕ → World → Result SessionError Response × World
perform (progresses code) c t now = send_progress c t code now
perform (completes decision) c t now = complete c t decision now
perform cancels c t now = cancel c t now

-- The transaction `t` is active and was started by the connection `c`.
pub record IsBound (c : ConnectionToken) (t : TransactionId) (w : World) (a : ActiveSession)
    : Type 0 where
  pub active : w.manager.active ≡ some a
  pub same_connection : a.connection ≡ c
  pub same_transaction : a.grant.transaction_id ≡ t

verify_binding-IsBound :
    (c : ConnectionToken) (t : TransactionId) (w : World)
    → verify_binding c t w ≡ ok tt
    → (a : ActiveSession) × IsBound c t w a
unfolding verify_binding
verify_binding-IsBound c t w h = elim (Option-cases w.manager.active) [
  | inl e ↦ ground arith
  | inr (a, e) ↦
      (a, record { active = e; same_connection = ground arith; same_transaction = ground arith })
]

IsBound-verify_binding :
    (c : ConnectionToken) (t : TransactionId) (w : World) (a : ActiveSession)
    → IsBound c t w a
    → verify_binding c t w ≡ ok tt
unfolding verify_binding
IsBound-verify_binding c t w a b = ground arith

-- The slot is free, and the cell of the session's token is set.
abbrev pub ended : ActiveSession → World → World
ended a w = record {
  manager = record { config = w.manager.config; active = none };
  cells = set w.cells a.cancellation true;
}

-- What an owned call gives, by its kind and by whether the deadline has passed.
abbrev pub outcome :
    Owned → TransactionId → Bool → ActiveSession → World → Result SessionError Response × World
outcome (progresses code) t late a w =
    if late then (ok (completed t timed_out), ended a w) else (ok (progress t code), w)
outcome (completes decision) t late a w =
    if is_reserved decision
    then (err reserved_decision, w)
    else (ok (completed t (if late then timed_out else decision)), ended a w)
outcome cancels t late a w = (ok (completed t (if late then timed_out else cancelled)), ended a w)

pub take_terminal-active :
    (w : World) (a : ActiveSession) (d : DecisionCode)
    → w.manager.active ≡ some a
    → take_terminal d w ≡ (ok (completed a.grant.transaction_id d), ended a w)
unfolding take_terminal
take_terminal-active w a d e = ground arith

deadline_reached-active :
    (w : World) (a : ActiveSession) (now : ℕ)
    → w.manager.active ≡ some a
    → deadline_reached now w ≡ ok (leb a.deadline_micros now)
unfolding deadline_reached
deadline_reached-active w a now e = ground arith

-- The world of `cancel` once the flag is raised and before the slot is freed.
abbrev flagged : ActiveSession → World → World
flagged a w = record { manager = w.manager; cells = set w.cells a.cancellation true }

cancel_active-flagged :
    (w : World) (a : ActiveSession) → w.manager.active ≡ some a → cancel_active w ≡ flagged a w
unfolding cancel_active
cancel_active-flagged w a e = ground arith

ended-flagged : (w : World) (a : ActiveSession) → ended a (flagged a w) ≡ ended a w
ended-flagged w a = ground (arith, set-set w.cells a.cancellation true)

-- A call by the owner of the active transaction, on every branch: past the deadline it ends as
-- timed out whatever was asked; before it, progress is echoed and changes nothing, a decision
-- ends the transaction with that decision, and a cancellation ends it as cancelled. Ending frees
-- the slot and sets the token. A reserved decision is refused and changes nothing.
pub perform_bound :
    (o : Owned) (c : ConnectionToken) (t : TransactionId) (now : ℕ) (w : World) (a : ActiveSession)
    → IsBound c t w a
    → perform o c t now w ≡ outcome o t (leb a.deadline_micros now) a w
unfolding send_progress complete cancel
perform_bound (progresses code) c t now w a b = ground (
  arith,
  IsBound-verify_binding c t w a b,
  deadline_reached-active w a now b.active,
  take_terminal-active w a timed_out b.active,
)
perform_bound (completes decision) c t now w a b = ground (
  arith,
  IsBound-verify_binding c t w a b,
  deadline_reached-active w a now b.active,
  take_terminal-active w a timed_out b.active,
  take_terminal-active w a decision b.active,
)
perform_bound cancels c t now w a b = ground (
  arith,
  IsBound-verify_binding c t w a b,
  cancel_active-flagged w a b.active,
  deadline_reached-active (flagged a w) a now b.active,
  take_terminal-active (flagged a w) a timed_out b.active,
  take_terminal-active (flagged a w) a cancelled b.active,
  ended-flagged w a,
)

-- A call that does not name both the connection and the identifier of the active transaction
-- fails and changes nothing: not the slot, and no token.
pub perform_foreign :
    (o : Owned) (c : ConnectionToken) (t : TransactionId) (now : ℕ) (w : World)
    → ((a : ActiveSession) → ¬ IsBound c t w a)
    → ((perform o c t now w).1 ≡ w) × (is_ok (perform o c t now w).0 ≡ false)
unfolding send_progress complete cancel
perform_foreign o c t now w none_bound = refuse o (verify_binding c t w) refl
  where
    refuse :
        (p : Owned) (r : Result SessionError (Unit {0}))
        → verify_binding c t w ≡ r
        → ((perform p c t now w).1 ≡ w) × (is_ok (perform p c t now w).0 ≡ false)
    refuse p (ok tt) e = let (a, b) = verify_binding-IsBound c t w e in absurd (none_bound a b)
    refuse (progresses code) (err x) e = ground arith
    refuse (completes decision) (err x) e = ground arith
    refuse cancels (err x) e = ground arith

-- Either the call names the active transaction and its connection, or it does not.
pub owner_or_stranger :
    (c : ConnectionToken) (t : TransactionId) (w : World)
    → ((a : ActiveSession) × IsBound c t w a) ⊎ ((a : ActiveSession) → ¬ IsBound c t w a)
owner_or_stranger c t w = decide_bound (verify_binding c t w) refl
  where
    decide_bound :
        (r : Result SessionError (Unit {0}))
        → verify_binding c t w ≡ r
        → ((a : ActiveSession) × IsBound c t w a) ⊎ ((a : ActiveSession) → ¬ IsBound c t w a)
    decide_bound (ok tt) e = inl (verify_binding-IsBound c t w e)
    decide_bound (err x) e = inr (λ a b. cc (IsBound-verify_binding c t w a b))
