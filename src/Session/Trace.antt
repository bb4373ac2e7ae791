-- ===== src/Session/Trace.antt =====
-- Histories of the session manager (crates/faceauth-session/src/lib.rs): what a call does to the
-- slot, and which transactions are answered.
use mathlib.Core.List.{append-nil}
use faceauth_rs.Prelude.{
  ℕ, ◌≡◌, inl, inr, refl, Bool, true, false, Option, some, none, ok, err, Result, is_ok,
  if◌then◌else◌, leb, arith, List, [], ◌∷◌, ◌++◌, to_option, Option-cases, Bool-cases,
}
use faceauth_rs.Prelude.Ledger.{History, replay, replay_balance}
use faceauth_rs.Prelude.Word.{u64_mod, checked_add}
use faceauth_rs.Protocol.{
  TransactionId, DecisionCode, cancelled, timed_out, Response, started, progress, completed,
}
use faceauth_rs.Authz.{AuthorizationGrant}
use faceauth_rs.Session.{
  World, ConnectionToken, ActiveSession, SessionError, start, admit, expire, is_reserved, busy,
  deadline_overflow,
}
use faceauth_rs.Session.Calls.{
  Owned, progresses, completes, cancels, perform, ended, outcome, take_terminal-active,
  perform_bound, perform_foreign, owner_or_stranger,
}

pub data Call : Type 0 where
  starts : AuthorizationGrant → ConnectionToken → ℕ → Call
  asks : Owned → ConnectionToken → TransactionId → ℕ → Call
  expires : ℕ → Call

-- The response that a call emits, if any, and the world after it.
abbrev pub step : Call → World → Option Response × World
step (starts g c now) w = let (r, w') = start g c now w in (to_option r, w')
step (asks o c t now) w = let (r, w') = perform o c t now w in (to_option r, w')
step (expires now) w = expire now w

abbrev is_quiet : Option Response → Bool
is_quiet none = true
is_quiet (some (progress t code)) = true
is_quiet _ = false

-- A call leaves the world alone, opens the free slot, or closes the occupied one.
pub data Effect (w : World) (r : Option Response) (w' : World) : Type 0 where
  kept : w' ≡ w → is_quiet r ≡ true → Effect w r w'
  opened :
      (g : AuthorizationGrant) (c : ConnectionToken) (d : ℕ)
      → w.manager.active ≡ none
      → r ≡ some (started g.transaction_id)
      → w' ≡ admit g c d w
      → Effect w r w'
  closed :
      (a : ActiveSession) (d : DecisionCode)
      → w.manager.active ≡ some a
      → r ≡ some (completed a.grant.transaction_id d)
      → w' ≡ ended a w
      → Effect w r w'

start_busy :
    (g : AuthorizationGrant) (c : ConnectionToken) (now : ℕ) (w : World) (a : ActiveSession)
    → w.manager.active ≡ some a
    → start g c now w ≡ (err busy, w)
unfolding start
start_busy g c now w a e = ground arith

-- The deadline of a transaction that starts now, if it fits a `u64`.
abbrev deadline_from : ℕ → World → Option ℕ
deadline_from now w = checked_add u64_mod now w.manager.config.transaction_duration_micros

start_overflow :
    (g : AuthorizationGrant) (c : ConnectionToken) (now : ℕ) (w : World)
    → w.manager.active ≡ none
    → deadline_from now w ≡ none
    → start g c now w ≡ (err deadline_overflow, w)
unfolding start
start_overflow g c now w e h = ground arith

pub start_free :
    (g : AuthorizationGrant) (c : ConnectionToken) (now d : ℕ) (w : World)
    → w.manager.active ≡ none
    → deadline_from now w ≡ some d
    → start g c now w ≡ (ok (started g.transaction_id), admit g c d w)
unfolding start
start_free g c now d w e h = ground arith

start-Effect :
    (g : AuthorizationGrant) (c : ConnectionToken) (now : ℕ) (w : World)
    → Effect w (step (starts g c now) w).0 (step (starts g c now) w).1
start-Effect g c now w = elim (Option-cases w.manager.active) [
  | inl e ↦ elim (Option-cases (deadline_from now w)) [
    | inl h ↦ rw (start_overflow g c now w e h) (kept refl refl)
    | inr (d, h) ↦ rw (start_free g c now d w e h) (opened g c d e refl refl)
  ]
  | inr (a, e) ↦ rw (start_busy g c now w a e) (kept refl refl)
]

outcome-Effect :
    (o : Owned) (t : TransactionId) (late : Bool) (w : World) (a : ActiveSession)
    → w.manager.active ≡ some a
    → a.grant.transaction_id ≡ t
    → Effect w (to_option (outcome o t late a w).0) (outcome o t late a w).1
outcome-Effect (progresses code) t true w a e s = closed a timed_out e (ground arith) refl
outcome-Effect (progresses code) t false w a e s = kept refl refl
outcome-Effect (completes d) t late w a e s = elim (Bool-cases (is_reserved d)) [
  | inl r ↦ rw r (kept refl refl)
  | inr r ↦ rw r (closed a (if late then timed_out else d) e (ground arith) refl)
]
outcome-Effect cancels t late w a e s =
    closed a (if late then timed_out else cancelled) e (ground arith) refl

-- What a call to `expire` gives.
pub expire_due :
    (now : ℕ) (w : World) (a : ActiveSession)
    → w.manager.active ≡ some a
    → leb a.deadline_micros now ≡ true
    → expire now w ≡ (some (completed a.grant.transaction_id timed_out), ended a w)
unfolding expire
expire_due now w a e h = ground (arith, take_terminal-active w a timed_out e)

expire_early :
    (now : ℕ) (w : World) (a : ActiveSession)
    → w.manager.active ≡ some a
    → leb a.deadline_micros now ≡ false
    → expire now w ≡ (none, w)
unfolding expire
expire_early now w a e h = ground arith

expire_idle : (now : ℕ) (w : World) → w.manager.active ≡ none → expire now w ≡ (none, w)
unfolding expire
expire_idle now w e = ground arith

expire-Effect : (now : ℕ) (w : World) → Effect w (expire now w).0 (expire now w).1
expire-Effect now w = elim (Option-cases w.manager.active) [
  | inl e ↦ rw (expire_idle now w e) (kept refl refl)
  | inr (a, e) ↦ elim (Bool-cases (leb a.deadline_micros now)) [
    | inl h ↦ rw (expire_due now w a e h) (closed a timed_out e refl refl)
    | inr h ↦ rw (expire_early now w a e h) (kept refl refl)
  ]
]

refused-is_quiet :
    (r : Result SessionError Response) → is_ok r ≡ false → is_quiet (to_option r) ≡ true
refused-is_quiet (ok x) h = cc
refused-is_quiet (err x) h = refl

-- Every call has one of the three effects.
pub step-Effect : (k : Call) (w : World) → Effect w (step k w).0 (step k w).1
step-Effect (starts g c now) w = start-Effect g c now w
step-Effect (asks o c t now) w = elim (owner_or_stranger c t w) [
  | inl (a, b) ↦
      rw (perform_bound o c t now w a b)
        (outcome-Effect o t (leb a.deadline_micros now) w a b.active b.same_transaction)
  | inr foreign ↦
      let (same, refused) = perform_foreign o c t now w foreign in
      kept same (refused-is_quiet (perform o c t now w).0 refused)
]
step-Effect (expires now) w = expire-Effect now w

abbrev started_ids : Option Response → List TransactionId
started_ids (some (started t)) = t ∷ []
started_ids _ = []

abbrev completed_ids : Option Response → List TransactionId
completed_ids (some (completed t d)) = t ∷ []
completed_ids _ = []

abbrev pub open_ids : Option ActiveSession → List TransactionId
open_ids none = []
open_ids (some a) = a.grant.transaction_id ∷ []

abbrev pub next : Call → World → World
next k w = (step k w).1

abbrev pub opens : Call → World → List TransactionId
opens k w = started_ids (step k w).0

abbrev pub closes : Call → World → List TransactionId
closes k w = completed_ids (step k w).0

-- A history: the calls are made one after the other.
abbrev pub run : World → List Call → History next opens closes
run w ks = replay next opens closes w ks

quiet-ids :
    (r : Option Response) → is_quiet r ≡ true → (started_ids r ≡ []) × (completed_ids r ≡ [])
quiet-ids r h = ground arith

Effect-ids :
    {w w' : World} {r : Option Response}
    → Effect w r w'
    → open_ids w.manager.active ++ started_ids r ≡ completed_ids r ++ open_ids w'.manager.active
Effect-ids {w} {w'} {r} (kept same quiet) =
    let (none_started, none_completed) = quiet-ids r quiet in
    rw (same, none_started, none_completed) (append-nil _)
Effect-ids {w} {w'} {r} (opened g c d free r_eq w_eq) = rw (free, r_eq, w_eq) (unfold admit in refl)
Effect-ids {w} {w'} {r} (closed a d taken r_eq w_eq) = rw (taken, r_eq, w_eq) refl

-- Over any history, the transactions that were open or started are, in order, those that were
-- answered by a terminal response and then the one still open: none is answered twice, and none
-- is forgotten.
pub run-ids :
    (w : World) (ks : List Call)
    → let log = run w ks in
      open_ids w.manager.active ++ log.opened ≡ log.closed ++ open_ids log.final.manager.active
run-ids =
    replay_balance next opens closes (λ w. open_ids w.manager.active)
      (λ k w. Effect-ids (step-Effect k w))
