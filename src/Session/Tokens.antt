-- ===== src/Session/Tokens.antt =====
-- The cancellation tokens of crates/faceauth-session/src/lib.rs over a history, and where an
-- acceptance comes from.
use faceauth_rs.Prelude.{
  ℕ, ◌<◌, ◌≡◌, ◌↔◌, inl, inr, refl, sym, ap, ◌∙◌, subst, Bool, false, Option, some, none, ok, err,
  Result, is_ok, to_option, arith, List, [], ◌∷◌, ◌++◌, length, length-append, ltb, ltb→lt, ◌+◌,
  get_or, Bool-cases,
}
use faceauth_rs.Protocol.{TransactionId, DecisionCode, accepted, Response, completed}
use faceauth_rs.Authz.{AuthorizationGrant}
use faceauth_rs.Session.{
  World, SessionConfig, SessionManager, ConnectionToken, ActiveSession, admit, is_cancelled, new,
  start, expire, take_terminal, is_reserved, SessionError,
}
use faceauth_rs.Session.Cells.{
  AllSpent, set-last, AllSpent-last, get_or-AllSpent, get_or-before, get_or-last,
}
use faceauth_rs.Session.Calls.{
  Owned, progresses, completes, cancels, IsBound, ended, perform, outcome, perform_bound,
  perform_foreign, owner_or_stranger,
}
use faceauth_rs.Prelude.Ledger.{replay_keeps}
use faceauth_rs.Session.Trace.{
  Call, starts, asks, expires, Effect, kept, opened, closed, step, step-Effect, next, opens, closes,
  run,
}

-- All cells are spent, but for the one of the active transaction, which is the newest.
abbrev pub Shape : Option ActiveSession → List Bool → Type 0
Shape none cells = AllSpent cells
Shape (some a) cells =
    (done : List Bool) × (cells ≡ done ++ false ∷ [])
    × AllSpent done
    × (a.cancellation ≡ length done)

abbrev pub IsTidy : World → Type 0
IsTidy w = Shape w.manager.active w.cells

ended-IsTidy :
    (w : World) (a : ActiveSession) → w.manager.active ≡ some a → IsTidy w → IsTidy (ended a w)
ended-IsTidy w a e h =
    let (done, split, spent, at) = subst (λ s. Shape s w.cells) e h in
    rw (split, at, set-last done) (AllSpent-last done spent)

admit-IsTidy :
    (g : AuthorizationGrant) (c : ConnectionToken) (d : ℕ) (w : World)
    → w.manager.active ≡ none
    → IsTidy w
    → IsTidy (admit g c d w)
unfolding admit
admit-IsTidy g c d w e h = (w.cells, refl, subst (λ s. Shape s w.cells) e h, refl)

Effect-IsTidy : {w w' : World} {r : Option Response} → Effect w r w' → IsTidy w → IsTidy w'
Effect-IsTidy {w} (kept same quiet) h = subst IsTidy (sym same) h
Effect-IsTidy {w} (opened g c d free r_eq w_eq) h =
    subst IsTidy (sym w_eq) (admit-IsTidy g c d w free h)
Effect-IsTidy {w} (closed a d taken r_eq w_eq) h =
    subst IsTidy (sym w_eq) (ended-IsTidy w a taken h)

run-IsTidy : (w : World) (ks : List Call) → IsTidy w → IsTidy (run w ks).final
run-IsTidy = replay_keeps next opens closes IsTidy (λ k w h. Effect-IsTidy (step-Effect k w) h)

-- The token belongs to the active transaction.
abbrev pub IsLive : Option ActiveSession → ℕ → Type 0
IsLive none token = ⊥
IsLive (some a) token = a.cancellation ≡ token

Shape-token :
    (s : Option ActiveSession) (cells : List Bool) (token : ℕ)
    → Shape s cells
    → token < length cells
    → (get_or cells token false ≡ false) ↔ IsLive s token
Shape-token none cells token h lt = ground (arith, get_or-AllSpent cells token h)
Shape-token (some a) cells token (done, split, spent, at) lt =
    let size : length cells ≡ length done + 1 = ap length split ∙ length-append done (false ∷ []) in
    elim (Bool-cases (ltb token (length done))) [
      | inl before ↦
          let read =
            ap (λ (l : List Bool). get_or l token false) split
            ∙ get_or-before done token false spent (ltb→lt _ _ before) in
          ground (arith, read, at)
      | inr after ↦
          let newest : token ≡ length done = ground arith in
          let read =
            ap (λ (l : List Bool). get_or l token false) split
            ∙ ap (λ i. get_or (done ++ false ∷ []) i false) newest
            ∙ get_or-last done false in
          (λ _. at ∙ sym newest, λ _. read)
    ]

abbrev pub fresh : SessionManager → World
fresh m = record { manager = m; cells = [] }

new_idle : (c : SessionConfig) (m : SessionManager) → new c ≡ ok m → m.active ≡ none
unfolding new
new_idle c m h = ground arith

-- After any history of a new manager, every token ever handed out reads as cancelled, except the
-- token of the transaction that is still active, which does not.
pub token_iff :
    (c : SessionConfig) (m : SessionManager) (ks : List Call) (token : ℕ)
    → new c ≡ ok m
    → token < length (run (fresh m) ks).final.cells
    → (is_cancelled (run (fresh m) ks).final token ≡ false)
      ↔ IsLive (run (fresh m) ks).final.manager.active token
unfolding is_cancelled
token_iff c m ks token made lt =
    Shape-token _ _ token
      (run-IsTidy (fresh m) ks (subst (λ s. Shape s []) (sym (new_idle c m made)) tt)) lt

start_never_completes :
    (g : AuthorizationGrant) (c : ConnectionToken) (now : ℕ) (w : World) (t : TransactionId)
    (d : DecisionCode)
    → to_option (start g c now w).0 ≡ some (completed t d)
    → ⊥
unfolding start
start_never_completes g c now w t d h = ground arith

expire_never_accepts :
    (now : ℕ) (w : World) (t : TransactionId) → (expire now w).0 ≡ some (completed t accepted) → ⊥
unfolding expire take_terminal
expire_never_accepts now w t h = ground arith

outcome-accepted :
    (o : Owned) (t u : TransactionId) (late : Bool) (a : ActiveSession) (w : World)
    → to_option (outcome o t late a w).0 ≡ some (completed u accepted)
    → (o ≡ completes accepted) × (t ≡ u) × (late ≡ false)
unfolding is_reserved
outcome-accepted (progresses code) t u late a w h = ground arith
outcome-accepted (completes d) t u late a w h = ground arith
outcome-accepted cancels t u late a w h = ground arith

refused-none :
    (r : Result SessionError Response) {x : Response} → is_ok r ≡ false → to_option r ≡ some x → ⊥
refused-none (ok y) h e = cc
refused-none (err y) h e = cc

-- An acceptance is only ever emitted by `complete` called with that decision, on the connection
-- and the identifier of the active transaction, before its deadline.
pub accepted_only :
    (k : Call) (w : World) (t : TransactionId)
    → (step k w).0 ≡ some (completed t accepted)
    → (c : ConnectionToken) × (now : ℕ) × (a : ActiveSession) × (k
        ≡ asks (completes accepted) c t now)
      × IsBound c t w a
      × (now < a.deadline_micros)
accepted_only (starts g c now) w t h = absurd (start_never_completes g c now w t accepted h)
accepted_only (expires now) w t h = absurd (expire_never_accepts now w t h)
accepted_only (asks o c u now) w t h = elim (owner_or_stranger c u w) [
  | inl (a, b) ↦
      let given =
        ap (λ (p : Result SessionError Response × World). to_option p.0)
          (sym (perform_bound o c u now w a b)) in
      let (is_complete, same, early) = outcome-accepted o u t _ a w (given ∙ h) in
      (
        c,
        now,
        a,
        ap (λ p. asks p c u now) is_complete ∙ ap (λ v. asks (completes accepted) c v now) same,
        subst (λ v. IsBound c v w a) same b,
        ground arith,
      )
  | inr foreign ↦
      absurd (refused-none (perform o c u now w).0 (perform_foreign o c u now w foreign).1 h)
]
