-- ===== src/Pam/Replies.antt =====
-- When the PAM module accepts (crates/pam-faceauth/src/lib.rs).
use faceauth_rs.Prelude.{
  ℕ, zero, suc, ◌<◌, ◌≡◌, ◌⊎◌, inl, inr, refl, sym, ap, ◌∙◌, true, false, none, some, Result, ok,
  err, Option-cases, Bool-cases, nat_eq, bytes_eq, ◌==◌, eq_of_beq, leb, arith,
}
use faceauth_rs.Protocol.{
  TransactionId, RequestContext, authenticate, Response, started, progress, completed, rejected,
  DecisionCode, is_accepted,
}
use faceauth_rs.Transport.{TransportError}
use faceauth_rs.Pam.{
  max_transaction_duration, max_responses, accepted, ignore, ClientStream, judge, take_response,
  await_decision, after_write, exchange,
}

-- A response after which the client goes on waiting
abbrev pub IsPending : TransactionId → Response → Type 0
IsPending t (started u) = u ≡ t
IsPending t (progress u p) = u ≡ t
IsPending t _ = ⊥

judge-IsPending : (t : TransactionId) (r : Response) → judge t r ≡ none → IsPending t r
unfolding judge
judge-IsPending t (started u) h = ground arith
judge-IsPending t (progress u p) h = ground arith
judge-IsPending t (completed u d) h = ground arith
judge-IsPending t (rejected u c) h = ground arith

judge-IsPending_inverse : (t : TransactionId) (r : Response) → IsPending t r → judge t r ≡ none
unfolding judge
judge-IsPending_inverse t (started u) h = ground arith
judge-IsPending_inverse t (progress u p) h = ground arith
judge-IsPending_inverse t (completed u d) h = ground arith
judge-IsPending_inverse t (rejected u c) h = ground arith

accepted_of : (d : DecisionCode) → is_accepted d ≡ true → d ≡ DecisionCode.accepted
unfolding is_accepted
accepted_of d h = ground arith

judge-accepted :
    (t : TransactionId) (r : Response)
    → judge t r ≡ some accepted
    → r ≡ completed t DecisionCode.accepted
unfolding judge is_accepted
judge-accepted t (started u) h = ground arith
judge-accepted t (progress u p) h = ground arith
judge-accepted t (rejected u c) h = ground arith
judge-accepted t (completed u d) h = elim (Bool-cases (u == t)) [
  | inr e ↦ absurd (ground arith)
  | inl e ↦
      ap (λ v. completed v d) (eq_of_beq u t e) ∙ ap (completed t) (accepted_of d (ground arith))
]

accepted-judge : (t : TransactionId) → judge t (completed t DecisionCode.accepted) ≡ some accepted
unfolding judge is_accepted
accepted-judge t = ground arith

module _ {S : Type 0} (stream : ClientStream S) where
  -- At most `n` responses are read, each before the time is up: those that wait, then the
  -- acceptance of the transaction.
  abbrev pub Accepts : ℕ → (ℕ → ℕ) → TransactionId → S → S → Type 0
  Accepts zero elapsed t s after = ⊥
  Accepts (suc n) elapsed t s after =
      (elapsed 0 < max_transaction_duration)
      × ((stream.read_response s ≡ (ok (completed t DecisionCode.accepted), after))
          ⊎ ((r : Response) × (next : S) × (stream.read_response s ≡ (ok r, next))
              × IsPending t r
              × Accepts n (λ i. elapsed (suc i)) t next after))

  in_time :
      (n : ℕ) (elapsed : ℕ → ℕ) (t : TransactionId) (s : S)
      → leb max_transaction_duration (elapsed 0) ≡ false
      → await_decision stream (suc n) elapsed t s
        ≡ take_response stream t
            (await_decision stream n (λ i. elapsed (suc i)) t)
            (stream.read_response s)
  unfolding await_decision
  in_time n elapsed t s e = rw (await_decision, e) refl

  await_decision-Accepts :
      (n : ℕ) (elapsed : ℕ → ℕ) (t : TransactionId) (s after : S)
      → await_decision stream n elapsed t s ≡ (accepted, after)
      → Accepts n elapsed t s after
  unfolding await_decision
  await_decision-Accepts zero elapsed t s after h = ground arith
  await_decision-Accepts (suc n) elapsed t s after h =
      elim (Bool-cases (leb max_transaction_duration (elapsed 0))) [
        | inl e ↦ absurd (ground arith)
        | inr e ↦ (
          ground arith,
          go (stream.read_response s) refl
              (λ next k. await_decision-Accepts n (λ i. elapsed (suc i)) t next after k)
              (sym (in_time n elapsed t s e) ∙ h),
        )
      ]
    where
      go :
          (x : Result TransportError Response × S)
          → stream.read_response s ≡ x
          → ((next : S)
              → await_decision stream n (λ i. elapsed (suc i)) t next ≡ (accepted, after)
              → Accepts n (λ i. elapsed (suc i)) t next after)
          → take_response stream t (await_decision stream n (λ i. elapsed (suc i)) t) x
            ≡ (accepted, after)
          → (stream.read_response s ≡ (ok (completed t DecisionCode.accepted), after))
            ⊎ ((r : Response) × (next : S) × (stream.read_response s ≡ (ok r, next))
                × IsPending t r
                × Accepts n (λ i. elapsed (suc i)) t next after)
      go (err e, next) eq later k = absurd (ground arith)
      go (ok r, next) eq later k = elim (Option-cases (judge t r)) [
        | inl e ↦ inr (r, next, eq, judge-IsPending t r e, later next (ground arith))
        | inr (ignore, e) ↦ absurd (ground arith)
        | inr (accepted, e) ↦
            let same : next ≡ after = ground arith in
            inl (
              eq
              ∙ ap (λ u. (ok u, next)) (judge-accepted t r e)
              ∙ ap (λ u. (ok (completed t DecisionCode.accepted), u)) same)
      ]

  Accepts-await_decision :
      (n : ℕ) (elapsed : ℕ → ℕ) (t : TransactionId) (s after : S)
      → Accepts n elapsed t s after
      → await_decision stream n elapsed t s ≡ (accepted, after)
  Accepts-await_decision zero elapsed t s after h = elim h [ ]
  Accepts-await_decision (suc n) elapsed t s after (early, inl e) =
      in_time n elapsed t s (ground arith) ∙ rw (e, take_response, accepted-judge t) refl
  Accepts-await_decision (suc n) elapsed t s after (early, inr (r, next, e, pending, rest)) =
      in_time n elapsed t s (ground arith)
      ∙ rw (e, take_response, judge-IsPending_inverse t r pending)
          (Accepts-await_decision n (λ i. elapsed (suc i)) t next after rest)

module _ {S : Type 0} where
  pub exchange-Accepts :
      (stream : ClientStream S) (elapsed : ℕ → ℕ) (c : RequestContext) (s after : S)
      → exchange stream elapsed (authenticate c) s ≡ (accepted, after)
      → (sent : S) × (stream.write_request (authenticate c) s ≡ (ok tt, sent))
        × Accepts stream max_responses elapsed c.transaction_id sent after
  unfolding exchange
  exchange-Accepts stream elapsed c s after e = go (stream.write_request (authenticate c) s) refl e
    where
      go :
          (x : Result TransportError (Unit {0}) × S)
          → stream.write_request (authenticate c) s ≡ x
          → after_write stream elapsed c.transaction_id x ≡ (accepted, after)
          → (sent : S) × (stream.write_request (authenticate c) s ≡ (ok tt, sent))
            × Accepts stream max_responses elapsed c.transaction_id sent after
      go (err x, next) eq k = absurd (ground arith)
      go (ok done, next) eq k = (
        next,
        eq,
        await_decision-Accepts stream max_responses elapsed c.transaction_id next after k,
      )

  pub Accepts-exchange :
      (stream : ClientStream S) (elapsed : ℕ → ℕ) (c : RequestContext) (s sent after : S)
      → stream.write_request (authenticate c) s ≡ (ok tt, sent)
      → Accepts stream max_responses elapsed c.transaction_id sent after
      → exchange stream elapsed (authenticate c) s ≡ (accepted, after)
  unfolding exchange
  Accepts-exchange stream elapsed c s sent after written answered =
      rw written
        (Accepts-await_decision stream max_responses elapsed c.transaction_id sent after answered)
