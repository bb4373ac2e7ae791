-- ===== src/Presence/Hints.antt =====
-- What a prewarming hint rests on (`PresenceCache` of crates/faceauth-presence/src/lib.rs).
use faceauth_rs.Prelude.{
  ℕ, ◌+◌, ◌≤◌, ◌≡◌, ◌⊎◌, inl, inr, sym, subst, ◌&&◌, Bool, true, not, some, Option-cases,
  Bool-cases, is_some_and, leb, ok, List, [], ◌∷◌, arith,
}
use faceauth_rs.Presence.{
  PresenceSnapshot, PresenceCache, default_cache, update, clear, should_prewarm, in_contract,
  validate_snapshot,
}

pub data Refresh : Type 0 where
  updates : PresenceSnapshot → Refresh
  clears : Refresh

abbrev pub refresh : Refresh → PresenceCache → PresenceCache
refresh (updates s) c = (update s c).1
refresh clears c = (clear c).1

unfoldable pub refreshed : PresenceCache → List Refresh → PresenceCache
refreshed c [] = c
refreshed c (k ∷ ks) = refreshed (refresh k c) ks

-- The snapshot is among those that are given to the cache.
pub data IsGiven (s : PresenceSnapshot) : List Refresh → Type 0 where
  last_given : (ks : List Refresh) → IsGiven s (updates s ∷ ks)
  given_later : {k : Refresh} {ks : List Refresh} → IsGiven s ks → IsGiven s (k ∷ ks)

refresh_state :
    (k : Refresh) (c : PresenceCache) (s : PresenceSnapshot)
    → (refresh k c).state ≡ some s
    → (c.state ≡ some s) ⊎ ((k ≡ updates s) × (in_contract s.raw_value ≡ true))
unfolding update clear validate_snapshot
refresh_state (updates x) c s h = elim (Bool-cases (taken x c)) [
  | inl e ↦ inr (ground arith, ground arith)
  | inr e ↦ inl (ground arith)
]
  where
    taken : PresenceSnapshot → PresenceCache → Bool
    taken x c =
        in_contract x.raw_value
        && not c.poisoned
        && not (is_some_and c.state (λ p. leb x.observed_at_micros p.observed_at_micros))
refresh_state clears c s h = inl (ground arith)

-- A snapshot that the cache has in the end was in it before, or was given to it.
refreshed_state :
    (c : PresenceCache) (ks : List Refresh) (s : PresenceSnapshot)
    → (refreshed c ks).state ≡ some s
    → (c.state ≡ some s) ⊎ (IsGiven s ks × (in_contract s.raw_value ≡ true))
unfolding refreshed
refreshed_state c [] s h = inl h
refreshed_state c (k ∷ ks) s h = elim (refreshed_state (refresh k c) ks s h) [
  | inl e ↦ elim (refresh_state k c s e) [
    | inl old ↦ inl old
    | inr (now, sound) ↦ inr (subst (λ x. IsGiven s (x ∷ ks)) (sym now) (last_given ks), sound)
  ]
  | inr (given, sound) ↦ inr (given_later given, sound)
]

-- What a hint at the time `now` with the freshness bound `age` rests on.
pub record IsFreshHint (now age : ℕ) (ks : List Refresh) (s : PresenceSnapshot) : Type 0 where
  pub given : IsGiven s ks
  pub sound : in_contract s.raw_value ≡ true
  pub usable : s.available ≡ true
  pub human : s.present ≡ true
  pub past : s.observed_at_micros ≤ now
  pub fresh : now ≤ s.observed_at_micros + age
  pub bounded : age ≤ 60000000

-- After any history of updates and clears of a new cache, it suggests prewarming only on a
-- snapshot that it was given, with a raw value in contract, which reports a usable sensor and a
-- present human, was not observed in the future, and is no older than a bound of at most a minute.
pub should_prewarm-IsFreshHint :
    (ks : List Refresh) (now age : ℕ)
    → should_prewarm now age (refreshed default_cache ks) ≡ ok true
    → (s : PresenceSnapshot) × IsFreshHint now age ks s
unfolding should_prewarm
should_prewarm-IsFreshHint ks now age h = elim (Option-cases (refreshed default_cache ks).state) [
  | inl e ↦ absurd (ground arith)
  | inr (s, e) ↦ elim (refreshed_state default_cache ks s e) [
    | inl never ↦ absurd (ground arith)
    | inr (given, sound) ↦ (
      s,
      record {
        given = given;
        sound = sound;
        usable = ground arith;
        human = ground arith;
        past = ground arith;
        fresh = ground arith;
        bounded = ground arith;
      },
    )
  ]
]
