-- ===== src/Storage/History.antt =====
-- Histories of the template store (crates/faceauth-storage/src/lib.rs): generations only grow, so that
-- a compare-and-swap succeeds only on the file that was observed.
use faceauth_rs.Prelude.{
  ℕ, ◌<◌, ◌≡◌, ◌⊎◌, inl, inr, refl, ap, sym, ◌∙◌, subst, Option, some, Result, ok, nat_eq,
  eq_of_beq, ◌==◌, Bool-cases, List, [], ◌∷◌, arith, All,
}
use faceauth_rs.Prelude.Float.{Float, Arithmetic}
use faceauth_rs.Storage.{StorageError, TemplateRecord, StoredPayload, generation_of}
use faceauth_rs.Storage.Files.{EncryptedTemplateStore, Codec, Host, Disk}
use faceauth_rs.Storage.Sealing.{IsSound}
use faceauth_rs.Storage.Reading.{IsKeyed, Holds}
use faceauth_rs.Storage.Store.{last_generation, replace_if_generation}
use faceauth_rs.Storage.Generations.{
  Call, replaces, account, intended, perform, Effect, refuses, writes, perform-Effect,
  perform_frame,
}

module _ (P K : Type 0) {W : Type 0} ⦃f : Float W⦄ ⦃a : Arithmetic W⦄ (codec : Codec W)
    (secret : List ℕ) where
  -- A file is as it was, or holds a payload of a higher generation.
  unfoldable pub Advances : ℕ → Option (StoredPayload W) → (before after : Option (List ℕ)) → Type 0
  Advances uid slot before after =
      (after ≡ before)
      ⊎ ((payload : StoredPayload W) × Holds P K codec secret uid (some payload) after
          × (last_generation slot < generation_of payload))

module _ {P K W : Type 0} ⦃f : Float W⦄ ⦃a : Arithmetic W⦄ (codec : Codec W)
    (s : EncryptedTemplateStore P) (secret : List ℕ) where
  -- Calls made one after the other, each with the answers of its host.
  unfoldable pub replay : List (Host P K × Call W) → Disk → Disk
  replay [] disk = disk
  replay ((h, call) ∷ rest) disk = replay rest (perform codec s secret h call disk).1

  abbrev pub AllKeyed : List (Host P K × Call W) → Type 0
  AllKeyed calls = All (λ k. IsKeyed secret k.0) calls

  intended_grows :
      (call : Call W) (slot : Option (StoredPayload W)) (payload : StoredPayload W)
      → intended {P = P} {K = K} call slot ≡ ok payload
      → last_generation slot < generation_of payload
  unfolding intended last_generation generation_of
  intended_grows call slot payload e = ground arith

  module _ (sound : IsSound P K codec) where
    Effect-Advances :
        (call : Call W) (slot : Option (StoredPayload W)) (disk : Disk)
        (r : Result (StorageError P K) ℕ) (after : Disk)
        → Effect codec s secret (account call) (intended call slot) disk r after
        → Advances P K codec secret (account call) slot (disk (account call)) (after (account call))
    unfolding Advances Holds
    Effect-Advances call slot disk r after (refuses e same) =
        inl (ap (λ (d : Disk). d (account call)) same)
    Effect-Advances call slot disk r after (writes payload bytes target held same answered) = inr (
      payload,
      (bytes, ap (λ (d : Disk). d (account call)) same ∙ ground arith, held),
      intended_grows call slot payload target,
    )

    step-Advances :
        (h : Host P K) (call : Call W) (uid : ℕ) (slot : Option (StoredPayload W)) (disk : Disk)
        → IsKeyed secret h
        → Holds P K codec secret uid slot (disk uid)
        → Advances P K codec secret uid slot (disk uid) ((perform codec s secret h call disk).1 uid)
    unfolding Advances
    step-Advances h call uid slot disk keyed held = elim (Bool-cases (uid == account call)) [
      | inl e ↦
          let here : uid ≡ account call = eq_of_beq uid (account call) e in
          subst
            (λ u.
              Holds P K codec secret u slot (disk u)
              → Advances P K codec secret u slot (disk u)
                  ((perform codec s secret h call disk).1 u))
            (sym here)
            (λ h₁.
              Effect-Advances call slot disk _ _
                (perform-Effect codec s secret h sound keyed call slot disk h₁))
            held
      | inr e ↦ inl (perform_frame codec s secret h call uid disk (λ e₁. ground arith))
    ]

    -- After any history, the file of an account is as it was or holds a higher generation.
    pub replay-Advances :
        (calls : List (Host P K × Call W)) (uid : ℕ) (slot : Option (StoredPayload W)) (disk : Disk)
        → AllKeyed calls
        → Holds P K codec secret uid slot (disk uid)
        → Advances P K codec secret uid slot (disk uid) (replay calls disk uid)
    unfolding Advances replay last_generation
    replay-Advances [] uid slot disk keyed held = inl refl
    replay-Advances ((h, call) ∷ rest) uid slot disk keyed held =
        let after = (perform codec s secret h call disk).1 in
        elim (step-Advances h call uid slot disk keyed.0 held) [
          | inl same ↦
              let kept = subst (λ file. Holds P K codec secret uid slot file) (sym same) held in
              elim (replay-Advances rest uid slot after keyed.1 kept) [
                | inl e ↦ inl (e ∙ same)
                | inr later ↦ inr later
              ]
          | inr (payload, there, less) ↦
              elim (replay-Advances rest uid (some payload) after keyed.1 there) [
                | inl e ↦ inr (
                  payload,
                  subst (λ file. Holds P K codec secret uid (some payload) file) (sym e) there,
                  less,
                )
                | inr (last, there₁, less₁) ↦ inr (last, there₁, omega (arith, less, less₁))
              ]
        ]

    -- A replacement for one generation is refused on a payload of another.
    stale_refused :
        (r : TemplateRecord W) (expected written : ℕ) (payload : StoredPayload W)
        (disk after : Disk) (result : Result (StorageError P K) ℕ)
        → expected < generation_of payload
        → Effect codec s secret r.uid
            (intended (replaces expected r) (some payload))
            disk
            result
            after
        → result ≡ ok written
        → ⊥
    unfolding intended generation_of
    stale_refused r expected written payload disk after result less (refuses e same) done =
        ground arith
    stale_refused r expected written payload disk after result less
          (writes p bytes target held same answered) done =
        ground (arith, target, less)

    -- When a replacement for the generation of a payload that was seen succeeds after a history of
    -- calls with one key, the file of its account was still the one that held that payload, up to the
    -- replacement: no save, replacement or deletion of that account took effect in between.
    pub replace-unchanged :
        (calls : List (Host P K × Call W)) (h : Host P K) (r : TemplateRecord W) (disk : Disk)
        (seen : StoredPayload W) (written : ℕ)
        → AllKeyed calls
        → IsKeyed secret h
        → Holds P K codec secret r.uid (some seen) (disk r.uid)
        → (replace_if_generation codec s h (generation_of seen) r (replay calls disk)).0
          ≡ ok written
        → replay calls disk r.uid ≡ disk r.uid
    unfolding Advances last_generation perform
    replace-unchanged calls h r disk seen written all_keyed keyed held done =
        elim (replay-Advances calls r.uid (some seen) disk all_keyed held) [
          | inl same ↦ same
          | inr (payload, there, less) ↦ absurd (
              stale_refused r (generation_of seen) written payload _ _ _ less
                (perform-Effect codec s secret h sound keyed (replaces (generation_of seen) r)
                  (some payload) (replay calls disk) there)
                done)
        ]
