-- ===== src/Storage/Generations.antt =====
-- Histories of mutations of the template store (crates/faceauth-storage/src/lib.rs), against what each
-- of them is to make of the payload of its account. Calls that are serialized by the lock of an
-- account come one after the other, each with the answers of its own host.
use faceauth_rs.Prelude.{
  ℕ, ◌≡◌, ◌≢◌, ◌⊎◌, inl, inr, refl, ap, sym, ◌∙◌, subst, false, Option, Result, ok, err, ◌>>=◌,
  ◌>>◌, Result-cases, nat_eq, List, arith, is_ok, none, some, ◌+◌, ltb, ◌==◌, if◌then◌else◌,
}
use faceauth_rs.Prelude.Word.{u64_mod}
use faceauth_rs.Prelude.Float.{Float, Arithmetic}
use faceauth_rs.Storage.{
  StorageError, template_not_present, stale_generation, generation_exhausted, TemplateRecord,
  StoredPayload, live, deleted, generation_of, validate_template, next_generation,
}
use faceauth_rs.Storage.Files.{
  EncryptedTemplateStore, Codec, Host, Disk, put, seal, verify_directory, read_optional_payload,
  write_temporary_file, atomic_write, write_payload, acquire_lock, with_exclusive_uid_lock,
}
use faceauth_rs.Storage.Sealing.{IsSound, unseal, unseal-seal}
use faceauth_rs.Storage.Reading.{IsKeyed, Holds, read_optional-Holds}
use faceauth_rs.Storage.Store.{
  commit, last_generation, live_generation, is_stale, saved_payload, replaced_payload,
  deleted_payload, mutate, save_with_generation, replace_if_generation, delete_inner,
}

pub data Call (W : Type 0) : Type 0 where
  saves : TemplateRecord W → Call W
  replaces : ℕ → TemplateRecord W → Call W
  deletes : ℕ → Option ℕ → Call W

abbrev pub account : {W : Type 0} → Call W → ℕ
account (saves r) = r.uid
account (replaces g r) = r.uid
account (deletes uid g) = uid

module _ {P K W : Type 0} ⦃f : Float W⦄ ⦃a : Arithmetic W⦄ where
  -- The next generation of a payload, as long as it fits a `u64`
  abbrev numbered : ℕ → (ℕ → StoredPayload W) → Result (StorageError P K) (StoredPayload W)
  numbered generation make =
      if ltb (generation + 1) u64_mod then ok (make (generation + 1)) else err generation_exhausted

  -- What is to stand in the place of a payload when its own generation is expected
  abbrev expecting :
      Option ℕ → ℕ → (ℕ → StoredPayload W) → Result (StorageError P K) (StoredPayload W)
  expecting none generation make = numbered generation make
  expecting (some expected) generation make =
      if generation == expected
      then numbered generation make
      else err (stale_generation expected generation)

  -- The payload that a call is to leave in the place of another: a save goes on from whatever is
  -- there, a replacement and a deletion from a live template, of the generation that is expected.
  unfoldable pub intended :
      Call W → Option (StoredPayload W) → Result (StorageError P K) (StoredPayload W)
  intended (saves r) none = validate_template r >> numbered 0 (λ g. live 1 g r)
  intended (saves r) (some (live v g old)) = validate_template r >> numbered g (λ n. live 1 n r)
  intended (saves r) (some (deleted v g u)) = validate_template r >> numbered g (λ n. live 1 n r)
  intended (replaces expected r) none = validate_template r >> err (template_not_present none)
  intended (replaces expected r) (some (deleted v g u)) =
      validate_template r >> err (template_not_present (some g))
  intended (replaces expected r) (some (live v g old)) =
      validate_template r >> expecting (some expected) g (λ n. live 1 n r)
  intended (deletes uid expected) none = err (template_not_present none)
  intended (deletes uid expected) (some (deleted v g u)) = err (template_not_present (some g))
  intended (deletes uid expected) (some (live v g old)) =
      expecting expected g (λ n. deleted 1 n uid)

  saved-intended :
      (r : TemplateRecord W) (slot : Option (StoredPayload W))
      → (validate_template {P = P} {K = K} r >> saved_payload r slot) ≡ intended (saves r) slot
  unfolding saved_payload intended next_generation last_generation generation_of
  saved-intended r none = ground arith
  saved-intended r (some (live v g old)) = ground arith
  saved-intended r (some (deleted v g u)) = ground arith

  replaced-intended :
      (expected : ℕ) (r : TemplateRecord W) (slot : Option (StoredPayload W))
      → (validate_template {P = P} {K = K} r >> replaced_payload expected r slot)
        ≡ intended (replaces expected r) slot
  unfolding replaced_payload live_generation intended next_generation
  replaced-intended expected r none = ground arith
  replaced-intended expected r (some (live v g old)) = ground arith
  replaced-intended expected r (some (deleted v g u)) = ground arith

  deleted-intended :
      (uid : ℕ) (expected : Option ℕ) (slot : Option (StoredPayload W))
      → deleted_payload {P = P} {K = K} uid expected slot ≡ intended (deletes uid expected) slot
  unfolding deleted_payload live_generation is_stale intended next_generation
  deleted-intended uid expected none = ground arith
  deleted-intended uid none (some (live v g old)) = ground arith
  deleted-intended uid (some expected) (some (live v g old)) = ground arith
  deleted-intended uid expected (some (deleted v g u)) = ground arith

  module _ (codec : Codec W) (s : EncryptedTemplateStore P) (secret : List ℕ) where
    unfoldable pub perform : Host P K → Call W → Disk → Result (StorageError P K) ℕ × Disk
    perform h (saves r) disk = save_with_generation codec s h r disk
    perform h (replaces g r) disk = replace_if_generation codec s h g r disk
    perform h (deletes uid g) disk = delete_inner codec s h uid g disk

    -- What one call does to the disk: nothing, with an error; or it leaves the intended payload in
    -- the place of the one that its account had, and answers with its generation unless the last
    -- step, which makes the new file durable, fails.
    pub data Effect (uid : ℕ) (target : Result (StorageError P K) (StoredPayload W)) (disk : Disk)
        (r : Result (StorageError P K) ℕ) (after : Disk) : Type 0 where
      refuses : (is_ok r ≡ false) → after ≡ disk → Effect uid target disk r after
      writes :
          (payload : StoredPayload W) (bytes : List ℕ)
          → target ≡ ok payload
          → unseal {P = P} {K = K} codec secret uid bytes ≡ ok payload
          → after ≡ put uid bytes disk
          → ((r ≡ ok (generation_of payload)) ⊎ (is_ok r ≡ false))
          → Effect uid target disk r after

    module _ (h : Host P K) (sound : IsSound P K codec) (keyed : IsKeyed secret h) where
      acquire_lock-directory :
          (uid : ℕ) (u : Unit {0})
          → acquire_lock codec s h uid ≡ ok u
          → verify_directory codec s h ≡ ok tt
      unfolding acquire_lock
      acquire_lock-directory uid u e = elim (Result-cases (verify_directory codec s h)) [
        | inl (v, d) ↦ d
        | inr (x, d) ↦ absurd (ground arith)
      ]

      sealed_key :
          (uid : ℕ) (payload : StoredPayload W) (bytes : List ℕ)
          → seal codec h uid payload ≡ ok bytes
          → h.load_key ≡ ok secret
      unfolding seal
      sealed_key uid payload bytes e = elim (Result-cases h.load_key) [
        | inl (k, d) ↦ d ∙ ap ok (keyed.one_key k d)
        | inr (x, d) ↦ absurd (ground arith)
      ]

      write-Effect :
          (uid : ℕ) (payload : StoredPayload W) (disk : Disk)
          → let (written, after) = write_payload codec s h uid payload disk in
            Effect uid (ok payload) disk (written >> ok (generation_of payload)) after
      unfolding write_payload atomic_write
      write-Effect uid payload disk = elim (Result-cases (seal codec h uid payload)) [
        | inr (x, e) ↦ refuses (ground arith) (ground arith)
        | inl (bytes, e) ↦ elim (Result-cases (write_temporary_file codec s h (s.path_for uid))) [
          | inr (x, t) ↦ refuses (ground arith) (ground arith)
          | inl (u, t) ↦
              writes payload bytes refl
                (unseal-seal codec h uid payload secret bytes sound keyed.nonces
                  (sealed_key uid payload bytes e) e)
                (ground arith) (ground arith)
        ]
      ]

      pub commit-Effect :
          (uid : ℕ) (target : Result (StorageError P K) (StoredPayload W)) (disk : Disk)
          → let (r, after) = commit codec s h uid target disk in Effect uid target disk r after
      unfolding commit
      commit-Effect uid (err e) disk = refuses refl refl
      commit-Effect uid (ok payload) disk = write-Effect uid payload disk

      -- Reading first, when what is read is what the account has
      mutate-Effect :
          (uid : ℕ) (next : Option (StoredPayload W) → Result (StorageError P K) (StoredPayload W))
          (slot : Option (StoredPayload W)) (disk : Disk)
          → verify_directory codec s h ≡ ok tt
          → Holds P K codec secret uid slot (disk uid)
          → let (r, after) = mutate codec s h uid next disk in Effect uid (next slot) disk r after
      unfolding mutate commit
      mutate-Effect uid next slot disk d held =
          elim (Result-cases (read_optional_payload codec s h uid disk)) [
            | inr (x, e) ↦
                subst
                  (λ z.
                    Effect uid (next slot) disk (commit codec s h uid (z >>= next) disk).0
                      (commit codec s h uid (z >>= next) disk).1)
                  (sym e) (refuses refl refl)
            | inl (read, e) ↦
                let same = read_optional-Holds codec s secret h uid disk slot read keyed d held e in
                subst
                  (λ z.
                    Effect uid (next slot) disk (commit codec s h uid (z >>= next) disk).0
                      (commit codec s h uid (z >>= next) disk).1)
                  (sym (e ∙ ap ok same)) (commit-Effect uid (next slot) disk)
          ]

      lock-Effect :
          (uid : ℕ) (next : Option (StoredPayload W) → Result (StorageError P K) (StoredPayload W))
          (slot : Option (StoredPayload W)) (disk : Disk)
          → Holds P K codec secret uid slot (disk uid)
          → let (r, after) =
              with_exclusive_uid_lock codec s h uid (mutate codec s h uid next) disk in
            Effect uid (next slot) disk r after
      unfolding with_exclusive_uid_lock
      lock-Effect uid next slot disk held = elim (Result-cases (acquire_lock codec s h uid)) [
        | inr (x, e) ↦ refuses (ground arith) (ground arith)
        | inl (u, e) ↦
            rw (with_exclusive_uid_lock, e)
              (mutate-Effect uid next slot disk (acquire_lock-directory uid u e) held)
      ]

      pub perform-Effect :
          (call : Call W) (slot : Option (StoredPayload W)) (disk : Disk)
          → Holds P K codec secret (account call) slot (disk (account call))
          → let (r, after) = perform h call disk in
            Effect (account call) (intended call slot) disk r after
      unfolding perform save_with_generation replace_if_generation delete_inner
      perform-Effect (saves r) slot disk held =
          subst
            (λ t.
              Effect r.uid t disk (save_with_generation codec s h r disk).0
                (save_with_generation codec s h r disk).1)
            (saved-intended r slot)
            (elim (Result-cases (validate_template {P = P} {K = K} r)) [
              | inr (x, e) ↦ rw (save_with_generation, e) (refuses refl refl)
              | inl (u, e) ↦
                  rw (save_with_generation, e) (lock-Effect r.uid (saved_payload r) slot disk held)
            ])
      perform-Effect (replaces g r) slot disk held =
          subst
            (λ t.
              Effect r.uid t disk (replace_if_generation codec s h g r disk).0
                (replace_if_generation codec s h g r disk).1)
            (replaced-intended g r slot)
            (elim (Result-cases (validate_template {P = P} {K = K} r)) [
              | inr (x, e) ↦ rw (replace_if_generation, e) (refuses refl refl)
              | inl (u, e) ↦
                  rw (replace_if_generation, e)
                    (lock-Effect r.uid (replaced_payload g r) slot disk held)
            ])
      perform-Effect (deletes uid g) slot disk held =
          subst
            (λ t.
              Effect uid t disk (delete_inner codec s h uid g disk).0
                (delete_inner codec s h uid g disk).1)
            (deleted-intended uid g slot) (lock-Effect uid (deleted_payload uid g) slot disk held)

    module _ (h : Host P K) where
      commit_frame :
          (uid u : ℕ) (target : Result (StorageError P K) (StoredPayload W)) (disk : Disk)
          → u ≢ uid
          → (commit codec s h uid target disk).1 u ≡ disk u
      unfolding commit write_payload atomic_write
      commit_frame uid u (err e) disk other_account = refl
      commit_frame uid u (ok payload) disk other_account =
          elim (Result-cases (seal codec h uid payload)) [
            | inr (x, e) ↦ ground arith
            | inl (bytes, e) ↦
                elim (Result-cases (write_temporary_file codec s h (s.path_for uid))) [
                  | inr (x, t) ↦ ground arith
                  | inl (v, t) ↦ ground arith
                ]
          ]

      locked_frame :
          (uid u : ℕ)
          (next : Option (StoredPayload W) → Result (StorageError P K) (StoredPayload W))
          (disk : Disk)
          → u ≢ uid
          → (with_exclusive_uid_lock codec s h uid (mutate codec s h uid next) disk).1 u ≡ disk u
      unfolding with_exclusive_uid_lock mutate
      locked_frame uid u next disk other_account =
          elim (Result-cases (acquire_lock codec s h uid)) [
            | inr (x, e) ↦ ground arith
            | inl (v, e) ↦ rw (with_exclusive_uid_lock, e) (commit_frame uid u _ disk other_account)
          ]

      pub perform_frame :
          (call : Call W) (u : ℕ) (disk : Disk)
          → u ≢ account call
          → (perform h call disk).1 u ≡ disk u
      unfolding perform save_with_generation replace_if_generation delete_inner
      perform_frame (saves r) u disk other_account =
          elim (Result-cases (validate_template {P = P} {K = K} r)) [
            | inr (x, e) ↦ ground arith
            | inl (v, e) ↦ rw (save_with_generation, e) (locked_frame r.uid u _ disk other_account)
          ]
      perform_frame (replaces g r) u disk other_account =
          elim (Result-cases (validate_template {P = P} {K = K} r)) [
            | inr (x, e) ↦ ground arith
            | inl (v, e) ↦ rw (replace_if_generation, e) (locked_frame r.uid u _ disk other_account)
          ]
      perform_frame (deletes uid g) u disk other_account = locked_frame uid u _ disk other_account
