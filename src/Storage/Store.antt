-- ===== src/Storage/Store.antt =====
-- The operations of the encrypted template store (crates/faceauth-storage/src/lib.rs), each on a
-- disk and with the answers of its host.
use faceauth_rs.Prelude.{
  ℕ, Bool, true, false, not, Option, none, some, Result, ok, err, ◌>>=◌, ◌>>◌, guard, nat_eq, ◌!=◌,
}
use faceauth_rs.Prelude.Float.{Float, Arithmetic}
use faceauth_rs.Storage.{
  not_found, StorageError, stale_generation, template_not_present, io, TemplateRecord,
  VersionedTemplateRecord, StoredPayload, live, deleted, generation_of, next_generation,
  validate_template, stored_payload_schema_version,
}
use faceauth_rs.Storage.Files.{
  EncryptedTemplateStore, Codec, Host, Disk, read_payload, read_optional_payload, write_payload,
  with_exclusive_uid_lock,
}

-- `current.as_ref().map_or(0, StoredPayload::generation)`
unfoldable pub last_generation : {W : Type 0} → Option (StoredPayload W) → ℕ
last_generation none = 0
last_generation (some payload) = generation_of payload

-- `if let Some(expected) = expected_generation && expected != actual_generation`
unfoldable pub is_stale : {P K : Type 0} → Option ℕ → ℕ → Result (StorageError P K) (Unit {0})
is_stale none actual = ok tt
is_stale (some expected) actual =
    guard (not (expected != actual)) (stale_generation expected actual)

module _ {P K W : Type 0} where
  -- The generation of a live template; the `match current` of a replacement and of a deletion
  unfoldable pub live_generation : Option (StoredPayload W) → Result (StorageError P K) ℕ
  live_generation none = err (template_not_present none)
  live_generation (some (live schema_version generation r)) = ok generation
  live_generation (some (deleted schema_version generation uid)) =
      err (template_not_present (some generation))

  -- The payload that a save writes
  unfoldable pub saved_payload :
      TemplateRecord W → Option (StoredPayload W) → Result (StorageError P K) (StoredPayload W)
  saved_payload r current = do
    generation ← next_generation (last_generation current)
    ok (live stored_payload_schema_version generation r)

  -- The payload that a replacement writes
  unfoldable pub replaced_payload :
      ℕ → TemplateRecord W → Option (StoredPayload W) → Result (StorageError P K) (StoredPayload W)
  replaced_payload expected_generation r current = do
    actual_generation ← live_generation current
    guard (not (actual_generation != expected_generation))
        (stale_generation expected_generation actual_generation)
    generation ← next_generation actual_generation
    ok (live stored_payload_schema_version generation r)

  -- The payload that a deletion writes
  unfoldable pub deleted_payload :
      ℕ → Option ℕ → Option (StoredPayload W) → Result (StorageError P K) (StoredPayload W)
  deleted_payload uid expected_generation current = do
    actual_generation ← live_generation current
    is_stale expected_generation actual_generation
    generation ← next_generation actual_generation
    ok (deleted stored_payload_schema_version generation uid)

  module _ ⦃f : Float W⦄ ⦃a : Arithmetic W⦄ (codec : Codec W) (s : EncryptedTemplateStore P)
      (h : Host P K) where
    -- The end of a closure: the next payload, if there is one, is written.
    unfoldable pub commit :
        ℕ → Result (StorageError P K) (StoredPayload W) → Disk → Result (StorageError P K) ℕ × Disk
    commit uid (err e) disk = (err e, disk)
    commit uid (ok payload) disk =
        let (written, after) = write_payload codec s h uid payload disk in
        (written >> ok (generation_of payload), after)

    -- The closures under the lock: the current payload is read, and the next one is written.
    unfoldable pub mutate :
        ℕ
        → (Option (StoredPayload W) → Result (StorageError P K) (StoredPayload W))
        → Disk
        → Result (StorageError P K) ℕ × Disk
    mutate uid next disk = commit uid (read_optional_payload codec s h uid disk >>= next) disk

    unfoldable pub save_with_generation :
        TemplateRecord W → Disk → Result (StorageError P K) ℕ × Disk
    save_with_generation r disk = elim (validate_template r) [
      | err e ↦ (err e, disk)
      | ok valid ↦ with_exclusive_uid_lock codec s h r.uid (mutate r.uid (saved_payload r)) disk
    ]

    unfoldable save : TemplateRecord W → Disk → Result (StorageError P K) (Unit {0}) × Disk
    save r disk =
        let (saved, after) = save_with_generation r disk in (saved >>= (λ _. ok tt), after)

    unfoldable pub replace_if_generation :
        ℕ → TemplateRecord W → Disk → Result (StorageError P K) ℕ × Disk
    replace_if_generation expected_generation r disk = elim (validate_template r) [
      | err e ↦ (err e, disk)
      | ok valid ↦
          with_exclusive_uid_lock codec s h r.uid
            (mutate r.uid (replaced_payload expected_generation r)) disk
    ]

    unfoldable pub delete_inner : ℕ → Option ℕ → Disk → Result (StorageError P K) ℕ × Disk
    delete_inner uid expected_generation disk =
        with_exclusive_uid_lock codec s h uid (mutate uid (deleted_payload uid expected_generation))
          disk

    abbrev pub delete : ℕ → Disk → Result (StorageError P K) ℕ × Disk
    delete uid disk = delete_inner uid none disk

    abbrev pub delete_if_generation : ℕ → ℕ → Disk → Result (StorageError P K) ℕ × Disk
    delete_if_generation uid expected_generation disk =
        delete_inner uid (some expected_generation) disk

    unfoldable pub load_with_generation :
        ℕ → Disk → Result (StorageError P K) (VersionedTemplateRecord W)
    load_with_generation uid disk = elim (read_payload codec s h uid disk) [
      | ok (live schema_version generation r) ↦
          ok (record { generation = generation; template = r })
      | ok (deleted schema_version generation u) ↦ err (io not_found)
      | err e ↦ err e
    ]

    unfoldable pub load : ℕ → Disk → Result (StorageError P K) (TemplateRecord W)
    load uid disk = do versioned ← load_with_generation uid disk; ok versioned.template

    unfoldable pub has_authenticated_template : ℕ → Disk → Result (StorageError P K) Bool
    has_authenticated_template uid disk = elim (load uid disk) [
      | ok r ↦ ok true
      | err (io not_found) ↦ ok false
      | err e ↦ err e
    ]
