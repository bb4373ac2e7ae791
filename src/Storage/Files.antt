-- ===== src/Storage/Files.antt =====
-- Reading and writing the file of one account (crates/faceauth-storage/src/lib.rs). A disk maps an
-- account to the bytes of its template file. What the file system, the random source and the key
-- provider answer during one call is a `Host`; encryption and JSON are functions of a `Codec`.
-- Keys have 32 bytes and nonces 24 by their types, so the cipher takes them.
use faceauth_rs.Prelude.{
  ℕ, ◌+◌, ◌/◌, ◌%◌, Bool, not, ◌||◌, Option, none, some, Result, ok, err, ◌>>=◌, ◌>>◌, guard, ok_or,
  nat_eq, bytes_eq, ◌==◌, ◌!=◌, if◌then◌else◌, ltb, length, take, skip, find, get_or, List, [], ◌∷◌,
  ◌++◌, ◌*◌,
}
use faceauth_rs.Prelude.Float.{Float, Arithmetic}
use faceauth_rs.Storage.{
  IoError, not_found, other, StorageError, key, invalid_record, serialization,
  authentication_failed, unsafe_path_type, random, io, uid_mismatch, size, magic, version,
  format_version, TemplateRecord, StoredPayload, live, validate_template, validate_stored_payload,
}
use faceauth_rs.Storage.Trust.{
  Metadata, TrustPolicy, verify_directory_storage, verify_open_storage_file,
  verify_replace_target_storage,
}

-- `EncryptedTemplateStore`, with what the library makes of its directory: the ancestors of a path,
-- `path_for` and `lock_path_for`
pub record EncryptedTemplateStore (P : Type 0) : Type 0 where
  pub directory : P
  pub trust : TrustPolicy
  pub ancestors : P → List P
  pub path_for : ℕ → P
  pub lock_path_for : ℕ → P

pub record Codec (W : Type 0) : Type 0 where
  pub to_vec : StoredPayload W → Option (List ℕ)
  pub payload_from : List ℕ → Option (StoredPayload W)
  pub record_from : List ℕ → Option (TemplateRecord W)
  pub encrypt : (secret nonce aad plaintext : List ℕ) → Option (List ℕ)
  pub decrypt : (secret nonce aad ciphertext : List ℕ) → Option (List ℕ)

pub record Host (P K : Type 0) : Type 0 where
  pub stat_before : P → Result IoError Metadata  -- before the directory is prepared
  pub exists : P → Bool
  pub create_dir_all : Result IoError (Unit {0})
  pub set_permissions : Result IoError (Unit {0})
  pub stat : P → Result IoError Metadata  -- once it is prepared
  pub open_lock : Result IoError (Result ℕ Metadata)
  pub lock : Result IoError (Unit {0})
  pub open_read : Result ℕ (Result ℕ Metadata)  -- of a file that is there
  pub read_to_end : Result ℕ (Unit {0})
  pub load_key : Result K (List ℕ)
  pub random_nonce : Result ℕ (List ℕ)
  pub temporary : P
  pub create_temporary : Result IoError (Result ℕ Metadata)
  pub write_temporary : Result IoError (Unit {0})  -- `write_all` and `sync_all`
  pub rename : Result IoError (Unit {0})
  pub sync_directory : Result IoError (Unit {0})  -- `File::open` and `sync_all`

abbrev pub Disk : Type 0
Disk = ℕ → Option (List ℕ)

abbrev pub put : ℕ → List ℕ → Disk → Disk
put uid bytes disk u = if u == uid then some bytes else disk u

abbrev pub magic_bytes : List ℕ
magic_bytes = 70 ∷ 65 ∷ 84 ∷ 49 ∷ []

abbrev pub header_length : ℕ
header_length = 30

abbrev pub max_ciphertext_length : ℕ
max_ciphertext_length = 1048576

-- `u16::to_le_bytes`, `u32::to_le_bytes`
abbrev pub le_bytes_16 : ℕ → List ℕ
le_bytes_16 n = (n % 256) ∷ ((n / 256) % 256) ∷ []

abbrev pub le_bytes_32 : ℕ → List ℕ
le_bytes_32 n = (n % 256) ∷ ((n / 256) % 256) ∷ ((n / 65536) % 256) ∷ ((n / 16777216) % 256) ∷ []

unfoldable pub associated_data : ℕ → List ℕ
associated_data uid = magic_bytes ++ (le_bytes_16 format_version ++ le_bytes_32 uid)

module _ {P K : Type 0} where
  -- An error of the library becomes `StorageError::Io`, by `?`.
  abbrev pub io_of : {A : Type 0} → Result IoError A → Result (StorageError P K) A
  io_of (ok a) = ok a
  io_of (err e) = err (io e)

  abbrev pub io_other : {A : Type 0} → Result ℕ A → Result (StorageError P K) A
  io_other (ok a) = ok a
  io_other (err e) = err (io (other e))

  abbrev pub key_of : {A : Type 0} → Result K A → Result (StorageError P K) A
  key_of (ok a) = ok a
  key_of (err e) = err (key e)

  abbrev pub random_of : {A : Type 0} → Result ℕ A → Result (StorageError P K) A
  random_of (ok a) = ok a
  random_of (err e) = err (random e)

  -- The size, the magic and the version of a container
  unfoldable pub check_header : List ℕ → Result (StorageError P K) (Unit {0})
  check_header encoded = do
    guard
        (not (
          ltb (length encoded) header_length
          || ltb (header_length + max_ciphertext_length) (length encoded)))
        (invalid_record size)
    guard (not (take 4 encoded != magic_bytes)) (invalid_record magic)
    guard (not ((get_or encoded 4 0 + 256 * get_or encoded 5 0) != format_version))
        (invalid_record version)

  -- The `match` on the result of a read: a missing file is no payload.
  abbrev pub optional :
      {A : Type 0} → Result (StorageError P K) A → Result (StorageError P K) (Option A)
  optional (ok payload) = ok (some payload)
  optional (err (io not_found)) = ok none
  optional (err e) = err e

  module _ {W : Type 0} ⦃f : Float W⦄ ⦃a : Arithmetic W⦄ (codec : Codec W) where
    -- What the decrypted bytes hold: a payload, or the bare record of an older version.
    unfoldable pub parse_plaintext : ℕ → List ℕ → Result (StorageError P K) (StoredPayload W)
    parse_plaintext uid plaintext = elim (codec.payload_from plaintext) [
      | some payload ↦ validate_stored_payload payload uid >> ok payload
      | none ↦ elim (codec.record_from plaintext) [
        | none ↦ err serialization
        | some r ↦ do
          validate_template r
          guard (not (r.uid != uid)) (invalid_record uid_mismatch)
          ok (live 0 0 r)
      ]
    ]

    unfoldable pub open_sealed : List ℕ → ℕ → List ℕ → Result (StorageError P K) (StoredPayload W)
    open_sealed secret uid encoded = do
      plaintext ←
          ok_or
            (codec.decrypt secret (take 24 (skip 6 encoded)) (associated_data uid)
              (skip header_length encoded))
            authentication_failed
      parse_plaintext uid plaintext

    -- The container that `write_payload` builds
    unfoldable pub seal : Host P K → ℕ → StoredPayload W → Result (StorageError P K) (List ℕ)
    seal h uid payload = do
      validate_stored_payload payload uid
      secret ← key_of h.load_key
      plaintext ← ok_or (codec.to_vec payload) serialization
      nonce ← random_of h.random_nonce
      ciphertext ←
          ok_or (codec.encrypt secret nonce (associated_data uid) plaintext) authentication_failed
      ok (magic_bytes ++ (le_bytes_16 format_version ++ (nonce ++ ciphertext)))

    module _ (s : EncryptedTemplateStore P) (h : Host P K) where
      -- `verify_directory_storage(&self.directory, self.trust)`
      abbrev pub verify_directory : Result (StorageError P K) (Unit {0})
      verify_directory = verify_directory_storage s.trust h.stat (s.ancestors s.directory)

      unfoldable pub read_payload : ℕ → Disk → Result (StorageError P K) (StoredPayload W)
      read_payload uid disk = do
        verify_directory
        verify_replace_target_storage s.trust h.stat (s.path_for uid)
        encoded ← ok_or (disk uid) (io not_found)
        metadata ← io_other h.open_read
        verify_open_storage_file s.trust metadata (s.path_for uid)
        io_other h.read_to_end
        check_header encoded
        secret ← key_of h.load_key
        open_sealed secret uid encoded

      unfoldable pub read_optional_payload :
          ℕ → Disk → Result (StorageError P K) (Option (StoredPayload W))
      read_optional_payload uid disk = optional (read_payload uid disk)

      -- What `atomic_write` does before the rename
      unfoldable pub write_temporary_file : P → Result (StorageError P K) (Unit {0})
      write_temporary_file path = do
        verify_directory
        verify_replace_target_storage s.trust h.stat path
        metadata ← io_of h.create_temporary
        verify_open_storage_file s.trust metadata h.temporary
        io_of h.write_temporary
        io_of h.rename

      -- The error of a later step leaves the new file in its place.
      unfoldable pub atomic_write : ℕ → List ℕ → Disk → Result (StorageError P K) (Unit {0}) × Disk
      atomic_write uid bytes disk = elim (write_temporary_file (s.path_for uid)) [
        | err e ↦ (err e, disk)
        | ok done ↦ (io_of h.sync_directory, put uid bytes disk)
      ]

      unfoldable pub write_payload :
          ℕ → StoredPayload W → Disk → Result (StorageError P K) (Unit {0}) × Disk
      write_payload uid payload disk = elim (seal h uid payload) [
        | err e ↦ (err e, disk)
        | ok encoded ↦ atomic_write uid encoded disk
      ]

      -- The `while !existing.exists()` loop, on the parents that are left
      unfoldable pub nearest_existing : List P → Result (StorageError P K) P
      nearest_existing parents = ok_or (find h.exists parents) (unsafe_path_type s.directory)

      unfoldable pub prepare_directory_storage : Result (StorageError P K) (Unit {0})
      prepare_directory_storage = elim (h.stat_before s.directory) [
        | ok metadata ↦ verify_directory_storage s.trust h.stat_before (s.ancestors s.directory)
        | err (other e) ↦ err (io (other e))
        | err not_found ↦ do
          existing ← nearest_existing (skip 1 (s.ancestors s.directory))
          verify_directory_storage s.trust h.stat_before (s.ancestors existing)
          io_of h.create_dir_all
          io_of h.set_permissions
          verify_directory
      ]

      -- What `with_exclusive_uid_lock` does before the operation
      unfoldable pub acquire_lock : ℕ → Result (StorageError P K) (Unit {0})
      acquire_lock uid = do
        prepare_directory_storage
        verify_replace_target_storage s.trust h.stat (s.lock_path_for uid)
        metadata ← io_of h.open_lock
        verify_open_storage_file s.trust metadata (s.lock_path_for uid)
        io_of h.lock
        verify_directory
        verify_replace_target_storage s.trust h.stat (s.lock_path_for uid)

      unfoldable pub with_exclusive_uid_lock :
          {A : Type 0}
          → ℕ
          → (Disk → Result (StorageError P K) A × Disk)
          → Disk
          → Result (StorageError P K) A × Disk
      with_exclusive_uid_lock uid operation disk = elim (acquire_lock uid) [
        | err e ↦ (err e, disk)
        | ok held ↦ operation disk
      ]
