-- ===== src/Storage/Trust.antt =====
-- The checks of owners, permissions and types in crates/faceauth-storage/src/lib.rs. The metadata of
-- a path, and the ancestors of a path from itself to the root, are answers of the file system.
use faceauth_rs.Prelude.{
  ℕ, Bool, true, false, not, Result, ok, err, ◌>>◌, nat_eq, ◌!=◌, if◌then◌else◌, bit_and, List, [],
  ◌∷◌, ◌≡◌, ◌↔◌, All, refl, arith, bind-eq-ok,
}
use faceauth_rs.Storage.{
  IoError, not_found, other, StorageError, symlink, unsafe_permissions, unsafe_owner,
  unsafe_path_type, io,
}

pub data FileKind : Type 0 where
  regular directory link special : FileKind

-- `fs::Metadata`, with the type of the file, its owner and `permissions().mode()`
pub record Metadata : Type 0 where
  pub kind : FileKind
  pub uid : ℕ
  pub mode : ℕ

abbrev pub is_dir : Metadata → Bool
is_dir m = elim m.kind [ directory ↦ true | _ ↦ false ]

abbrev pub is_file : Metadata → Bool
is_file m = elim m.kind [ regular ↦ true | _ ↦ false ]

abbrev pub is_symlink : Metadata → Bool
is_symlink m = elim m.kind [ link ↦ true | _ ↦ false ]

pub record TrustPolicy : Type 0 where
  pub owner_uid : ℕ
  pub verify_ancestors : Bool

-- `TrustPolicy::root`
abbrev pub root_trust : TrustPolicy
root_trust = record { owner_uid = 0; verify_ancestors = true }

pub data TrustViolation (P : Type 0) : Type 0 where
  violation_io : IoError → TrustViolation P
  violation_owner : P → ℕ → TrustViolation P
  violation_permissions : P → ℕ → TrustViolation P
  violation_type : P → TrustViolation P

-- `mode & 0o777`, `mode & 0o022` and `mode & 0o077`
abbrev pub permission_bits : ℕ → ℕ
permission_bits mode = bit_and mode 0o777

abbrev pub others_write : ℕ → Bool
others_write mode = bit_and mode 0o022 != 0

abbrev pub others_access : ℕ → Bool
others_access mode = bit_and mode 0o077 != 0

module _ {P : Type 0} (trust : TrustPolicy) where
  -- One directory of the chain.
  unfoldable pub verify_one : P → Result IoError Metadata → Result (TrustViolation P) (Unit {0})
  verify_one path (err e) = err (violation_io e)
  verify_one path (ok metadata) =
      if not (is_dir metadata)
      then err (violation_type path)
      else if metadata.uid != trust.owner_uid
      then err (violation_owner path metadata.uid)
      else if others_write (permission_bits metadata.mode)
      then err (violation_permissions path (permission_bits metadata.mode))
      else ok tt

  -- The loop over `path.ancestors()`, on the directories that are left.
  unfoldable pub verify_directory_chain :
      (P → Result IoError Metadata) → List P → Result (TrustViolation P) (Unit {0})
  verify_directory_chain stat [] = ok tt
  verify_directory_chain stat (path ∷ rest) =
      let above = verify_directory_chain stat rest in
      verify_one path (stat path) >> (if not trust.verify_ancestors then ok tt else above)

  module _ {K : Type 0} where
    unfoldable pub as_storage_error : TrustViolation P → StorageError P K
    as_storage_error (violation_io e) = io e
    as_storage_error (violation_owner path actual_uid) =
        unsafe_owner path trust.owner_uid actual_uid
    as_storage_error (violation_permissions path mode) = unsafe_permissions path mode
    as_storage_error (violation_type path) = unsafe_path_type path

    unfoldable pub verify_directory_storage :
        (P → Result IoError Metadata) → List P → Result (StorageError P K) (Unit {0})
    verify_directory_storage stat ancestors = elim (verify_directory_chain stat ancestors) [
      | ok a ↦ ok tt
      | err violation ↦ err (as_storage_error violation)
    ]

    -- The three checks that an open file and a file about to be replaced share.
    unfoldable pub verify_private_file : P → Metadata → Result (StorageError P K) (Unit {0})
    verify_private_file path metadata =
        if not (is_file metadata)
        then err (unsafe_path_type path)
        else if metadata.uid != trust.owner_uid
        then err (unsafe_owner path trust.owner_uid metadata.uid)
        else if others_access (permission_bits metadata.mode)
        then err (unsafe_permissions path (permission_bits metadata.mode))
        else ok tt

    -- An open file gives its metadata, or fails with the number of an error.
    unfoldable pub verify_open_storage_file :
        Result ℕ Metadata → P → Result (StorageError P K) (Unit {0})
    verify_open_storage_file (err e) path = err (io (other e))
    verify_open_storage_file (ok metadata) path = verify_private_file path metadata

    unfoldable pub verify_replace_target_storage :
        (P → Result IoError Metadata) → P → Result (StorageError P K) (Unit {0})
    verify_replace_target_storage stat path = elim (stat path) [
      | ok metadata ↦
          if is_symlink metadata then err (symlink path) else verify_private_file path metadata
      | err not_found ↦ ok tt
      | err (other e) ↦ err (io (other e))
    ]

-- A directory that only its owner can write.
pub record IsTrusted (trust : TrustPolicy) (metadata : Metadata) : Type 0 where
  pub a_directory : is_dir metadata ≡ true
  pub owned : metadata.uid ≡ trust.owner_uid
  pub unwritable : others_write (permission_bits metadata.mode) ≡ false

module _ {P : Type 0} (trust : TrustPolicy) where
  -- The path names a trusted directory.
  unfoldable pub IsTrustedAt : (P → Result IoError Metadata) → P → Type 0
  IsTrustedAt stat path =
      (metadata : Metadata) × (stat path ≡ ok metadata) × IsTrusted trust metadata

  verify_one_iff :
      (path : P) (r : Result IoError Metadata)
      → (verify_one trust path r ≡ ok tt)
        ↔ ((metadata : Metadata) × (r ≡ ok metadata) × IsTrusted trust metadata)
  unfolding verify_one
  verify_one_iff path (err e) = ground arith
  verify_one_iff path (ok metadata) = (
    λ h. (
      metadata,
      refl,
      record { a_directory = ground arith; owned = ground arith; unwritable = ground arith },
    ),
    λ (m, same, h). ground arith,
  )

  -- With ancestors to check, the loop passes exactly when each path of the chain has metadata, is a
  -- directory of the required owner, and is not writable by its group or others.
  pub verify_directory_chain_iff :
      (stat : P → Result IoError Metadata) (ancestors : List P)
      → trust.verify_ancestors ≡ true
      → (verify_directory_chain trust stat ancestors ≡ ok tt) ↔ All (IsTrustedAt stat) ancestors
  unfolding verify_directory_chain IsTrustedAt
  verify_directory_chain_iff stat [] h = (λ _. tt, λ _. refl)
  verify_directory_chain_iff stat (path ∷ rest) h =
      let one = verify_one_iff path (stat path) in
      let others = verify_directory_chain_iff stat rest h in
      (
        λ h₁.
            let (a, e, k) = bind-eq-ok (verify_one trust path (stat path)) _ h₁ in
            (one.0 e, others.0 (ground (arith, h, k))),
        λ (x, xs). rw (one.1 x, h, others.1 xs) refl,
      )
