-- ===== src/Storage.antt =====
-- crates/faceauth-storage/src/lib.rs: the records that are stored, their validation, and the
-- generation that each change of a template raises. Strings are their bytes; `f32` is a type with
-- instances of `Float` and `Arithmetic`.
pub mod Trust
pub mod Files
pub mod Store
pub mod Sealing
pub mod Reading
pub mod Generations
pub mod History
pub mod RoundTrip
mod Tests
use faceauth_rs.Prelude.{
  ℕ, zero, ◌+◌, Bool, true, false, not, ◌&&◌, ◌||◌, Option, none, some, Result, ok, err, ◌>>=◌,
  ◌>>◌, guard, nat_eq, bytes_eq, ◌==◌, ◌!=◌, if◌then◌else◌, ltb, within, all, any, ok_or, length,
  List, [], ◌∷◌,
}
use faceauth_rs.Prelude.Word.{u64_mod, checked_add}
use faceauth_rs.Prelude.Float.{Float, Arithmetic}

abbrev pub format_version : ℕ
format_version = 2

abbrev pub max_embedding_dimension : ℕ
max_embedding_dimension = 4096

abbrev pub stored_payload_schema_version : ℕ
stored_payload_schema_version = 1

-- `io::Error`: its kind is `NotFound`, or another with its number.
pub data IoError : Type 0 where
  not_found : IoError
  other : ℕ → IoError

-- `StorageError`, over the paths `P` and the errors `K` of a key provider. `InvalidRecord` has one
-- message for the template, one for its norm, and so on: the constructors of `Invalid`.
pub data Invalid : Type 0 where
  bounds_or_digest not_normalized live_metadata deleted_metadata uid_mismatch : Invalid
  size magic version : Invalid

pub data StorageError (P K : Type 0) : Type 0 where
  key : K → StorageError P K
  invalid_record : Invalid → StorageError P K
  incompatible_template generation_exhausted serialization : StorageError P K
  stale_generation : ℕ → ℕ → StorageError P K
  template_not_present : Option ℕ → StorageError P K
  authentication_failed : StorageError P K
  symlink : P → StorageError P K
  unsafe_permissions : P → ℕ → StorageError P K
  unsafe_owner : P → ℕ → ℕ → StorageError P K
  unsafe_path_type : P → StorageError P K
  random : ℕ → StorageError P K
  io : IoError → StorageError P K

pub record TemplateRecord (W : Type 0) : Type 0 where
  pub schema_version : ℕ
  pub uid : ℕ
  pub model_compatibility_sha256 : List ℕ
  pub embedding : List W

pub record VersionedTemplateRecord (W : Type 0) : Type 0 where
  pub generation : ℕ
  pub template : TemplateRecord W

pub data StoredPayload (W : Type 0) : Type 0 where
  live : (schema_version generation : ℕ) → TemplateRecord W → StoredPayload W
  deleted : (schema_version generation uid : ℕ) → StoredPayload W

-- `StoredPayload::generation`
unfoldable pub generation_of : {W : Type 0} → StoredPayload W → ℕ
generation_of (live s g r) = g
generation_of (deleted s g u) = g

-- `u8::is_ascii_hexdigit`, `u8::is_ascii_uppercase`
abbrev pub is_ascii_hexdigit : ℕ → Bool
is_ascii_hexdigit b = within 48 57 b || (within 65 70 b || within 97 102 b)

abbrev pub is_ascii_uppercase : ℕ → Bool
is_ascii_uppercase b = within 65 90 b

-- `current.checked_add(1)`
unfoldable pub next_generation : {P K : Type 0} → ℕ → Result (StorageError P K) ℕ
next_generation current = ok_or (checked_add u64_mod current 1) generation_exhausted

module _ {W : Type 0} ⦃f : Float W⦄ ⦃a : Arithmetic W⦄ where
  -- The `try_fold` over the squares: `none` when a partial sum is not finite.
  unfoldable pub squared_norm : W → List W → Option W
  squared_norm sum [] = some sum
  squared_norm sum (v ∷ vs) =
      let next = a.mul_add v v sum in
      let rest = squared_norm next vs in if f.is_finite next then rest else none

  -- `squared_norm.is_none_or(|value| (value.sqrt() - 1.0).abs() > 1.0e-3)`
  unfoldable pub strays : Option W → Bool
  strays none = true
  strays (some v) = f.lt (f.milli 1) (f.abs (a.sub (a.sqrt v) (f.lit 1)))

  module _ {P K : Type 0} where
    unfoldable pub validate_template : TemplateRecord W → Result (StorageError P K) (Unit {0})
    validate_template r =
        if (r.schema_version != format_version)
          || (length r.model_compatibility_sha256 != 64)
          || not (all is_ascii_hexdigit r.model_compatibility_sha256)
          || any is_ascii_uppercase r.model_compatibility_sha256
          || (length r.embedding == 0)
          || ltb max_embedding_dimension (length r.embedding)
          || any (λ v. not (f.is_finite v)) r.embedding
        then err (invalid_record bounds_or_digest)
        else if strays (squared_norm (f.lit 0) r.embedding)
        then err (invalid_record not_normalized)
        else ok tt

    unfoldable pub require_compatibility :
        TemplateRecord W → List ℕ → ℕ → Result (StorageError P K) (Unit {0})
    require_compatibility r compatibility_sha256 dimension = do
      validate_template r
      guard
          (not (
            (r.model_compatibility_sha256 != compatibility_sha256)
            || (length r.embedding != dimension)))
          incompatible_template

    unfoldable pub validate_stored_payload :
        StoredPayload W → ℕ → Result (StorageError P K) (Unit {0})
    validate_stored_payload (live schema_version generation r) expected_uid = do
      guard (not ((schema_version != stored_payload_schema_version) || (generation == 0)))
          (invalid_record live_metadata)
      validate_template r
      guard (not (r.uid != expected_uid)) (invalid_record uid_mismatch)
    validate_stored_payload (deleted schema_version generation uid) expected_uid =
        guard
          (not (
            (schema_version != stored_payload_schema_version)
            || (generation == 0)
            || (uid != expected_uid)))
          (invalid_record deleted_metadata)
