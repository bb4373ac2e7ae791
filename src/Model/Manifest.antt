-- ===== src/Model/Manifest.antt =====
-- `ModelManifest::validate`, the contracts that it checks, and the identity of an artifact
-- (crates/faceauth-model/src/lib.rs). The parser of licence expressions, SHA-256 and the serializer
-- are parameters.
use faceauth_rs.Prelude.{
  ℕ, ◌+◌, ◌/◌, ◌%◌, Bool, true, false, not, ◌&&◌, ◌||◌, Option, none, some, Result, ok, err, ◌>>=◌,
  ◌>>◌, guard, ok_or, lift_err, nat_eq, bytes_eq, ◌==◌, ◌!=◌, if◌then◌else◌, ltb, leb, any, length,
  get_or, List, [], ◌∷◌, ◌++◌,
}
use faceauth_rs.Prelude.Float.{Float, Arithmetic, spans}
use faceauth_rs.Storage.{IoError}
use faceauth_rs.Model.{
  ModelRole, face_landmarks, face_embedding, passive_liveness_fusion, role_eq, ColorSpace,
  grayscale, rgb, bgr, FaceCropContract, LandmarkMeasurementContract, NormalizedPoint,
  FaceAlignmentContract, InputContract, dimensions_of, ModelManifest, LabelField, ModelError,
  unsupported_schema, invalid_source_url, invalid_license_expression, invalid_sha256,
  invalid_input_dimensions, invalid_input_count, invalid_channel_count, invalid_normalization,
  invalid_alignment_contract, invalid_face_crop_contract, invalid_landmark_measurement_contract,
  duplicate_input_name, invalid_fusion_input_names, invalid_output_count, not_regular_file,
  digest_mismatch, io, serialization,
}
use faceauth_rs.Model.Checks.{
  model_manifest_schema_version, max_source_url_length, max_input_dimension, max_output_tensors,
  max_face_landmarks, valid_sha256, validate_label, validate_tensor_name, validate_dimensions,
  starts_with, https_prefix, infrared_name, visible_name, validate_output_semantics, check_outputs,
}

-- `sort_unstable`, on numbers
abbrev pub insert_sorted : ℕ → List ℕ → List ℕ
insert_sorted x [] = x ∷ []
insert_sorted x (y ∷ ys) = let rest = insert_sorted x ys in if leb x y then x ∷ y ∷ ys else y ∷ rest

abbrev pub sort : List ℕ → List ℕ
sort [] = []
sort (x ∷ xs) = insert_sorted x (sort xs)

-- `windows(2).any(|pair| pair[0] == pair[1])`
abbrev pub has_equal_neighbours : List ℕ → Bool
has_equal_neighbours (x ∷ y ∷ rest) = (x == y) || has_equal_neighbours (y ∷ rest)
has_equal_neighbours _ = false

abbrev pub expected_channels : ColorSpace → ℕ
expected_channels grayscale = 1
expected_channels rgb = 3
expected_channels bgr = 3

abbrev pub hex_digits : List ℕ
hex_digits = 48 ∷ 49 ∷ 50 ∷ 51 ∷ 52 ∷ 53 ∷ 54 ∷ 55 ∷ 56 ∷ 57 ∷ 97 ∷ 98 ∷ 99 ∷ 100 ∷ 101 ∷ 102 ∷ []

unfoldable pub hex_lower : List ℕ → List ℕ
hex_lower [] = []
hex_lower (b ∷ bs) = get_or hex_digits (b / 16) 0 ∷ get_or hex_digits (b % 16) 0 ∷ hex_lower bs

-- The loop of `verify_reader`: the bytes hashed so far, and the answers of the reads; a read of
-- nothing ends it, as the end of the list does
unfoldable pub read_all : List ℕ → List (Result IoError (List ℕ)) → Result ModelError (List ℕ)
read_all hashed [] = ok hashed
read_all hashed (err e ∷ rest) = err (io e)
read_all hashed (ok chunk ∷ rest) =
    let more = read_all (hashed ++ chunk) rest in if length chunk == 0 then ok hashed else more

-- What opening a file gives: whether it is a regular file, and its reads
pub record Artifact : Type 0 where
  pub is_file : Result IoError Bool
  pub reads : List (Result IoError (List ℕ))

-- `b"faceauth-model-compatibility-v1\0"`
abbrev pub compatibility_tag : List ℕ
compatibility_tag =
    b'f' ∷ b'a' ∷ b'c' ∷ b'e' ∷ b'a' ∷ b'u' ∷ b't' ∷ b'h' ∷ b'-' ∷ b'm' ∷ b'o' ∷ b'd' ∷ b'e' ∷ b'l'
    ∷ b'-' ∷ b'c' ∷ b'o' ∷ b'm' ∷ b'p' ∷ b'a' ∷ b't' ∷ b'i' ∷ b'b' ∷ b'i' ∷ b'l' ∷ b'i' ∷ b't'
    ∷ b'y' ∷ b'-' ∷ b'v' ∷ b'1' ∷ 0 ∷ []

-- The two matches that ask for a contract exactly at one role
abbrev pub for_landmarks :
    {A : Type 0}
    → ModelRole
    → Option A
    → (A → Result ModelError (Unit {0}))
    → ModelError
    → Result ModelError (Unit {0})
for_landmarks role none check e = if role == face_landmarks then err e else ok tt
for_landmarks role (some c) check e = if role == face_landmarks then check c else err e

module _ {W : Type 0} ⦃f : Float W⦄ where
  unfoldable pub validate_measurement : LandmarkMeasurementContract W → Result ModelError (Unit {0})
  validate_measurement c =
      if not (f.is_finite c.minimum_visible_confidence)
        || not (spans (f.lit 0) (f.lit 1) c.minimum_visible_confidence)
        || not (f.is_finite c.maximum_absolute_yaw_degrees)
        || not (spans (f.lit 1) (f.lit 90) c.maximum_absolute_yaw_degrees)
        || not (f.is_finite c.maximum_absolute_pitch_degrees)
        || not (spans (f.lit 1) (f.lit 90) c.maximum_absolute_pitch_degrees)
        || not (f.is_finite c.maximum_absolute_roll_degrees)
        || not (spans (f.lit 1) (f.lit 180) c.maximum_absolute_roll_degrees)
      then err invalid_landmark_measurement_contract
      else ok tt

  unfoldable pub validate_crop : FaceCropContract W → Result ModelError (Unit {0})
  validate_crop c =
      if not (f.is_finite c.scale)
        || not (spans (f.lit 1) (f.lit 3) c.scale)
        || not (f.is_finite c.center_offset_x)
        || not (f.is_finite c.center_offset_y)
        || not (spans (f.neg (f.milli 500)) (f.milli 500) c.center_offset_x)
        || not (spans (f.neg (f.milli 500)) (f.milli 500) c.center_offset_y)
      then err invalid_face_crop_contract
      else ok tt

  abbrev pub is_invalid_point : NormalizedPoint W → Bool
  is_invalid_point p =
      not (f.is_finite p.x)
      || not (f.is_finite p.y)
      || not (spans (f.lit 0) (f.lit 1) p.x)
      || not (spans (f.lit 0) (f.lit 1) p.y)

  -- `*value == 0.0`
  abbrev pub is_zero : W → Bool
  is_zero v = f.le v (f.lit 0) && f.le (f.lit 0) v

  unfoldable pub validate_input_contract : InputContract W → Result ModelError (Unit {0})
  validate_input_contract input = do
    validate_tensor_name input.name
    guard
        (not (
          (input.width == 0)
          || (input.height == 0)
          || ltb max_input_dimension input.width
          || ltb max_input_dimension input.height))
        invalid_input_dimensions
    let expected = expected_channels input.color_space
    guard (not (input.channels != expected)) (invalid_channel_count expected input.channels)
    guard
        (not (
          (length input.normalization.scale != input.channels)
          || (length input.normalization.bias != input.channels)
          || any (λ v. not (f.is_finite v) || is_zero v) input.normalization.scale
          || any (λ v. not (f.is_finite v)) input.normalization.bias))
        invalid_normalization
    validate_dimensions (dimensions_of input)

  -- The loop over the inputs, with the names before
  unfoldable pub check_inputs :
      List (List ℕ) → List (InputContract W) → Result ModelError (Unit {0})
  check_inputs names [] = ok tt
  check_inputs names (input ∷ rest) = do
    validate_input_contract input
    guard (not (any (λ (n : List ℕ). n == input.name) names)) (duplicate_input_name input.name)
    check_inputs (names ++ input.name ∷ []) rest

  -- The names of the inputs of a fusion model; one additional input is there.
  abbrev pub has_fusion_names : InputContract W → List (InputContract W) → Bool
  has_fusion_names input (additional ∷ _) =
      not ((input.name != infrared_name) || (additional.name != visible_name))
  has_fusion_names input [] = false

  unfoldable pub check_input_count : ModelManifest W → Result ModelError (Unit {0})
  check_input_count m =
      if m.role == passive_liveness_fusion
      then (do
        guard (not (length m.additional_inputs != 1))
            (invalid_input_count (1 + length m.additional_inputs))
        guard (has_fusion_names m.input m.additional_inputs) invalid_fusion_input_names)
      else if not (length m.additional_inputs == 0)
      then err (invalid_input_count (1 + length m.additional_inputs))
      else ok tt

  module _ ⦃a : Arithmetic W⦄ where
    -- `iter().sum::<f32>()`
    abbrev pub sum_all : W → List W → W
    sum_all total [] = total
    sum_all total (x ∷ xs) = sum_all (a.add total x) xs

    abbrev pub coordinates : (NormalizedPoint W → W) → List (NormalizedPoint W) → List W
    coordinates axis [] = []
    coordinates axis (p ∷ ps) = axis p ∷ coordinates axis ps

    -- The `try_fold` of the variance
    unfoldable pub spread : (sum center_x center_y : W) → List (NormalizedPoint W) → Option W
    spread sum center_x center_y [] = some sum
    spread sum center_x center_y (p ∷ ps) =
        let x = a.sub p.x center_x in
        let y = a.sub p.y center_y in
        let next = a.mul_add x x (a.mul_add y y sum) in
        let rest = spread next center_x center_y ps in if f.is_finite next then rest else none

    abbrev pub is_degenerate : Option W → Bool
    is_degenerate none = true
    is_degenerate (some value) = f.le value (f.micro 1)

    unfoldable pub validate_alignment : FaceAlignmentContract W → Result ModelError (Unit {0})
    validate_alignment c = do
      guard (valid_sha256 c.landmarks_compatibility_sha256) invalid_alignment_contract
      let sorted = sort c.landmark_indices
      guard
          (not (
            has_equal_neighbours sorted
            || any (λ index. leb max_face_landmarks index) sorted
            || any is_invalid_point c.reference_points
            || not (f.is_finite c.maximum_normalized_residual)
            || not (spans (f.milli 1) (f.milli 250) c.maximum_normalized_residual)))
          invalid_alignment_contract
      let points = c.reference_points
      let center_x = a.div (sum_all (f.lit 0) (coordinates (λ p. p.x) points)) (f.lit 5)
      let center_y = a.div (sum_all (f.lit 0) (coordinates (λ p. p.y) points)) (f.lit 5)
      guard (not (is_degenerate (spread (f.lit 0) center_x center_y points)))
          invalid_alignment_contract

    unfoldable pub check_alignment :
        ModelRole → Option (FaceAlignmentContract W) → Result ModelError (Unit {0})
    check_alignment role none =
        if role == face_embedding then err invalid_alignment_contract else ok tt
    check_alignment role (some c) =
        if role == face_embedding then validate_alignment c else err invalid_alignment_contract

    -- `ModelManifest::validate`
    unfoldable pub validate_manifest :
        (List ℕ → Bool) → ModelManifest W → Result ModelError (Unit {0})
    validate_manifest is_spdx m = do
      guard (not (m.schema_version != model_manifest_schema_version))
          (unsupported_schema m.schema_version model_manifest_schema_version)
      validate_label LabelField.name m.name
      validate_label LabelField.version m.version
      guard
          (not (
            ltb max_source_url_length (length m.source_url)
            || not (starts_with https_prefix m.source_url)))
          invalid_source_url
      guard (is_spdx m.license_spdx) invalid_license_expression
      guard (valid_sha256 m.sha256) invalid_sha256
      check_input_count m
      check_inputs [] (m.input ∷ m.additional_inputs)
      check_alignment m.role m.face_alignment
      for_landmarks m.role m.face_crop validate_crop invalid_face_crop_contract
      for_landmarks m.role m.landmark_measurement validate_measurement
          invalid_landmark_measurement_contract
      guard (not ((length m.outputs == 0) || ltb max_output_tensors (length m.outputs)))
          (invalid_output_count (length m.outputs))
      check_outputs [] 0 m.outputs
      validate_output_semantics m.role m.outputs

    module _ (is_spdx : List ℕ → Bool) (sha256 : List ℕ → List ℕ) where
      -- `compatibility_sha256`
      unfoldable pub compatibility_sha256 :
          (ModelManifest W → Option (List ℕ)) → ModelManifest W → Result ModelError (List ℕ)
      compatibility_sha256 to_vec m = do
        validate_manifest is_spdx m
        encoded ← ok_or (to_vec m) serialization
        ok (hex_lower (sha256 (compatibility_tag ++ encoded)))

      unfoldable pub verify_reader :
          List (Result IoError (List ℕ)) → ModelManifest W → Result ModelError (Unit {0})
      verify_reader reads m = do
        hashed ← read_all [] reads
        let actual = hex_lower (sha256 hashed)
        guard (not (actual != m.sha256)) (digest_mismatch m.sha256 actual)

      -- `verify_file`
      unfoldable pub verify_file :
          Result IoError Artifact → ModelManifest W → Result ModelError (Unit {0})
      verify_file opened m = do
        validate_manifest is_spdx m
        file ← lift_err io opened
        is_file ← lift_err io file.is_file
        guard is_file not_regular_file
        verify_reader file.reads m
