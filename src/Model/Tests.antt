-- ===== src/Model/Tests.antt =====
-- A manifest of a passive liveness model, and its file.
use faceauth_rs.Prelude.{ℕ, ◌≡◌, ◌↔◌, refl, true, none, some, ok, List, [], ◌∷◌, arith}
use faceauth_rs.Prelude.Float.{Milli, pos, milli_float, milli_arithmetic}
use faceauth_rs.Inference.{valid_compatibility_sha256}
use faceauth_rs.Model.{
  passive_liveness_infrared, nchw, grayscale, float32, bilinear_half_pixel, InputContract,
  dimensions_of, live_probability, OutputContract, ModelManifest,
}
use faceauth_rs.Model.Checks.{
  valid_sha256, validate_label, validate_tensor_name, fold_product, dimension_product,
  validate_dimensions, semantic_count, detector_and_landmark_semantics_absent,
  validate_role_outputs, validate_output_shape, validate_output_shapes, validate_output_semantics,
  check_outputs,
}
use faceauth_rs.Model.Manifest.{
  validate_input_contract, check_inputs, check_input_count, check_alignment, validate_manifest,
  hex_lower, read_all, Artifact, compatibility_sha256, verify_reader, verify_file,
}
use faceauth_rs.Model.Sound.{IsAdmitted, validate_manifest-IsAdmitted}
use faceauth_rs.Model.Artifact.{compatibility_sha256-valid, IsGenuine, verify_file_iff}

abbrev eight : ℕ → List ℕ → List ℕ
eight b rest = b ∷ b ∷ b ∷ b ∷ b ∷ b ∷ b ∷ b ∷ rest

-- A hash of thirty-two equal bytes
abbrev constant_sha256 : List ℕ → List ℕ
constant_sha256 bytes = eight 170 (eight 170 (eight 170 (eight 170 [])))

abbrev digest : List ℕ
digest = eight 97 (eight 97 (eight 97 (eight 97 (eight 97 (eight 97 (eight 97 (eight 97 [])))))))

abbrev input : InputContract Milli
input = record {
  name = b'x' ∷ [];
  width = 112;
  height = 112;
  channels = 1;
  layout = nchw;
  color_space = grayscale;
  element_type = float32;
  resize_filter = bilinear_half_pixel;
  normalization = record { scale = pos 4 ∷ []; bias = pos 0 ∷ [] };
}

abbrev output : OutputContract
output = record {
  name = b'y' ∷ [];
  dimensions = 1 ∷ 1 ∷ [];
  element_type = float32;
  semantic = live_probability;
}

abbrev manifest : ModelManifest Milli
manifest = record {
  schema_version = 9;
  name = b'm' ∷ [];
  version = b'1' ∷ [];
  role = passive_liveness_infrared;
  source_url = b'h' ∷ b't' ∷ b't' ∷ b'p' ∷ b's' ∷ b':' ∷ b'/' ∷ b'/' ∷ b'm' ∷ [];
  license_spdx = b'M' ∷ b'I' ∷ b'T' ∷ [];
  sha256 = digest;
  input = input;
  additional_inputs = [];
  face_crop = none;
  landmark_measurement = none;
  face_alignment = none;
  outputs = output ∷ [];
}

manifest_valid : validate_manifest (λ license. true) manifest ≡ ok tt
unfolding validate_manifest validate_label valid_sha256 check_input_count check_inputs
    validate_input_contract validate_tensor_name validate_dimensions dimension_product fold_product
    dimensions_of check_alignment check_outputs validate_output_semantics validate_role_outputs
    semantic_count detector_and_landmark_semantics_absent validate_output_shapes
    validate_output_shape
manifest_valid = refl

validate_manifest-IsAdmitted_example : IsAdmitted manifest
validate_manifest-IsAdmitted_example =
    validate_manifest-IsAdmitted (λ license. true) manifest manifest_valid

identity_eq :
    compatibility_sha256 (λ license. true) constant_sha256 (λ m. some []) manifest ≡ ok digest
unfolding compatibility_sha256 validate_manifest validate_label valid_sha256 check_input_count
    check_inputs validate_input_contract validate_tensor_name validate_dimensions dimension_product
    fold_product dimensions_of check_alignment check_outputs validate_output_semantics
    validate_role_outputs semantic_count detector_and_landmark_semantics_absent
    validate_output_shapes validate_output_shape hex_lower
identity_eq = refl

compatibility_sha256-valid_example : valid_compatibility_sha256 digest ≡ true
compatibility_sha256-valid_example =
    compatibility_sha256-valid (λ license. true) constant_sha256 (λ m. some []) manifest digest
      (λ bytes. omega arith) identity_eq

abbrev file : Artifact
file = record { is_file = ok true; reads = ok (1 ∷ 2 ∷ []) ∷ ok (3 ∷ []) ∷ ok [] ∷ [] }

file_verified : verify_file (λ license. true) constant_sha256 (ok file) manifest ≡ ok tt
unfolding verify_file verify_reader read_all validate_manifest validate_label valid_sha256
    check_input_count check_inputs validate_input_contract validate_tensor_name validate_dimensions
    dimension_product fold_product dimensions_of check_alignment check_outputs
    validate_output_semantics validate_role_outputs semantic_count
    detector_and_landmark_semantics_absent validate_output_shapes validate_output_shape hex_lower
file_verified = refl

verify_file_iff_example :
    (verify_file (λ license. true) constant_sha256 (ok file) manifest ≡ ok tt)
    ↔ IsGenuine (λ license. true) constant_sha256 (ok file) manifest
verify_file_iff_example = verify_file_iff (λ license. true) constant_sha256 (ok file) manifest
