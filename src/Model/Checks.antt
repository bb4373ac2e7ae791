-- ===== src/Model/Checks.antt =====
-- `ModelManifest::validate` and the checks under it (crates/faceauth-model/src/lib.rs). The parser of
-- licence expressions is a parameter.
use faceauth_rs.Prelude.{
  ℕ, Bool, true, false, not, ◌&&◌, ◌||◌, Option, none, some, Result, ok, err, ◌>>=◌, ◌>>◌, guard,
  ok_or, nat_eq, bytes_eq, ◌==◌, ◌!=◌, if◌then◌else◌, ltb, within, all, any, contains, length, List,
  [], ◌∷◌, ◌++◌,
}
use faceauth_rs.Prelude.Word.{u64_mod, checked_add, checked_mul}
use faceauth_rs.Storage.{is_ascii_hexdigit, is_ascii_uppercase}
use faceauth_rs.Model.{
  ModelRole, face_detector, face_landmarks, face_embedding, role_eq, OutputSemantic,
  detection_boxes, detection_scores, landmarks, landmark_confidence, pose_degrees, eye_openness,
  embedding, live_probability, auxiliary, semantic_eq, OutputContract, LabelField, ModelError,
  invalid_label, invalid_tensor_name, invalid_tensor_dimensions, duplicate_output_name,
  output_semantic_mismatch,
}

abbrev pub model_manifest_schema_version : ℕ
model_manifest_schema_version = 9

abbrev pub max_artifact_label_length : ℕ
max_artifact_label_length = 128

abbrev pub max_source_url_length : ℕ
max_source_url_length = 2048

abbrev pub max_input_dimension : ℕ
max_input_dimension = 4096

abbrev pub max_output_tensors : ℕ
max_output_tensors = 8

abbrev pub max_tensor_rank : ℕ
max_tensor_rank = 8

abbrev pub max_tensor_elements : ℕ
max_tensor_elements = 67108864

abbrev pub max_total_output_elements : ℕ
max_total_output_elements = 67108864

abbrev pub max_face_detection_candidates : ℕ
max_face_detection_candidates = 4096

abbrev pub min_face_landmarks : ℕ
min_face_landmarks = 5

abbrev pub max_face_landmarks : ℕ
max_face_landmarks = 512

unfoldable pub valid_sha256 : List ℕ → Bool
valid_sha256 value =
    (length value == 64) && (all is_ascii_hexdigit value && not (any is_ascii_uppercase value))

-- `u8::is_ascii_alphanumeric`
abbrev pub is_ascii_alphanumeric : ℕ → Bool
is_ascii_alphanumeric b = within 48 57 b || (within 65 90 b || within 97 122 b)

abbrev pub is_label_byte : ℕ → Bool
is_label_byte b = is_ascii_alphanumeric b || contains (b'.' ∷ b'_' ∷ b'+' ∷ b'-' ∷ []) b

unfoldable pub validate_label : LabelField → List ℕ → Result ModelError (Unit {0})
validate_label field value =
    if (length value == 0)
      || ltb max_artifact_label_length (length value)
      || not (all is_label_byte value)
    then err (invalid_label field)
    else ok tt

abbrev pub is_tensor_name_byte : ℕ → Bool
is_tensor_name_byte b = is_label_byte b || contains (b'/' ∷ b':' ∷ []) b

unfoldable pub validate_tensor_name : List ℕ → Result ModelError (Unit {0})
validate_tensor_name value =
    if (length value == 0)
      || ltb max_artifact_label_length (length value)
      || not (all is_tensor_name_byte value)
    then err invalid_tensor_name
    else ok tt

-- The `try_fold` of `dimension_product`
unfoldable pub fold_product : ℕ → List ℕ → Option ℕ
fold_product product [] = some product
fold_product product (d ∷ ds) = elim (checked_mul u64_mod product d) [
  | none ↦ none
  | some next ↦ fold_product next ds
]

unfoldable pub dimension_product : List ℕ → Result ModelError ℕ
dimension_product dimensions = ok_or (fold_product 1 dimensions) invalid_tensor_dimensions

unfoldable pub validate_dimensions : List ℕ → Result ModelError (Unit {0})
validate_dimensions dimensions = do
  guard
      (not (
        (length dimensions == 0)
        || ltb max_tensor_rank (length dimensions)
        || contains dimensions 0))
      invalid_tensor_dimensions
  elements ← dimension_product dimensions
  guard (not (ltb max_tensor_elements elements)) invalid_tensor_dimensions

-- `str::starts_with`
abbrev pub starts_with : List ℕ → List ℕ → Bool
starts_with [] value = true
starts_with (p ∷ ps) [] = false
starts_with (p ∷ ps) (v ∷ vs) = (p == v) && starts_with ps vs

abbrev pub https_prefix : List ℕ
https_prefix = b'h' ∷ b't' ∷ b't' ∷ b'p' ∷ b's' ∷ b':' ∷ b'/' ∷ b'/' ∷ []

abbrev pub infrared_name : List ℕ
infrared_name = b'i' ∷ b'n' ∷ b'f' ∷ b'r' ∷ b'a' ∷ b'r' ∷ b'e' ∷ b'd' ∷ []

abbrev pub visible_name : List ℕ
visible_name = b'v' ∷ b'i' ∷ b's' ∷ b'i' ∷ b'b' ∷ b'l' ∷ b'e' ∷ []

abbrev pub with_semantic : OutputSemantic → List OutputContract → List OutputContract
with_semantic semantic [] = []
with_semantic semantic (o ∷ os) =
    let rest = with_semantic semantic os in if o.semantic == semantic then o ∷ rest else rest

abbrev pub only_output : List OutputContract → Result ModelError OutputContract
only_output (o ∷ []) = ok o
only_output _ = err output_semantic_mismatch

unfoldable pub unique_semantic_output :
    List OutputContract → OutputSemantic → Result ModelError OutputContract
unique_semantic_output outputs semantic = only_output (with_semantic semantic outputs)

unfoldable pub semantic_count : List OutputContract → OutputSemantic → ℕ
semantic_count outputs semantic = length (with_semantic semantic outputs)

-- The `matches!` of `detector_and_landmark_semantics_absent`
abbrev pub is_geometric : OutputSemantic → Bool
is_geometric embedding = false
is_geometric live_probability = false
is_geometric auxiliary = false
is_geometric _ = true

unfoldable pub detector_and_landmark_semantics_absent : List OutputContract → Bool
detector_and_landmark_semantics_absent outputs =
    all (λ (o : OutputContract). not (is_geometric o.semantic)) outputs

-- The `let … else` on a shape `[1, n, last]`
abbrev pub three_dimensional : ℕ → List ℕ → Result ModelError ℕ
three_dimensional last (one ∷ n ∷ l ∷ []) =
    if (one == 1) && (l == last) then ok n else err output_semantic_mismatch
three_dimensional last _ = err output_semantic_mismatch

-- The `let … else` on a shape `[1, n]`
abbrev pub two_dimensional : List ℕ → Result ModelError ℕ
two_dimensional (one ∷ n ∷ []) = if one == 1 then ok n else err output_semantic_mismatch
two_dimensional _ = err output_semantic_mismatch

unfoldable pub validate_face_detector_outputs : List OutputContract → Result ModelError (Unit {0})
validate_face_detector_outputs outputs = do
  guard (length outputs == 2) output_semantic_mismatch
  boxes ← unique_semantic_output outputs detection_boxes
  scores ← unique_semantic_output outputs detection_scores
  candidate_count ← three_dimensional 4 boxes.dimensions
  score_count ← two_dimensional scores.dimensions
  guard
      (not (
        (candidate_count != score_count)
        || not (within 1 max_face_detection_candidates candidate_count)))
      output_semantic_mismatch

unfoldable pub validate_face_landmark_outputs : List OutputContract → Result ModelError (Unit {0})
validate_face_landmark_outputs outputs = do
  guard (length outputs == 4) output_semantic_mismatch
  points ← unique_semantic_output outputs landmarks
  confidence ← unique_semantic_output outputs landmark_confidence
  pose ← unique_semantic_output outputs pose_degrees
  eyes ← unique_semantic_output outputs eye_openness
  landmark_count ← three_dimensional 2 points.dimensions
  guard (within min_face_landmarks max_face_landmarks landmark_count) output_semantic_mismatch
  guard
      (not (
        (confidence.dimensions != (1 ∷ landmark_count ∷ []))
        || (pose.dimensions != (1 ∷ 3 ∷ []))
        || (eyes.dimensions != (1 ∷ 2 ∷ []))))
      output_semantic_mismatch

-- The guards of the match on the role
abbrev pub has_only : OutputSemantic → OutputSemantic → List OutputContract → Bool
has_only present absent outputs =
    (semantic_count outputs present == 1)
    && ((semantic_count outputs absent == 0) && detector_and_landmark_semantics_absent outputs)

unfoldable pub validate_role_outputs :
    ModelRole → List OutputContract → Result ModelError (Unit {0})
validate_role_outputs face_detector outputs = validate_face_detector_outputs outputs
validate_role_outputs face_landmarks outputs = validate_face_landmark_outputs outputs
validate_role_outputs face_embedding outputs =
    guard (has_only embedding live_probability outputs) output_semantic_mismatch
validate_role_outputs _ outputs =
    guard (has_only live_probability embedding outputs) output_semantic_mismatch

-- The shapes `[n]` and `[1, n]` with a dimension of an embedding
abbrev pub is_embedding_shape : List ℕ → Bool
is_embedding_shape (d ∷ []) = within 32 4096 d
is_embedding_shape (one ∷ d ∷ []) = (one == 1) && within 32 4096 d
is_embedding_shape _ = false

-- The match on the semantic of one output
unfoldable pub validate_output_shape : OutputSemantic → List ℕ → Result ModelError (Unit {0})
validate_output_shape embedding dimensions = do
  elements ← dimension_product dimensions
  guard (not (not (is_embedding_shape dimensions) || not (within 32 4096 elements)))
      output_semantic_mismatch
validate_output_shape live_probability dimensions = do
  elements ← dimension_product dimensions
  guard (not (elements != 1)) output_semantic_mismatch
validate_output_shape _ dimensions = ok tt

unfoldable pub validate_output_shapes : List OutputContract → Result ModelError (Unit {0})
validate_output_shapes [] = ok tt
validate_output_shapes (o ∷ os) = do
  validate_output_shape o.semantic o.dimensions
  validate_output_shapes os

unfoldable pub validate_output_semantics :
    ModelRole → List OutputContract → Result ModelError (Unit {0})
validate_output_semantics role outputs = do
  validate_role_outputs role outputs
  validate_output_shapes outputs

-- The loop over the outputs, with the ones before and the elements so far
unfoldable pub check_outputs :
    (earlier : List OutputContract) (total : ℕ) (outputs : List OutputContract)
    → Result ModelError (Unit {0})
check_outputs earlier total [] = ok tt
check_outputs earlier total (o ∷ os) = do
  validate_tensor_name o.name
  validate_dimensions o.dimensions
  elements ← dimension_product o.dimensions
  sum ← ok_or (checked_add u64_mod total elements) invalid_tensor_dimensions
  guard (not (ltb max_total_output_elements sum)) invalid_tensor_dimensions
  guard (not (any (λ (e : OutputContract). e.name == o.name) earlier))
      (duplicate_output_name o.name)
  check_outputs (earlier ++ o ∷ []) sum os
