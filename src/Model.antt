-- ===== src/Model.antt =====
-- crates/faceauth-model/src/lib.rs: the manifest of a model. Strings are lists of bytes, and arrays are
-- lists.
pub mod Checks
pub mod Manifest
pub mod Shapes
pub mod Roles
pub mod Sound
pub mod Artifact
mod Tests
use faceauth_rs.Prelude.{ℕ, Bool, true, false, Option, Eq, List, [], ◌∷◌, ◌≡◌, ◌↔◌, arith}
use faceauth_rs.Storage.{IoError}

pub data ModelRole : Type 0 where
  face_detector face_landmarks face_embedding : ModelRole
  passive_liveness_infrared passive_liveness_visible passive_liveness_fusion : ModelRole

abbrev role_beq : ModelRole → ModelRole → Bool
role_beq face_detector face_detector = true
role_beq face_landmarks face_landmarks = true
role_beq face_embedding face_embedding = true
role_beq passive_liveness_infrared passive_liveness_infrared = true
role_beq passive_liveness_visible passive_liveness_visible = true
role_beq passive_liveness_fusion passive_liveness_fusion = true
role_beq _ _ = false

pub role_beq_iff : (a b : ModelRole) → (role_beq a b ≡ true) ↔ (a ≡ b)
role_beq_iff a b = ground arith

instance abbrev pub role_eq : Eq ModelRole
role_eq = record { beq = role_beq; beq_iff = role_beq_iff }

pub data TensorLayout : Type 0 where
  nchw nhwc : TensorLayout

pub data ColorSpace : Type 0 where
  grayscale rgb bgr : ColorSpace

pub data TensorElementType : Type 0 where
  float32 : TensorElementType

pub data ResizeFilter : Type 0 where
  bilinear_half_pixel : ResizeFilter

pub record FaceCropContract (W : Type 0) : Type 0 where
  pub scale : W
  pub center_offset_x : W
  pub center_offset_y : W

pub record LandmarkMeasurementContract (W : Type 0) : Type 0 where
  pub minimum_visible_confidence : W
  pub maximum_absolute_yaw_degrees : W
  pub maximum_absolute_pitch_degrees : W
  pub maximum_absolute_roll_degrees : W

pub record NormalizedPoint (W : Type 0) : Type 0 where
  pub x : W
  pub y : W

pub record FaceAlignmentContract (W : Type 0) : Type 0 where
  pub landmarks_compatibility_sha256 : List ℕ
  pub landmark_indices : List ℕ
  pub reference_points : List (NormalizedPoint W)
  pub maximum_normalized_residual : W

pub record ChannelNormalization (W : Type 0) : Type 0 where
  pub scale : List W
  pub bias : List W

pub record InputContract (W : Type 0) : Type 0 where
  pub name : List ℕ
  pub width : ℕ
  pub height : ℕ
  pub channels : ℕ
  pub layout : TensorLayout
  pub color_space : ColorSpace
  pub element_type : TensorElementType
  pub resize_filter : ResizeFilter
  pub normalization : ChannelNormalization W

-- `InputContract::dimensions`
unfoldable pub dimensions_of : {W : Type 0} → InputContract W → List ℕ
dimensions_of input = elim input.layout [
  | nchw ↦ 1 ∷ input.channels ∷ input.height ∷ input.width ∷ []
  | nhwc ↦ 1 ∷ input.height ∷ input.width ∷ input.channels ∷ []
]

pub data OutputSemantic : Type 0 where
  detection_boxes detection_scores landmarks landmark_confidence : OutputSemantic
  pose_degrees eye_openness embedding live_probability auxiliary : OutputSemantic

abbrev semantic_beq : OutputSemantic → OutputSemantic → Bool
semantic_beq detection_boxes detection_boxes = true
semantic_beq detection_scores detection_scores = true
semantic_beq landmarks landmarks = true
semantic_beq landmark_confidence landmark_confidence = true
semantic_beq pose_degrees pose_degrees = true
semantic_beq eye_openness eye_openness = true
semantic_beq embedding embedding = true
semantic_beq live_probability live_probability = true
semantic_beq auxiliary auxiliary = true
semantic_beq _ _ = false

pub semantic_beq_iff : (a b : OutputSemantic) → (semantic_beq a b ≡ true) ↔ (a ≡ b)
semantic_beq_iff a b = ground arith

instance abbrev pub semantic_eq : Eq OutputSemantic
semantic_eq = record { beq = semantic_beq; beq_iff = semantic_beq_iff }

pub record OutputContract : Type 0 where
  pub name : List ℕ
  pub dimensions : List ℕ
  pub element_type : TensorElementType
  pub semantic : OutputSemantic

pub record ModelManifest (W : Type 0) : Type 0 where
  pub schema_version : ℕ
  pub name : List ℕ
  pub version : List ℕ
  pub role : ModelRole
  pub source_url : List ℕ
  pub license_spdx : List ℕ
  pub sha256 : List ℕ
  pub input : InputContract W
  pub additional_inputs : List (InputContract W)
  pub face_crop : Option (FaceCropContract W)
  pub landmark_measurement : Option (LandmarkMeasurementContract W)
  pub face_alignment : Option (FaceAlignmentContract W)
  pub outputs : List OutputContract

pub data LabelField : Type 0 where
  name version : LabelField

pub data ModelError : Type 0 where
  unsupported_schema : ℕ → ℕ → ModelError
  invalid_label : LabelField → ModelError
  invalid_source_url invalid_license_expression invalid_sha256 : ModelError
  invalid_input_dimensions : ModelError
  invalid_input_count : ℕ → ModelError
  invalid_channel_count : ℕ → ℕ → ModelError
  invalid_normalization invalid_alignment_contract invalid_face_crop_contract : ModelError
  invalid_landmark_measurement_contract invalid_tensor_name : ModelError
  duplicate_input_name : List ℕ → ModelError
  invalid_fusion_input_names : ModelError
  invalid_output_count : ℕ → ModelError
  invalid_tensor_dimensions : ModelError
  duplicate_output_name : List ℕ → ModelError
  output_semantic_mismatch not_regular_file : ModelError
  digest_mismatch : List ℕ → List ℕ → ModelError
  io : IoError → ModelError
  serialization : ModelError
