-- ===== src/Inference.antt =====
-- crates/faceauth-inference/src/lib.rs: the values that a model run leaves behind, a face embedding
-- and a passive liveness score; the model sessions are calls of an external runtime.
use faceauth_rs.Prelude.{
  ℕ, Bool, true, false, not, ◌&&◌, ◌||◌, Option, none, some, Result, ok, err, ◌>>=◌, ◌>>◌, guard,
  ok_or, nat_eq, bytes_eq, ◌==◌, ◌!=◌, if◌then◌else◌, within, all, any, length, List, ◌∷◌,
}
use faceauth_rs.Prelude.Float.{Float, Arithmetic, spans}
use faceauth_rs.Model.{
  ModelRole, passive_liveness_infrared, passive_liveness_visible, passive_liveness_fusion,
}
use faceauth_rs.Storage.{is_ascii_hexdigit, is_ascii_uppercase, squared_norm}

-- The errors of `InferenceError` that these operations return
pub data InferenceError : Type 0 where
  embedding_invalid embedding_incompatible model_role_mismatch : InferenceError
  passive_liveness_output_invalid invalid_probability_threshold : InferenceError

unfoldable pub valid_compatibility_sha256 : List ℕ → Bool
valid_compatibility_sha256 value =
    (length value == 64) && (all is_ascii_hexdigit value && not (any is_ascii_uppercase value))

pub record FaceEmbedding (W : Type 0) : Type 0 where
  pub compatibility_sha256 : List ℕ
  pub values : List W

pub record PassiveLivenessScore (W : Type 0) : Type 0 where
  pub role : ModelRole
  pub compatibility_sha256 : List ℕ
  pub probability : W

-- `matches!(role, …)` on the passive roles
abbrev pub is_passive_role : ModelRole → Bool
is_passive_role passive_liveness_infrared = true
is_passive_role passive_liveness_visible = true
is_passive_role passive_liveness_fusion = true
is_passive_role _ = false

module _ {W : Type 0} ⦃f : Float W⦄ where
  -- `f32::clamp`
  abbrev pub clamp : W → W → W → W
  clamp lo hi x = if f.lt x lo then lo else if f.lt hi x then hi else x

  unfoldable pub from_validated_output :
      ModelRole → List ℕ → W → Result InferenceError (PassiveLivenessScore W)
  from_validated_output role compatibility_sha256 probability =
      if not (is_passive_role role)
      then err model_role_mismatch
      else if (length compatibility_sha256 != 64)
          || not (all is_ascii_hexdigit compatibility_sha256)
          || any is_ascii_uppercase compatibility_sha256
          || not (f.is_finite probability)
          || not (spans (f.lit 0) (f.lit 1) probability)
      then err passive_liveness_output_invalid
      else ok (record {
        role = role;
        compatibility_sha256 = compatibility_sha256;
        probability = probability;
      })

  -- `PassiveLivenessScore::passes`
  unfoldable pub passes : PassiveLivenessScore W → W → Result InferenceError Bool
  passes score minimum =
      if not (f.is_finite minimum) || not (spans (f.lit 0) (f.lit 1) minimum)
      then err invalid_probability_threshold
      else ok (f.le minimum score.probability)

  module _ ⦃a : Arithmetic W⦄ where
    unfoldable pub from_normalized_template :
        List ℕ → List W → Result InferenceError (FaceEmbedding W)
    from_normalized_template compatibility_sha256 values =
        if (length compatibility_sha256 != 64)
          || not (all is_ascii_hexdigit compatibility_sha256)
          || any is_ascii_uppercase compatibility_sha256
          || not (within 32 4096 (length values))
          || any (λ v. not (f.is_finite v)) values
        then err embedding_invalid
        else (do
          norm ← ok_or (squared_norm (f.lit 0) values) embedding_invalid
          guard (not (f.lt (f.milli 1) (f.abs (a.sub (a.sqrt norm) (f.lit 1))))) embedding_invalid
          ok (record { compatibility_sha256 = compatibility_sha256; values = values }))

    -- The `try_fold` over the pairs of a `zip`
    unfoldable pub dot_product : W → List W → List W → Option W
    dot_product sum (x ∷ xs) (y ∷ ys) =
        let next = a.mul_add x y sum in
        let rest = dot_product next xs ys in if f.is_finite next then rest else none
    dot_product sum _ _ = some sum

    -- `FaceEmbedding::similarity`
    unfoldable pub similarity : FaceEmbedding W → FaceEmbedding W → Result InferenceError W
    similarity self other =
        if (self.compatibility_sha256 != other.compatibility_sha256)
          || (length self.values != length other.values)
        then err embedding_incompatible
        else (do
          cosine ← ok_or (dot_product (f.lit 0) self.values other.values) embedding_invalid
          let clamped = clamp (f.neg (f.lit 1)) (f.lit 1) cosine
          let mapped = a.mul_add clamped (f.milli 500) (f.milli 500)
          guard (f.is_finite mapped) embedding_invalid
          ok mapped)
