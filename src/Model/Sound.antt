-- ===== src/Model/Sound.antt =====
-- What a validated manifest guarantees, and what a verified artifact is
-- (crates/faceauth-model/src/lib.rs).
use faceauth_rs.Prelude.{
  ℕ, ◌≤◌, ◌≡◌, ◌≢◌, refl, Bool, true, false, not, ◌||◌, Option, none, some, Result, ok, bind-eq-ok,
  bind-guard, nat_eq, bytes_eq, ◌==◌, ◌!=◌, eq_of_beq, ne_of_beq, ltb, any, length, All, Pairwise,
  All-snoc_split, List, [], ◌∷◌, ◌++◌, arith,
}
use faceauth_rs.Prelude.Float.{Float, Arithmetic}
use faceauth_rs.Model.{
  ModelRole, face_detector, face_landmarks, face_embedding, passive_liveness_infrared,
  passive_liveness_visible, passive_liveness_fusion, role_eq, InputContract, dimensions_of,
  semantic_eq, OutputContract, ModelManifest, FaceAlignmentContract, LabelField, ModelError,
  unsupported_schema, invalid_source_url, invalid_license_expression, invalid_sha256,
  invalid_output_count, invalid_face_crop_contract, invalid_landmark_measurement_contract,
  invalid_input_dimensions, invalid_channel_count, invalid_normalization, duplicate_input_name,
}
use faceauth_rs.Model.Checks.{
  model_manifest_schema_version, max_source_url_length, max_input_dimension, max_output_tensors,
  valid_sha256, validate_label, validate_tensor_name, starts_with, https_prefix, infrared_name,
  visible_name, check_outputs, max_total_output_elements,
}
use faceauth_rs.Model.Manifest.{
  expected_channels, is_zero, validate_input_contract, check_inputs, check_input_count,
  for_landmarks, validate_crop, validate_measurement, validate_alignment, check_alignment,
  validate_manifest,
}
use faceauth_rs.Model.Shapes.{
  total_elements, IsShape, validate_dimensions-IsShape, outputs_distinct,
}
use faceauth_rs.Model.Roles.{Interpreted, validate_output_semantics-Interpreted}

not_named :
    (name : List ℕ) (names : List (List ℕ))
    → any (λ (n : List ℕ). n == name) names ≡ false
    → All (λ (n : List ℕ). n ≢ name) names
not_named name [] h = tt
not_named name (n ∷ ns) h = (ne_of_beq n name (ground arith), not_named name ns (ground arith))

-- A contract is there exactly at the one role, and passes its check.
abbrev pub IsExactly :
    {A : Type 0} → ModelRole → (A → Result ModelError (Unit {0})) → ModelRole → Option A → Type 0
IsExactly needed check role none = role ≢ needed
IsExactly needed check role (some c) = (role ≡ needed) × (check c ≡ ok tt)

for_landmarks-IsExactly :
    {A : Type 0} (role : ModelRole) (c : Option A) (check : A → Result ModelError (Unit {0}))
    (e : ModelError)
    → for_landmarks role c check e ≡ ok tt
    → IsExactly face_landmarks check role c
for_landmarks-IsExactly role none check e h = ne_of_beq role face_landmarks (ground arith)
for_landmarks-IsExactly role (some c) check e h =
    (eq_of_beq role face_landmarks (ground arith), ground arith)

module _ {W : Type 0} ⦃f : Float W⦄ where
  pub record IsInput (input : InputContract W) : Type 0 where
    pub wide : (1 ≤ input.width) × (input.width ≤ max_input_dimension)
    pub high : (1 ≤ input.height) × (input.height ≤ max_input_dimension)
    pub coloured : input.channels ≡ expected_channels input.color_space
    pub scaled : length input.normalization.scale ≡ input.channels
    pub biased : length input.normalization.bias ≡ input.channels
    pub finite_scale : any (λ v. not (f.is_finite v) || is_zero v) input.normalization.scale ≡ false
    pub finite_bias : any (λ v. not (f.is_finite v)) input.normalization.bias ≡ false
    pub shape : IsShape (dimensions_of input)

  validate_input_contract-IsInput :
      (input : InputContract W) → validate_input_contract input ≡ ok tt → IsInput input
  unfolding validate_input_contract
  validate_input_contract-IsInput input h =
      let (u, named, h₁) = bind-eq-ok (validate_tensor_name input.name) _ h in
      let (sized, h₂) =
        bind-guard
          (not (
            (input.width == 0)
            || (input.height == 0)
            || ltb max_input_dimension input.width
            || ltb max_input_dimension input.height))
          invalid_input_dimensions _ h₁ in
      let expected = expected_channels input.color_space in
      let (channels, h₃) =
        bind-guard (not (input.channels != expected))
          (invalid_channel_count expected input.channels) _ h₂ in
      let (normal, shaped) =
        bind-guard
          (not (
            (length input.normalization.scale != input.channels)
            || (length input.normalization.bias != input.channels)
            || any (λ v. not (f.is_finite v) || is_zero v) input.normalization.scale
            || any (λ v. not (f.is_finite v)) input.normalization.bias))
          invalid_normalization _ h₃ in
      record {
        wide = (ground arith, ground arith);
        high = (ground arith, ground arith);
        coloured = eq_of_beq input.channels expected (ground arith);
        scaled = eq_of_beq (length input.normalization.scale) input.channels (ground arith);
        finite_scale = ground arith;
        finite_bias = ground arith;
        biased = eq_of_beq (length input.normalization.bias) input.channels (ground arith);
        shape = validate_dimensions-IsShape (dimensions_of input) shaped;
      }

  check_inputs-IsInput :
      (names : List (List ℕ)) (inputs : List (InputContract W))
      → check_inputs names inputs ≡ ok tt
      → All IsInput inputs
        × Pairwise (λ (i j : InputContract W). i.name ≢ j.name) inputs
        × All (λ (i : InputContract W). All (λ (n : List ℕ). n ≢ i.name) names) inputs
  unfolding check_inputs
  check_inputs-IsInput names [] h = (tt, tt, tt)
  check_inputs-IsInput names (input ∷ rest) h =
      let (u, valid, h₁) = bind-eq-ok (validate_input_contract input) _ h in
      let (unique, h₂) =
        bind-guard (not (any (λ (n : List ℕ). n == input.name) names))
          (duplicate_input_name input.name) _ h₁ in
      let (are, distinct, fresh) = check_inputs-IsInput (names ++ input.name ∷ []) rest h₂ in
      let (before, own) =
        All-snoc_split (λ (n : List ℕ) (i : InputContract W). n ≢ i.name) names input.name rest
          fresh in
      (
        (validate_input_contract-IsInput input valid, are),
        (own, distinct),
        (not_named input.name names (ground arith), before),
      )

  -- A fusion model has one input more, and the names of the modalities.
  abbrev pub IsCounted : ModelRole → InputContract W → List (InputContract W) → Type 0
  IsCounted passive_liveness_fusion input additional =
      (other : InputContract W) × (additional ≡ other ∷ [])
      × (input.name ≡ infrared_name)
      × (other.name ≡ visible_name)
  IsCounted _ input additional = additional ≡ []

  check_input_count-IsCounted :
      (m : ModelManifest W)
      → check_input_count m ≡ ok tt
      → IsCounted m.role m.input m.additional_inputs
  unfolding check_input_count
  check_input_count-IsCounted m h = go m.role m.additional_inputs h
    where
      go :
          (role : ModelRole) (additional : List (InputContract W))
          → check_input_count (record m { role = role; additional_inputs = additional }) ≡ ok tt
          → IsCounted role m.input additional
      go face_detector [] k = refl
      go face_landmarks [] k = refl
      go face_embedding [] k = refl
      go passive_liveness_infrared [] k = refl
      go passive_liveness_visible [] k = refl
      go passive_liveness_fusion [] k = absurd (ground arith)
      go passive_liveness_fusion (other ∷ []) k = (
        other,
        refl,
        eq_of_beq m.input.name infrared_name (ground arith),
        eq_of_beq other.name visible_name (ground arith),
      )
      go passive_liveness_fusion (other ∷ second ∷ rest) k = absurd (ground arith)
      go face_detector (other ∷ rest) k = absurd (ground arith)
      go face_landmarks (other ∷ rest) k = absurd (ground arith)
      go face_embedding (other ∷ rest) k = absurd (ground arith)
      go passive_liveness_infrared (other ∷ rest) k = absurd (ground arith)
      go passive_liveness_visible (other ∷ rest) k = absurd (ground arith)

  module _ ⦃a : Arithmetic W⦄ where
    check_alignment-IsExactly :
        (role : ModelRole) (c : Option (FaceAlignmentContract W))
        → check_alignment role c ≡ ok tt
        → IsExactly face_embedding validate_alignment role c
    unfolding check_alignment
    check_alignment-IsExactly role none h = ne_of_beq role face_embedding (ground arith)
    check_alignment-IsExactly role (some c) h =
        (eq_of_beq role face_embedding (ground arith), ground arith)

    pub record IsAdmitted (m : ModelManifest W) : Type 0 where
      pub schema : m.schema_version ≡ model_manifest_schema_version
      pub sourced :
          (length m.source_url ≤ max_source_url_length)
          × (starts_with https_prefix m.source_url ≡ true)
      pub digest : valid_sha256 m.sha256 ≡ true
      pub counted : IsCounted m.role m.input m.additional_inputs
      pub inputs : All IsInput (m.input ∷ m.additional_inputs)
      pub inputs_distinct :
          Pairwise (λ (i j : InputContract W). i.name ≢ j.name) (m.input ∷ m.additional_inputs)
      pub aligned : IsExactly face_embedding validate_alignment m.role m.face_alignment
      pub cropped : IsExactly face_landmarks validate_crop m.role m.face_crop
      pub measured : IsExactly face_landmarks validate_measurement m.role m.landmark_measurement
      pub output_count : (1 ≤ length m.outputs) × (length m.outputs ≤ max_output_tensors)
      pub outputs : All (λ (o : OutputContract). IsShape o.dimensions) m.outputs
      pub elements : total_elements m.outputs ≤ max_total_output_elements
      pub outputs_distinct : Pairwise (λ (o p : OutputContract). o.name ≢ p.name) m.outputs
      pub interpreted : Interpreted m.role m.outputs

    module _ (is_spdx : List ℕ → Bool) where
      -- A manifest that passes validation has the current schema, a bounded HTTPS source and a
      -- lowercase SHA-256 digest; inputs and outputs with names that differ and shapes within the
      -- bounds, whose number of elements is exact and within the limit, also of all outputs
      -- together; channels as its colour space asks, each with a finite scale, which is not zero,
      -- and a finite bias; a second input exactly for fusion, an alignment exactly for embeddings,
      -- a crop and a measurement exactly for landmarks, each passing its own check; and the
      -- outputs of its role: for a detector just boxes and scores of one number of candidates, for
      -- landmarks just points, their confidence, pose and eyes, for embeddings one vector of 32 to
      -- 4096 numbers and no liveness probability, for liveness one probability of one element and
      -- no embedding, and for these two no output of a detector or of landmarks.
      pub validate_manifest-IsAdmitted :
          (m : ModelManifest W) → validate_manifest is_spdx m ≡ ok tt → IsAdmitted m
      unfolding validate_manifest
      validate_manifest-IsAdmitted m h =
          let (schema, h₁) =
            bind-guard (not (m.schema_version != model_manifest_schema_version))
              (unsupported_schema m.schema_version model_manifest_schema_version) _ h in
          let (u₁, named, h₂) = bind-eq-ok (validate_label LabelField.name m.name) _ h₁ in
          let (u₂, versioned, h₃) = bind-eq-ok (validate_label LabelField.version m.version) _ h₂ in
          let (sourced, h₄) =
            bind-guard
              (not (
                ltb max_source_url_length (length m.source_url)
                || not (starts_with https_prefix m.source_url)))
              invalid_source_url _ h₃ in
          let (licensed, h₅) =
            bind-guard (is_spdx m.license_spdx) invalid_license_expression _ h₄ in
          let (digest, h₆) = bind-guard (valid_sha256 m.sha256) invalid_sha256 _ h₅ in
          let (u₃, counted, h₇) = bind-eq-ok (check_input_count m) _ h₆ in
          let (u₄, inputs, h₈) =
            bind-eq-ok (check_inputs [] (m.input ∷ m.additional_inputs)) _ h₇ in
          let (u₅, aligned, h₉) = bind-eq-ok (check_alignment m.role m.face_alignment) _ h₈ in
          let (u₆, cropped, k₁) =
            bind-eq-ok (for_landmarks m.role m.face_crop validate_crop invalid_face_crop_contract) _
              h₉ in
          let (u₇, measured, k₂) =
            bind-eq-ok
              (for_landmarks m.role m.landmark_measurement validate_measurement
                invalid_landmark_measurement_contract)
              _ k₁ in
          let (few, k₃) =
            bind-guard (not ((length m.outputs == 0) || ltb max_output_tensors (length m.outputs)))
              (invalid_output_count (length m.outputs)) _ k₂ in
          let (u₈, checked, k₄) = bind-eq-ok (check_outputs [] 0 m.outputs) _ k₃ in
          let ins = check_inputs-IsInput [] (m.input ∷ m.additional_inputs) inputs in
          let outs = outputs_distinct m.outputs checked in
          record {
            schema = eq_of_beq m.schema_version model_manifest_schema_version (ground arith);
            sourced = (ground arith, ground arith);
            digest = digest;
            counted = check_input_count-IsCounted m counted;
            inputs = ins.0;
            inputs_distinct = ins.1;
            aligned = check_alignment-IsExactly m.role m.face_alignment aligned;
            cropped =
                for_landmarks-IsExactly m.role m.face_crop validate_crop invalid_face_crop_contract
                  cropped;
            measured =
                for_landmarks-IsExactly m.role m.landmark_measurement validate_measurement
                  invalid_landmark_measurement_contract measured;
            output_count = (ground arith, ground arith);
            outputs = outs.0;
            elements = outs.1;
            outputs_distinct = outs.2;
            interpreted = validate_output_semantics-Interpreted m.role m.outputs k₄;
          }
