-- ===== src/Model/Roles.antt =====
-- What the outputs of a validated manifest are (crates/faceauth-model/src/lib.rs).
use faceauth_rs.Prelude.{
  ℕ, ◌≤◌, ◌≡◌, refl, sym, ap, ◌∙◌, true, ok, bind-eq-ok, bind-guard, Bool-cases, ◌⊎◌, inl, inr,
  false, nat_eq, bytes_eq, ◌==◌, eq_of_beq, within, length, All, subst, List, [], ◌∷◌, arith,
}
use faceauth_rs.Model.{
  ModelRole, face_detector, face_landmarks, face_embedding, passive_liveness_infrared,
  passive_liveness_visible, passive_liveness_fusion, role_eq, OutputSemantic, detection_boxes,
  detection_scores, landmarks, landmark_confidence, pose_degrees, eye_openness, embedding,
  live_probability, auxiliary, semantic_eq, OutputContract, output_semantic_mismatch,
}
use faceauth_rs.Model.Checks.{
  max_face_detection_candidates, min_face_landmarks, max_face_landmarks, dimension_product,
  with_semantic, only_output, unique_semantic_output, semantic_count, three_dimensional,
  two_dimensional, validate_face_detector_outputs, validate_face_landmark_outputs, has_only,
  validate_role_outputs, is_embedding_shape, is_geometric, detector_and_landmark_semantics_absent,
  validate_output_shape, validate_output_shapes, validate_output_semantics,
}
use faceauth_rs.Model.Shapes.{product, dimension_product-ok}

-- The only output of a semantic
abbrev pub IsOnly : OutputSemantic → List OutputContract → OutputContract → Type 0
IsOnly semantic outputs o = with_semantic semantic outputs ≡ o ∷ []

-- The semantics that are no detector's and no landmark model's
abbrev pub IsUngeometric : OutputSemantic → Type 0
IsUngeometric embedding = Unit
IsUngeometric live_probability = Unit
IsUngeometric auxiliary = Unit
IsUngeometric _ = ⊥

-- The shapes of an embedding: `[d]`, and `[1, d]`
pub record IsVector (dimensions : List ℕ) : Type 0 where
  pub size : ℕ
  pub shape : (dimensions ≡ size ∷ []) ⊎ (dimensions ≡ 1 ∷ size ∷ [])
  pub low : 32 ≤ size
  pub high : size ≤ 4096

-- What the outputs of each role are
abbrev pub Interpreted : ModelRole → List OutputContract → Type 0
Interpreted face_detector outputs =
    (length outputs ≡ 2)
    × (boxes : OutputContract) × (scores : OutputContract) × (n : ℕ) × IsOnly detection_boxes
        outputs boxes
    × IsOnly detection_scores outputs scores
    × (boxes.dimensions ≡ 1 ∷ n ∷ 4 ∷ [])
    × (scores.dimensions ≡ 1 ∷ n ∷ [])
    × (1 ≤ n)
    × (n ≤ max_face_detection_candidates)
Interpreted face_landmarks outputs =
    (length outputs ≡ 4)
    × (points : OutputContract) × (confidence : OutputContract) × (pose : OutputContract)
    × (eyes : OutputContract) × (n : ℕ) × IsOnly landmarks outputs points
    × IsOnly landmark_confidence outputs confidence
    × IsOnly pose_degrees outputs pose
    × IsOnly eye_openness outputs eyes
    × (points.dimensions ≡ 1 ∷ n ∷ 2 ∷ [])
    × (confidence.dimensions ≡ 1 ∷ n ∷ [])
    × (pose.dimensions ≡ 1 ∷ 3 ∷ [])
    × (eyes.dimensions ≡ 1 ∷ 2 ∷ [])
    × (min_face_landmarks ≤ n)
    × (n ≤ max_face_landmarks)
Interpreted face_embedding outputs =
    (vector : OutputContract) × IsOnly embedding outputs vector
    × (with_semantic live_probability outputs ≡ [])
    × All (λ (o : OutputContract). IsUngeometric o.semantic) outputs
    × IsVector vector.dimensions
Interpreted _ outputs =
    (score : OutputContract) × IsOnly live_probability outputs score
    × (with_semantic embedding outputs ≡ [])
    × All (λ (o : OutputContract). IsUngeometric o.semantic) outputs
    × (product score.dimensions ≡ 1)

only-IsOnly :
    (found : List OutputContract) (o : OutputContract) → only_output found ≡ ok o → found ≡ o ∷ []
only-IsOnly [] o h = absurd (ground arith)
only-IsOnly (x ∷ []) o h = ground arith
only-IsOnly (x ∷ y ∷ rest) o h = absurd (ground arith)

shape_of_three :
    (last : ℕ) (ds : List ℕ) (n : ℕ) → three_dimensional last ds ≡ ok n → ds ≡ 1 ∷ n ∷ last ∷ []
shape_of_three last [] n h = absurd (ground arith)
shape_of_three last (a ∷ []) n h = absurd (ground arith)
shape_of_three last (a ∷ b ∷ []) n h = absurd (ground arith)
shape_of_three last (a ∷ b ∷ c ∷ []) n h = ground arith
shape_of_three last (a ∷ b ∷ c ∷ d ∷ rest) n h = absurd (ground arith)

shape_of_two : (ds : List ℕ) (n : ℕ) → two_dimensional ds ≡ ok n → ds ≡ 1 ∷ n ∷ []
shape_of_two [] n h = absurd (ground arith)
shape_of_two (a ∷ []) n h = absurd (ground arith)
shape_of_two (a ∷ b ∷ []) n h = ground arith
shape_of_two (a ∷ b ∷ c ∷ rest) n h = absurd (ground arith)

validate_face_detector_outputs-Interpreted :
    (outputs : List OutputContract)
    → validate_face_detector_outputs outputs ≡ ok tt
    → Interpreted face_detector outputs
unfolding validate_face_detector_outputs unique_semantic_output
validate_face_detector_outputs-Interpreted outputs h =
    let (two, h₁) = bind-guard (length outputs == 2) output_semantic_mismatch _ h in
    let (boxes, e₁, h₂) = bind-eq-ok (unique_semantic_output outputs detection_boxes) _ h₁ in
    let (scores, e₂, h₃) = bind-eq-ok (unique_semantic_output outputs detection_scores) _ h₂ in
    let (n, e₃, h₄) = bind-eq-ok (three_dimensional 4 boxes.dimensions) _ h₃ in
    let (m, e₄, h₅) = bind-eq-ok (two_dimensional scores.dimensions) _ h₄ in
    let same : n ≡ m = ground arith in
    (
      eq_of_beq (length outputs) 2 two,
      boxes,
      scores,
      n,
      only-IsOnly (with_semantic detection_boxes outputs) boxes e₁,
      only-IsOnly (with_semantic detection_scores outputs) scores e₂,
      shape_of_three 4 boxes.dimensions n e₃,
      shape_of_two scores.dimensions m e₄ ∙ ap (λ k. 1 ∷ k ∷ []) (sym same),
      ground arith,
      ground arith,
    )

validate_face_landmark_outputs-Interpreted :
    (outputs : List OutputContract)
    → validate_face_landmark_outputs outputs ≡ ok tt
    → Interpreted face_landmarks outputs
unfolding validate_face_landmark_outputs unique_semantic_output
validate_face_landmark_outputs-Interpreted outputs h =
    let (four, h₁) = bind-guard (length outputs == 4) output_semantic_mismatch _ h in
    let (points, e₁, h₂) = bind-eq-ok (unique_semantic_output outputs landmarks) _ h₁ in
    let (confidence, e₂, h₃) =
      bind-eq-ok (unique_semantic_output outputs landmark_confidence) _ h₂ in
    let (pose, e₃, h₄) = bind-eq-ok (unique_semantic_output outputs pose_degrees) _ h₃ in
    let (eyes, e₄, h₅) = bind-eq-ok (unique_semantic_output outputs eye_openness) _ h₄ in
    let (n, e₅, h₆) = bind-eq-ok (three_dimensional 2 points.dimensions) _ h₅ in
    let (bounded, h₇) =
      bind-guard (within min_face_landmarks max_face_landmarks n) output_semantic_mismatch _ h₆ in
    (
      eq_of_beq (length outputs) 4 four,
      points,
      confidence,
      pose,
      eyes,
      n,
      only-IsOnly (with_semantic landmarks outputs) points e₁,
      only-IsOnly (with_semantic landmark_confidence outputs) confidence e₂,
      only-IsOnly (with_semantic pose_degrees outputs) pose e₃,
      only-IsOnly (with_semantic eye_openness outputs) eyes e₄,
      shape_of_three 2 points.dimensions n e₅,
      eq_of_beq confidence.dimensions (1 ∷ n ∷ []) (ground arith),
      eq_of_beq pose.dimensions (1 ∷ 3 ∷ []) (ground arith),
      eq_of_beq eyes.dimensions (1 ∷ 2 ∷ []) (ground arith),
      ground arith,
      ground arith,
    )

-- The shape of each output of a semantic was checked.
shapes_checked :
    (semantic : OutputSemantic) (outputs : List OutputContract)
    → validate_output_shapes outputs ≡ ok tt
    → All
        (λ (o : OutputContract). validate_output_shape semantic o.dimensions ≡ ok tt)
        (with_semantic semantic outputs)
unfolding validate_output_shapes
shapes_checked semantic [] h = tt
shapes_checked semantic (o ∷ os) h =
    let (u, own, h₁) = bind-eq-ok (validate_output_shape o.semantic o.dimensions) _ h in
    let rest = shapes_checked semantic os h₁ in
    elim (Bool-cases (o.semantic == semantic)) [
      | inl e ↦
          let same = eq_of_beq o.semantic semantic e in
          rw e (sym (ap (λ x. validate_output_shape x o.dimensions) same) ∙ own, rest)
      | inr e ↦ rw e rest
    ]

length_one :
    (found : List OutputContract)
    → (length found == 1) ≡ true
    → (o : OutputContract) × (found ≡ o ∷ [])
length_one [] h = absurd (ground arith)
length_one (o ∷ []) h = (o, refl)
length_one (o ∷ p ∷ rest) h = absurd (ground arith)

length_zero : (found : List OutputContract) → (length found == 0) ≡ true → found ≡ []
length_zero [] h = refl
length_zero (o ∷ rest) h = absurd (ground arith)

embedding_shape : (ds : List ℕ) → is_embedding_shape ds ≡ true → IsVector ds
embedding_shape [] h = absurd (ground arith)
embedding_shape (d ∷ []) h = record {
  size = d;
  shape = inl refl;
  low = ground arith;
  high = ground arith;
}
embedding_shape (one ∷ d ∷ []) h = record {
  size = d;
  shape = inr (ap (λ k. k ∷ d ∷ []) (eq_of_beq one 1 (ground arith)));
  low = ground arith;
  high = ground arith;
}
embedding_shape (a ∷ b ∷ c ∷ rest) h = absurd (ground arith)

embedding-IsVector : (ds : List ℕ) → validate_output_shape embedding ds ≡ ok tt → IsVector ds
unfolding validate_output_shape
embedding-IsVector ds h =
    let (n, e, h₁) = bind-eq-ok (dimension_product ds) _ h in embedding_shape ds (ground arith)

ungeometric :
    (outputs : List OutputContract)
    → detector_and_landmark_semantics_absent outputs ≡ true
    → All (λ (o : OutputContract). IsUngeometric o.semantic) outputs
unfolding detector_and_landmark_semantics_absent
ungeometric [] h = tt
ungeometric (o ∷ os) h = (own o.semantic (ground arith), ungeometric os (ground arith))
  where
    own : (semantic : OutputSemantic) → is_geometric semantic ≡ false → IsUngeometric semantic
    own semantic h = ground arith

live_elements : (ds : List ℕ) → validate_output_shape live_probability ds ≡ ok tt → product ds ≡ 1
unfolding validate_output_shape
live_elements ds h =
    let (n, e, h₁) = bind-eq-ok (dimension_product ds) _ h in
    let exact = dimension_product-ok ds n e in let one : n ≡ 1 = ground arith in omega arith

-- One output of the semantic, whose shape was checked, and none of the other
has_only-true :
    (present absent : OutputSemantic) (outputs : List OutputContract)
    → has_only present absent outputs ≡ true
    → validate_output_shapes outputs ≡ ok tt
    → (o : OutputContract) × IsOnly present outputs o
      × (with_semantic absent outputs ≡ [])
      × All (λ (p : OutputContract). IsUngeometric p.semantic) outputs
      × (validate_output_shape present o.dimensions ≡ ok tt)
unfolding semantic_count
has_only-true present absent outputs h shapes =
    let (o, only) = length_one (with_semantic present outputs) (ground arith) in
    let checked =
      subst (All (λ (x : OutputContract). validate_output_shape present x.dimensions ≡ ok tt)) only
        (shapes_checked present outputs shapes) in
    (
      o,
      only,
      length_zero (with_semantic absent outputs) (ground arith),
      ungeometric outputs (ground arith),
      checked.0,
    )

live_probability-Interpreted :
    (outputs : List OutputContract)
    → has_only live_probability embedding outputs ≡ true
    → validate_output_shapes outputs ≡ ok tt
    → Interpreted passive_liveness_fusion outputs
live_probability-Interpreted outputs h shapes =
    let (o, only, absent, plain, checked) =
      has_only-true live_probability embedding outputs h shapes in
    (o, only, absent, plain, live_elements o.dimensions checked)

pub validate_output_semantics-Interpreted :
    (role : ModelRole) (outputs : List OutputContract)
    → validate_output_semantics role outputs ≡ ok tt
    → Interpreted role outputs
unfolding validate_output_semantics validate_role_outputs
validate_output_semantics-Interpreted face_detector outputs h =
    let (u, e, h₁) = bind-eq-ok (validate_role_outputs face_detector outputs) _ h in
    validate_face_detector_outputs-Interpreted outputs e
validate_output_semantics-Interpreted face_landmarks outputs h =
    let (u, e, h₁) = bind-eq-ok (validate_role_outputs face_landmarks outputs) _ h in
    validate_face_landmark_outputs-Interpreted outputs e
validate_output_semantics-Interpreted face_embedding outputs h =
    let (e, h₁) =
      bind-guard (has_only embedding live_probability outputs) output_semantic_mismatch _ h in
    let (o, only, absent, plain, checked) = has_only-true embedding live_probability outputs e h₁ in
    (o, only, absent, plain, embedding-IsVector o.dimensions checked)
validate_output_semantics-Interpreted passive_liveness_infrared outputs h =
    let (e, h₁) =
      bind-guard (has_only live_probability embedding outputs) output_semantic_mismatch _ h in
    live_probability-Interpreted outputs e h₁
validate_output_semantics-Interpreted passive_liveness_visible outputs h =
    let (e, h₁) =
      bind-guard (has_only live_probability embedding outputs) output_semantic_mismatch _ h in
    live_probability-Interpreted outputs e h₁
validate_output_semantics-Interpreted passive_liveness_fusion outputs h =
    let (e, h₁) =
      bind-guard (has_only live_probability embedding outputs) output_semantic_mismatch _ h in
    live_probability-Interpreted outputs e h₁
