-- ===== src/Model/Shapes.antt =====
-- What the checks of tensors establish (crates/faceauth-model/src/lib.rs).
use faceauth_rs.Prelude.{
  ℕ, ◌+◌, ◌*◌, ◌≤◌, ◌≡◌, ◌≢◌, ◌∙◌, false, not, ◌||◌, some, ok, bind-eq-ok, bind-guard, bind-ok_or,
  ok_or-ok, Option-cases, inl, inr, nat_eq, bytes_eq, ◌==◌, ne_of_beq, All-snoc_split, ltb, any,
  contains, length, All, Pairwise, List, [], ◌∷◌, ◌++◌, arith,
}
use native.Mathlib.Nat.{mul_assoc}
use faceauth_rs.Prelude.Word.{u64_mod, checked_add, checked_mul}
use faceauth_rs.Model.{OutputContract, invalid_tensor_dimensions, duplicate_output_name}
use faceauth_rs.Model.Checks.{
  max_tensor_rank, max_tensor_elements, max_total_output_elements, validate_tensor_name,
  fold_product, dimension_product, validate_dimensions, check_outputs,
}

-- The exact number of elements
abbrev pub product : List ℕ → ℕ
product [] = 1
product (d ∷ ds) = d * product ds

abbrev pub total_elements : List OutputContract → ℕ
total_elements [] = 0
total_elements (o ∷ os) = product o.dimensions + total_elements os

-- A fixed shape within the bounds: the rank, no empty dimension, the number of elements
pub record IsShape (dimensions : List ℕ) : Type 0 where
  pub ranked : 1 ≤ length dimensions
  pub rank_bounded : length dimensions ≤ max_tensor_rank
  pub filled : All (λ (d : ℕ). 1 ≤ d) dimensions
  pub bounded : product dimensions ≤ max_tensor_elements

fold_product-some :
    (total : ℕ) (ds : List ℕ) (p : ℕ) → fold_product total ds ≡ some p → p ≡ total * product ds
unfolding fold_product
fold_product-some total [] p h = let same : total ≡ p = ground arith in omega arith
fold_product-some total (d ∷ ds) p h = elim (Option-cases (checked_mul u64_mod total d)) [
  | inl e ↦ absurd (ground arith)
  | inr (next, e) ↦
      let step : next ≡ total * d = ground arith in
      fold_product-some next ds p (ground arith) ∙ rw step (mul_assoc total d (product ds))
]

pub dimension_product-ok : (ds : List ℕ) (p : ℕ) → dimension_product ds ≡ ok p → p ≡ product ds
unfolding dimension_product
dimension_product-ok ds p h =
    omega
      (arith, fold_product-some 1 ds p (ok_or-ok (fold_product 1 ds) invalid_tensor_dimensions h))

not_contains : (ds : List ℕ) → contains ds 0 ≡ false → All (λ (d : ℕ). 1 ≤ d) ds
not_contains [] h = tt
not_contains (d ∷ ds) h = (ground arith, not_contains ds (ground arith))

pub validate_dimensions-IsShape : (ds : List ℕ) → validate_dimensions ds ≡ ok tt → IsShape ds
unfolding validate_dimensions
validate_dimensions-IsShape ds h =
    let (sane, h₁) =
      bind-guard (not ((length ds == 0) || ltb max_tensor_rank (length ds) || contains ds 0))
        invalid_tensor_dimensions _ h in
    let (elements, e, h₂) = bind-eq-ok (dimension_product ds) _ h₁ in
    let exact = dimension_product-ok ds elements e in
    let few : elements ≤ max_tensor_elements = ground arith in
    record {
      ranked = ground arith;
      rank_bounded = ground arith;
      filled = not_contains ds (ground arith);
      bounded = omega (arith, few, exact);
    }

not_any :
    (name : List ℕ) (earlier : List OutputContract)
    → any (λ (e : OutputContract). e.name == name) earlier ≡ false
    → All (λ (e : OutputContract). e.name ≢ name) earlier
not_any name [] h = tt
not_any name (x ∷ xs) h = (ne_of_beq x.name name (ground arith), not_any name xs (ground arith))

-- What the loop over the outputs establishes, after outputs with some elements in all
record AreOutputs (earlier : List OutputContract) (total : ℕ) (outputs : List OutputContract)
    : Type 0 where
  shapes : All (λ (o : OutputContract). IsShape o.dimensions) outputs
  few : total + total_elements outputs ≤ max_total_output_elements
  distinct : Pairwise (λ (e o : OutputContract). e.name ≢ o.name) outputs
  fresh :
      All (λ (o : OutputContract). All (λ (e : OutputContract). e.name ≢ o.name) earlier) outputs

check_outputs-AreOutputs :
    (earlier : List OutputContract) (total : ℕ) (outputs : List OutputContract)
    → total ≤ max_total_output_elements
    → check_outputs earlier total outputs ≡ ok tt
    → AreOutputs earlier total outputs
unfolding check_outputs
check_outputs-AreOutputs earlier total [] few h = record {
  shapes = tt;
  few = omega arith;
  distinct = tt;
  fresh = tt;
}
check_outputs-AreOutputs earlier total (o ∷ os) few h =
    let (u, named, h₁) = bind-eq-ok (validate_tensor_name o.name) _ h in
    let (v, shaped, h₂) = bind-eq-ok (validate_dimensions o.dimensions) _ h₁ in
    let (elements, e, h₃) = bind-eq-ok (dimension_product o.dimensions) _ h₂ in
    let (sum, added, h₄) =
      bind-ok_or (checked_add u64_mod total elements) invalid_tensor_dimensions _ h₃ in
    let (enough, h₅) =
      bind-guard (not (ltb max_total_output_elements sum)) invalid_tensor_dimensions _ h₄ in
    let (unique, h₆) =
      bind-guard (not (any (λ (x : OutputContract). x.name == o.name) earlier))
        (duplicate_output_name o.name) _ h₅ in
    let exact = dimension_product-ok o.dimensions elements e in
    let summed : sum ≡ total + elements = ground arith in
    let below : sum ≤ max_total_output_elements = ground arith in
    let rest = check_outputs-AreOutputs (earlier ++ o ∷ []) sum os below h₆ in
    let (before, own) =
      All-snoc_split (λ (x y : OutputContract). x.name ≢ y.name) earlier o os rest.fresh in
    record {
      shapes = (validate_dimensions-IsShape o.dimensions shaped, rest.shapes);
      few = omega (arith, rest.few, summed, exact);
      distinct = (own, rest.distinct);
      fresh = (not_any o.name earlier (ground arith), before);
    }

pub outputs_distinct :
    (outputs : List OutputContract)
    → check_outputs [] 0 outputs ≡ ok tt
    → All (λ (o : OutputContract). IsShape o.dimensions) outputs
      × (total_elements outputs ≤ max_total_output_elements)
      × Pairwise (λ (e o : OutputContract). e.name ≢ o.name) outputs
outputs_distinct outputs h =
    let are = check_outputs-AreOutputs [] 0 outputs (omega arith) h in
    (are.shapes, omega (arith, are.few), are.distinct)
