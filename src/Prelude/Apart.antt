-- ===== src/Prelude/Apart.antt =====
-- Lists whose items do not clash with one another: the loops that compare each item with those
-- before it, `xs[..index].iter().any(…)`, against a property of pairs.
use mathlib.Core.Path.{◌≡◌, refl, sym, ◌∙◌, subst}
use mathlib.Core.Logic.{◌↔◌}
use mathlib.Core.Bool.{Bool, false, ◌||◌}
use mathlib.Core.List.{List, [], ◌∷◌, ◌++◌, Memᴰ}
use native.Mathlib.Omega.{arith}
use faceauth_rs.Prelude.Lists.{any, All}

module _ {ℓ} {A : Type ℓ} where
  pub any-append : (p : A → Bool) (xs ys : List A) → any p (xs ++ ys) ≡ (any p xs || any p ys)
  any-append p [] ys = refl
  any-append p (x ∷ xs) ys = ground (arith, any-append p xs ys)

  pub any-false-All : (p : A → Bool) (xs : List A) → any p xs ≡ false → All (λ x. p x ≡ false) xs
  any-false-All p [] h = tt
  any-false-All p (x ∷ xs) h =
      let both : (p x ≡ false) × (any p xs ≡ false) = ground arith in
      (both.0, any-false-All p xs both.1)

  pub All-Memᴰ {κ} : (P : A → Type κ) (xs : List A) {a : A} → All P xs → Memᴰ a xs → P a
  All-Memᴰ P [] h m = elim m [ ]
  All-Memᴰ P (x ∷ xs) h (Memᴰ.head e) = subst P (sym e) h.0
  All-Memᴰ P (x ∷ xs) h (Memᴰ.tail m) = All-Memᴰ P xs h.1 m

  module _ (clash : A → A → Bool) where
    -- No two items clash, the earlier one given first.
    abbrev pub Apart : List A → Type ℓ
    Apart [] = Unit
    Apart (x ∷ xs) = All (λ y. clash x y ≡ false) xs × Apart xs

    -- What the loop checks: no item clashes with one before it.
    abbrev pub FreshAfter : List A → List A → Type ℓ
    FreshAfter earlier [] = Unit
    FreshAfter earlier (x ∷ xs) =
        (any (λ y. clash y x) earlier ≡ false) × FreshAfter (earlier ++ x ∷ []) xs

    -- The items clash neither with one of `earlier` nor among themselves.
    record Split (earlier xs : List A) : Type ℓ where
      pub outside : All (λ x. any (λ y. clash y x) earlier ≡ false) xs
      pub inside : Apart xs

    unclash :
        (earlier : List A) (x : A) (xs : List A)
        → All (λ z. any (λ y. clash y z) (earlier ++ x ∷ []) ≡ false) xs
        → All (λ z. any (λ y. clash y z) earlier ≡ false) xs × All (λ z. clash x z ≡ false) xs
    unclash earlier x [] h = (tt, tt)
    unclash earlier x (z ∷ zs) h =
        let e = any-append (λ y. clash y z) earlier (x ∷ []) in
        let rest = unclash earlier x zs h.1 in
        let here : any (λ y. clash y z) (earlier ++ x ∷ []) ≡ false = h.0 in
        ((ground (arith, e, here), rest.0), (ground (arith, e, here), rest.1))

    reclash :
        (earlier : List A) (x : A) (xs : List A)
        → All (λ z. any (λ y. clash y z) earlier ≡ false) xs
        → All (λ z. clash x z ≡ false) xs
        → All (λ z. any (λ y. clash y z) (earlier ++ x ∷ []) ≡ false) xs
    reclash earlier x [] h k = tt
    reclash earlier x (z ∷ zs) h k = (
      any-append (λ y. clash y z) earlier (x ∷ []) ∙ rw (h.0, k.0) refl,
      reclash earlier x zs h.1 k.1,
    )

    FreshAfter-Split : (earlier xs : List A) → FreshAfter earlier xs → Split earlier xs
    FreshAfter-Split earlier [] h = record { outside = tt; inside = tt }
    FreshAfter-Split earlier (x ∷ xs) h =
        let rest = FreshAfter-Split (earlier ++ x ∷ []) xs h.1 in
        let parts = unclash earlier x xs rest.outside in
        record { outside = (h.0, parts.0); inside = (parts.1, rest.inside) }

    Split-FreshAfter :
        (earlier xs : List A)
        → All (λ x. any (λ y. clash y x) earlier ≡ false) xs
        → Apart xs
        → FreshAfter earlier xs
    Split-FreshAfter earlier [] h k = tt
    Split-FreshAfter earlier (x ∷ xs) h k =
        (h.0, Split-FreshAfter (earlier ++ x ∷ []) xs (reclash earlier x xs h.1 k.0) k.1)

    none_before : (xs : List A) → All (λ x. any (λ y. clash y x) [] ≡ false) xs
    none_before [] = tt
    none_before (x ∷ xs) = (refl, none_before xs)

    -- The loop passes exactly the lists in which no two items clash.
    pub FreshAfter-Apart : (xs : List A) → FreshAfter [] xs ↔ Apart xs
    FreshAfter-Apart xs =
        ((λ h. (FreshAfter-Split [] xs h).inside), Split-FreshAfter [] xs (none_before xs))
