-- ===== src/Session/Cells.antt =====
-- The store of cancellation cells behind crates/faceauth-session/src/lib.rs: a row of spent cells,
-- with one live cell at its end while a transaction is active.
use faceauth_rs.Prelude.{
  ℕ, zero, suc, ◌<◌, ◌≡◌, refl, ap, Bool, true, false, List, [], ◌∷◌, ◌++◌, length, get_or, set,
  All, arith,
}

abbrev pub AllSpent : List Bool → Type 0
AllSpent = All (λ b. b ≡ true)

pub set-last : (done : List Bool) → set (done ++ false ∷ []) (length done) true ≡ done ++ true ∷ []
set-last [] = refl
set-last (b ∷ bs) = ap (◌∷◌ b) (set-last bs)

pub AllSpent-last : (done : List Bool) → AllSpent done → AllSpent (done ++ true ∷ [])
AllSpent-last [] h = (refl, tt)
AllSpent-last (b ∷ bs) h = (h.0, AllSpent-last bs h.1)

pub get_or-AllSpent :
    (done : List Bool) (i : ℕ) → AllSpent done → i < length done → get_or done i false ≡ true
get_or-AllSpent [] i h lt = elim lt [ ]
get_or-AllSpent (b ∷ bs) zero h lt = h.0
get_or-AllSpent (b ∷ bs) (suc i) h lt = get_or-AllSpent bs i h.1 (omega arith)

pub get_or-before :
    (done : List Bool) (i : ℕ) (b : Bool)
    → AllSpent done
    → i < length done
    → get_or (done ++ b ∷ []) i false ≡ true
get_or-before [] i b h lt = elim lt [ ]
get_or-before (x ∷ xs) zero b h lt = h.0
get_or-before (x ∷ xs) (suc i) b h lt = get_or-before xs i b h.1 (omega arith)

pub get_or-last : (done : List Bool) (b : Bool) → get_or (done ++ b ∷ []) (length done) false ≡ b
get_or-last [] b = refl
get_or-last (x ∷ xs) b = get_or-last xs b

pub set-set : (cells : List Bool) (i : ℕ) (b : Bool) → set (set cells i b) i b ≡ set cells i b
set-set [] i b = refl
set-set (x ∷ xs) zero b = refl
set-set (x ∷ xs) (suc i) b = ap (◌∷◌ x) (set-set xs i b)
