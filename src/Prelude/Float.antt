-- ===== src/Prelude/Float.antt =====
-- What the crates do with an `f32`: the type and its operations are an interface. IEEE laws that a
-- theorem needs are the fields of `IsOrdered`, met by `Milli`, whole thousandths with a NaN.
use Prim.Native.Nat.{ℕ, zero, suc, ◌+◌, ◌-◌, ◌*◌, ◌/◌}
use mathlib.Core.Path.{◌≡◌}
use mathlib.Core.Bool.{Bool, true, false, ◌&&◌}
use mathlib.Core.List.{List, [], ◌∷◌}
use native.Mathlib.Omega.{arith}
use faceauth_rs.Prelude.Tests.{ltb, leb, if◌then◌else◌}

pub record Float (W : Type 0) : Type 0 where
  pub lit : ℕ → W  -- the literal of a whole number
  pub milli : ℕ → W  -- the literal nearest to that many thousandths
  pub micro : ℕ → W  -- the literal nearest to that many millionths
  pub is_finite : W → Bool
  pub lt : W → W → Bool
  pub le : W → W → Bool
  pub neg : W → W
  pub abs : W → W

-- The arithmetic of the crates, each operation rounded as the machine rounds it.
pub record Arithmetic (W : Type 0) : Type 0 where
  pub add : W → W → W
  pub sub : W → W → W
  pub mul : W → W → W
  pub div : W → W → W
  pub mul_add : W → W → W → W
  pub sqrt : W → W
  pub minimum : W → W → W
  pub maximum : W → W → W
  pub epsilon : W  -- `f32::EPSILON`

module _ {W : Type 0} ⦃f : Float W⦄ where
  -- `(lo..=hi).contains(&x)`
  abbrev pub spans : W → W → W → Bool
  spans lo hi x = f.le lo x && f.le x hi

  -- `x.is_finite() && (0.0..=1.0).contains(&x)`
  unfoldable pub is_unit : W → Bool
  is_unit x = f.is_finite x && spans (f.lit 0) (f.lit 1) x

-- The order that comparisons give on values that are not NaN.
pub record IsOrdered (W : Type 0) ⦃f : Float W⦄ : Type 0 where
  pub le_trans : (x y z : W) → f.le x y ≡ true → f.le y z ≡ true → f.le x z ≡ true
  pub not_lt_of_le : (x y : W) → f.le x y ≡ true → f.lt y x ≡ false
  pub not_le_of_lt : (x y : W) → f.lt x y ≡ true → f.le y x ≡ false
  pub le_of_not_lt :
      (x y : W) → f.is_finite x ≡ true → f.is_finite y ≡ true → f.lt x y ≡ false → f.le y x ≡ true

-- `pos n` is n / 1000 and `neg n` is -(n + 1) / 1000.
pub data Milli : Type 0 where
  nan : Milli
  pos : ℕ → Milli
  neg : ℕ → Milli

abbrev milli_le : Milli → Milli → Bool
milli_le (pos a) (pos b) = leb a b
milli_le (neg a) (neg b) = leb b a
milli_le (neg a) (pos b) = true
milli_le _ _ = false

abbrev milli_lt : Milli → Milli → Bool
milli_lt (pos a) (pos b) = ltb a b
milli_lt (neg a) (neg b) = ltb b a
milli_lt (neg a) (pos b) = true
milli_lt _ _ = false

abbrev milli_finite : Milli → Bool
milli_finite nan = false
milli_finite _ = true

abbrev milli_neg : Milli → Milli
milli_neg nan = nan
milli_neg (pos zero) = pos 0
milli_neg (pos (suc n)) = neg n
milli_neg (neg n) = pos (suc n)

abbrev milli_abs : Milli → Milli
milli_abs (neg n) = pos (suc n)
milli_abs x = x

instance abbrev pub milli_float : Float Milli
milli_float = record {
  lit = λ n. pos (n * 1000);
  milli = pos;
  micro = λ n. pos (n / 1000);
  is_finite = milli_finite;
  lt = milli_lt;
  le = milli_le;
  neg = milli_neg;
  abs = milli_abs;
}

pub Milli-IsOrdered : IsOrdered Milli
Milli-IsOrdered = ground arith

-- Thousandths from a difference of natural numbers.
abbrev milli_diff : ℕ → ℕ → Milli
milli_diff a b = if leb b a then pos (a - b) else neg (b - a - 1)

abbrev milli_add : Milli → Milli → Milli
milli_add (pos a) (pos b) = pos (a + b)
milli_add (pos a) (neg b) = milli_diff a (suc b)
milli_add (neg a) (pos b) = milli_diff b (suc a)
milli_add (neg a) (neg b) = neg (suc (a + b))
milli_add _ _ = nan

abbrev milli_signed : ℕ → Milli
milli_signed zero = pos 0
milli_signed (suc n) = neg n

abbrev milli_mul : Milli → Milli → Milli
milli_mul (pos a) (pos b) = pos (a * b / 1000)
milli_mul (pos a) (neg b) = milli_signed (a * suc b / 1000)
milli_mul (neg a) (pos b) = milli_signed (suc a * b / 1000)
milli_mul (neg a) (neg b) = pos (suc a * suc b / 1000)
milli_mul _ _ = nan

abbrev milli_div : Milli → Milli → Milli
milli_div (pos a) (pos (suc b)) = pos (a * 1000 / suc b)
milli_div (pos a) (neg b) = milli_signed (a * 1000 / suc b)
milli_div (neg a) (pos (suc b)) = milli_signed (suc a * 1000 / suc b)
milli_div (neg a) (neg b) = pos (suc a * 1000 / suc b)
milli_div _ _ = nan

-- The integer square root, one bit after the other.
abbrev root : List ℕ → ℕ → ℕ → ℕ
root [] r n = r
root (b ∷ bs) r n = root bs (if leb ((r + b) * (r + b)) n then r + b else r) n

abbrev milli_sqrt : Milli → Milli
milli_sqrt (pos n) =
    pos (root (2048 ∷ 1024 ∷ 512 ∷ 256 ∷ 128 ∷ 64 ∷ 32 ∷ 16 ∷ 8 ∷ 4 ∷ 2 ∷ 1 ∷ []) 0 (n * 1000))
milli_sqrt _ = nan

abbrev milli_pick : Bool → Milli → Milli → Milli
milli_pick first nan y = y
milli_pick first x nan = x
milli_pick first x y = if first then x else y

instance abbrev pub milli_arithmetic : Arithmetic Milli
milli_arithmetic = record {
  add = milli_add;
  sub = λ x y. milli_add x (milli_neg y);
  mul = milli_mul;
  div = milli_div;
  mul_add = λ x y z. milli_add (milli_mul x y) z;
  sqrt = milli_sqrt;
  minimum = λ x y. milli_pick (milli_le x y) x y;
  maximum = λ x y. milli_pick (milli_le y x) x y;
  epsilon = pos 0;
}
