-- ===== src/Prelude/Exec.antt =====
-- Methods on `&mut self` that may fail: a state is threaded, and kept when an error returns.
use mathlib.Core.Bool.{Bool, true, false}
use mathlib.Core.Path.{◌≡◌, refl, ap}
use Prim.Native.Nat.{ℕ, ◌+◌, ◌≤◌}
use native.Mathlib.Omega.{arith}
use faceauth_rs.Prelude.Outcome.{Result, ok, err, lift_err}

abbrev pub Exec : Type 0 → Type 0 → Type 0 → Type 0
Exec S E A = S → Result E A × S

infixl 5 ◌>>=◌ ◌>>◌
abbrev pub ◌>>=◌ : {S E A B : Type 0} → Exec S E A → (A → Exec S E B) → Exec S E B
◌>>=◌ m f s = let (r, t) = m s in elim r [ ok a ↦ f a t | err e ↦ (err e, t) ]

abbrev pub ◌>>◌ : {S E B : Type 0} → Exec S E (Unit {0}) → Exec S E B → Exec S E B
m >> k = m >>= λ _. k

abbrev pub pure : {S E A : Type 0} → A → Exec S E A
pure a s = (ok a, s)

abbrev pub fail : {S E A : Type 0} → E → Exec S E A
fail e s = (err e, s)

-- A method on `&self` that may fail.
abbrev pub reads : {S E A : Type 0} → (S → Result E A) → Exec S E A
reads f s = (f s, s)

abbrev pub modify : {S E : Type 0} → (S → S) → Exec S E (Unit {0})
modify f s = (ok tt, f s)

abbrev pub guard : {S E : Type 0} → Bool → E → Exec S E (Unit {0})
guard true e s = (ok tt, s)
guard false e s = (err e, s)

-- `match method(…) { … }`: the result is taken as a value.
abbrev pub attempt : {S E F A : Type 0} → Exec S E A → Exec S F (Result E A)
attempt m s = let (r, t) = m s in (ok r, t)

-- A method of a part of the state, its error converted by `?`.
abbrev pub on_part :
    {S T E F A : Type 0} → (S → T) → (T → S → S) → (E → F) → Exec T E A → Exec S F A
on_part get put into m s = let (r, t) = m (get s) in (lift_err into r, put t s)

-- A cost of states that one step raises by at most `a`, and all that follows by at most `b`.
pub bind_cost :
    {S E A B : Type 0} (cost : S → ℕ) (m : Exec S E A) (f : A → Exec S E B) (a b c : ℕ) (s : S)
    → cost (m s).1 ≤ cost s + a
    → ((x : A) (t : S) → cost (f x t).1 ≤ cost t + b)
    → a + b ≤ c
    → cost ((m >>= f) s).1 ≤ cost s + c
bind_cost {S} {E} {A} {B} cost m f a b c s first rest room = go (m s) refl
  where
    go :
        (x : Result E A × S)
        → m s ≡ x
        → cost (elim x.0 as (λ _. Result E B × S) [ ok y ↦ f y x.1 | err e ↦ (err e, x.1) ]).1
          ≤ cost s + c
    go (ok y, t) e = omega (arith, room, rest y t, first, ap (λ (x : Result E A × S). cost x.1) e)
    go (err z, t) e = omega (arith, room, first, ap (λ (x : Result E A × S). cost x.1) e)

-- What holds of every end of the steps holds of the end of the chain.
pub bind_post {ℓ} :
    {S E A B : Type 0} (Q : Result E B × S → Type ℓ) (m : Exec S E A) (f : A → Exec S E B) (s : S)
    → ((a : A) (t : S) → m s ≡ (ok a, t) → Q (f a t))
    → ((e : E) (t : S) → m s ≡ (err e, t) → Q (err e, t))
    → Q ((m >>= f) s)
bind_post {S = S} {E} {A} {B} Q m f s good bad = go (m s) refl
  where
    go :
        (x : Result E A × S)
        → m s ≡ x
        → Q (elim x.0 as (λ _. Result E B × S) [ ok a ↦ f a x.1 | err e ↦ (err e, x.1) ])
    go (ok a, t) e = good a t e
    go (err z, t) e = bad z t e
