-- ===== src/Prelude/Outcome.antt =====
-- `Result<A, E>`: the `?` operator is `◌>>=◌`.
use mathlib.Core.Path.{◌≡◌, refl}
use mathlib.Core.Logic.{◌⊎◌, inl, inr}
use mathlib.Core.Bool.{Bool, true, false}
use mathlib.Core.Option.{Option, none, some}

pub data Result {ℓ κ} (E : Type ℓ) (A : Type κ) : Type (ℓ ⊔ κ) where
  ok : A → Result E A
  err : E → Result E A

module _ {ℓ κ} {E : Type ℓ} {A : Type κ} where
  abbrev pub bind {μ} : {B : Type μ} → Result E A → (A → Result E B) → Result E B
  bind (ok a) f = f a
  bind (err e) f = err e

  -- `Option::ok_or`
  abbrev pub ok_or : Option A → E → Result E A
  ok_or none e = err e
  ok_or (some a) e = ok a

  abbrev pub map_err {μ} : {F : Type μ} → Result E A → F → Result F A
  map_err (ok a) e = ok a
  map_err (err _) e = err e

  -- The `From` of an error type, which `?` applies
  abbrev pub lift_err {μ} : {F : Type μ} → (E → F) → Result E A → Result F A
  lift_err into (ok a) = ok a
  lift_err into (err e) = err (into e)

  -- `Result::ok`
  abbrev pub to_option : Result E A → Option A
  to_option (ok a) = some a
  to_option (err e) = none

  abbrev pub is_ok : Result E A → Bool
  is_ok (ok a) = true
  is_ok (err e) = false

infixl 5 ◌>>=◌ ◌>>◌
abbrev pub ◌>>=◌ {ℓ κ μ} :
    {E : Type ℓ} {A : Type κ} {B : Type μ} → Result E A → (A → Result E B) → Result E B
m >>= f = bind m f

abbrev pub ◌>>◌ {ℓ μ} : {E : Type ℓ} {B : Type μ} → Result E (Unit {0}) → Result E B → Result E B
m >> k = bind m (λ _. k)

-- `if !test { return Err(e); }`
abbrev pub guard {ℓ} : {E : Type ℓ} → Bool → E → Result E (Unit {0})
guard true e = ok tt
guard false e = err e

-- What a successful chain went through.
pub bind-eq-ok {ℓ κ μ} :
    {E : Type ℓ} {A : Type κ} {B : Type μ} (first : Result E A) (next : A → Result E B) {b : B}
    → bind first next ≡ ok b
    → (a : A) × (first ≡ ok a) × (next a ≡ ok b)
bind-eq-ok (err e) next h = cc
bind-eq-ok (ok a) next h = (a, refl, h)

-- A chain that succeeds passed its test.
pub bind-guard {ℓ κ} :
    {E : Type ℓ} {B : Type κ} (test : Bool) (e : E) (next : Unit {0} → Result E B) {b : B}
    → bind (guard test e) next ≡ ok b
    → (test ≡ true) × (next tt ≡ ok b)
bind-guard true e next h = (refl, h)
bind-guard false e next h = cc

-- A chain that succeeds found its value.
pub bind-ok_or {ℓ κ μ} :
    {E : Type ℓ} {A : Type κ} {B : Type μ} (o : Option A) (e : E) (next : A → Result E B) {b : B}
    → bind (ok_or o e) next ≡ ok b
    → (a : A) × (o ≡ some a) × (next a ≡ ok b)
bind-ok_or none e next h = cc
bind-ok_or (some a) e next h = (a, refl, h)

pub ok_or-ok {ℓ κ} :
    {E : Type ℓ} {A : Type κ} (o : Option A) (e : E) {a : A} → ok_or o e ≡ ok a → o ≡ some a
ok_or-ok none e h = cc
ok_or-ok (some x) e h = cc

pub Result-cases {ℓ κ} :
    {E : Type ℓ} {A : Type κ} (r : Result E A) → ((a : A) × (r ≡ ok a)) ⊎ ((e : E) × (r ≡ err e))
Result-cases (ok a) = inl (a, refl)
Result-cases (err e) = inr (e, refl)

pub lift_err-ok {ℓ κ μ} :
    {E : Type ℓ} {F : Type μ} {A : Type κ} (into : E → F) (r : Result E A) {a : A}
    → lift_err into r ≡ ok a
    → r ≡ ok a
lift_err-ok into (ok x) h = cc
lift_err-ok into (err x) h = cc
