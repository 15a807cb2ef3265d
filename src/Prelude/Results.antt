-- ===== src/Prelude/Results.antt =====
-- `Result<T, E>`, and its `?` as a bind.
use mathlib.Core.Path.{◌≡◌, refl, subst}
use mathlib.Core.Logic.{◌⊎◌, inl, inr}

pub data Result {ℓ κ} (A : Type ℓ) (E : Type κ) : Type (ℓ ⊔ κ) where
  ok : A → Result A E
  err : E → Result A E

infixl 5 ◌>>=◌
abbrev pub ◌>>=◌ {ℓ μ κ} :
    {A : Type ℓ} {B : Type μ} {E : Type κ} → Result A E → (A → Result B E) → Result B E
ok a >>= f = f a
err e >>= f = err e

abbrev pub map_err {ℓ κ μ} :
    {A : Type ℓ} {E : Type κ} {F : Type μ} → (E → F) → Result A E → Result A F
map_err f (ok a) = ok a
map_err f (err e) = err (f e)

abbrev pub map_ok {ℓ κ μ} :
    {A : Type ℓ} {B : Type μ} {E : Type κ} → (A → B) → Result A E → Result B E
map_ok f (ok a) = ok (f a)
map_ok f (err e) = err e

pub Result-cases {ℓ κ} :
    {A : Type ℓ} {E : Type κ} (r : Result A E) → ((a : A) × (r ≡ ok a)) ⊎ ((e : E) × (r ≡ err e))
Result-cases (ok a) = inl (a, refl)
Result-cases (err e) = inr (e, refl)

pub map_err-eq-ok {ℓ κ μ} :
    {A : Type ℓ} {E : Type κ} {F : Type μ} (f : E → F) (r : Result A E) (a : A)
    → map_err f r ≡ ok a
    → r ≡ ok a
map_err-eq-ok f (ok b) a h = cc
map_err-eq-ok f (err e) a h = cc

-- The end of a chain: a result that is read and then put into the answer.
pub bind-eq-ok {ℓ κ μ ν} :
    {A : Type ℓ} {B : Type κ} {E : Type μ} {F : Type ν} (f : E → F) (g : A → B) (r : Result A E)
    (b : B)
    → map_err f r >>= (λ a. ok (g a)) ≡ ok b
    → (a : A) × (r ≡ ok a) × (g a ≡ b)
bind-eq-ok f g (ok a) b h = (a, refl, cc)
bind-eq-ok f g (err e) b h = cc

-- What holds of a value, if there is one.
abbrev pub Ensures {ℓ κ μ} : {A : Type ℓ} {E : Type κ} → (A → Type μ) → Result A E → Type μ
Ensures P (ok a) = P a
Ensures P (err e) = Unit

pub Ensures-ok {ℓ κ μ} :
    {A : Type ℓ} {E : Type κ} (P : A → Type μ) (r : Result A E) (a : A)
    → r ≡ ok a
    → Ensures P r
    → P a
Ensures-ok P (ok b) a e h = let same : b ≡ a = cc in subst P same h
Ensures-ok P (err x) a e h = cc
