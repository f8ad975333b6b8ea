-- ===== src/Common/Result.antt =====
-- Rust's `Result`, with the error second, and its `?` as a monad.
use mathlib.Core.Path.{◌≡◌, refl}
use mathlib.Core.Bool.{Bool, true, false}
use mathlib.Core.Logic.{◌⊎◌, inl, inr}
use kiro_gateway.Common.Tests.{if◌then◌else◌}
use mathlib.Core.Option.{Option, none, some}

pub data Result {ℓ κ} (A : Type ℓ) (E : Type κ) : Type (ℓ ⊔ κ) where
  ok : A → Result A E
  err : E → Result A E

infixl 5 ◌>>=◌ ◌>>◌
abbrev pub ◌>>=◌ {ℓ κ μ} :
    {A : Type ℓ} {B : Type κ} {E : Type μ} → Result A E → (A → Result B E) → Result B E
ok a >>= f = f a
err e >>= f = err e

abbrev pub ◌>>◌ {ℓ κ μ} :
    {A : Type ℓ} {B : Type κ} {E : Type μ} → Result A E → Result B E → Result B E
m >> k = m >>= λ _. k

abbrev pub map_err {ℓ κ μ} :
    {A : Type ℓ} {E : Type κ} {F : Type μ} → (E → F) → Result A E → Result A F
map_err f (ok a) = ok a
map_err f (err e) = err (f e)

-- `ok_or_else`.
abbrev pub ok_or {ℓ κ} : {A : Type ℓ} {E : Type κ} → E → Option A → Result A E
ok_or e none = err e
ok_or e (some a) = ok a

-- `Result::ok`.
abbrev pub to_option {ℓ κ} : {A : Type ℓ} {E : Type κ} → Result A E → Option A
to_option (ok a) = some a
to_option (err e) = none

-- A value, where there is one, has a property.
abbrev pub OnOk {ℓ κ μ} : {A : Type ℓ} {E : Type κ} → (A → Type μ) → Result A E → Type μ
OnOk P (ok a) = P a
OnOk P (err e) = Unit

pub bind-OnOk {ℓ κ μ ν} :
    {A : Type ℓ} {B : Type κ} {E : Type μ} (P : A → Type ν) (Q : B → Type ν) (m : Result A E)
    (f : A → Result B E)
    → OnOk P m
    → ((a : A) → P a → OnOk Q (f a))
    → OnOk Q (m >>= f)
bind-OnOk P Q (ok a) f p q = q a p
bind-OnOk P Q (err e) f p q = tt

pub if-OnOk {ℓ κ μ} :
    {A : Type ℓ} {E : Type κ} (P : A → Type μ) (b : Bool) (m k : Result A E)
    → OnOk P m
    → OnOk P k
    → OnOk P (if b then m else k)
if-OnOk P true m k p q = p
if-OnOk P false m k p q = q

pub Result-cases {ℓ κ} :
    {A : Type ℓ} {E : Type κ} (m : Result A E) → ((e : E) × (m ≡ err e)) ⊎ ((a : A) × (m ≡ ok a))
Result-cases (err e) = inl (e, refl)
Result-cases (ok a) = inr (a, refl)
