-- ===== src/Prelude/Results.antt =====
-- Result of the Rust standard library, with `?` as bind, and operations on Option.
use Prim.Native.Nat.{ℕ}
use mathlib.Core.Path.{◌≡◌, refl, ap, ◌∙◌}
use mathlib.Core.Bool.{Bool, true, false}
use mathlib.Core.Option.{Option, none, some}

pub data Result {ℓ κ} (A : Type ℓ) (E : Type κ) : Type (ℓ ⊔ κ) where
  ok : A → Result A E
  err : E → Result A E

infixl 5 ◌>>=◌
abbrev pub ◌>>=◌ {ℓ κ μ} :
    {A : Type ℓ} {B : Type κ} {E : Type μ} → Result A E → (A → Result B E) → Result B E
err e >>= rest = err e
ok value >>= rest = rest value

-- A chain succeeds only if its first step does, and the rest after it.
pub ok_of_bind {ℓ κ μ} :
    {A : Type ℓ} {B : Type κ} {E : Type μ} (step : Result A E) (rest : A → Result B E) {out : B}
    → ◌≡◌ {A = Result B E} (step >>= rest) (ok out)
    → (value : A) × (◌≡◌ {A = Result A E} step (ok value)) × (rest value ≡ ok out)
ok_of_bind (err e) rest made = cc
ok_of_bind (ok value) rest made = (value, refl, made)

pub ok-injective {ℓ κ} :
    {A : Type ℓ} {E : Type κ} {a b : A} → ◌≡◌ {A = Result A E} (ok a) (ok b) → a ≡ b
ok-injective h = cc

-- Option::ok_or
abbrev pub ok_or {ℓ κ} : {A : Type ℓ} {E : Type κ} → Option A → E → Result A E
ok_or none e = err e
ok_or (some value) e = ok value

-- `if !test { return Err(e) }`
abbrev pub require {κ} : {E : Type κ} → Bool → E → Result (Unit {0}) E
require true e = ok tt
require false e = err e

pub ok_of_require {κ} :
    {E : Type κ} (test : Bool) (e : E) (out : Unit {0}) → require test e ≡ ok out → test ≡ true
ok_of_require true e out h = refl
ok_of_require false e out h = cc h

pub ok_of_ok_or {ℓ κ} :
    {A : Type ℓ} {E : Type κ} (o : Option A) (e : E) (a : A)
    → ◌≡◌ {A = Result A E} (ok_or o e) (ok a)
    → o ≡ some a
ok_of_ok_or none e a h = cc h
ok_of_ok_or (some b) e a h = cc h

pub bind_ok {ℓ κ μ} :
    {A : Type ℓ} {B : Type κ} {E : Type μ} {step : Result A E} (rest : A → Result B E) {a : A}
    {out : Result B E}
    → ◌≡◌ {A = Result A E} step (ok a)
    → rest a ≡ out
    → ◌≡◌ {A = Result B E} (step >>= rest) out
bind_ok rest h later = ap (λ s. s >>= rest) h ∙ later

pub require_ok {κ} : {E : Type κ} {test : Bool} (e : E) → test ≡ true → require test e ≡ ok tt
require_ok e h = ap (λ t. require t e) h

pub ok_or_some {ℓ κ} :
    {A : Type ℓ} {E : Type κ} {o : Option A} (e : E) {a : A}
    → o ≡ some a
    → ◌≡◌ {A = Result A E} (ok_or o e) (ok a)
ok_or_some e h = ap (λ t. ok_or t e) h

-- Option::or, Option::and_then, and unwrap_or_default of a number
abbrev pub or_else {ℓ} : {A : Type ℓ} → Option A → Option A → Option A
or_else none other = other
or_else (some a) other = some a

abbrev pub and_then {ℓ κ} : {A : Type ℓ} {B : Type κ} → Option A → (A → Option B) → Option B
and_then none f = none
and_then (some a) f = f a

abbrev pub or_zero : Option ℕ → ℕ
or_zero none = 0
or_zero (some n) = n
