-- ===== src/Base/Outcome.antt =====
-- Rust's `Result`, with `?` as the bind.
use mathlib.Core.Path.{◌≡◌, refl}
use mathlib.Core.Logic.{◌⊎◌, inl, inr}
use mathlib.Core.Bool.{Bool, true, false}
use native.Mathlib.Omega.{arith}
use mathlib.Core.Option.{Option, none, some}

pub data Result {ℓ κ} (E : Type ℓ) (A : Type κ) : Type (ℓ ⊔ κ) where
  ok : A → Result E A
  err : E → Result E A

infixl 5 ◌>>=◌ ◌>>◌
abbrev pub ◌>>=◌ {ℓ κ μ} :
    {E : Type ℓ} {A : Type κ} {B : Type μ} → Result E A → (A → Result E B) → Result E B
ok a >>= f = f a
err e >>= f = err e

abbrev pub ◌>>◌ {ℓ κ μ} :
    {E : Type ℓ} {A : Type κ} {B : Type μ} → Result E A → Result E B → Result E B
m >> k = m >>= λ _. k

-- `if !test { return Err(e) }`.
abbrev pub require {ℓ} : {E : Type ℓ} → Bool → E → Result E (Unit {0})
require true e = ok tt
require false e = err e

module _ {ℓ κ} {E : Type ℓ} {A : Type κ} where
  abbrev pub ok_or : Option A → E → Result E A
  ok_or none e = err e
  ok_or (some a) e = ok a

  abbrev pub unwrap_or : Result E A → A → A
  unwrap_or (ok a) b = a
  unwrap_or (err e) b = b

  abbrev pub is_ok : Result E A → Bool
  is_ok (ok a) = true
  is_ok (err e) = false

  abbrev pub map_err {μ} : {F : Type μ} → (E → F) → Result E A → Result F A
  map_err f (ok a) = ok a
  map_err f (err e) = err (f e)

  abbrev pub to_option : Result E A → Option A
  to_option (ok a) = some a
  to_option (err e) = none

pub Result-cases {ℓ κ} :
    {E : Type ℓ} {A : Type κ} (r : Result E A) → ((a : A) × (r ≡ ok a)) ⊎ ((e : E) × (r ≡ err e))
Result-cases (ok a) = inl (a, refl)
Result-cases (err e) = inr (e, refl)

-- A chain that ends well: what its first step gave, and that the rest ended well with it.
pub first_step {ℓ κ μ} :
    {E : Type ℓ} {A : Type κ} {B : Type μ} (m : Result E A) (rest : A → Result E B) {end : B}
    → (m >>= rest) ≡ ok end
    → (given : A) × (rest given ≡ ok end) × (m ≡ ok given)
first_step m rest h = elim (Result-cases m) [
  | inl (given, e) ↦ (given, rw e at h, e)
  | inr (failure, e) ↦ absurd (ground (arith, e, h))
]

-- The first test of a successful chain has passed, and so has the rest.
pub require_rest {ℓ μ} :
    {E : Type ℓ} {B : Type μ} (b : Bool) (e : E) (rest : Result E B) {a : B}
    → (require b e >> rest) ≡ ok a
    → (b ≡ true) × (rest ≡ ok a)
require_rest true e rest h = (refl, h)
require_rest false e rest h = cc
