-- ===== src/Base/Lists.antt =====
-- Lists over the native numbers, the iterator adapters that the source uses, and predicates.
use Prim.Native.Nat.{ℕ, zero, suc, ◌+◌}
use Prim.Native.String.{String}
use mathlib.Core.Path.{◌≡◌, refl}
use mathlib.Core.Logic.{◌↔◌, inl, inr}
use mathlib.Core.Bool.{Bool, true, false, ◌||◌, ◌&&◌}
use mathlib.Core.Option.{Option, none, some}
use mathlib.Core.List.{List, [], ◌∷◌, ◌++◌, map}
use native.Mathlib.Omega.{arith}
use text.Mathlib.Text.{◌==◌}
use open_agenet.Base.Tests.{if◌then◌else◌, Bool-cases}

module _ {ℓ} {A : Type ℓ} where
  abbrev pub length : List A → ℕ
  length [] = 0
  length (x ∷ xs) = suc (length xs)

  abbrev pub is_empty : List A → Bool
  is_empty [] = true
  is_empty (x ∷ xs) = false

  abbrev pub take : ℕ → List A → List A
  take zero xs = []
  take (suc n) [] = []
  take (suc n) (x ∷ xs) = x ∷ take n xs

  -- `push`.
  abbrev pub push : List A → A → List A
  push xs x = xs ++ x ∷ []

  abbrev pub last : List A → Option A
  last [] = none
  last (x ∷ []) = some x
  last (x ∷ y ∷ xs) = last (y ∷ xs)

  -- `iter().any(..)`, `iter().all(..)`, `iter().find(..)` and `retain(..)`.
  abbrev pub any : (A → Bool) → List A → Bool
  any p [] = false
  any p (x ∷ xs) = p x || any p xs

  abbrev pub all : (A → Bool) → List A → Bool
  all p [] = true
  all p (x ∷ xs) = p x && all p xs

  abbrev pub find : (A → Bool) → List A → Option A
  find p [] = none
  find p (x ∷ xs) = if p x then some x else find p xs

  abbrev pub retain : (A → Bool) → List A → List A
  retain p [] = []
  retain p (x ∷ xs) = if p x then x ∷ retain p xs else retain p xs

  -- The element that `any` found, with its test.
  pub data Some {κ} (P : A → Type κ) : List A → Type (ℓ ⊔ κ) where
    here : {x : A} {xs : List A} → P x → Some P (x ∷ xs)
    there : {x : A} {xs : List A} → Some P xs → Some P (x ∷ xs)

  abbrev pub All {κ} : (A → Type κ) → List A → Type κ
  All P [] = Unit
  All P (x ∷ xs) = P x × All P xs

abbrev pub filter_map {ℓ κ} : {A : Type ℓ} {B : Type κ} → (A → Option B) → List A → List B
filter_map f [] = []
filter_map f (x ∷ xs) = elim (f x) [ none ↦ filter_map f xs | some y ↦ y ∷ filter_map f xs ]

-- `iter().any(|value| value == wanted)` on texts.
abbrev pub contains : String → List String → Bool
contains s ts = any (λ t. t == s) ts

-- `iter().rev().find(..)`: the last one that passes.
abbrev pub find_last {ℓ} : {A : Type ℓ} → (A → Bool) → List A → Option A
find_last p [] = none
find_last p (x ∷ xs) = elim (find_last p xs) [
  | some y ↦ some y
  | none ↦ if p x then some x else none
]

module _ {ℓ κ} {A : Type ℓ} (P : A → Type κ) where
  pub All-append : (xs ys : List A) → All P xs → All P ys → All P (xs ++ ys)
  All-append [] ys h k = k
  All-append (x ∷ xs) ys h k = (h.0, All-append xs ys h.1 k)

module _ {ℓ κ} {A : Type ℓ} (P : A → Type κ) where
  pub All-map : {B : Type ℓ} (f : B → A) (xs : List B) → All (λ x. P (f x)) xs → All P (map f xs)
  All-map f [] h = tt
  All-map f (x ∷ xs) h = (h.0, All-map f xs h.1)

  pub All-retain_both :
      (p : A → Bool) (xs : List A) → All P xs → All (λ x. P x × (p x ≡ true)) (retain p xs)
  All-retain_both p [] h = tt
  All-retain_both p (x ∷ xs) h = elim (Bool-cases (p x)) [
    | inl e ↦ rw e ((h.0, e), All-retain_both p xs h.1)
    | inr e ↦ rw e (All-retain_both p xs h.1)
  ]

  pub All-take : (n : ℕ) (xs : List A) → All P xs → All P (take n xs)
  All-take zero xs h = tt
  All-take (suc n) [] h = tt
  All-take (suc n) (x ∷ xs) h = (h.0, All-take n xs h.1)

  pub All-weaken {μ} : {Q : A → Type μ} (xs : List A) → ((x : A) → Q x → P x) → All Q xs → All P xs
  All-weaken [] k h = tt
  All-weaken (x ∷ xs) k h = (k x h.0, All-weaken xs k h.1)

module _ {ℓ} {A : Type ℓ} where
  pub length-append : (xs ys : List A) → length (xs ++ ys) ≡ length xs + length ys
  length-append [] ys = omega arith
  length-append (x ∷ xs) ys = omega (arith, length-append xs ys)

  pub last-append : (xs : List A) (x : A) → last (xs ++ x ∷ []) ≡ some x
  last-append [] x = refl
  last-append (y ∷ []) x = refl
  last-append (y ∷ z ∷ xs) x = last-append (z ∷ xs) x

  pub any-append : (p : A → Bool) (xs ys : List A) → any p (xs ++ ys) ≡ (any p xs || any p ys)
  any-append p [] ys = refl
  any-append p (x ∷ xs) ys = ground (arith, any-append p xs ys)

  pub any-Some : (p : A → Bool) (xs : List A) → any p xs ≡ true → Some (λ x. p x ≡ true) xs
  any-Some p [] h = cc
  any-Some p (x ∷ xs) h = elim (Bool-cases (p x)) [
    | inl e ↦ here e
    | inr e ↦ there (any-Some p xs (rw e at h))
  ]

  pub Some-any : {p : A → Bool} {xs : List A} → Some (λ x. p x ≡ true) xs → any p xs ≡ true
  Some-any (here h) = ground arith
  Some-any (there s) = ground (arith, Some-any s)

  pub All-retain : (p : A → Bool) (xs : List A) → All (λ x. p x ≡ true) (retain p xs)
  All-retain p [] = tt
  All-retain p (x ∷ xs) = ground (arith, All-retain p xs)

  Some-map {κ μ} :
      {P : A → Type κ} {Q : A → Type μ} {xs : List A}
      → ((x : A) → P x → Q x)
      → Some P xs
      → Some Q xs
  Some-map f (here {x = x} h) = here (f x h)
  Some-map f (there s) = there (Some-map f s)

  -- `any` finds what its test decides.
  pub any_iff {κ} :
      {P : A → Type κ} (p : A → Bool) (xs : List A)
      → ((x : A) → (p x ≡ true) ↔ P x)
      → (any p xs ≡ true) ↔ Some P xs
  any_iff p xs decides = (
    λ h. Some-map (λ x. (decides x).0) (any-Some p xs h),
    λ s. Some-any (Some-map (λ x. (decides x).1) s),
  )
