-- ===== src/Base/Maps.antt =====
-- Rust's `BTreeMap<String, V>`: an association list, kept in the order of its keys.
use Prim.Native.String.{String, compare}
use mathlib.Core.Path.{◌≡◌, refl}
use mathlib.Core.Bool.{Bool}
use mathlib.Core.Option.{Option, none, some}
use mathlib.Core.List.{List, [], ◌∷◌}
use native.Mathlib.Omega.{arith}
use text.Mathlib.Text.{◌==◌, is_lt}
use text.Mathlib.TextEquality.{eq_iff}
use text.Mathlib.TextPositions.{eq_refl}
use open_agenet.Base.Tests.{if◌then◌else◌}

abbrev pub Map {ℓ} : Type ℓ → Type ℓ
Map V = List (String × V)

-- Rust compares texts by their bytes.
abbrev pub before : String → String → Bool
before s t = is_lt (compare s t)

module _ {ℓ} {V : Type ℓ} where
  -- `get`.
  unfoldable pub lookup : (wanted : String) → Map V → Option V
  lookup wanted [] = none
  lookup wanted (entry ∷ rest) = if entry.0 == wanted then some entry.1 else lookup wanted rest

  -- `insert`: it replaces the value of a key that is there.
  unfoldable pub insert : (key : String) → V → Map V → Map V
  insert key value [] = (key, value) ∷ []
  insert key value (entry ∷ rest) =
      let deeper = insert key value rest in
      if entry.0 == key
      then (key, value) ∷ rest
      else if before key entry.0
      then (key, value) ∷ entry ∷ rest
      else entry ∷ deeper

  pub lookup-insert :
      (key wanted : String) (value : V) (entries : Map V)
      → lookup wanted (insert key value entries)
        ≡ (if key == wanted then some value else lookup wanted entries)
  unfolding insert lookup
  lookup-insert key wanted value [] = refl
  lookup-insert key wanted value (entry ∷ rest) =
      let deeper = lookup-insert key wanted value rest in
      ground (arith, deeper, eq_iff entry.0 wanted, eq_iff key wanted, eq_iff entry.0 key)

  pub lookup-insert_self :
      (key : String) (value : V) (entries : Map V)
      → lookup key (insert key value entries) ≡ some value
  lookup-insert_self key value entries = simp (lookup-insert, eq_refl)
