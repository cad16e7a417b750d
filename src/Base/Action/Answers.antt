-- ===== src/Base/Action/Answers.antt =====
-- Steps of a handler that give a result, not an error.
use native.Mathlib.Omega.{arith}
use mathlib.Core.Path.{◌≡◌, refl, ap}
use open_agenet.Base.Outcome.{Result, ok, err}
use open_agenet.Base.Action.{Action, continue, ◌>>=◌}

module _ {S E : Type 0} where
  -- The answer of one step is what the next one starts with.
  pub continue_rule :
      {A B : Type 0} (r : Result E A) (f : A → Action S E B) (a : A) (s : S)
      → r ≡ ok a
      → (b : B) × ((f a s).0 ≡ ok b)
      → (b : B) × ((continue r f s).0 ≡ ok b)
  continue_rule (ok x) f a s h (b, k) = (b, ground (arith, h, k))
  continue_rule (err e) f a s h k = absurd (ground arith)

  continue_ok :
      {A B : Type 0} (r : Result E A) (f : A → Action S E B) (s s' : S) (b : B)
      → continue r f s ≡ (ok b, s')
      → (a : A) × (r ≡ ok a) × (f a s ≡ (ok b, s'))
  continue_ok (ok a) f s s' b h = (a, refl, h)
  continue_ok (err e) f s s' b h = absurd (ground (arith, h))

  -- A handler that ends with a result has one from its first step.
  pub bind_ok :
      {A B : Type 0} (m : Action S E A) (f : A → Action S E B) (s s' : S) (b : B)
      → (m >>= f) s ≡ (ok b, s')
      → (a : A) × (t : S) × (m s ≡ (ok a, t)) × (f a t ≡ (ok b, s'))
  bind_ok m f s s' b h =
      let (a, e, k) = continue_ok (m s).0 f (m s).1 s' b h in
      (a, (m s).1, ap (λ r. (r, (m s).1)) e, k)
