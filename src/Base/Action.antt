-- ===== src/Base/Action.antt =====
-- A handler: it returns a result and the state that it leaves. What was written before an error
-- stays written, so the state comes back beside the error too.
pub mod Answers
pub mod Keeps
use mathlib.Core.Path.{◌≡◌, refl}
use mathlib.Core.Bool.{Bool}
use open_agenet.Base.Tests.{if◌then◌else◌}
use open_agenet.Base.Outcome.{Result, ok, err, map_err}

abbrev pub Action : Type 0 → Type 0 → Type 0 → Type 0
Action S E A = S → Result E A × S

module _ {S E : Type 0} where
  module _ {A : Type 0} where
    abbrev pub pure : A → Action S E A
    pure a s = (ok a, s)

    abbrev pub raise : E → Action S E A
    raise e s = (err e, s)

    abbrev pub lift : Result E A → Action S E A
    lift r s = (r, s)

    abbrev pub gets : (S → A) → Action S E A
    gets f s = (ok (f s), s)

    -- A read of the state that may fail.
    abbrev pub reads : (S → Result E A) → Action S E A
    reads f s = (f s, s)

  abbrev pub continue : {A B : Type 0} → Result E A → (A → Action S E B) → Action S E B
  continue (ok a) f s = f a s
  continue (err e) f s = (err e, s)

  infixl 5 ◌>>=◌ ◌>>◌
  abbrev pub ◌>>=◌ : {A B : Type 0} → Action S E A → (A → Action S E B) → Action S E B
  ◌>>=◌ m f s = let (r, s') = m s in continue r f s'

  abbrev pub ◌>>◌ : {B : Type 0} → Action S E (Unit {0}) → Action S E B → Action S E B
  m >> k = m >>= λ _. k

  -- A write, which the outside world may refuse; then nothing changes.
  abbrev pub attempt : Bool → E → (S → S) → Action S E (Unit {0})
  attempt allowed e f s = if allowed then (ok tt, f s) else (err e, s)

module _ {S E F A : Type 0} where
  -- `map_err(..)?`.
  abbrev pub raising : (E → F) → Action S E A → Action S F A
  raising g m s = let (r, s') = m s in (map_err g r, s')
