-- ===== src/Base/Action/Keeps.antt =====
-- Relations between the state before a handler and the state after it, whatever its result.
use mathlib.Core.Bool.{Bool, true, false}
use open_agenet.Base.Tests.{if◌then◌else◌}
use open_agenet.Base.Outcome.{Result, ok, err}
use open_agenet.Base.Action.{
  Action, pure, lift, gets, reads, raising, attempt, continue, ◌>>=◌, ◌>>◌,
}

-- A relation that composes over the steps of a handler.
pub record Composes {S : Type 0} (R : S → S → Type 0) : Type 0 where
  pub same : (s : S) → R s s
  pub after : {s t u : S} → R s t → R t u → R s u

-- A handler that relates the state before it to the state after it.
pub record Keeps {S E A : Type 0} (R : S → S → Type 0) (m : Action S E A) : Type 0 where
  pub kept : (s : S) → R s (m s).1

module _ {S : Type 0} {R : S → S → Type 0} (rules : Composes R) where
  module _ {E A : Type 0} where
    pub pure-Keeps : (a : A) → Keeps R (pure {S = S} {E = E} a)
    pure-Keeps a = record { kept = λ s. rules.same s }

    pub lift-Keeps : (r : Result E A) → Keeps R (lift {S = S} r)
    lift-Keeps r = record { kept = λ s. rules.same s }

    pub gets-Keeps : (f : S → A) → Keeps R (gets {E = E} f)
    gets-Keeps f = record { kept = λ s. rules.same s }

    pub reads-Keeps : (f : S → Result E A) → Keeps R (reads f)
    reads-Keeps f = record { kept = λ s. rules.same s }

    pub raising-Keeps :
        {F : Type 0} (g : E → F) {m : Action S E A} → Keeps R m → Keeps R (raising g m)
    raising-Keeps g k = record { kept = k.kept }

  attempt_rule :
      {E : Type 0} (b : Bool) (e : E) (f : S → S)
      → ((s : S) → R s (f s))
      → (s : S) → R s (attempt b e f s).1
  attempt_rule true e f k s = k s
  attempt_rule false e f k s = rules.same s

  pub attempt-Keeps :
      {E : Type 0} (b : Bool) (e : E) (f : S → S) → ((s : S) → R s (f s)) → Keeps R (attempt b e f)
  attempt-Keeps b e f k = record { kept = attempt_rule b e f k }

  pub if-Keeps :
      {E A : Type 0} (b : Bool) {m n : Action S E A}
      → Keeps R m
      → Keeps R n
      → Keeps R (if b then m else n)
  if-Keeps true k l = k
  if-Keeps false k l = l

  continue_rule :
      {E A B : Type 0} (r : Result E A) (f : A → Action S E B)
      → ((a : A) → Keeps R (f a))
      → (s : S) → R s (continue r f s).1
  continue_rule (ok a) f k s = (k a).kept s
  continue_rule (err e) f k s = rules.same s

  pub bind-Keeps :
      {E A B : Type 0} {m : Action S E A} {f : A → Action S E B}
      → Keeps R m
      → ((a : A) → Keeps R (f a))
      → Keeps R (m >>= f)
  bind-Keeps {m = m} {f = f} k l = record {
    kept = λ s. rules.after (k.kept s) (continue_rule (m s).0 f l (m s).1);
  }

  pub then-Keeps :
      {E B : Type 0} {m : Action S E (Unit {0})} {n : Action S E B}
      → Keeps R m
      → Keeps R n
      → Keeps R (m >> n)
  then-Keeps {m = m} {n = n} k l = record {
    kept = λ s. rules.after (k.kept s) (continue_rule (m s).0 (λ _. n) (λ _. l) (m s).1);
  }
