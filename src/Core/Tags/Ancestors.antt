-- ===== src/Core/Tags/Ancestors.antt =====
-- `is_descendant_or_same` of crates/oan-core/src/lib.rs: it decides whether one tag stands above another, also where the parents run in a circle.
use open_agenet.Base.{
  ℕ, zero, suc, String, ◌≡◌, ◌≢◌, refl, sym, ap, ◌∙◌, ◌↔◌, ◌⊎◌, inl, inr, Bool, true, false, ◌||◌,
  Option, none, some, List, [], ◌∷◌, arith, ◌==◌, eq_iff, eq_refl, contains, Bool-cases,
}
use open_agenet.Base.Maps.{Map}
use open_agenet.Core.Tags.Rounds.{climb_total}
use open_agenet.Core.Tags.{
  CapabilityTag, CapabilityTagTree, by_id, parent_of, climb, climb_fuel, is_descendant_or_same,
}

-- The domain is met at this tag or above it.
pub data Reaches (m : Map CapabilityTag) (domain : String) : Option String → Type 0 where
  found : {id : String} → id ≡ domain → Reaches m domain (some id)
  above : {id : String} → Reaches m domain (parent_of m id) → Reaches m domain (some id)

module _ (m : Map CapabilityTag) (domain : String) where
  climb_sound :
      (f : ℕ) (seen : List String) (current : Option String)
      → climb f m domain seen current ≡ some true
      → Reaches m domain current
  unfolding climb
  climb_sound zero seen current h = cc
  climb_sound (suc f) seen none h = cc
  climb_sound (suc f) seen (some p) h = elim (Bool-cases (p == domain)) [
    | inl e ↦ found ((eq_iff p domain).0 e)
    | inr e ↦ elim (Bool-cases (contains p seen)) [
      | inl old ↦ cc (rw (e, old) at h)
      | inr new ↦ above (climb_sound f (p ∷ seen) (parent_of m p) (rw (e, new) at h))
    ]
  ]

  nowhere : {o : Option String} → Reaches m domain o → o ≡ none → ⊥
  nowhere (found e) eq = cc
  nowhere (above r) eq = cc

  not_domain : (p : String) → (p == domain) ≡ false → p ≢ domain
  not_domain p e q = cc (rw (q, eq_refl domain) at e)

  not_above :
      {p : String} → p ≢ domain → ¬ Reaches m domain (parent_of m p) → ¬ Reaches m domain (some p)
  not_above ne clear (found e) = ne e
  not_above ne clear (above r) = clear r

  -- Every seen tag is another one than the domain, and its parent is seen or comes next.
  record IsTrail (seen : List String) (current : Option String) : Type 0 where
    apart : (s : String) → contains s seen ≡ true → s ≢ domain
    onward :
        (s : String)
        → contains s seen ≡ true
        → (parent_of m s ≡ current)
          ⊎ ((x : String) × (parent_of m s ≡ some x) × (contains x seen ≡ true))

  -- A circle of tags that are not the domain never reaches it.
  circle :
      {p : String} (seen : List String)
      → IsTrail seen (some p)
      → contains p seen ≡ true
      → {o : Option String} → Reaches m domain o
      → (s : String) → o ≡ some s
      → contains s seen ≡ true
      → ⊥
  circle seen trail old (found {id} e) s eq h = trail.apart s h (cc)
  circle {p} seen trail old (above {id} r) s eq h = elim (trail.onward s h) [
    | inl e ↦ circle seen trail old r p (cc) old
    | inr (x, e, inside) ↦ circle seen trail old r x (cc) inside
  ]

  IsTrail-cons :
      (p : String) (seen : List String)
      → IsTrail seen (some p)
      → p ≢ domain
      → IsTrail (p ∷ seen) (parent_of m p)
  IsTrail-cons p seen trail ne = record {
    apart = λ s h. elim (Bool-cases (p == s)) [
      | inl e ↦ λ q. ne ((eq_iff p s).0 e ∙ q)
      | inr e ↦ trail.apart s (rw e at h)
    ];
    onward = λ s h. elim (Bool-cases (p == s)) [
      | inl e ↦ inl (ap (parent_of m) (sym ((eq_iff p s).0 e)))
      | inr e ↦ elim (trail.onward s (rw e at h)) [
        | inl q ↦ inr (p, q, ground (arith, eq_refl p))
        | inr (x, q, inside) ↦ inr (x, q, ground arith)
      ]
    ];
  }

  climb_complete :
      (f : ℕ) (seen : List String) (current : Option String)
      → climb f m domain seen current ≡ some false
      → IsTrail seen current
      → ¬ Reaches m domain current
  unfolding climb
  climb_complete zero seen current h trail = cc
  climb_complete (suc f) seen none h trail = λ r. nowhere r refl
  climb_complete (suc f) seen (some p) h trail = elim (Bool-cases (p == domain)) [
    | inl e ↦ cc (rw e at h)
    | inr e ↦ elim (Bool-cases (contains p seen)) [
      | inl old ↦ λ r. circle seen trail old r p refl old
      | inr new ↦ not_above (not_domain p e) (
          climb_complete f (p ∷ seen) (parent_of m p) (rw (e, new) at h)
            (IsTrail-cons p seen trail (not_domain p e)))
    ]
  ]

-- The tag is the domain, or the domain stands above it.
pub data Under (t : CapabilityTagTree) (domain : String) (id : String) : Type 0 where
  same : id ≡ domain → Under t domain id
  below : Reaches (by_id t) domain (parent_of (by_id t) id) → Under t domain id

-- The answer, once the loop has ended with `b`.
answer :
    (t : CapabilityTagTree) (id domain : String) (b : Bool)
    → climb (climb_fuel t) (by_id t) domain [] (parent_of (by_id t) id) ≡ some b
    → is_descendant_or_same t id domain ≡ (domain == "*" || (id == domain || b))
unfolding is_descendant_or_same
answer t id domain b stops = rw stops (ground arith)

climb_iff :
    (t : CapabilityTagTree) (id domain : String) (b : Bool)
    → climb (climb_fuel t) (by_id t) domain [] (parent_of (by_id t) id) ≡ some b
    → (b ≡ true) ↔ Reaches (by_id t) domain (parent_of (by_id t) id)
climb_iff t id domain true stops =
    (λ _. climb_sound (by_id t) domain (climb_fuel t) [] _ stops, λ _. refl)
climb_iff t id domain false stops = (
  λ h. cc,
  λ r. absurd (
      climb_complete (by_id t) domain (climb_fuel t) [] _ stops
        (record { apart = λ s h. cc; onward = λ s h. cc }) r),
)

module _ (t : CapabilityTagTree) (id domain : String) (b : Bool) where
  under :
      (b ≡ true → Reaches (by_id t) domain (parent_of (by_id t) id))
      → is_descendant_or_same t id domain ≡ (domain == "*" || (id == domain || b))
      → is_descendant_or_same t id domain ≡ true
      → (domain ≡ "*") ⊎ Under t domain id
  under split e h = elim (Bool-cases (domain == "*")) [
    | inl q ↦ inl ((eq_iff domain "*").0 q)
    | inr q ↦ elim (Bool-cases (id == domain)) [
      | inl r ↦ inr (same ((eq_iff id domain).0 r))
      | inr r ↦ inr (below (split (ground arith)))
    ]
  ]

  covers :
      (Reaches (by_id t) domain (parent_of (by_id t) id) → b ≡ true)
      → is_descendant_or_same t id domain ≡ (domain == "*" || (id == domain || b))
      → (domain ≡ "*") ⊎ Under t domain id
      → is_descendant_or_same t id domain ≡ true
  covers split e (inl q) = ground (arith, eq_iff domain "*")
  covers split e (inr (same q)) = ground (arith, eq_iff id domain)
  covers split e (inr (below r)) = let found_it = split r in ground arith

-- `is_descendant_or_same` holds exactly when the domain is `*`, or is the tag itself, or is met
-- by going from parent to parent; circles of parents are no obstacle.
pub is_descendant_or_same_iff :
    (t : CapabilityTagTree) (id domain : String)
    → (is_descendant_or_same t id domain ≡ true) ↔ ((domain ≡ "*") ⊎ Under t domain id)
is_descendant_or_same_iff t id domain =
    let (b, stops) = climb_total t domain id in
    let split = climb_iff t id domain b stops in
    (
      λ h. under t id domain b (split.0) (answer t id domain b stops) h,
      λ u. covers t id domain b (split.1) (answer t id domain b stops) u,
    )
