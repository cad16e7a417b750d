-- ===== src/Core/Tags/Rounds.antt =====
-- The loop of `is_descendant_or_same` (crates/oan-core/src/lib.rs) ends: each round sees a parent
-- that was not seen before, and there are no more parents than tags.
use open_agenet.Base.{
  ℕ, zero, suc, ◌+◌, ◌≤◌, ◌<◌, String, ◌≡◌, refl, inl, inr, Bool, true, false, Option, none, some,
  List, [], ◌∷◌, arith, ◌==◌, eq_iff, eq_refl, contains, length, if◌then◌else◌, Bool-cases,
}
use open_agenet.Base.Maps.{Map, lookup, insert, lookup-insert}
use open_agenet.Core.Tags.{
  CapabilityTag, CapabilityTagTree, by_id, collect_from, parent_of, climb, climb_fuel,
}

-- A tag of the list whose parent has not been seen.
abbrev is_unseen : List String → Option String → ℕ
is_unseen seen none = 0
is_unseen seen (some p) = if contains p seen then 0 else 1

unseen : List String → List CapabilityTag → ℕ
unseen seen [] = 0
unseen seen (tag ∷ tags) = is_unseen seen tag.parent + unseen seen tags

is_unseen-cons :
    (p : String) (seen : List String) (o : Option String)
    → is_unseen (p ∷ seen) o ≤ is_unseen seen o
is_unseen-cons p seen none = omega arith
is_unseen-cons p seen (some q) = ground (arith, eq_iff p q)

unseen-cons :
    (p : String) (seen : List String) (tags : List CapabilityTag)
    → unseen (p ∷ seen) tags ≤ unseen seen tags
unfolding unseen
unseen-cons p seen [] = omega arith
unseen-cons p seen (tag ∷ tags) =
    omega (arith, is_unseen-cons p seen tag.parent, unseen-cons p seen tags)

unseen-le-length : (seen : List String) (tags : List CapabilityTag) → unseen seen tags ≤ length tags
unfolding unseen
unseen-le-length seen [] = omega arith
unseen-le-length seen (tag ∷ tags) = ground (arith, unseen-le-length seen tags)

-- `p` is the parent of some tag of the list.
data IsParent (p : String) : List CapabilityTag → Type 0 where
  here :
      {tag : CapabilityTag} {tags : List CapabilityTag}
      → tag.parent ≡ some p
      → IsParent p (tag ∷ tags)
  there :
      {tag : CapabilityTag} {tags : List CapabilityTag} → IsParent p tags → IsParent p (tag ∷ tags)

unseen-lt :
    (p : String) (seen : List String) {tags : List CapabilityTag}
    → contains p seen ≡ false
    → IsParent p tags
    → unseen (p ∷ seen) tags < unseen seen tags
unfolding unseen
unseen-lt p seen fresh (here {tag} {tags} e) =
    rw e (ground (arith, unseen-cons p seen tags, eq_refl p))
unseen-lt p seen fresh (there {tag} {tags} r) =
    omega (arith, is_unseen-cons p seen tag.parent, unseen-lt p seen fresh r)

parent_of-insert :
    (m : Map CapabilityTag) (tag : CapabilityTag) (id : String)
    → parent_of (insert tag.id tag m) id ≡ (if tag.id == id then tag.parent else parent_of m id)
unfolding parent_of
parent_of-insert m tag id = ground (arith, lookup-insert tag.id id tag m)

insert-IsParent :
    (m : Map CapabilityTag) (all : List CapabilityTag) (tag : CapabilityTag)
    → ((id p : String) → parent_of m id ≡ some p → IsParent p all)
    → ((p : String) → tag.parent ≡ some p → IsParent p all)
    → (id p : String) → parent_of (insert tag.id tag m) id ≡ some p
    → IsParent p all
insert-IsParent m all tag old new id p h = elim (Bool-cases (tag.id == id)) [
  | inl e ↦ new p (ground (arith, parent_of-insert m tag id))
  | inr e ↦ old id p (ground (arith, parent_of-insert m tag id))
]

-- What the map holds came from the list.
parent_of-collect_from :
    (m : Map CapabilityTag) (all : List CapabilityTag) (tags : List CapabilityTag)
    → ((id p : String) → parent_of m id ≡ some p → IsParent p all)
    → ((p : String) → IsParent p tags → IsParent p all)
    → (id p : String) → parent_of (collect_from m tags) id ≡ some p
    → IsParent p all
unfolding collect_from
parent_of-collect_from m all [] old new = old
parent_of-collect_from m all (tag ∷ tags) old new =
    parent_of-collect_from (insert tag.id tag m) all tags
      (insert-IsParent m all tag old (λ p e. new p (here e))) (λ p r. new p (there r))

parent_of-IsParent :
    (t : CapabilityTagTree) (id p : String) → parent_of (by_id t) id ≡ some p → IsParent p t.tags
unfolding by_id parent_of lookup
parent_of-IsParent t = parent_of-collect_from [] t.tags t.tags (λ id p h. cc) (λ p r. r)

module _ (t : CapabilityTagTree) (domain : String) where
  climb_stops :
      (f : ℕ) (seen : List String) (current : Option String)
      → ((p : String) → current ≡ some p → IsParent p t.tags)
      → unseen seen t.tags + 1 < f
      → (b : Bool) × (climb f (by_id t) domain seen current ≡ some b)
  unfolding climb
  climb_stops zero seen current c h = absurd (omega arith)
  climb_stops (suc f) seen none c h = (false, refl)
  climb_stops (suc f) seen (some p) c h = elim (Bool-cases (p == domain)) [
    | inl e ↦ (true, rw e)
    | inr e ↦ elim (Bool-cases (contains p seen)) [
      | inl old ↦ (false, rw (e, old))
      | inr new ↦
          let (b, r) =
            climb_stops f (p ∷ seen) (parent_of (by_id t) p) (parent_of-IsParent t p)
              (omega (arith, unseen-lt p seen new (c p refl))) in
          (b, rw (e, new) r)
    ]
  ]

  -- The loop always ends within the fuel that `is_descendant_or_same` gives it.
  pub climb_total :
      (id : String)
      → (b : Bool) × (climb (climb_fuel t) (by_id t) domain [] (parent_of (by_id t) id) ≡ some b)
  climb_total id =
      climb_stops (climb_fuel t) [] (parent_of (by_id t) id) (parent_of-IsParent t id)
        (omega (arith, unseen-le-length [] t.tags))
