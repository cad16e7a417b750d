-- ===== src/Core/Tags.antt =====
-- The capability tags of crates/oan-core/src/lib.rs. `climb` is the loop of
-- `is_descendant_or_same`; its fuel is the number of tags and one more round.
pub mod Rounds
pub mod Ancestors
pub mod Domains
use Prim.Native.Nat.{suc}
use open_agenet.Base.{
  ℕ, zero, ◌+◌, String, Bool, true, false, not, ◌&&◌, ◌||◌, Option, none, some, List, [], ◌∷◌, ◌++◌,
  ◌==◌, is_empty, any, contains, length, if◌then◌else◌,
}
use open_agenet.Base.Maps.{Map, lookup, insert}

pub record CapabilityTag : Type 0 where
  pub id : String
  pub label : String
  pub parent : Option String
  pub aliases : List String

mutual
  pub data CapabilityTreeNode : Type 0 where
    node : (id label : String) → CapabilityTreeNodes → CapabilityTreeNode

  -- `Vec<CapabilityTreeNode>`.
  pub data CapabilityTreeNodes : Type 0 where
    nil : CapabilityTreeNodes
    cons : CapabilityTreeNode → CapabilityTreeNodes → CapabilityTreeNodes

pub record CapabilityTagTree : Type 0 where
  pub version : ℕ
  pub tags : List CapabilityTag
  pub tree : CapabilityTreeNodes

-- The test of one tag in `normalize_tag`.
abbrev pub answers_to : String → CapabilityTag → Bool
answers_to value tag = tag.id == value || contains value tag.aliases

normalize_in : List CapabilityTag → String → Option String
normalize_in [] value = none
normalize_in (tag ∷ tags) value =
    if answers_to value tag then some tag.id else normalize_in tags value

unfoldable pub normalize_tag : CapabilityTagTree → String → Option String
unfolding normalize_in
normalize_tag t value = normalize_in t.tags value

-- `unwrap_or(value)`.
unfoldable pub normalized : CapabilityTagTree → String → String
normalized t value = elim (normalize_tag t value) [ none ↦ value | some id ↦ id ]

-- `collect::<BTreeMap<_, _>>()`: of two tags with one id the later one stays.
collect_from : Map CapabilityTag → List CapabilityTag → Map CapabilityTag
collect_from m [] = m
collect_from m (tag ∷ tags) = collect_from (insert tag.id tag m) tags

unfoldable pub by_id : CapabilityTagTree → Map CapabilityTag
unfolding collect_from
by_id t = collect_from [] t.tags

unfoldable pub parent_of : Map CapabilityTag → String → Option String
parent_of m id = elim (lookup id m) [ none ↦ none | some tag ↦ tag.parent ]

-- `none` would mean that the rounds did not suffice.
pub climb : ℕ → Map CapabilityTag → String → List String → Option String → Option Bool
climb zero m domain seen current = none
climb (suc f) m domain seen none = some false
climb (suc f) m domain seen (some parent) =
    let rest = climb f m domain (parent ∷ seen) (parent_of m parent) in
    if parent == domain then some true else if contains parent seen then some false else rest

abbrev pub climb_fuel : CapabilityTagTree → ℕ
climb_fuel t = length t.tags + 2

unfoldable pub is_descendant_or_same : CapabilityTagTree → String → String → Bool
unfolding climb
is_descendant_or_same t tag_id domain_id =
    let climbed = climb (climb_fuel t) (by_id t) domain_id [] (parent_of (by_id t) tag_id) in
    if domain_id == "*" || tag_id == domain_id
    then true
    else elim climbed [ none ↦ false | some found ↦ found ]

unfoldable pub matches_authorized_domains : CapabilityTagTree → List String → List String → Bool
matches_authorized_domains t capability_tags authorized_domains =
    if contains "*" authorized_domains
    then true
    else any
        (λ capability.
          any (λ domain. is_descendant_or_same t (normalized t capability) (normalized t domain))
            authorized_domains)
        capability_tags

unfoldable mutual
  -- `walk`, as the tags that it pushes.
  pub walk : CapabilityTreeNode → Option String → List CapabilityTag
  walk (node id label children) parent =
      record { id = id; label = label; parent = parent; aliases = [] } ∷ walk_all children (some id)

  pub walk_all : CapabilityTreeNodes → Option String → List CapabilityTag
  walk_all nil parent = []
  walk_all (cons n ns) parent = walk n parent ++ walk_all ns parent

abbrev pub no_nodes : CapabilityTreeNodes → Bool
no_nodes nil = true
no_nodes (cons n ns) = false

unfoldable pub flatten_tree : CapabilityTagTree → CapabilityTagTree
flatten_tree t =
    if not (is_empty t.tags) || no_nodes t.tree
    then t
    else record t { tags = t.tags ++ walk_all t.tree none }
