-- ===== src/Tests/Core.antt =====
-- Runs on documents and capability tags, with a circle of parents among the tags.
use open_agenet.Base.{String, ◌≡◌, Bool, true, Option, none, some, List, [], ◌∷◌, ◌↔◌, ◌⊎◌, ok}
use open_agenet.Core.Documents.{validate_mvp, IsComplete, validate_mvp_iff}
use open_agenet.Core.Tags.{
  CapabilityTag, CapabilityTagTree, nil, by_id, parent_of, climb, climb_fuel, is_descendant_or_same,
}
use open_agenet.Core.Tags.Ancestors.{Under, is_descendant_or_same_iff}
use open_agenet.Core.Tags.Rounds.{climb_total}
use open_agenet.Tests.Runs.{document, agent_did}

abbrev tag : String → Option String → List String → CapabilityTag
tag id parent aliases = record { id = id; label = id; parent = parent; aliases = aliases }

abbrev tags : CapabilityTagTree
tags = record {
  version = 1;
  tags =
      tag "text" none []
      ∷ tag "translation" (some "text") ("translate" ∷ [])
      ∷ tag "a" (some "b") []
      ∷ tag "b" (some "a") []
      ∷ [];
  tree = nil;
}

validate_mvp_iff_example :
    (validate_mvp (document agent_did none) ≡ ok tt) ↔ IsComplete (document agent_did none)
validate_mvp_iff_example = validate_mvp_iff (document agent_did none)

is_descendant_or_same_iff_example :
    (is_descendant_or_same tags "translation" "text" ≡ true)
    ↔ (◌≡◌ {A = String} "text" "*" ⊎ Under tags "text" "translation")
is_descendant_or_same_iff_example = is_descendant_or_same_iff tags "translation" "text"

climb_total_example :
    (b : Bool) × (climb (climb_fuel tags) (by_id tags) "text" [] (parent_of (by_id tags) "a")
      ≡ some b)
climb_total_example = climb_total tags "text" "a"
