-- ===== src/Discovery/Query.antt =====
-- `matches_query`, `score` and the ranking in `query` of services/discovery-node/src/main.rs. The
-- score is an `f32`, one half and a quarter for each hit; here it is the number of its quarters,
-- which an `f32` holds exactly up to 2^24.
use open_agenet.Base.{
  ℕ, ◌+◌, String, Bool, true, false, ◌&&◌, ◌||◌, none, some, List, [], ◌∷◌, ◌==◌, leb, any,
  contains, is_empty, retain, map, take, length, if◌then◌else◌,
}
use open_agenet.Core.{ServiceEndpoint}
use open_agenet.Package.{VerifiedPackage}
use open_agenet.Protocol.{DiscoveryQuery, DiscoveryCandidate}

abbrev pub has_protocol : String → ServiceEndpoint → Bool
has_protocol protocol service = elim service.protocol [ none ↦ false | some q ↦ q == protocol ]

unfoldable pub matches_query : VerifiedPackage → DiscoveryQuery → Bool
matches_query pkg query =
    (is_empty query.capability_tags
      || any (λ tag. contains tag pkg.metadata.capability_tags) query.capability_tags)
    && (elim query.service_type [
      | none ↦ true
      | some service_type ↦
          any (λ service. service.service_type == service_type) pkg.metadata.services
    ]
        && (elim query.protocol [
          | none ↦ true
          | some protocol ↦ any (has_protocol protocol) pkg.metadata.services
        ]
            && pkg.metadata.status == "active"))

-- In quarters.
unfoldable pub score : VerifiedPackage → DiscoveryQuery → ℕ
score pkg query =
    2 + length (retain (λ tag. contains tag pkg.metadata.capability_tags) query.capability_tags)

unfoldable pub candidate_of : DiscoveryQuery → VerifiedPackage → DiscoveryCandidate
unfolding score
candidate_of query pkg = record {
  did = pkg.did;
  score = score pkg query;
  capability_tags = pkg.metadata.capability_tags;
  services = pkg.metadata.services;
}

unfoldable pub insert_candidate :
    DiscoveryCandidate → List DiscoveryCandidate → List DiscoveryCandidate
insert_candidate c [] = c ∷ []
insert_candidate c (d ∷ ds) =
    let rest = insert_candidate c ds in if leb d.score c.score then c ∷ d ∷ ds else d ∷ rest

-- `sort_by(|a, b| b.score.total_cmp(&a.score))`, which keeps the order of equal scores.
unfoldable pub sort_candidates : List DiscoveryCandidate → List DiscoveryCandidate
unfolding insert_candidate
sort_candidates [] = []
sort_candidates (c ∷ cs) = insert_candidate c (sort_candidates cs)

-- The candidates before `truncate`, and those of the answer.
unfoldable pub ranked : List VerifiedPackage → DiscoveryQuery → List DiscoveryCandidate
unfolding matches_query candidate_of sort_candidates
ranked packages query =
    sort_candidates (map (candidate_of query) (retain (λ pkg. matches_query pkg query) packages))

unfoldable pub candidates : List VerifiedPackage → DiscoveryQuery → List DiscoveryCandidate
unfolding ranked
candidates packages query = take query.limit (ranked packages query)
