-- ===== src/Discovery/Stands.antt =====
-- Which packages the candidates of services/discovery-node/src/main.rs stand for.
use open_agenet.Base.{
  ◌≡◌, refl, true, List, [], ◌∷◌, inl, inr, All, All-map, All-retain_both, All-take, All-weaken,
  Bool-cases, leb,
}
use open_agenet.Discovery.Query.{
  matches_query, candidate_of, insert_candidate, sort_candidates, ranked, candidates,
}
use open_agenet.Package.{VerifiedPackage}
use open_agenet.Protocol.{DiscoveryQuery, DiscoveryCandidate}

module _ (P : DiscoveryCandidate → Type 0) where
  All-insert_candidate :
      (c : DiscoveryCandidate) (ds : List DiscoveryCandidate)
      → P c
      → All P ds
      → All P (insert_candidate c ds)
  unfolding insert_candidate
  All-insert_candidate c [] good h = (good, tt)
  All-insert_candidate c (d ∷ ds) good h = elim (Bool-cases (leb d.score c.score)) [
    | inl e ↦ rw e (good, h)
    | inr e ↦ rw e (h.0, All-insert_candidate c ds good h.1)
  ]

  All-sort_candidates : (cs : List DiscoveryCandidate) → All P cs → All P (sort_candidates cs)
  unfolding sort_candidates
  All-sort_candidates [] h = tt
  All-sort_candidates (c ∷ cs) h =
      All-insert_candidate c (sort_candidates cs) h.0 (All-sort_candidates cs h.1)

-- A candidate stands for a package with a property that matches the query.
abbrev pub Stands : (VerifiedPackage → Type 0) → DiscoveryQuery → DiscoveryCandidate → Type 0
Stands P q c =
    (pkg : VerifiedPackage) × P pkg × (matches_query pkg q ≡ true) × (c ≡ candidate_of q pkg)

pub candidates-Stands :
    (P : VerifiedPackage → Type 0) (packages : List VerifiedPackage) (q : DiscoveryQuery)
    → All P packages
    → All (Stands P q) (candidates packages q)
unfolding candidates ranked
candidates-Stands P packages q good = All-take (Stands P q) q.limit _ (
    All-sort_candidates (Stands P q) _ (
      All-map (Stands P q) (candidate_of q) _ (
        All-weaken (λ pkg. Stands P q (candidate_of q pkg)) _ (λ pkg h. (pkg, h.0, h.1, refl))
          (All-retain_both P (λ pkg. matches_query pkg q) packages good))))
