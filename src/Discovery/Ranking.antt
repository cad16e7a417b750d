-- ===== src/Discovery/Ranking.antt =====
-- The order of the answer to a query, services/discovery-node/src/main.rs.
use open_agenet.Base.{
  ℕ, zero, suc, ◌≤◌, ◌≡◌, refl, ◌∙◌, Bool, List, [], ◌∷◌, arith, leb, retain, map, take, length,
  Bool-cases, inl, inr,
}
use open_agenet.Discovery.Query.{
  matches_query, candidate_of, insert_candidate, sort_candidates, ranked, candidates,
}
use open_agenet.Package.{VerifiedPackage}
use open_agenet.Protocol.{DiscoveryQuery, DiscoveryCandidate}

-- No candidate has a higher score than the one before it.
abbrev pub Descends : List DiscoveryCandidate → Type 0
Descends [] = Unit
Descends (c ∷ []) = Unit
Descends (c ∷ d ∷ ds) = (d.score ≤ c.score) × Descends (d ∷ ds)

-- The number of candidates that pass a test.
abbrev pub number_of : (DiscoveryCandidate → Bool) → List DiscoveryCandidate → ℕ
number_of p cs = length (retain p cs)

insert_candidate-Descends :
    (c : DiscoveryCandidate) (ds : List DiscoveryCandidate)
    → Descends ds
    → Descends (insert_candidate c ds)
unfolding insert_candidate
insert_candidate-Descends c [] h = tt
insert_candidate-Descends c (d ∷ []) h = elim (Bool-cases (leb d.score c.score)) [
  | inl e ↦ rw e (ground (arith, e), tt)
  | inr e ↦ rw e (ground (arith, e), tt)
]
insert_candidate-Descends c (d ∷ f ∷ fs) h =
    let rest = insert_candidate-Descends c (f ∷ fs) h.1 in
    elim (Bool-cases (leb d.score c.score)) [
      | inl e ↦ rw e (ground (arith, e), h)
      | inr e ↦ elim (Bool-cases (leb f.score c.score)) [
        | inl k ↦ ground (arith, e, k, h, rest)
        | inr k ↦ ground (arith, e, k, h, rest)
      ]
    ]

sort_candidates-Descends : (cs : List DiscoveryCandidate) → Descends (sort_candidates cs)
unfolding sort_candidates
sort_candidates-Descends [] = tt
sort_candidates-Descends (c ∷ cs) =
    insert_candidate-Descends c (sort_candidates cs) (sort_candidates-Descends cs)

number_of-insert_candidate :
    (p : DiscoveryCandidate → Bool) (c : DiscoveryCandidate) (ds : List DiscoveryCandidate)
    → number_of p (insert_candidate c ds) ≡ number_of p (c ∷ ds)
unfolding insert_candidate
number_of-insert_candidate p c [] = refl
number_of-insert_candidate p c (d ∷ ds) = ground (arith, number_of-insert_candidate p c ds)

number_of-sort_candidates :
    (p : DiscoveryCandidate → Bool) (cs : List DiscoveryCandidate)
    → number_of p (sort_candidates cs) ≡ number_of p cs
unfolding sort_candidates
number_of-sort_candidates p [] = refl
number_of-sort_candidates p (c ∷ cs) =
    number_of-insert_candidate p c (sort_candidates cs)
    ∙ ground (arith, number_of-sort_candidates p cs)

take-Descends : (n : ℕ) (cs : List DiscoveryCandidate) → Descends cs → Descends (take n cs)
take-Descends zero cs h = tt
take-Descends (suc n) [] h = tt
take-Descends (suc zero) (c ∷ cs) h = tt
take-Descends (suc (suc n)) (c ∷ []) h = tt
take-Descends (suc (suc n)) (c ∷ d ∷ ds) h = (h.0, take-Descends (suc n) (d ∷ ds) h.1)

length-take_bound : {A : Type 0} (n : ℕ) (xs : List A) → length (take n xs) ≤ n
length-take_bound zero xs = omega arith
length-take_bound (suc n) [] = omega arith
length-take_bound (suc n) (x ∷ xs) = omega (arith, length-take_bound n xs)

-- The answer to a query has no more candidates than the limit, in the order of their scores with the
-- highest one first; it is the front of a list of all packages that match, in which every kind of
-- candidate stands as often as among them.
pub candidates-ranked :
    (packages : List VerifiedPackage) (query : DiscoveryQuery) (p : DiscoveryCandidate → Bool)
    → (length (candidates packages query) ≤ query.limit)
      × Descends (candidates packages query)
      × (candidates packages query ≡ take query.limit (ranked packages query))
      × Descends (ranked packages query)
      × (number_of p (ranked packages query)
          ≡ number_of p
              (map (candidate_of query) (retain (λ pkg. matches_query pkg query) packages)))
unfolding candidates ranked
candidates-ranked packages query p =
    let matching = map (candidate_of query) (retain (λ pkg. matches_query pkg query) packages) in
    let sorted = sort_candidates-Descends matching in
    (
      length-take_bound query.limit (sort_candidates matching),
      take-Descends query.limit (sort_candidates matching) sorted,
      refl,
      sorted,
      number_of-sort_candidates p matching,
    )
