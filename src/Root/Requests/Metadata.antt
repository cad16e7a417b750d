-- ===== src/Root/Requests/Metadata.antt =====
-- The metadata that `build_metadata` of services/root-node/src/main.rs makes.
use open_agenet.Base.{
  String, ◌≡◌, refl, sym, ap, subst, ◌∙◌, true, false, some, List, [], ◌∷◌, arith, ◌==◌, eq_iff,
  contains, map, ok, Bool-cases, inl, inr,
}
use open_agenet.Base.Maps.{before}
use open_agenet.Base.Order.{before_total, before_asym}
use open_agenet.Core.{AnsMetadata}
use open_agenet.Core.Tags.{normalized}
use open_agenet.Crypto.Crates.{Primitives}
use open_agenet.Json.{Time}
use open_agenet.Package.{AgentMetadata}
use open_agenet.Protocol.{VerifyAndPublishRequest}
use open_agenet.Root.{Node, World}
use open_agenet.Root.Requests.{
  insert_text, sort_texts, push_new, dedup, described_tags, build_metadata,
}

-- Neighbours do not come in the wrong order.
abbrev NotDescending : List String → Type 0
NotDescending [] = Unit
NotDescending (t ∷ []) = Unit
NotDescending (t ∷ u ∷ us) = (before u t ≡ false) × NotDescending (u ∷ us)

-- Each text comes before the next one, so that no text stands there twice.
abbrev pub Ascends : List String → Type 0
Ascends [] = Unit
Ascends (t ∷ []) = Unit
Ascends (t ∷ u ∷ us) = (before t u ≡ true) × Ascends (u ∷ us)

contains-insert_text :
    (s t : String) (us : List String) → contains s (insert_text t us) ≡ contains s (t ∷ us)
unfolding insert_text
contains-insert_text s t [] = refl
contains-insert_text s t (u ∷ us) = ground (arith, contains-insert_text s t us)

contains-sort_texts : (s : String) (ts : List String) → contains s (sort_texts ts) ≡ contains s ts
unfolding sort_texts
contains-sort_texts s [] = refl
contains-sort_texts s (t ∷ ts) =
    contains-insert_text s t (sort_texts ts) ∙ ground (arith, contains-sort_texts s ts)

contains-push_new :
    (s t : String) (us : List String) → contains s (push_new t us) ≡ contains s (t ∷ us)
contains-push_new s t [] = refl
contains-push_new s t (u ∷ us) = ground (arith, eq_iff t u)

contains-dedup : (s : String) (ts : List String) → contains s (dedup ts) ≡ contains s ts
unfolding dedup
contains-dedup s [] = refl
contains-dedup s (t ∷ ts) = contains-push_new s t (dedup ts) ∙ ground (arith, contains-dedup s ts)

insert_text-NotDescending :
    (t : String) (us : List String) → NotDescending us → NotDescending (insert_text t us)
unfolding insert_text
insert_text-NotDescending t [] h = tt
insert_text-NotDescending t (u ∷ []) h = elim (Bool-cases (before u t)) [
  | inl e ↦ rw e (before_asym u t e, tt)
  | inr e ↦ rw e (e, tt)
]
insert_text-NotDescending t (u ∷ v ∷ us) h =
    let rest = insert_text-NotDescending t (v ∷ us) h.1 in
    elim (Bool-cases (before u t)) [
      | inl e ↦ elim (Bool-cases (before v t)) [
        | inl f ↦ ground (arith, e, f, h, rest)
        | inr f ↦ ground (arith, e, f, h, rest, before_asym u t e)
      ]
      | inr e ↦ rw e (e, h)
    ]

sort_texts-NotDescending : (ts : List String) → NotDescending (sort_texts ts)
unfolding sort_texts
sort_texts-NotDescending [] = tt
sort_texts-NotDescending (t ∷ ts) =
    insert_text-NotDescending t (sort_texts ts) (sort_texts-NotDescending ts)

dedup_head : (t : String) (ts : List String) → (rest : List String) × (dedup (t ∷ ts) ≡ t ∷ rest)
unfolding dedup
dedup_head t ts = push_new_head (dedup ts)
  where
    push_new_head : (us : List String) → (rest : List String) × (push_new t us ≡ t ∷ rest)
    push_new_head [] = ([], refl)
    push_new_head (u ∷ us) = elim (Bool-cases (t == u)) [
      | inl e ↦ (us, ground (arith, e, eq_iff t u))
      | inr e ↦ (u ∷ us, ground (arith, e))
    ]

dedup-Ascends : (ts : List String) → NotDescending ts → Ascends (dedup ts)
unfolding dedup
dedup-Ascends [] h = tt
dedup-Ascends (t ∷ []) h = tt
dedup-Ascends (t ∷ u ∷ us) h =
    let (rest, e) = dedup_head u us in
    let later = subst Ascends e (dedup-Ascends (u ∷ us) h.1) in
    subst (λ xs. Ascends (push_new t xs)) (sym e)
      (elim (Bool-cases (t == u)) [
        | inl f ↦ rw f later
        | inr f ↦ rw f (before_total t u h.0 f, later)
      ])

module _ ⦃p : Primitives⦄ (node : Node) (world : World) where
  -- The tags of the metadata that `build_metadata` makes are in strictly ascending order, and they
  -- are the normalised tags of the document's description, no more and no fewer.
  pub build_metadata-capability_tags :
      (updated : Time) (r : VerifyAndPublishRequest) (did_document_hash : String)
      (m : AgentMetadata) (ans : AnsMetadata) (tag : String)
      → build_metadata node world updated r did_document_hash ≡ ok m
      → r.did_document.ans_metadata ≡ some ans
      → Ascends m.capability_tags
        × (contains tag m.capability_tags
            ≡ contains tag (map (normalized node.tag_tree) (described_tags ans)))
  unfolding build_metadata
  build_metadata-capability_tags updated r did_document_hash m ans tag h e =
      let tags = map (normalized node.tag_tree) (described_tags ans) in
      let made : dedup (sort_texts tags) ≡ m.capability_tags = ground (arith, e, h) in
      (
        subst Ascends made (dedup-Ascends (sort_texts tags) (sort_texts-NotDescending tags)),
        ap (contains tag) (sym made)
            ∙ contains-dedup tag (sort_texts tags)
            ∙ contains-sort_texts tag tags,
      )
