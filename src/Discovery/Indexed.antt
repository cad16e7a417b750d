-- ===== src/Discovery/Indexed.antt =====
-- Which packages `sync_from_cdn` of services/discovery-node/src/main.rs takes into the index.
use open_agenet.Base.{
  ℕ, ◌+◌, String, ◌≡◌, refl, ◌∙◌, subst, true, Option, none, some, List, [], ◌∷◌, arith, ◌⊎◌, inl,
  inr, All, All-append, any, Result, ok, err, is_ok, Result-cases, Option-cases, length,
  length-append, push,
}
use open_agenet.Base.Action.Keeps.{Composes, Keeps, pure-Keeps, then-Keeps}
use open_agenet.Crypto.{verify_bytes}
use open_agenet.Crypto.Crates.{Primitives}
use open_agenet.Discovery.{
  events_of, is_proof_event, discovery_authorized_domains, is_indexable_agent,
  verify_package_root_proof, authorized_domains_match,
}
use open_agenet.Discovery.Sync.{
  history_of, rejection, Store, Fetched, unreachable, undecodable, received, Peers, Node, World,
  Progress, verify_bulletin_state, reason_against, take_package, collect, upsert_each,
  write_indexed_packages, append_json_log, write_sync_history_sqlite, log_progress, store_progress,
  sync_from_cdn,
}
use open_agenet.Core.{DidDocument}
use open_agenet.Discovery.Service.{
  CdnServiceInfo, package_url, resolve_cdn_service, root_verifying_key,
}
use open_agenet.Json.{Time, Value}
use open_agenet.Package.{
  VerifiedPackage, ManifestEntry, Manifest, verify_document_hash, verify_metadata_hash,
}
use open_agenet.Storage.{holds}

abbrev SameIndex : Store → Store → Type 0
SameIndex s s' = s'.index_file ≡ s.index_file

SameIndex-Composes : Composes SameIndex
SameIndex-Composes = record { same = λ s. refl; after = λ h k. k ∙ h }

pub Fetched-cases :
    (f : Fetched)
    → (f ≡ unreachable) ⊎ ((f ≡ undecodable) ⊎ ((pkg : VerifiedPackage) × (f ≡ received pkg)))
Fetched-cases unreachable = inl refl
Fetched-cases undecodable = inr (inl refl)
Fetched-cases (received pkg) = inr (inr (pkg, refl))

module _ ⦃p : Primitives⦄ (node : Node) (value : Value) (root_key : p.VerifyingKey) where
  -- What a package in the index has passed.
  pub record IsVerified (pkg : VerifiedPackage) : Type 0 where
    pub indexable : is_indexable_agent pkg ≡ true
    pub document : verify_document_hash pkg ≡ ok tt
    pub metadata : verify_metadata_hash pkg ≡ ok tt
    pub event_hash : String
    pub named : pkg.root_proof.bulletin_event_hash ≡ some event_hash
    pub published : any (is_proof_event event_hash pkg.did) (events_of value) ≡ true
    pub signature : String
    pub carried : pkg.root_proof.signature ≡ some signature
    pub signed : verify_bytes root_key event_hash signature ≡ ok tt
    pub within_domains :
        authorized_domains_match node.tree pkg (discovery_authorized_domains value node.did) ≡ true

  ok_of-is_ok : {E : Type 0} (r : Result E (Unit {0})) → is_ok r ≡ true → r ≡ ok tt
  ok_of-is_ok (ok tt) h = refl
  ok_of-is_ok (err e) h = absurd (ground arith)

  no_reason :
      (pkg : VerifiedPackage) → reason_against node value root_key pkg ≡ none → IsVerified pkg
  unfolding reason_against verify_package_root_proof
  no_reason pkg h = elim (Option-cases pkg.root_proof.bulletin_event_hash) [
    | inl e ↦ absurd (ground (arith, e))
    | inr (event_hash, e) ↦ elim (Option-cases pkg.root_proof.signature) [
      | inl f ↦ absurd (ground (arith, e, f))
      | inr (signature, f) ↦ record {
        indexable = ground (arith, h);
        document = ok_of-is_ok _ (ground (arith, h));
        metadata = ok_of-is_ok _ (ground (arith, h));
        event_hash = event_hash;
        named = e;
        published = ground (arith, e, f, h);
        signature = signature;
        carried = f;
        signed = ok_of-is_ok _ (ground (arith, e, f, h));
        within_domains = ground (arith, h);
      }
    ]
  ]

  -- The numbers of packages that the loop has dealt with.
  abbrev dealt_with : Progress → ℕ
  dealt_with done = length done.indexed + length done.rejected

  taken :
      (pkg : VerifiedPackage) (reason : Option String) (done : Progress)
      → reason_against node value root_key pkg ≡ reason
      → All IsVerified done.indexed
      → All IsVerified (take_package node value root_key pkg reason done).indexed
        × (dealt_with (take_package node value root_key pkg reason done) ≡ dealt_with done + 1)
  taken pkg none done e h = (
    All-append IsVerified done.indexed (pkg ∷ []) h (no_reason pkg e, tt),
    omega (arith, length-append done.indexed (pkg ∷ [])),
  )
  taken pkg (some reason) done e h = (h, omega (arith, length-append done.rejected _))

  collect-IsVerified :
      (fetch : String → Fetched) (entries : List ManifestEntry) (done end : Progress)
      → All IsVerified done.indexed
      → collect node value root_key fetch entries done ≡ ok end
      → All IsVerified end.indexed × (dealt_with end ≡ dealt_with done + length entries)
  unfolding collect
  collect-IsVerified fetch [] done end h e =
      let same : done ≡ end = ground (arith, e) in
      subst (λ x. All IsVerified x.indexed × (dealt_with x ≡ dealt_with done + 0)) same
        (h, omega arith)
  collect-IsVerified fetch (entry ∷ rest) done end h e = elim (Fetched-cases (fetch entry.did)) [
    | inl f ↦ absurd (ground (arith, e, f))
    | inr (inl f) ↦
        let skipped = record done {
          rejected = push done.rejected (rejection entry.did "package_decode_failed");
        } in
        let later = collect-IsVerified fetch rest skipped end h (ground (arith, e, f)) in
        (
          later.0,
          omega (
            arith,
            later.1,
            length-append done.rejected (rejection entry.did "package_decode_failed" ∷ []),
          ),
        )
    | inr (inr (pkg, f)) ↦
        let reason = reason_against node value root_key pkg in
        let step = taken pkg reason done refl h in
        let later =
          collect-IsVerified fetch rest (take_package node value root_key pkg reason done) end
            step.0 (ground (arith, e, f)) in
        (later.0, omega (arith, later.1, step.1))
  ]

module _ ⦃p : Primitives⦄ (node : Node) (world : World) where
  upsert_each-SameIndex :
      (at_row : Time) (packages : List VerifiedPackage)
      → Keeps SameIndex (upsert_each node world at_row packages)
  unfolding upsert_each
  upsert_each-SameIndex at_row [] = pure-Keeps SameIndex-Composes tt
  upsert_each-SameIndex at_row (pkg ∷ rest) =
      then-Keeps SameIndex-Composes (record { kept = λ s. ground arith })
        (upsert_each-SameIndex at_row rest)

  write_indexed_packages-SameIndex :
      (at_row : Time) (packages : List VerifiedPackage)
      → Keeps SameIndex (write_indexed_packages node world at_row packages)
  unfolding write_indexed_packages
  write_indexed_packages-SameIndex at_row packages =
      then-Keeps SameIndex-Composes (record { kept = λ s. ground arith })
        (upsert_each-SameIndex at_row packages)

  append_json_log-SameIndex : (item : Value) → Keeps SameIndex (append_json_log node world item)
  unfolding append_json_log
  append_json_log-SameIndex item = record { kept = λ s. ground arith }

  write_sync_history_sqlite-SameIndex :
      (keyed at_row : Time) (item : Value)
      → Keeps SameIndex (write_sync_history_sqlite node world keyed at_row item)
  unfolding write_sync_history_sqlite
  write_sync_history_sqlite-SameIndex keyed at_row item = record { kept = λ s. ground arith }

  log_progress-SameIndex :
      (done : Progress) (url : String) → Keeps SameIndex (log_progress node world done url)
  unfolding log_progress
  log_progress-SameIndex done url =
      then-Keeps SameIndex-Composes (write_indexed_packages-SameIndex (world.now 0) done.indexed) (
        then-Keeps SameIndex-Composes
          (append_json_log-SameIndex (history_of node world (world.now 1) done url))
          (then-Keeps SameIndex-Composes
            (write_sync_history_sqlite-SameIndex (world.now 3) (world.now 4)
              (history_of node world (world.now 2) done url))
            (then-Keeps SameIndex-Composes (record { kept = λ s. ground arith })
              (pure-Keeps SameIndex-Composes _))))

  pub store_progress-index_file :
      (done : Progress) (url : String) (s s' : Store) (v : Value)
      → store_progress node world done url s ≡ (ok v, s')
      → s'.index_file ≡ some (holds done.indexed)
  unfolding store_progress
  store_progress-index_file done url s s' v h =
      let written : Store = record s { index_file = some (holds done.indexed) } in
      let kept = (log_progress-SameIndex done url).kept written in ground (arith, h, kept)

  -- A sync that ends well has stored what the loop over the manifest has given.
  pub sync_from_cdn-collected :
      (peers : Peers) (s s' : Store) (v value : Value) (document : DidDocument)
      (root_key : p.VerifyingKey) (cdn : CdnServiceInfo) (manifest : Manifest)
      → peers.fetch_bulletin ≡ ok value
      → peers.fetch_root_document ≡ ok document
      → root_verifying_key document ≡ ok root_key
      → resolve_cdn_service node.cdn_endpoint value ≡ ok cdn
      → peers.fetch_manifest cdn.manifest_url ≡ ok manifest
      → sync_from_cdn node world peers s ≡ (ok v, s')
      → (verify_bulletin_state peers.bulletin_of_value value root_key ≡ ok tt)
        × (done : Progress) × (collect node value root_key
              (λ did. peers.fetch_package (package_url cdn did))
              manifest.packages
              (record { indexed = []; rejected = [] })
            ≡ ok done)
        × (store_progress node world done cdn.manifest_url s ≡ (ok v, s'))
  unfolding sync_from_cdn
  sync_from_cdn-collected peers s s' v value document root_key cdn manifest b d k u m h =
      let fetch : String → Fetched = λ did. peers.fetch_package (package_url cdn did) in
      let run =
        collect node value root_key fetch manifest.packages
          (record { indexed = []; rejected = [] }) in
      elim (Result-cases run) [
        | inr (f, e) ↦ absurd (ground (arith, b, d, k, m, h, u, e))
        | inl (done, e) ↦
            let checked : verify_bulletin_state peers.bulletin_of_value value root_key ≡ ok tt =
              ground (arith, b, d, k, m, h, u, e) in
            (checked, done, e, ground (arith, b, d, k, m, h, u, e, checked))
      ]

  pub sync_from_cdn-stored :
      (peers : Peers) (s s' : Store) (v value : Value) (document : DidDocument)
      (root_key : p.VerifyingKey) (cdn : CdnServiceInfo) (manifest : Manifest)
      → peers.fetch_bulletin ≡ ok value
      → peers.fetch_root_document ≡ ok document
      → root_verifying_key document ≡ ok root_key
      → resolve_cdn_service node.cdn_endpoint value ≡ ok cdn
      → peers.fetch_manifest cdn.manifest_url ≡ ok manifest
      → sync_from_cdn node world peers s ≡ (ok v, s')
      → (verify_bulletin_state peers.bulletin_of_value value root_key ≡ ok tt)
        × (done : Progress) × (store_progress node world done cdn.manifest_url s ≡ (ok v, s'))
        × All (IsVerified node value root_key) done.indexed
        × (length done.indexed + length done.rejected ≡ length manifest.packages)
  sync_from_cdn-stored peers s s' v value document root_key cdn manifest b d k u m h =
      let (checked, done, collected, stored) =
        sync_from_cdn-collected peers s s' v value document root_key cdn manifest b d k u m h in
      let (good, number) =
        collect-IsVerified node value root_key (λ did. peers.fetch_package (package_url cdn did))
          manifest.packages (record { indexed = []; rejected = [] }) done tt collected in
      (checked, done, stored, good, omega (arith, number))
