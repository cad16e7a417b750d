-- ===== src/Network/Indexing.antt =====
-- From `verify_and_publish` of services/root-node/src/main.rs to the index that `sync_from_cdn` of
-- services/discovery-node/src/main.rs writes.
use open_agenet.Base.{
  String, ◌≡◌, refl, sym, ap, ◌∙◌, subst, true, none, some, List, [], ◌∷◌, arith, inl, inr, ok,
  retain, Some, here, there, Bool, Bool-cases, if◌then◌else◌,
}
use open_agenet.Base.Maps.{lookup}
use open_agenet.Bulletin.{Bulletin, bulletin_value}
use open_agenet.Core.{DidDocument}
use open_agenet.Crypto.Crates.{Primitives, SigningLaws}
use open_agenet.Discovery.{authorized_domains_match, discovery_authorized_domains}
use open_agenet.Discovery.Complete.{
  with_received, packages_for, is_missing, is_unopposed, sync_from_cdn_lem,
}
use open_agenet.Discovery.Service.{
  CdnServiceInfo, package_url, resolve_cdn_service, root_verifying_key,
}
use open_agenet.Discovery.Sync
use open_agenet.Discovery.Sync.{
  Fetched, unreachable, undecodable, received, Peers, reason_against, sync_from_cdn,
}
use open_agenet.Json.{Time, Value}
use open_agenet.Network.Publication.{Accepted, verify_and_publish-Accepted}
use open_agenet.Package.{VerifiedPackage, ManifestEntry, Manifest}
use open_agenet.Protocol.{VerifyAndPublishRequest}
use open_agenet.Root
use open_agenet.Root.{VerifyResponse}
use open_agenet.Root.Files.{read_bulletin}
use open_agenet.Root.Publish.{verify_and_publish}
use open_agenet.Root.Publish.Packages.{verified_path}
use open_agenet.Storage.{holds, read_file}

-- The package stands among the others.
abbrev pub Has : VerifiedPackage → List VerifiedPackage → Type 0
Has pkg packages = Some (λ x. x ≡ pkg) packages

Has-with_received :
    (f : Fetched) (pkg : VerifiedPackage) (packages : List VerifiedPackage)
    → Has pkg packages
    → Has pkg (with_received f packages)
Has-with_received unreachable pkg packages h = h
Has-with_received undecodable pkg packages h = h
Has-with_received (received q) pkg packages h = there h

Has-packages_for :
    (fetch : String → Fetched) (pkg : VerifiedPackage) (entries : List ManifestEntry)
    → Some (λ entry. fetch entry.did ≡ received pkg) entries
    → Has pkg (packages_for fetch entries)
Has-packages_for fetch pkg [] h = elim h [ ]
Has-packages_for fetch pkg (entry ∷ rest) (here e) =
    subst (λ f. Has pkg (with_received f (packages_for fetch rest))) (sym e) (here refl)
Has-packages_for fetch pkg (entry ∷ rest) (there more) =
    Has-with_received (fetch entry.did) pkg (packages_for fetch rest)
      (Has-packages_for fetch pkg rest more)

Has-retain :
    (test : VerifiedPackage → Bool) (pkg : VerifiedPackage) (packages : List VerifiedPackage)
    → test pkg ≡ true
    → Has pkg packages
    → Has pkg (retain test packages)
Has-retain test pkg [] good h = elim h [ ]
Has-retain test pkg (q ∷ rest) good (here e) =
    let passes : test q ≡ true = ap test e ∙ good in rw passes (here e)
Has-retain test pkg (q ∷ rest) good (there more) = elim (Bool-cases (test q)) [
  | inl e ↦ rw e (there (Has-retain test pkg rest good more))
  | inr e ↦ rw e (Has-retain test pkg rest good more)
]

module _ ⦃p : Primitives⦄ where
  Accepted-is_unopposed :
      (root : Root.Node) (node : Sync.Node) (opened : Time) (r : VerifyAndPublishRequest)
      (rs : Root.Store) (b : Bulletin) (pkg : VerifiedPackage)
      → Accepted root node opened r rs
      → read_bulletin root opened rs ≡ ok b
      → read_file (lookup (verified_path r.agent_did) rs.packages) ≡ ok pkg
      → authorized_domains_match node.tree pkg
          (discovery_authorized_domains (bulletin_value b) node.did)
        ≡ true
      → is_unopposed node (bulletin_value b) (p.verifying_key root.signing_key) pkg ≡ true
  Accepted-is_unopposed root node opened r rs b pkg accepted read kept within =
      let same_bulletin : accepted.bulletin ≡ b = ground (arith, accepted.read, read) in
      let same_package : accepted.pkg ≡ pkg = ground (arith, accepted.kept, kept) in
      let about : reason_against node (bulletin_value b) (p.verifying_key root.signing_key) pkg ≡ (
          if authorized_domains_match node.tree pkg
            (discovery_authorized_domains (bulletin_value b) node.did)
          then none
          else some "unauthorized_domains") =
        subst
          (λ x. reason_against node (bulletin_value x) (p.verifying_key root.signing_key) pkg ≡ (
            if authorized_domains_match node.tree pkg
              (discovery_authorized_domains (bulletin_value x) node.did)
            then none
            else some "unauthorized_domains"))
          same_bulletin
          (subst
            (λ q.
              reason_against node (bulletin_value accepted.bulletin)
                (p.verifying_key root.signing_key) q
              ≡ (if authorized_domains_match node.tree q
                    (discovery_authorized_domains (bulletin_value accepted.bulletin) node.did)
                  then none
                  else some "unauthorized_domains"))
            same_package accepted.unopposed) in
      ap is_missing (about ∙ ap (λ t. if t then none else some "unauthorized_domains") within)

  -- If the key's crate keeps `SigningLaws`: let the root answer a request with a result, and let a
  -- discovery node then get the root's bulletin and key, a manifest with an entry for which the
  -- content service sends the package that the root keeps of the agent, and let the package be in
  -- the domains of the node. If its sync ends well, the package is in its index.
  pub verify_and_publish-sync_from_cdn :
      SigningLaws p
      → (root : Root.Node) (root_world : Root.World) (r : VerifyAndPublishRequest)
        (rs rs' : Root.Store) (v : VerifyResponse) (opened : Time) (b : Bulletin)
        (pkg : VerifiedPackage) (node : Sync.Node) (world : Sync.World) (peers : Peers)
        (s s' : Sync.Store) (answer : Value) (document : DidDocument) (cdn : CdnServiceInfo)
        (manifest : Manifest)
      → verify_and_publish root root_world r rs ≡ (ok v, rs')
      → read_bulletin root opened rs' ≡ ok b
      → read_file (lookup (verified_path r.agent_did) rs'.packages) ≡ ok pkg
      → peers.fetch_bulletin ≡ ok (bulletin_value b)
      → peers.fetch_root_document ≡ ok document
      → root_verifying_key document ≡ ok (p.verifying_key root.signing_key)
      → resolve_cdn_service node.cdn_endpoint (bulletin_value b) ≡ ok cdn
      → peers.fetch_manifest cdn.manifest_url ≡ ok manifest
      → Some
          (λ entry. peers.fetch_package (package_url cdn entry.did) ≡ received pkg)
          manifest.packages
      → authorized_domains_match node.tree pkg
          (discovery_authorized_domains (bulletin_value b) node.did)
        ≡ true
      → sync_from_cdn node world peers s ≡ (ok answer, s')
      → (packages : List VerifiedPackage) × (s'.index_file ≡ some (holds packages))
        × Has pkg packages
  verify_and_publish-sync_from_cdn laws root root_world r rs rs' v opened b pkg node world peers s
        s' answer document cdn manifest h read kept fetched d k u m sent within synced =
      let accepted = verify_and_publish-Accepted laws root root_world node opened r rs rs' v h in
      let fetch : String → Fetched = λ did. peers.fetch_package (package_url cdn did) in
      let key = p.verifying_key root.signing_key in
      (
        retain (is_unopposed node (bulletin_value b) key) (packages_for fetch manifest.packages),
        sync_from_cdn_lem node world peers s s' answer (bulletin_value b) document key cdn manifest
            fetched d k u m synced,
        Has-retain (is_unopposed node (bulletin_value b) key) pkg
            (packages_for fetch manifest.packages)
            (Accepted-is_unopposed root node opened r rs' b pkg accepted read kept within)
            (Has-packages_for fetch pkg manifest.packages sent),
      )
