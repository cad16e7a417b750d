-- ===== src/Discovery/Complete.antt =====
-- The index that `sync_from_cdn` of services/discovery-node/src/main.rs writes, as a list made of
-- the packages that were fetched.
use mathlib.Core.List.{◌++◌}
use open_agenet.Base.{
  String, ◌≡◌, refl, sym, ap, ◌∙◌, true, Bool, Option, none, some, List, [], ◌∷◌, arith, inl, inr,
  ok, retain, append_assoc, append-nil, push, false,
}
use open_agenet.Core.{DidDocument}
use open_agenet.Crypto.Crates.{Primitives}
use open_agenet.Discovery.Indexed.{
  Fetched-cases, sync_from_cdn-collected, store_progress-index_file,
}
use open_agenet.Discovery.Service.{
  CdnServiceInfo, package_url, resolve_cdn_service, root_verifying_key,
}
use open_agenet.Discovery.Sync.{
  rejection, Store, Fetched, unreachable, undecodable, received, Peers, Node, World, Progress,
  reason_against, take_package, collect, sync_from_cdn,
}
use open_agenet.Json.{Value}
use open_agenet.Package.{VerifiedPackage, ManifestEntry, Manifest}
use open_agenet.Storage.{holds}

abbrev pub with_received : Fetched → List VerifiedPackage → List VerifiedPackage
with_received unreachable packages = packages
with_received undecodable packages = packages
with_received (received pkg) packages = pkg ∷ packages

-- The packages that come for the entries of a manifest, in their order.
abbrev pub packages_for : (String → Fetched) → List ManifestEntry → List VerifiedPackage
packages_for fetch [] = []
packages_for fetch (entry ∷ rest) = with_received (fetch entry.did) (packages_for fetch rest)

abbrev pub is_missing : Option String → Bool
is_missing none = true
is_missing (some reason) = false

module _ ⦃p : Primitives⦄ (node : Node) (value : Value) (root_key : p.VerifyingKey) where
  abbrev pub is_unopposed : VerifiedPackage → Bool
  is_unopposed pkg = is_missing (reason_against node value root_key pkg)

  take_package-indexed :
      (pkg : VerifiedPackage) (reason : Option String) (done : Progress)
      (rest : List VerifiedPackage)
      → reason_against node value root_key pkg ≡ reason
      → (take_package node value root_key pkg reason done).indexed ++ retain is_unopposed rest
        ≡ done.indexed ++ retain is_unopposed (pkg ∷ rest)
  take_package-indexed pkg none done rest e =
      rw e (append_assoc done.indexed (pkg ∷ []) (retain is_unopposed rest))
  take_package-indexed pkg (some reason) done rest e = rw e refl

  collect-indexed :
      (fetch : String → Fetched) (entries : List ManifestEntry) (done end : Progress)
      → collect node value root_key fetch entries done ≡ ok end
      → end.indexed ≡ done.indexed ++ retain is_unopposed (packages_for fetch entries)
  unfolding collect
  collect-indexed fetch [] done end e =
      let same : end ≡ done = ground (arith, e) in
      ap (λ x. x.indexed) same ∙ sym (append-nil done.indexed)
  collect-indexed fetch (entry ∷ rest) done end e = elim (Fetched-cases (fetch entry.did)) [
    | inl f ↦ absurd (ground (arith, e, f))
    | inr (inl f) ↦
        let skipped = record done {
          rejected = push done.rejected (rejection entry.did "package_decode_failed");
        } in
        let step : packages_for fetch (entry ∷ rest) ≡ packages_for fetch rest =
          ap (λ x. with_received x (packages_for fetch rest)) f in
        collect-indexed fetch rest skipped end (ground (arith, e, f))
        ∙ ap (λ ps. done.indexed ++ retain is_unopposed ps) (sym step)
    | inr (inr (pkg, f)) ↦
        let reason = reason_against node value root_key pkg in
        let step : packages_for fetch (entry ∷ rest) ≡ pkg ∷ packages_for fetch rest =
          ap (λ x. with_received x (packages_for fetch rest)) f in
        collect-indexed fetch rest (take_package node value root_key pkg reason done) end
          (ground (arith, e, f))
        ∙ take_package-indexed pkg reason done (packages_for fetch rest) refl
        ∙ ap (λ ps. done.indexed ++ retain is_unopposed ps) (sym step)
  ]

module _ ⦃p : Primitives⦄ (node : Node) (world : World) where
  -- Let a discovery node get a bulletin, the root's document with a key, and a manifest from the
  -- content service that it finds. If its sync ends well, the index holds exactly the packages that
  -- came for the entries of the manifest and against which there is no reason, in the order of the
  -- entries.
  pub sync_from_cdn_lem :
      (peers : Peers) (s s' : Store) (v value : Value) (document : DidDocument)
      (root_key : p.VerifyingKey) (cdn : CdnServiceInfo) (manifest : Manifest)
      → peers.fetch_bulletin ≡ ok value
      → peers.fetch_root_document ≡ ok document
      → root_verifying_key document ≡ ok root_key
      → resolve_cdn_service node.cdn_endpoint value ≡ ok cdn
      → peers.fetch_manifest cdn.manifest_url ≡ ok manifest
      → sync_from_cdn node world peers s ≡ (ok v, s')
      → s'.index_file
        ≡ some (
            holds (
              retain (is_unopposed node value root_key) (
                packages_for (λ did. peers.fetch_package (package_url cdn did)) manifest.packages)))
  sync_from_cdn_lem peers s s' v value document root_key cdn manifest b d k u m h =
      let (_, done, collected, stored) =
        sync_from_cdn-collected node world peers s s' v value document root_key cdn manifest b d k u
          m h in
      store_progress-index_file node world done cdn.manifest_url s s' v stored
      ∙ ap (λ ps. some (holds ps))
          (collect-indexed node value root_key _ manifest.packages _ done collected)
