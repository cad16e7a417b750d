-- ===== src/Discovery/Unreachable.antt =====
-- What `sync_from_cdn` of services/discovery-node/src/main.rs does when a package cannot be fetched.
use Prim.Native.String.{◌++◌}
use open_agenet.Base.{
  String, Bool, ◌≡◌, true, false, List, [], ◌∷◌, arith, inl, inr, any, push, ok, err, Result-cases,
}
use open_agenet.Crypto.Crates.{Primitives}
use open_agenet.Discovery.Indexed.{Fetched-cases}
use open_agenet.Discovery.Sync.{
  rejection, Store, Fetched, unreachable, undecodable, received, Peers, Node, World, Progress,
  verify_bulletin_state, reason_against, take_package, collect, sync_from_cdn,
}
use open_agenet.Discovery.Service.{
  Failure, message, CdnServiceInfo, package_url, resolve_cdn_service, root_verifying_key,
}
use open_agenet.Json.{Value}
use open_agenet.Package.{ManifestEntry, Manifest}

abbrev is_unreachable : Fetched → Bool
is_unreachable unreachable = true
is_unreachable undecodable = false
is_unreachable (received pkg) = false

module _ ⦃p : Primitives⦄ (node : Node) where
  collect-unreachable :
      (value : Value) (root_key : p.VerifyingKey) (fetch : String → Fetched)
      (entries : List ManifestEntry) (done : Progress)
      → any (λ entry. is_unreachable (fetch entry.did)) entries ≡ true
      → (e : Failure) × (collect node value root_key fetch entries done ≡ err e)
  unfolding collect
  collect-unreachable value root_key fetch [] done h = absurd (ground arith)
  collect-unreachable value root_key fetch (entry ∷ rest) done h =
      elim (Fetched-cases (fetch entry.did)) [
        | inl f ↦ (message ("fetch_cdn_package_failed: " ++ entry.did), ground (arith, f))
        | inr (inl f) ↦
            let skipped = record done {
              rejected = push done.rejected (rejection entry.did "package_decode_failed");
            } in
            let skip : is_unreachable (fetch entry.did) ≡ false = ground (arith, f) in
            let later =
              collect-unreachable value root_key fetch rest skipped (ground (arith, h, skip)) in
            (later.0, ground (arith, f, later.1))
        | inr (inr (pkg, f)) ↦
            let later =
              collect-unreachable value root_key fetch rest
                (take_package node value root_key pkg (reason_against node value root_key pkg) done)
                (ground (arith, h, f)) in
            (later.0, ground (arith, f, later.1))
      ]

  -- If a package that the manifest lists cannot be fetched, the sync fails, whatever else is
  -- answered, and it leaves the index, the history and the rows as they were.
  pub sync_from_cdn-unreachable :
      (world : World) (peers : Peers) (s : Store) (value : Value) (cdn : CdnServiceInfo)
      (manifest : Manifest)
      → peers.fetch_bulletin ≡ ok value
      → resolve_cdn_service node.cdn_endpoint value ≡ ok cdn
      → peers.fetch_manifest cdn.manifest_url ≡ ok manifest
      → any
          (λ entry. is_unreachable (peers.fetch_package (package_url cdn entry.did)))
          manifest.packages
        ≡ true
      → (e : Failure) × (sync_from_cdn node world peers s ≡ (err e, s))
  unfolding sync_from_cdn
  sync_from_cdn-unreachable world peers s value cdn manifest b u m h =
      elim (Result-cases peers.fetch_root_document) [
        | inr (e, d) ↦ (e, ground (arith, b, d))
        | inl (document, d) ↦ elim (Result-cases (root_verifying_key document)) [
          | inr (e, k) ↦ (e, ground (arith, b, d, k))
          | inl (root_key, k) ↦
              elim (Result-cases (verify_bulletin_state peers.bulletin_of_value value root_key)) [
                | inr (e, c) ↦ (e, ground (arith, b, d, k, c))
                | inl (checked, c) ↦
                    let (e, failed) =
                      collect-unreachable value root_key
                        (λ did. peers.fetch_package (package_url cdn did)) manifest.packages
                        (record { indexed = []; rejected = [] }) h in
                    (e, ground (arith, b, d, k, c, u, m, failed))
              ]
        ]
      ]
